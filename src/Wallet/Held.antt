-- ===== src/Wallet/Held.antt =====
-- What a list of entries holds of each coin, and when the lists agree with the coins' trees.
use systems_programming.Base.{
  ℕ, ◌+◌, ◌≤◌, ◌<◌, ◌≡◌, ◌≢◌, List, [], ◌∷◌, arith, ◌==◌, if◌then◌else◌, length, set, length-set,
  get_or-set_self, get_or-set_ne, Bool-cases, inl, inr,
}
use systems_programming.Base.CString.{CString}
use systems_programming.BitCoin.{null, BitCoin}
use systems_programming.BitCoin.Owned.{owned, IsCoin}
use systems_programming.Wallet.{BcEntry, coin_at, no_coin}

-- What a list holds of the coin at `c`.
unfoldable pub held : List BcEntry → ℕ → ℕ
held [] c = 0
held (e ∷ es) c = (if e.this_bc == c then e.amount_of else 0) + held es c

unfoldable pub total : List BcEntry → ℕ
total [] = 0
total (e ∷ es) = e.amount_of + total es

-- Every entry points to one of `n` coins.
abbrev pub InRange : ℕ → List BcEntry → Type 0
InRange n [] = Unit
InRange n (e ∷ es) = (e.this_bc < n) × InRange n es

-- The list of a wallet holds of each coin what the wallet owns of it.
abbrev pub Agrees : List BitCoin → CString → List BcEntry → Type 0
Agrees coins w es = (c : ℕ) → held es c ≡ owned w (coin_at coins c).root

-- All coins are balanced and have different IDs.
pub record AreCoins (coins : List BitCoin) : Type 0 where
  pub exists : (c : ℕ) → c < length coins → (coin_at coins c).root ≢ null
  pub balanced : (c : ℕ) → c < length coins → IsCoin (coin_at coins c).root
  pub distinct :
      (c d : ℕ)
      → c < length coins
      → d < length coins
      → (coin_at coins c).id ≡ (coin_at coins d).id
      → c ≡ d

pub held-le-total : (es : List BcEntry) (c : ℕ) → held es c ≤ total es
unfolding held total
held-le-total [] c = omega arith
held-le-total (e ∷ es) c = ground (arith, held-le-total es c)

pub InRange-le : (es : List BcEntry) (n m : ℕ) → n ≤ m → InRange n es → InRange m es
InRange-le [] n m h r = tt
InRange-le (e ∷ es) n m h r = (omega arith, InRange-le es n m h r.1)

module _ (coins : List BitCoin) (c : ℕ) (bc : BitCoin) (h : c < length coins) where
  pub coin_at-set_self : coin_at (set coins c bc) c ≡ bc
  coin_at-set_self = get_or-set_self coins c bc no_coin h

  pub coin_at-set_ne : (d : ℕ) → c ≢ d → coin_at (set coins c bc) d ≡ coin_at coins d
  coin_at-set_ne d ne = get_or-set_ne coins bc no_coin ne

  pub coin_at-set-cases :
      (d : ℕ) → coin_at (set coins c bc) d ≡ (if c == d then bc else coin_at coins d)
  coin_at-set-cases d = ground (arith, coin_at-set_self, coin_at-set_ne d)

  pub id-set :
      bc.id ≡ (coin_at coins c).id
      → (d : ℕ) → (coin_at (set coins c bc) d).id ≡ (coin_at coins d).id
  id-set same d = rw (coin_at-set-cases d) (ground arith)

  -- A coin replaced by a balanced one of its ID.
  pub set-AreCoins :
      AreCoins coins
      → bc.root ≢ null
      → IsCoin bc.root
      → bc.id ≡ (coin_at coins c).id
      → AreCoins (set coins c bc)
  set-AreCoins a nn b same = record {
    exists = λ d r. elim (Bool-cases (c == d)) [
      | inl e ↦ rw (coin_at-set-cases d, e) nn
      | inr e ↦ rw (coin_at-set-cases d, e) (a.exists d (omega (arith, length-set coins c bc)))
    ];
    balanced = λ d r. elim (Bool-cases (c == d)) [
      | inl e ↦ rw (coin_at-set-cases d, e) b
      | inr e ↦ rw (coin_at-set-cases d, e) (a.balanced d (omega (arith, length-set coins c bc)))
    ];
    distinct = λ d f r q e.
        a.distinct d f (omega (arith, length-set coins c bc)) (omega (arith, length-set coins c bc))
          (omega (arith, id-set same d, id-set same f, e));
  }
