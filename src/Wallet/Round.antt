-- ===== src/Wallet/Round.antt =====
-- One coin's part in a payment: the coin moves an amount, and both lists follow it.
use systems_programming.Base.{
  ℕ, ◌+◌, ◌≤◌, ◌<◌, ◌≡◌, inl, inr, List, ◌∷◌, arith, ◌==◌, if◌then◌else◌, Bool-cases, length, set,
  length-set, get_or_out,
}
use native.Mathlib.Decide.{dec_lt}
use systems_programming.Base.Size.{size_mod, sub_size}
use systems_programming.Base.CString.{CString}
use systems_programming.BitCoin.{BitCoin}
use systems_programming.BitCoin.Owned.{IsCoin}
use systems_programming.BitCoin.Parts.{IsTransfer, IsTransfer-none}
use systems_programming.Wallet.{BcEntry, coin_at, no_coin, add_to_bc_list}
use systems_programming.Wallet.Held.{
  held, total, InRange, Agrees, AreCoins, coin_at-set-cases, set-AreCoins,
}
use systems_programming.Wallet.Add.{held-add}

pub coin_at-IsCoin :
    (coins : List BitCoin) → AreCoins coins → (d : ℕ) → IsCoin (coin_at coins d).root
coin_at-IsCoin coins a d = elim (dec_lt d (length coins)) [
  | yes h ↦ a.balanced d h
  | no h ↦
      rw (get_or_out coins d no_coin (omega arith)) (record { balanced = tt; small = omega arith })
]

-- `k` of the coin at `c` goes from the sender to the receiver; the other coins stay.
pub record Moved (sender receiver : CString) (c k : ℕ) (coins coins' : List BitCoin) : Type 0 where
  pub same_length : length coins' ≡ length coins
  pub are_coins : AreCoins coins'
  pub roots :
      (d : ℕ)
      → IsTransfer sender receiver
          (if c == d then k else 0)
          (coin_at coins d).root
          (coin_at coins' d).root

module _ (sender receiver : CString) (c k : ℕ) (coins : List BitCoin) (a : AreCoins coins)
    (h : c < length coins) where
  pub set-Moved :
      (bc : BitCoin)
      → bc.id ≡ (coin_at coins c).id
      → IsTransfer sender receiver k (coin_at coins c).root bc.root
      → Moved sender receiver c k coins (set coins c bc)
  set-Moved bc same t = record {
    same_length = length-set coins c bc;
    are_coins = set-AreCoins coins c bc h a (t.exists (a.exists c h)) t.coin same;
    roots = λ d. elim (Bool-cases (c == d)) [
      | inl e ↦ let c≡d : c ≡ d = ground arith in rw (coin_at-set-cases coins c bc h d, e, ← c≡d) t
      | inr e ↦
          rw (coin_at-set-cases coins c bc h d, e)
            (IsTransfer-none sender receiver _ (coin_at-IsCoin coins a d))
    ];
  }

module _ (sender receiver : CString) (c k : ℕ) (coins coins' : List BitCoin)
    (m : Moved sender receiver c k coins coins') where
  -- The sender's list after its entry for the coin is lowered.
  pub Agrees-lowered :
      (e : BcEntry) (es : List BcEntry)
      → e.this_bc ≡ c
      → k ≤ e.amount_of
      → e.amount_of < size_mod
      → Agrees coins sender (e ∷ es)
      → Agrees coins' sender (record e { amount_of = sub_size e.amount_of k } ∷ es)
  unfolding held
  Agrees-lowered e es q le small agree d = ground (arith, agree d, (m.roots d).paid_out)

  -- The same where the whole entry is used up and removed.
  pub Agrees-removed :
      (e : BcEntry) (es : List BcEntry)
      → e.this_bc ≡ c
      → k ≡ e.amount_of
      → Agrees coins sender (e ∷ es)
      → Agrees coins' sender es
  unfolding held
  Agrees-removed e es q all agree d = ground (arith, agree d, (m.roots d).paid_out)

  pub Agrees-added :
      (es : List BcEntry) (ids : List BitCoin)
      → AreCoins ids
      → c < length ids
      → InRange (length ids) es
      → total es + k < size_mod
      → Agrees coins receiver es
      → Agrees coins' receiver (add_to_bc_list ids es c k)
  Agrees-added es ids a h r small agree d =
      omega (arith, agree d, (m.roots d).paid_in, held-add ids a c k h es r small d)
