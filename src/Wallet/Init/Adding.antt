-- ===== src/Wallet/Init/Adding.antt =====
-- The wallets and the list of the one that is being read.
use systems_programming.Base.{
  ℕ, zero, suc, ◌+◌, ◌≤◌, ◌<◌, ◌≡◌, refl, sym, false, List, [], ◌∷◌, ◌++◌, ◌==◌, if◌then◌else◌,
  length, arith, inl, inr, Bool-cases,
}
use systems_programming.Base.CString.{CString, str_eq, str_eq_iff}
use systems_programming.BitCoin.{BitCoin}
use systems_programming.BitCoin.Owned.{owned}
use systems_programming.Wallet.{BcEntry, Wallet, entry, coin_at}
use systems_programming.Wallet.Held.{held, total, InRange, Agrees, AreCoins}
use systems_programming.Wallet.Conserve.{IsWallet}
use systems_programming.Wallet.Search.{wallet_at}
use systems_programming.Wallet.Init.{check_if_wallet_exists}

-- The wallets in front of this line, and what the wallet of this line has so far.
pub record IsAdding (ws : List Wallet) (v : CString) (es : List BcEntry) (coins : List BitCoin)
    : Type 0 where
  pub are_coins : AreCoins coins
  pub are_wallets : (i : ℕ) → i < length ws → IsWallet coins (wallet_at ws i)
  pub agrees : Agrees coins v es
  pub in_range : InRange (length coins) es
  pub strangers :
      (u : CString)
      → check_if_wallet_exists ws u ≡ false
      → str_eq v u ≡ false
      → (c : ℕ) → owned u (coin_at coins c).root ≡ 0

pub held-append :
    (es : List BcEntry) (value c d : ℕ)
    → held (es ++ entry value c ∷ []) d ≡ held es d + (if c == d then value else 0)
unfolding held
held-append [] value c d = ground arith
held-append (e ∷ es) value c d = ground (arith, held-append es value c d)

pub total-append :
    (es : List BcEntry) (value c : ℕ) → total (es ++ entry value c ∷ []) ≡ total es + value
unfolding total
total-append [] value c = omega arith
total-append (e ∷ es) value c = omega (arith, total-append es value c)

pub InRange-append :
    (es : List BcEntry) (n value c : ℕ)
    → InRange n es
    → c < n
    → InRange n (es ++ entry value c ∷ [])
InRange-append [] n value c r h = (h, record {})
InRange-append (e ∷ es) n value c r h = (r.0, InRange-append es n value c r.1 h)

pub held-out : (es : List BcEntry) (n d : ℕ) → InRange n es → n ≤ d → held es d ≡ 0
unfolding held
held-out [] n d r h = refl
held-out (e ∷ es) n d r h = ground (arith, held-out es n d r.1 h)

pub str_eq_comm : (s t : CString) → str_eq s t ≡ false → str_eq t s ≡ false
str_eq_comm s t h = elim (Bool-cases (str_eq t s)) [
  | inl e ↦ absurd (ground (arith, (str_eq_iff s t).1 (sym ((str_eq_iff t s).0 e))))
  | inr e ↦ e
]

pub exists-at :
    (ws : List Wallet) (v : CString) (i : ℕ)
    → check_if_wallet_exists ws v ≡ false
    → i < length ws
    → str_eq (wallet_at ws i).wallet_id v ≡ false
unfolding check_if_wallet_exists
exists-at [] v i h l = absurd (omega arith)
exists-at (w ∷ ws) v zero h l = ground arith
exists-at (w ∷ ws) v (suc i) h l = exists-at ws v i (ground arith) (omega arith)
