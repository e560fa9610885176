-- ===== src/Wallet/Init/Ids.antt =====
-- Coins and wallets that are new, each by its ID.
use systems_programming.Base.{
  ◌≤◌, ℕ, zero, suc, ◌<◌, ◌≡◌, ◌≢◌, refl, false, List, [], ◌∷◌, ◌++◌, ◌==◌, ◌||◌, if◌then◌else◌,
  length, arith,
}
use systems_programming.Base.CString.{CString, str_eq}
use systems_programming.BitCoin.{BitCoin}
use systems_programming.Wallet.{BcEntry, Wallet, coin_at}
use systems_programming.Wallet.Held.{InRange}
use systems_programming.Wallet.Search.{wallet_at}
use systems_programming.Wallet.Init.{
  BalanceLine, check_if_wallet_exists, has_bc, check_if_bc_exists,
}

abbrev pub IsNotIn : ℕ → List ℕ → Type 0
IsNotIn x [] = Unit
IsNotIn x (b ∷ bs) = (x ≢ b) × IsNotIn x bs

-- No ID comes twice.
abbrev pub HasNoRepeats : List ℕ → Type 0
HasNoRepeats [] = Unit
HasNoRepeats (b ∷ bs) = IsNotIn b bs × HasNoRepeats bs

-- The IDs of the coins of all lines, in the order of the file.
abbrev pub ids_of : List BalanceLine → List ℕ
ids_of [] = []
ids_of (l ∷ ls) = l.bc_ids ++ ids_of ls

abbrev pub IsNotNamed : CString → List BalanceLine → Type 0
IsNotNamed n [] = Unit
IsNotNamed n (l ∷ ls) = (str_eq n l.wallet_id ≡ false) × IsNotNamed n ls

-- Every name fits into the buffer.
abbrev pub HasShortNames : List BalanceLine → Type 0
HasShortNames [] = Unit
HasShortNames (l ∷ ls) = (length l.wallet_id ≤ 63) × HasShortNames ls

-- No wallet comes twice.
abbrev pub HasNoNamesakes : List BalanceLine → Type 0
HasNoNamesakes [] = Unit
HasNoNamesakes (l ∷ ls) = IsNotNamed l.wallet_id ls × HasNoNamesakes ls

-- None of the coins has one of the IDs.
abbrev pub IsApart : List BitCoin → List ℕ → Type 0
IsApart coins ids = (d : ℕ) → d < length coins → IsNotIn (coin_at coins d).id ids

-- None of the lines has the name of a wallet.
abbrev pub AreNew : List Wallet → List BalanceLine → Type 0
AreNew ws [] = Unit
AreNew ws (l ∷ ls) = (check_if_wallet_exists ws l.wallet_id ≡ false) × AreNew ws ls

-- The coins with a new one at the end.
pub coin_at-append :
    (coins : List BitCoin) (b : BitCoin) (d : ℕ)
    → coin_at (coins ++ b ∷ []) d ≡ (if d == length coins then b else coin_at coins d)
coin_at-append [] b zero = refl
coin_at-append [] b (suc d) = ground arith
coin_at-append (c ∷ cs) b zero = ground arith
coin_at-append (c ∷ cs) b (suc d) = rw (coin_at-append cs b d) (ground arith)

-- A coin whose ID is new is in no wallet whose entries point to the coins before.
has_bc-new :
    (coins : List BitCoin) (es : List BcEntry) (n id : ℕ)
    → InRange n es
    → ((d : ℕ) → d < n → (coin_at coins d).id ≢ id)
    → has_bc coins es id ≡ false
unfolding has_bc
has_bc-new coins [] n id r h = refl
has_bc-new coins (e ∷ es) n id r h =
    let ne = h e.this_bc r.0 in ground (arith, has_bc-new coins es n id)

pub check_if_bc_exists-new :
    (coins : List BitCoin) (ws : List Wallet) (n id : ℕ)
    → ((i : ℕ) → i < length ws → InRange n (wallet_at ws i).bc_list)
    → ((d : ℕ) → d < n → (coin_at coins d).id ≢ id)
    → check_if_bc_exists coins ws id ≡ false
unfolding check_if_bc_exists
check_if_bc_exists-new coins [] n id r h = refl
check_if_bc_exists-new coins (w ∷ ws) n id r h =
    rw (has_bc-new coins w.bc_list n id (r 0 (omega arith)) h)
      (check_if_bc_exists-new coins ws n id (λ i k. r (suc i) (omega arith)) h)

pub exists-append :
    (ws : List Wallet) (w : Wallet) (v : CString)
    → check_if_wallet_exists (ws ++ w ∷ []) v
      ≡ (check_if_wallet_exists ws v || str_eq w.wallet_id v)
unfolding check_if_wallet_exists
exists-append [] w v = ground arith
exists-append (u ∷ ws) w v = ground (arith, exists-append ws w v)

pub AreNew-append :
    (ws : List Wallet) (w : Wallet) (ls : List BalanceLine)
    → AreNew ws ls
    → IsNotNamed w.wallet_id ls
    → AreNew (ws ++ w ∷ []) ls
AreNew-append ws w [] a n = record {}
AreNew-append ws w (l ∷ ls) a n =
    (rw (exists-append ws w l.wallet_id, a.0, n.0) refl, AreNew-append ws w ls a.1 n.1)
