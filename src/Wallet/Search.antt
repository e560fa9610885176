-- ===== src/Wallet/Search.antt =====
-- `findWallet` of SysPro_Project1/src/wallet.c: binary search in the array of wallets by ID.
use systems_programming.Base.{
  ℕ, zero, suc, ◌+◌, ◌-◌, ◌/◌, ◌^◌, ◌≤◌, ◌<◌, ◌≡◌, ◌≢◌, refl, ap, Option, none, some, List, [],
  arith, ltb, le→ltb, lt→ltb, if◌then◌else◌, length, get_or,
}
use Prim.Native.Nat.{Ordering}
use native.Mathlib.Decide.{dec_lt}
use systems_programming.Base.CString.{CString, strcmp, StrLt, strcmp_refl, strcmp_eq, StrLt-flip}
use systems_programming.Wallet.{Wallet}

abbrev pub no_wallet : Wallet
no_wallet = record { wallet_id = []; amount = 0; bc_list = [] }

abbrev pub wallet_at : List Wallet → ℕ → Wallet
wallet_at ws i = get_or ws i no_wallet

module _ (ws : List Wallet) (key : CString) where
  -- `high` is `rightBound + 1`, which is never negative. `none` outside means that the fuel is used
  -- up, or that the sum of the bounds is no `int`.
  unfoldable pub find_loop : ℕ → (left high : ℕ) → Option (Option Wallet)
  find_loop zero left high = none
  find_loop (suc fuel) left high =
      let middle = (left + (high - 1)) / 2 in
      let lower = find_loop fuel left middle in
      let upper = find_loop fuel (middle + 1) high in
      if ltb left high
      then (if ltb (left + (high - 1)) (2 ^ 31)
          then elim (strcmp (wallet_at ws middle).wallet_id key) [
            | Ordering.eq ↦ some (some (wallet_at ws middle))
            | Ordering.lt ↦ upper
            | Ordering.gt ↦ lower
          ]
          else none)
      else some none

-- `numOfWallets - 1` is taken for an `int`: what a larger number becomes is left open (`none`).
unfoldable pub find_wallet : List Wallet → CString → Option (Option Wallet)
unfolding find_loop
find_wallet ws key =
    if ltb (2 ^ 31) (length ws) then none else find_loop ws key (length ws + 1) 0 (length ws)

-- The IDs grow along the array.
abbrev pub IsOrdered : List Wallet → Type 0
IsOrdered ws =
    (i j : ℕ) → i < j → j < length ws → StrLt (wallet_at ws i).wallet_id (wallet_at ws j).wallet_id

module _ (ws : List Wallet) (key : CString) (ordered : IsOrdered ws)
    (few : length ws ≤ 2 ^ 30) where
  find_loop-present :
      (fuel left high i : ℕ)
      → high - left < fuel
      → high ≤ length ws
      → left ≤ i
      → i < high
      → (wallet_at ws i).wallet_id ≡ key
      → find_loop ws key fuel left high ≡ some (some (wallet_at ws i))
  unfolding find_loop
  find_loop-present zero left high i f h l r e = absurd (omega arith)
  find_loop-present (suc fuel) left high i f h l r e =
      let m = (left + (high - 1)) / 2 in
      elim (dec_lt i m) [
        | yes below ↦
            let before : StrLt key (wallet_at ws m).wallet_id =
              rw (← e) (ordered i m below (omega arith)) in
            rw
              (
                lt→ltb left high (omega arith),
                lt→ltb (left + (high - 1)) (2 ^ 31) (omega arith),
                StrLt-flip _ _ before,
              )
              (find_loop-present fuel left m i (omega arith) (omega arith) l below e)
        | no not_below ↦ elim (dec_lt m i) [
          | yes above ↦
              let behind : StrLt (wallet_at ws m).wallet_id key =
                rw (← e) (ordered m i above (omega arith)) in
              rw
                (
                  lt→ltb left high (omega arith),
                  lt→ltb (left + (high - 1)) (2 ^ 31) (omega arith),
                  behind,
                )
                (find_loop-present fuel (m + 1) high i (omega arith) h (omega arith) r e)
          | no not_above ↦
              let here : m ≡ i = omega arith in
              let hit : strcmp (wallet_at ws m).wallet_id key ≡ Ordering.eq =
                rw (here, e) (strcmp_refl key) in
              rw
                (
                  lt→ltb left high (omega arith),
                  lt→ltb (left + (high - 1)) (2 ^ 31) (omega arith),
                  hit,
                )
                (ap (λ k. some (some (wallet_at ws k))) here)
        ]
      ]

  find_loop-absent :
      (fuel left high : ℕ)
      → high - left < fuel
      → high ≤ length ws
      → ((i : ℕ) → i < length ws → (wallet_at ws i).wallet_id ≢ key)
      → find_loop ws key fuel left high ≡ some none
  unfolding find_loop
  find_loop-absent zero left high f h out = absurd (omega arith)
  find_loop-absent (suc fuel) left high f h out = elim (dec_lt left high) [
    | no done ↦ rw (le→ltb left high (omega arith))
    | yes more ↦
        let m = (left + (high - 1)) / 2 in
        rw (lt→ltb left high more, lt→ltb (left + (high - 1)) (2 ^ 31) (omega arith))
          (by_order more (strcmp (wallet_at ws m).wallet_id key) refl
            (find_loop-absent fuel left m (omega arith) (omega arith) out)
            (find_loop-absent fuel (m + 1) high (omega arith) h out))
  ]
    where
      by_order :
          left < high
          → (o : Ordering) → strcmp (wallet_at ws ((left + (high - 1)) / 2)).wallet_id key ≡ o
          → find_loop ws key fuel left ((left + (high - 1)) / 2) ≡ some none
          → find_loop ws key fuel ((left + (high - 1)) / 2 + 1) high ≡ some none
          → ◌≡◌ {A = Option (Option Wallet)}
              (elim o [
                | Ordering.eq ↦ some (some (wallet_at ws ((left + (high - 1)) / 2)))
                | Ordering.lt ↦ find_loop ws key fuel ((left + (high - 1)) / 2 + 1) high
                | Ordering.gt ↦ find_loop ws key fuel left ((left + (high - 1)) / 2)
              ])
              (some none)
      by_order more Ordering.eq e low up =
          absurd (out ((left + (high - 1)) / 2) (omega arith) (strcmp_eq _ _ e))
      by_order more Ordering.lt e low up = up
      by_order more Ordering.gt e low up = low

-- In an array of at most 2^30 wallets that is ordered by ID, the search for the ID of a wallet ends
-- with that wallet.
pub find_wallet-present :
    (ws : List Wallet) (i : ℕ)
    → IsOrdered ws
    → length ws ≤ 2 ^ 30
    → i < length ws
    → find_wallet ws (wallet_at ws i).wallet_id ≡ some (some (wallet_at ws i))
unfolding find_wallet
find_wallet-present ws i ordered few h = rw (le→ltb (2 ^ 31) (length ws) (omega arith)) (
    find_loop-present ws (wallet_at ws i).wallet_id ordered few (length ws + 1) 0 (length ws) i
      (omega arith) (omega arith) (omega arith) h refl)

-- In an array of at most 2^30 wallets that is ordered by ID, the search for an ID that no wallet has
-- ends with NULL.
pub find_wallet-absent :
    (ws : List Wallet) (key : CString)
    → IsOrdered ws
    → length ws ≤ 2 ^ 30
    → ((i : ℕ) → i < length ws → (wallet_at ws i).wallet_id ≢ key)
    → find_wallet ws key ≡ some none
unfolding find_wallet
find_wallet-absent ws key ordered few out = rw (le→ltb (2 ^ 31) (length ws) (omega arith)) (
    find_loop-absent ws key ordered few (length ws + 1) 0 (length ws) (omega arith) (omega arith)
      out)
