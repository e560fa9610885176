-- ===== src/Wallet/Sort.antt =====
-- SysPro_Project1/src/mergesort.c, and `sortWallets` of SysPro_Project1/src/wallet.c: merge sort
-- of the array of wallets by ID, with a second array to merge into.
pub mod Segment
pub mod Merge
pub mod Sorted
pub mod Ordered
use systems_programming.Base.{
  ℕ, zero, suc, ◌+◌, ◌-◌, ◌/◌, Bool, true, false, Option, none, some, List, [], ◌∷◌, ltb, leb,
  if◌then◌else◌, set, length,
}
use Prim.Native.Nat.{Ordering}
use systems_programming.Base.Size.{add_size}
use systems_programming.Base.CString.{strcmp}
use systems_programming.Wallet.{Wallet}
use systems_programming.Wallet.Search.{wallet_at}

module _ (ws : List Wallet) (middle end : ℕ) where
  -- Whether `wallets[i]` is taken next, and not `wallets[j]`.
  unfoldable pub takes_left : (i j : ℕ) → Bool
  takes_left i j =
      if ltb middle i
      then false
      else if ltb end j
      then true
      else elim (strcmp (wallet_at ws i).wallet_id (wallet_at ws j).wallet_id) [
        | Ordering.lt ↦ true
        | _ ↦ false
      ]

  -- `while (k <= end)`, by the number of rounds that are left.
  unfoldable pub merge_loop : ℕ → (i j k : ℕ) → List Wallet → List Wallet
  unfolding takes_left
  merge_loop zero i j k scnd = scnd
  merge_loop (suc n) i j k scnd = elim (takes_left i j) [
    | true ↦ merge_loop n (add_size i 1) j (add_size k 1) (set scnd k (wallet_at ws i))
    | false ↦ merge_loop n i (add_size j 1) (add_size k 1) (set scnd k (wallet_at ws j))
  ]

-- `for (k = start; k <= end; k++)`, by the number of rounds that are left.
unfoldable pub copy_back : List Wallet → ℕ → ℕ → List Wallet → List Wallet
copy_back scnd zero k ws = ws
copy_back scnd (suc n) k ws = copy_back scnd n (add_size k 1) (set ws k (wallet_at scnd k))

-- Both arrays after `merge`.
unfoldable pub merge :
    List Wallet → (start middle end : ℕ) → List Wallet → List Wallet × List Wallet
unfolding merge_loop copy_back
merge ws start middle end scnd =
    let scnd' = merge_loop ws middle end (end + 1 - start) start (add_size middle 1) start scnd in
    (copy_back scnd' (end + 1 - start) start ws, scnd')

-- `mergeSort`, on fuel.
unfoldable pub merge_sort :
    ℕ → List Wallet → (start end : ℕ) → List Wallet → Option (List Wallet × List Wallet)
unfolding merge
merge_sort zero ws start end scnd = none
merge_sort (suc fuel) ws start end scnd = elim (leb end start) [
  | true ↦ some (ws, scnd)
  | false ↦
      let middle = add_size start end / 2 in
      elim (merge_sort fuel ws start middle scnd) [
        | none ↦ none
        | some (ws1, scnd1) ↦ elim (merge_sort fuel ws1 (add_size middle 1) end scnd1) [
          | none ↦ none
          | some (ws2, scnd2) ↦ some (merge ws2 start middle end scnd2)
        ]
      ]
]

-- `sortWallets`. `scnd` is what `malloc` returns; without a wallet the last index goes round, and
-- the sort runs out of the arrays (`none`).
unfoldable pub sort_wallets : List Wallet → List Wallet → Option (List Wallet)
unfolding merge_sort
sort_wallets scnd [] = none
sort_wallets scnd (w ∷ ws) =
    elim (merge_sort (length (w ∷ ws) + 1) (w ∷ ws) 0 (length (w ∷ ws) - 1) scnd) [
      | none ↦ none
      | some (sorted, _) ↦ some sorted
    ]
