-- ===== src/Wallet/Sort/Ordered.antt =====
-- `sortWallets`: the order that the search by ID needs.
use systems_programming.Base.{
  ℕ, zero, suc, ◌+◌, ◌-◌, ◌*◌, ◌<◌, ◌≡◌, ◌≢◌, refl, sym, ap, ◌∙◌, some, List, [], ◌∷◌, length,
  arith,
}
use Prim.Native.Nat.{Ordering}
use mathlib.Core.List.{Mem, Perm, Pairwise, mem-cons_of_mem, mem-cons_self}
use mathlib.Core.List.Perm
use mathlib.Core.List.Pairwise
use systems_programming.Base.Size.{size_mod}
use systems_programming.Base.CString.{strcmp, StrLt, strcmp_eq}
use systems_programming.Wallet.{Wallet}
use systems_programming.Wallet.Search.{wallet_at, IsOrdered}
use systems_programming.Wallet.Sort.{merge_sort, sort_wallets}
use systems_programming.Wallet.Sort.Segment.{InOrder, IsSorted, segment, segment-all}
use systems_programming.Wallet.Sort.Sorted.{merge_sort-IsSortOf}

-- In an array without two equal IDs, order is strict.
strict : (a b : Wallet) → InOrder a b → a.wallet_id ≢ b.wallet_id → StrLt a.wallet_id b.wallet_id
strict a b o ne = strict_by (strcmp a.wallet_id b.wallet_id) refl
  where
    strict_by : (c : Ordering) → strcmp a.wallet_id b.wallet_id ≡ c → StrLt a.wallet_id b.wallet_id
    strict_by Ordering.lt e = e
    strict_by Ordering.eq e = absurd (ne (strcmp_eq _ _ e))
    strict_by Ordering.gt e = absurd (o e)

pub wallet_at-Mem : (ws : List Wallet) (i : ℕ) → i < length ws → Mem (wallet_at ws i) ws
wallet_at-Mem [] i h = absurd (omega arith)
wallet_at-Mem (w ∷ ws) zero h = mem-cons_self
wallet_at-Mem (w ∷ ws) (suc i) h = mem-cons_of_mem _ (wallet_at-Mem ws i (omega arith))

Pairwise-IsOrdered :
    (ws : List Wallet) → Pairwise (λ a b. StrLt a.wallet_id b.wallet_id) ws → IsOrdered ws
Pairwise-IsOrdered [] p i j l h = absurd (omega arith)
Pairwise-IsOrdered (w ∷ ws) (Pairwise.cons b p) i zero l h = absurd (omega arith)
Pairwise-IsOrdered (w ∷ ws) (Pairwise.cons b p) zero (suc j) l h =
    b (wallet_at ws j) (wallet_at-Mem ws j (omega arith))
Pairwise-IsOrdered (w ∷ ws) (Pairwise.cons b p) (suc i) (suc j) l h =
    Pairwise-IsOrdered ws p i j (omega arith) (omega arith)

-- No two wallets of the array have the same ID.
abbrev pub HasNoTwins : List Wallet → Type 0
HasNoTwins = Pairwise (λ a b. a.wallet_id ≢ b.wallet_id)

sort_wallets_runs :
    (scnd : List Wallet) (w : Wallet) (ws out scnd' : List Wallet)
    → merge_sort (length (w ∷ ws) + 1) (w ∷ ws) 0 (length (w ∷ ws) - 1) scnd ≡ some (out, scnd')
    → sort_wallets scnd (w ∷ ws) ≡ some out
unfolding sort_wallets
sort_wallets_runs scnd w ws out scnd' run = rw (run, sort_wallets) refl

-- An array of wallets with different IDs that is not empty, has fewer than 2^63 wallets, and has a
-- second array of its length, is sorted: the sort
-- ends, the result holds the same wallets, and it is in the order that the search by ID needs.
pub sort_wallets-IsOrdered :
    (ws scnd : List Wallet)
    → ws ≢ []
    → length scnd ≡ length ws
    → 2 * length ws < size_mod
    → HasNoTwins ws
    → (out : List Wallet) × (sort_wallets scnd ws ≡ some out) × Perm out ws × IsOrdered out
unfolding sort_wallets
sort_wallets-IsOrdered [] scnd ne same small twins = absurd (ne refl)
sort_wallets-IsOrdered (w ∷ ws) scnd ne same small twins =
    let n = length (w ∷ ws) in
    let (out, scnd', run, _, s) =
      merge_sort-IsSortOf (n + 1) n (w ∷ ws) scnd 0 (n - 1) (omega arith) (omega arith)
        (omega arith) same small in
    let whole : segment out 0 n ≡ out = ap (segment out 0) (sym s.same_length) ∙ segment-all out in
    let perm : Perm out (w ∷ ws) = rw (← whole, ← segment-all (w ∷ ws)) s.perm in
    let sorted : IsSorted out = rw (← whole) s.sorted in
    (
      out,
      sort_wallets_runs scnd w ws out scnd' run,
      perm,
      Pairwise-IsOrdered out (
          Pairwise.imp₂ strict sorted
            (Perm.pairwise (λ a b. hlevel) (λ a b h e. h (sym e)) (Perm.symm perm) twins)),
    )
