-- ===== src/Wallet/Sort/Sorted.antt =====
-- `mergeSort` as a whole: what they leave in the array.
use systems_programming.Base.{
  ℕ, zero, suc, ◌+◌, ◌-◌, ◌*◌, ◌/◌, ◌≤◌, ◌<◌, ◌≡◌, refl, sym, ap, subst, ◌∙◌, false, some, List,
  ◌++◌, leb, length, arith, Bool-cases, inl, inr,
}
use mathlib.Core.List.{Perm, Pairwise, Pairwise-singleton}
use mathlib.Core.List.Perm
use systems_programming.Base.Size.{size_mod, add_size}
use systems_programming.Wallet.{Wallet}
use systems_programming.Wallet.Search.{wallet_at}
use systems_programming.Wallet.Sort.{merge, merge_sort}
use systems_programming.Wallet.Sort.Segment.{
  IsSorted, segment, segment_same, segment-add, copy_back-same,
}
use systems_programming.Wallet.Sort.{merge_loop, copy_back}
use systems_programming.Wallet.Sort.Merge.{merge_loop-IsMerged}

-- `out` is `ws` with the `n` wallets from `start` on put in order.
pub record IsSortOf (ws out : List Wallet) (start n : ℕ) : Type 0 where
  pub same_length : length out ≡ length ws
  pub in_front : (q : ℕ) → q < start → wallet_at out q ≡ wallet_at ws q
  pub behind : (q : ℕ) → start + n ≤ q → wallet_at out q ≡ wallet_at ws q
  pub perm : Perm (segment out start n) (segment ws start n)
  pub sorted : IsSorted (segment out start n)

-- A merge of two parts that are in order.
merge-IsSortOf :
    (ws scnd : List Wallet) (start middle end m n : ℕ)
    → start + m ≡ middle + 1
    → middle + 1 + n ≡ end + 1
    → end < length ws
    → length scnd ≡ length ws
    → length ws < size_mod
    → IsSorted (segment ws start m)
    → IsSorted (segment ws (middle + 1) n)
    → (length (merge ws start middle end scnd).1 ≡ length ws)
      × IsSortOf ws (merge ws start middle end scnd).0 start (m + n)
unfolding merge
merge-IsSortOf ws scnd start middle end m n em en room same small sl sr =
    let rounds : end + 1 - start ≡ m + n = omega arith in
    let next : add_size middle 1 ≡ middle + 1 = omega arith in
    let h =
      merge_loop-IsMerged ws middle end (omega arith) (m + n) m n start (middle + 1) start scnd refl
        em en (omega arith) (omega arith) (omega arith) in
    let merged = merge_loop ws middle end (m + n) start (middle + 1) start scnd in
    let (len, front, back, mid) = copy_back-same merged (m + n) start ws (omega arith) small in
    let copied = segment_same (copy_back merged (m + n) start ws) merged start (m + n) mid in
    let parts : segment ws start m ++ segment ws (middle + 1) n ≡ segment ws start (m + n) =
      sym (segment-add ws start m n ∙ ap (λ k. segment ws start m ++ segment ws k n) em) in
    rw (rounds, next)
      (
        h.same_length ∙ same,
        record {
          same_length = len;
          in_front = front;
          behind = back;
          perm = rw (copied, ← parts) h.perm;
          sorted = rw copied (h.sorted sl sr);
        },
      )

-- The sort of the right part keeps the left one.
left_kept :
    (ws1 ws2 : List Wallet) (start m n middle : ℕ)
    → start + m ≡ middle
    → IsSortOf ws1 ws2 middle n
    → segment ws2 start m ≡ segment ws1 start m
left_kept ws1 ws2 start m n middle e s =
    segment_same ws2 ws1 start m (λ q l u. s.in_front q (omega arith))

-- Both parts in order, and then the merge.
halves :
    (ws ws1 ws2 ws3 : List Wallet) (start middle m n : ℕ)
    → start + m ≡ middle
    → IsSortOf ws ws1 start m
    → IsSortOf ws1 ws2 middle n
    → IsSortOf ws2 ws3 start (m + n)
    → IsSortOf ws ws3 start (m + n)
halves ws ws1 ws2 ws3 start middle m n e s1 s2 s3 =
    let parts = λ (a : List Wallet).
      segment-add a start m n ∙ ap (λ k. segment a start m ++ segment a k n) e in
    let front = left_kept ws1 ws2 start m n middle e s2 in
    let back = segment_same ws1 ws middle n (λ q l u. s1.behind q (omega arith)) in
    record {
      same_length = s3.same_length ∙ s2.same_length ∙ s1.same_length;
      in_front = λ q l. s3.in_front q l ∙ s2.in_front q (omega arith) ∙ s1.in_front q l;
      behind = λ q l. s3.behind q l ∙ s2.behind q (omega arith) ∙ s1.behind q (omega arith);
      perm =
          Perm.trans s3.perm
            (rw (parts ws2, parts ws, front, ← back) (Perm.append s1.perm s2.perm));
      sorted = s3.sorted;
    }

merge_sort_runs :
    (fuel start end : ℕ) (ws ws1 ws2 scnd scnd1 scnd2 : List Wallet)
    → leb end start ≡ false
    → merge_sort fuel ws start (add_size start end / 2) scnd ≡ some (ws1, scnd1)
    → merge_sort fuel ws1 (add_size (add_size start end / 2) 1) end scnd1 ≡ some (ws2, scnd2)
    → merge_sort (suc fuel) ws start end scnd
      ≡ some (merge ws2 start (add_size start end / 2) end scnd2)
unfolding merge_sort
merge_sort_runs fuel start end ws ws1 ws2 scnd scnd1 scnd2 more run1 run2 =
    rw (more, merge_sort, run1, run2) refl

-- The sort of a part of the array: it ends, and leaves the array of the merges as long as it was.
pub merge_sort-IsSortOf :
    (fuel n : ℕ) (ws scnd : List Wallet) (start end : ℕ)
    → n < fuel
    → start + n ≡ end + 1
    → end < length ws
    → length scnd ≡ length ws
    → 2 * length ws < size_mod
    → (ws' : List Wallet) × (scnd' : List Wallet) × (merge_sort fuel ws start end scnd
        ≡ some (ws', scnd'))
      × (length scnd' ≡ length ws)
      × IsSortOf ws ws' start n
unfolding merge_sort
merge_sort-IsSortOf zero n ws scnd start end f e room same small = absurd (omega arith)
merge_sort-IsSortOf (suc fuel) n ws scnd start end f e room same small =
    elim (Bool-cases (leb end start)) [
      | inl one ↦ (ws, scnd, rw (one, merge_sort) refl, same, short n (ground arith))
      | inr more ↦
          let middle = add_size start end / 2 in
          let lt : start < end = ground arith in
          let left : start ≤ middle = omega arith in
          let right : middle < end = omega arith in
          let next : add_size middle 1 ≡ middle + 1 = omega arith in
          let (ws1, scnd1, run1, len1, s1) =
            merge_sort-IsSortOf fuel (middle + 1 - start) ws scnd start middle (omega arith)
              (omega arith) (omega arith) same small in
          let (ws2, scnd2, run2, len2, s2) =
            merge_sort-IsSortOf fuel (end - middle) ws1 scnd1 (middle + 1) end (omega arith)
              (omega arith) (omega (arith, s1.same_length)) (len1 ∙ sym s1.same_length)
              (omega (arith, s1.same_length)) in
          let front =
            left_kept ws1 ws2 start (middle + 1 - start) (end - middle) (middle + 1) (omega arith)
              s2 in
          let (len3, s3) =
            merge-IsSortOf ws2 scnd2 start middle end (middle + 1 - start) (end - middle)
              (omega arith) (omega arith) (omega (arith, s1.same_length, s2.same_length))
              (len2 ∙ sym s2.same_length) (omega (arith, s1.same_length, s2.same_length))
              (rw front s1.sorted) s2.sorted in
          let all : middle + 1 - start + (end - middle) ≡ n = omega arith in
          (
            (merge ws2 start middle end scnd2).0,
            (merge ws2 start middle end scnd2).1,
            merge_sort_runs fuel start end ws ws1 ws2 scnd scnd1 scnd2 more run1
                (subst (λ k. merge_sort fuel ws1 k end scnd1 ≡ some (ws2, scnd2)) (sym next) run2),
            len3 ∙ s2.same_length ∙ s1.same_length,
            subst (IsSortOf ws (merge ws2 start middle end scnd2).0 start) all (
                halves ws ws1 ws2 _ start (middle + 1) (middle + 1 - start) (end - middle)
                  (omega arith) s1 s2 s3),
          )
    ]
  where
    short : (n : ℕ) → n ≤ 1 → IsSortOf ws ws start n
    short zero h = record {
      same_length = refl;
      in_front = λ q l. refl;
      behind = λ q l. refl;
      perm = Perm.rfl;
      sorted = Pairwise.nil;
    }
    short (suc zero) h = record {
      same_length = refl;
      in_front = λ q l. refl;
      behind = λ q l. refl;
      perm = Perm.rfl;
      sorted = Pairwise-singleton _ (wallet_at ws start);
    }
    short (suc (suc n)) h = absurd (omega arith)
