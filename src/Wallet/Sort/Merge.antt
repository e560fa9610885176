-- ===== src/Wallet/Sort/Merge.antt =====
-- The loop of `merge`: what it writes, and that it keeps the order.
use systems_programming.Base.{
  ℕ, zero, suc, ◌+◌, ◌≤◌, ◌<◌, ◌≡◌, refl, ◌∙◌, true, false, List, ◌∷◌, ◌++◌, length, set,
  length-set, get_or-set_self, get_or-set_ne, arith, Bool-cases, inl, inr,
}
use mathlib.Core.List.{
  Mem, Perm, Pairwise, not-mem-nil, Pairwise-cons, mem-append, forall_mem-cons, perm_middle,
}
use mathlib.Core.Logic.Or
use mathlib.Core.List.Perm
use systems_programming.Base.Size.{size_mod, add_size}
use systems_programming.Base.CString.{gt_flip}
use systems_programming.Wallet.{Wallet}
use systems_programming.Wallet.Search.{wallet_at, no_wallet}
use systems_programming.Wallet.Sort.{takes_left, merge_loop}
use systems_programming.Wallet.Sort.Segment.{
  InOrder, IsSorted, InOrder-prop, InOrder-trans, segment,
}

-- `out` is `scnd` with a merge of `l` and `r` from index `k` on.
pub record IsMerged (scnd out : List Wallet) (k n : ℕ) (l r : List Wallet) : Type 0 where
  pub same_length : length out ≡ length scnd
  pub in_front : (q : ℕ) → q < k → wallet_at out q ≡ wallet_at scnd q
  pub behind : (q : ℕ) → k + n ≤ q → wallet_at out q ≡ wallet_at scnd q
  pub perm : Perm (segment out k n) (l ++ r)
  pub sorted : IsSorted l → IsSorted r → IsSorted (segment out k n)

abbrev IsBelow : Wallet → List Wallet → Type 0
IsBelow x l = (y : Wallet) → Mem y l → InOrder x y

-- What `Pairwise.cons` asks of the wallet that is taken.
IsBelow-append : (x : Wallet) (l r : List Wallet) → IsBelow x l → IsBelow x r → IsBelow x (l ++ r)
IsBelow-append x l r hl hr y m = Or.elim (InOrder-prop x y) (mem-append.0 m) (hl y) (hr y)

IsBelow-perm : (x : Wallet) (l r : List Wallet) → Perm l r → IsBelow x r → IsBelow x l
IsBelow-perm x l r p h y m = h y ((Perm.mem_iff p).0 m)

IsBelow-head : (x y : Wallet) (l : List Wallet) → InOrder x y → IsSorted (y ∷ l) → IsBelow x (y ∷ l)
IsBelow-head x y l h (Pairwise.cons b _) =
    (forall_mem-cons (InOrder-prop x)).1 (h, λ z m. InOrder-trans x y z h (b z m))

module _ (scnd out : List Wallet) (k n : ℕ) (x : Wallet) (room : k < length scnd) where
  -- A round that writes `x`, in front of a merge of the rest.
  written : (l r : List Wallet) → IsMerged (set scnd k x) out (suc k) n l r → wallet_at out k ≡ x
  written l r h = h.in_front k (omega arith) ∙ get_or-set_self scnd k x no_wallet room

  round-IsMerged :
      (l r l' r' : List Wallet)
      → IsMerged (set scnd k x) out (suc k) n l r
      → Perm (x ∷ (l ++ r)) (l' ++ r')
      → (IsSorted l' → IsSorted r' → IsSorted l × IsSorted r × IsBelow x (l ++ r))
      → IsMerged scnd out k (suc n) l' r'
  round-IsMerged l r l' r' h p s = record {
    same_length = h.same_length ∙ length-set scnd k x;
    in_front = λ q lt. h.in_front q (omega arith) ∙ get_or-set_ne scnd x no_wallet (omega arith);
    behind = λ q le. h.behind q (omega arith) ∙ get_or-set_ne scnd x no_wallet (omega arith);
    perm = rw (written l r h) (Perm.trans (Perm.cons x h.perm) p);
    sorted = λ sl sr.
        let (sl', sr', b) = s sl sr in
        rw (written l r h) (
          Pairwise.cons (IsBelow-perm x (segment out (suc k) n) (l ++ r) h.perm b)
            (h.sorted sl' sr'));
  }

module _ (ws : List Wallet) (middle end : ℕ) (small : end + 1 < size_mod) where
  -- The two kinds of round, from what the rest of the loop does.
  left_round :
      (n a b i j k : ℕ) (scnd : List Wallet)
      → k < length scnd
      → add_size i 1 ≡ suc i
      → add_size k 1 ≡ suc k
      → takes_left ws middle end i j ≡ true
      → (IsSorted (segment ws j b) → IsBelow (wallet_at ws i) (segment ws j b))
      → IsMerged
          (set scnd k (wallet_at ws i))
          (merge_loop ws middle end n (suc i) j (suc k) (set scnd k (wallet_at ws i)))
          (suc k)
          n
          (segment ws (suc i) a)
          (segment ws j b)
      → IsMerged scnd
          (merge_loop ws middle end (suc n) i j k scnd)
          k
          (suc n)
          (segment ws i (suc a))
          (segment ws j b)
  unfolding merge_loop
  left_round n a b i j k scnd room ei ek e below h =
      rw (e, merge_loop, ei, ek)
        (round-IsMerged scnd _ k n (wallet_at ws i) room (segment ws (suc i) a) (segment ws j b)
          (segment ws i (suc a)) (segment ws j b) h Perm.rfl
          (λ sl sr.
            let (bl, sl') = Pairwise-cons.0 sl in
            (
              sl',
              sr,
              IsBelow-append (wallet_at ws i) (segment ws (suc i) a) (segment ws j b) bl (below sr),
            )))

  right_round :
      (n a b i j k : ℕ) (scnd : List Wallet)
      → k < length scnd
      → add_size j 1 ≡ suc j
      → add_size k 1 ≡ suc k
      → takes_left ws middle end i j ≡ false
      → (IsSorted (segment ws i a) → IsBelow (wallet_at ws j) (segment ws i a))
      → IsMerged
          (set scnd k (wallet_at ws j))
          (merge_loop ws middle end n i (suc j) (suc k) (set scnd k (wallet_at ws j)))
          (suc k)
          n
          (segment ws i a)
          (segment ws (suc j) b)
      → IsMerged scnd
          (merge_loop ws middle end (suc n) i j k scnd)
          k
          (suc n)
          (segment ws i a)
          (segment ws j (suc b))
  unfolding merge_loop
  right_round n a b i j k scnd room ej ek e below h =
      rw (e, merge_loop, ej, ek)
        (round-IsMerged scnd _ k n (wallet_at ws j) room (segment ws i a) (segment ws (suc j) b)
          (segment ws i a) (segment ws j (suc b)) h
          (Perm.symm (perm_middle (segment ws i a) (segment ws (suc j) b)))
          (λ sl sr.
            let (br, sr') = Pairwise-cons.0 sr in
            (
              sl,
              sr',
              IsBelow-append (wallet_at ws j) (segment ws i a) (segment ws (suc j) b) (below sl) br,
            )))

  takes_left_order :
      (i j : ℕ)
      → i ≤ middle
      → j ≤ end
      → takes_left ws middle end i j ≡ true
      → InOrder (wallet_at ws i) (wallet_at ws j)
  unfolding takes_left
  takes_left_order i j hi hj e = ground arith

  takes_right_order :
      (i j : ℕ)
      → i ≤ middle
      → j ≤ end
      → takes_left ws middle end i j ≡ false
      → InOrder (wallet_at ws j) (wallet_at ws i)
  unfolding takes_left
  takes_right_order i j hi hj e g =
      let l = gt_flip (wallet_at ws j).wallet_id (wallet_at ws i).wallet_id g in ground arith

  pub merge_loop-IsMerged :
      (n a b i j k : ℕ) (scnd : List Wallet)
      → n ≡ a + b
      → i + a ≡ middle + 1
      → j + b ≡ end + 1
      → middle ≤ end
      → k + n ≤ length scnd
      → length scnd < size_mod
      → IsMerged scnd (merge_loop ws middle end n i j k scnd) k n (segment ws i a) (segment ws j b)
  merge_loop-IsMerged zero zero zero i j k scnd e ei ej me room fits = record {
    same_length = unfold merge_loop in refl;
    in_front = λ q l. unfold merge_loop in refl;
    behind = λ q l. unfold merge_loop in refl;
    perm = Perm.rfl;
    sorted = λ sl sr. Pairwise.nil;
  }
  merge_loop-IsMerged zero zero (suc b) i j k scnd e ei ej me room fits = absurd (omega arith)
  merge_loop-IsMerged zero (suc a) b i j k scnd e ei ej me room fits = absurd (omega arith)
  merge_loop-IsMerged (suc n) zero zero i j k scnd e ei ej me room fits = absurd (omega arith)
  merge_loop-IsMerged (suc n) zero (suc b) i j k scnd e ei ej me room fits =
      right_round n zero b i j k scnd (omega arith) (omega arith) (omega arith)
        (unfold takes_left in ground arith) (λ s. λ y m. absurd (not-mem-nil m))
        (merge_loop-IsMerged n zero b i (suc j) (suc k) (set scnd k (wallet_at ws j)) (omega arith)
          ei (omega arith) me (omega (arith, length-set scnd k (wallet_at ws j)))
          (omega (arith, length-set scnd k (wallet_at ws j))))
  merge_loop-IsMerged (suc n) (suc a) zero i j k scnd e ei ej me room fits =
      left_round n a zero i j k scnd (omega arith) (omega arith) (omega arith)
        (unfold takes_left in ground arith) (λ s. λ y m. absurd (not-mem-nil m))
        (merge_loop-IsMerged n a zero (suc i) j (suc k) (set scnd k (wallet_at ws i)) (omega arith)
          (omega arith) ej me (omega (arith, length-set scnd k (wallet_at ws i)))
          (omega (arith, length-set scnd k (wallet_at ws i))))
  merge_loop-IsMerged (suc n) (suc a) (suc b) i j k scnd e ei ej me room fits =
      elim (Bool-cases (takes_left ws middle end i j)) [
        | inl t ↦
            left_round n a (suc b) i j k scnd (omega arith) (omega arith) (omega arith) t
              (IsBelow-head (wallet_at ws i) (wallet_at ws j) (segment ws (suc j) b)
                (takes_left_order i j (omega arith) (omega arith) t))
              (merge_loop-IsMerged n a (suc b) (suc i) j (suc k) (set scnd k (wallet_at ws i))
                (omega arith) (omega arith) ej me
                (omega (arith, length-set scnd k (wallet_at ws i)))
                (omega (arith, length-set scnd k (wallet_at ws i))))
        | inr t ↦
            right_round n (suc a) b i j k scnd (omega arith) (omega arith) (omega arith) t
              (IsBelow-head (wallet_at ws j) (wallet_at ws i) (segment ws (suc i) a)
                (takes_right_order i j (omega arith) (omega arith) t))
              (merge_loop-IsMerged n (suc a) b i (suc j) (suc k) (set scnd k (wallet_at ws j))
                (omega arith) ei (omega arith) me
                (omega (arith, length-set scnd k (wallet_at ws j)))
                (omega (arith, length-set scnd k (wallet_at ws j))))
      ]
