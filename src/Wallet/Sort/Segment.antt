-- ===== src/Wallet/Sort/Segment.antt =====
-- A part of the array as a list, its order, and the loop that copies a part.
use systems_programming.Base.{
  ℕ, zero, suc, ◌+◌, ◌≤◌, ◌<◌, ◌≡◌, ◌≢◌, refl, ap, ap₂, subst, ◌∙◌, List, [], ◌∷◌, ◌++◌, ltb,
  length, set, length-set, get_or-set_self, get_or-set_ne, arith, Bool-cases, inl, inr,
}
use Prim.Native.Nat.{Ordering}
use mathlib.Core.List.{Pairwise}
use systems_programming.Base.Size.{size_mod, add_size}
use systems_programming.Base.CString.{strcmp, not_gt_trans}
use systems_programming.Wallet.{Wallet}
use systems_programming.Wallet.Search.{wallet_at, no_wallet}
use systems_programming.Wallet.Sort.{copy_back}

-- The first ID is not behind the second.
abbrev pub InOrder : Wallet → Wallet → Type 0
InOrder a b = strcmp a.wallet_id b.wallet_id ≢ Ordering.gt

abbrev pub IsSorted : List Wallet → Type 0
IsSorted = Pairwise InOrder

pub InOrder-prop : (a b : Wallet) → IsProp (InOrder a b)
InOrder-prop a b = hlevel

pub InOrder-trans : (a b c : Wallet) → InOrder a b → InOrder b c → InOrder a c
InOrder-trans a b c h k = not_gt_trans a.wallet_id b.wallet_id c.wallet_id h k

-- The `n` wallets from index `s` on.
abbrev pub segment : List Wallet → ℕ → ℕ → List Wallet
segment ws s zero = []
segment ws s (suc n) = wallet_at ws s ∷ segment ws (suc s) n

pub segment_same :
    (a b : List Wallet) (s n : ℕ)
    → ((q : ℕ) → s ≤ q → q < s + n → wallet_at a q ≡ wallet_at b q)
    → segment a s n ≡ segment b s n
segment_same a b s zero h = refl
segment_same a b s (suc n) h =
    ap₂ ◌∷◌ (h s (omega arith) (omega arith))
      (segment_same a b (suc s) n (λ q l u. h q (omega arith) (omega arith)))

pub segment-add :
    (a : List Wallet) (s m n : ℕ) → segment a s (m + n) ≡ segment a s m ++ segment a (s + m) n
segment-add a s zero n = ap₂ (segment a) (omega arith) (omega arith)
segment-add a s (suc m) n =
    let e : suc s + m ≡ s + suc m = omega arith in
    let d : suc m + n ≡ suc (m + n) = omega arith in
    ap (segment a s) d
    ∙ ap (◌∷◌ (wallet_at a s))
        (segment-add a (suc s) m n ∙ ap (λ k. segment a (suc s) m ++ segment a k n) e)

segment-cons :
    (w : Wallet) (ws : List Wallet) (s n : ℕ) → segment (w ∷ ws) (suc s) n ≡ segment ws s n
segment-cons w ws s zero = refl
segment-cons w ws s (suc n) = ap (◌∷◌ (wallet_at ws s)) (segment-cons w ws (suc s) n)

pub segment-all : (ws : List Wallet) → segment ws 0 (length ws) ≡ ws
segment-all [] = refl
segment-all (w ∷ ws) = ap (◌∷◌ w) (segment-cons w ws 0 (length ws) ∙ segment-all ws)

-- The loop that copies the merged part back.
pub copy_back-same :
    (scnd : List Wallet) (n k : ℕ) (ws : List Wallet)
    → k + n ≤ length ws
    → length ws < size_mod
    → let out = copy_back scnd n k ws in
      (length out ≡ length ws)
      × ((q : ℕ) → q < k → wallet_at out q ≡ wallet_at ws q)
      × ((q : ℕ) → k + n ≤ q → wallet_at out q ≡ wallet_at ws q)
      × ((q : ℕ) → k ≤ q → q < k + n → wallet_at out q ≡ wallet_at scnd q)
unfolding copy_back
copy_back-same scnd zero k ws room small =
    (refl, λ q l. refl, λ q l. refl, λ q l u. absurd (omega arith))
copy_back-same scnd (suc n) k ws room small =
    let x = wallet_at scnd k in
    let step : add_size k 1 ≡ suc k = omega arith in
    let (len, front, back, mid) =
      copy_back-same scnd n (suc k) (set ws k x) (omega (arith, length-set ws k x))
        (omega (arith, length-set ws k x)) in
    rw step (
      len ∙ length-set ws k x,
      λ q l. front q (omega arith) ∙ get_or-set_ne ws x no_wallet (omega arith),
      λ q l. back q (omega arith) ∙ get_or-set_ne ws x no_wallet (omega arith),
      λ q l u. elim (Bool-cases (ltb k q)) [
        | inl more ↦ mid q (ground arith) (omega arith)
        | inr here ↦
            let e : k ≡ q = ground arith in
            subst (λ r. wallet_at (copy_back scnd n (suc k) (set ws k x)) r ≡ wallet_at scnd r) e
              (front k (omega arith) ∙ get_or-set_self ws k x no_wallet (omega arith))
      ],
    )
