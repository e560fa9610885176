-- ===== src/Base/CString.antt =====
-- C strings as the lists of their bytes before the final NUL, and `strcmp` on them.
use Prim.Native.Nat.{ℕ, compare, Ordering}
use mathlib.Core.Path.{◌≡◌, refl}
use mathlib.Core.Logic.{◌↔◌, ◌≢◌}
use mathlib.Core.Bool.{Bool, true, false}
use mathlib.Core.List.{List, [], ◌∷◌}
use native.Mathlib.Omega.{arith}

abbrev pub CString : Type 0
CString = List ℕ

-- The sign of `strcmp`. No byte of a C string is NUL, so a proper prefix is the smaller one.
unfoldable pub strcmp : CString → CString → Ordering
strcmp [] [] = Ordering.eq
strcmp [] (y ∷ ys) = Ordering.lt
strcmp (x ∷ xs) [] = Ordering.gt
strcmp (x ∷ xs) (y ∷ ys) = elim (compare x y) [
  | Ordering.lt ↦ Ordering.lt
  | Ordering.eq ↦ strcmp xs ys
  | Ordering.gt ↦ Ordering.gt
]

-- `!strcmp(s, t)`
abbrev pub str_eq : CString → CString → Bool
str_eq s t = elim (strcmp s t) [ Ordering.eq ↦ true | _ ↦ false ]

abbrev pub StrLt : CString → CString → Type 0
StrLt s t = strcmp s t ≡ Ordering.lt

pub strcmp_refl : (s : CString) → strcmp s s ≡ Ordering.eq
unfolding strcmp
strcmp_refl [] = refl
strcmp_refl (x ∷ s) = ground (arith, strcmp_refl s)

pub strcmp_eq : (s t : CString) → strcmp s t ≡ Ordering.eq → s ≡ t
unfolding strcmp
strcmp_eq [] [] h = refl
strcmp_eq [] (y ∷ t) h = ground arith
strcmp_eq (x ∷ s) [] h = ground arith
strcmp_eq (x ∷ s) (y ∷ t) h = ground (arith, strcmp_eq s t)

pub StrLt-flip : (s t : CString) → StrLt s t → strcmp t s ≡ Ordering.gt
unfolding strcmp
StrLt-flip [] [] h = ground arith
StrLt-flip [] (y ∷ t) h = refl
StrLt-flip (x ∷ s) [] h = ground arith
StrLt-flip (x ∷ s) (y ∷ t) h = ground (arith, StrLt-flip s t)

pub gt_flip : (s t : CString) → strcmp s t ≡ Ordering.gt → StrLt t s
unfolding strcmp
gt_flip [] [] h = ground arith
gt_flip [] (y ∷ t) h = ground arith
gt_flip (x ∷ s) [] h = refl
gt_flip (x ∷ s) (y ∷ t) h = ground (arith, gt_flip s t)

pub StrLt-trans : (s t u : CString) → StrLt s t → StrLt t u → StrLt s u
unfolding strcmp
StrLt-trans [] [] u h k = ground arith
StrLt-trans [] (y ∷ t) [] h k = ground arith
StrLt-trans [] (y ∷ t) (z ∷ u) h k = refl
StrLt-trans (x ∷ s) [] u h k = ground arith
StrLt-trans (x ∷ s) (y ∷ t) [] h k = ground arith
StrLt-trans (x ∷ s) (y ∷ t) (z ∷ u) h k = ground (arith, StrLt-trans s t u)

pub not_gt_trans :
    (s t u : CString)
    → strcmp s t ≢ Ordering.gt
    → strcmp t u ≢ Ordering.gt
    → strcmp s u ≢ Ordering.gt
unfolding strcmp
not_gt_trans [] t [] h k = ground arith
not_gt_trans [] t (z ∷ u) h k = ground arith
not_gt_trans (x ∷ s) [] u h k = ground arith
not_gt_trans (x ∷ s) (y ∷ t) [] h k = ground arith
not_gt_trans (x ∷ s) (y ∷ t) (z ∷ u) h k = ground (arith, not_gt_trans s t u)

pub str_eq_iff : (s t : CString) → (str_eq s t ≡ true) ↔ (s ≡ t)
str_eq_iff s t = (λ h. strcmp_eq s t (ground arith), λ e. ground (arith, strcmp_refl s))

pub StrLt-ne : (s t : CString) → StrLt s t → str_eq s t ≡ false
StrLt-ne s t h = ground arith

pub str_eq-ne : (s t : CString) → s ≢ t → str_eq s t ≡ false
str_eq-ne s t h = ground (arith, str_eq_iff s t)
