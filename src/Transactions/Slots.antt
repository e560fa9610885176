-- ===== src/Transactions/Slots.antt =====
-- The IDs in the slots of `transactionsInitialization`, and the largest of them.
use systems_programming.Base.{
  length, le→ltb, ◌≤◌, ◌≡◌, ◌≢◌, refl, ◌∙◌, Bool, true, false, Option, none, some, List, [], ◌∷◌,
  ◌++◌, arith, ◌||◌, not,
}
use Prim.Native.Nat.{Ordering}
use systems_programming.Base.CString.{
  CString, strcmp, str_eq, str_eq_iff, strcmp_eq, strcmp_refl, gt_flip,
}
use systems_programming.Transactions.{check_if_trans_exists, max_of}

-- No ID stands in two slots.
abbrev pub IsDistinct : List (Option CString) → Type 0
IsDistinct [] = Unit
IsDistinct (none ∷ ids) = IsDistinct ids
IsDistinct (some s ∷ ids) = (check_if_trans_exists ids s ≡ false) × IsDistinct ids

-- No ID is behind `m`.
abbrev pub IsBounded : List (Option CString) → CString → Type 0
IsBounded ids m = (s : CString) → check_if_trans_exists ids s ≡ true → strcmp s m ≢ Ordering.gt

-- The ID, if there is one, stands in no slot.
abbrev pub is_unused : List (Option CString) → Option CString → Bool
is_unused ids none = true
is_unused ids (some n) = not (check_if_trans_exists ids n)

abbrev slot_is : Option CString → CString → Bool
slot_is none id = false
slot_is (some s) id = str_eq s id

pub check-append :
    (ids : List (Option CString)) (slot : Option CString) (id : CString)
    → check_if_trans_exists (ids ++ slot ∷ []) id
      ≡ (check_if_trans_exists ids id || slot_is slot id)
unfolding check_if_trans_exists
check-append [] none id = refl
check-append [] (some s) id = ground arith
check-append (none ∷ ids) slot id = check-append ids slot id
check-append (some s ∷ ids) slot id = let r = check-append ids slot id in ground arith

pub IsDistinct-append :
    (ids : List (Option CString)) (id : CString)
    → check_if_trans_exists ids id ≡ false
    → IsDistinct ids
    → IsDistinct (ids ++ some id ∷ [])
unfolding check_if_trans_exists
IsDistinct-append [] id h d = (refl, record {})
IsDistinct-append (none ∷ ids) id h d = IsDistinct-append ids id h d
IsDistinct-append (some s ∷ ids) id h d =
    let later : check_if_trans_exists ids id ≡ false = ground arith in
    let apart : str_eq s id ≡ false = ground arith in
    let flip : str_eq id s ≡ false = ground (arith, str_eq_iff id s, str_eq_iff s id) in
    (check-append ids (some id) s ∙ rw (d.0, flip) refl, IsDistinct-append ids id later d.1)

pub IsDistinct-skip : (ids : List (Option CString)) → IsDistinct ids → IsDistinct (ids ++ none ∷ [])
IsDistinct-skip [] d = record {}
IsDistinct-skip (none ∷ ids) d = IsDistinct-skip ids d
IsDistinct-skip (some s ∷ ids) d = (check-append ids none s ∙ rw d.0 refl, IsDistinct-skip ids d.1)

pub max_of-cases :
    (m id : CString)
    → length id ≤ 14
    → (k : CString) × (max_of m id ≡ some k)
      × (strcmp m k ≢ Ordering.gt)
      × (strcmp id k ≢ Ordering.gt)
unfolding max_of
max_of-cases m id short = by_order (strcmp m id) refl
  where
    by_order :
        (o : Ordering)
        → strcmp m id ≡ o
        → (k : CString) × (max_of m id ≡ some k)
          × (strcmp m k ≢ Ordering.gt)
          × (strcmp id k ≢ Ordering.gt)
    by_order Ordering.lt e = (
      id,
      rw (e, max_of, le→ltb 14 (length id) short) refl,
      λ g. cc,
      λ g. let r = strcmp_refl id in cc,
    )
    by_order Ordering.eq e = (
      m,
      rw (e, max_of) refl,
      λ g. let r = strcmp_refl m in cc,
      let q : m ≡ id = strcmp_eq m id e in λ g. let r = strcmp_refl m in cc,
    )
    by_order Ordering.gt e = (
      m,
      rw (e, max_of) refl,
      λ g. let r = strcmp_refl m in cc,
      λ g. let r = gt_flip m id e in cc,
    )
