-- ===== src/Transactions/Ids.antt =====
-- `newID`: the ID that follows the largest one.
use systems_programming.Base.{
  ℕ, zero, suc, ◌+◌, ◌≤◌, ◌<◌, ◌≡◌, refl, sym, ap, subst, ◌∙◌, true, false, Option, none, some,
  List, [], ◌∷◌, ◌++◌, ltb, leb, length, drop, set, get_elem?, arith, Bool-cases, Option-cases, inl,
  inr, if◌then◌else◌, length-append, lt→ltb,
}
use mathlib.Core.List.{append_assoc}
use systems_programming.Base.CString.{StrLt-ne, CString, strcmp, StrLt, strcmp_refl}
use systems_programming.Transactions.{
  NewId, fault, made, strcpy, read_string, again, new_id_round, new_id_loop, new_id,
}

-- An ASCII string: no byte of it is 0 or negative.
abbrev pub IsAscii : CString → Type 0
IsAscii [] = Unit
IsAscii (c ∷ cs) = (0 < c) × (c < 128) × IsAscii cs

-- The first character below `~` goes up by one, or to `0`.
unfoldable pub next_id : CString → Option CString
next_id [] = none
next_id (c ∷ cs) =
    let rest = next_id cs in
    if ltb c 48
    then some (48 ∷ cs)
    else if ltb c 126
    then some ((c + 1) ∷ cs)
    else elim rest [ none ↦ none | some s ↦ some (c ∷ s) ]

-- The next ID is behind the ID in the order of the strings, and as long.
pub record IsNext (m n : CString) : Type 0 where
  pub behind : StrLt m n
  pub same_length : length n ≡ length m
  pub ascii : IsAscii m → IsAscii n

IsNext-cons : (c : ℕ) (m n : CString) → IsNext m n → IsNext (c ∷ m) (c ∷ n)
unfolding strcmp
IsNext-cons c m n h = record {
  behind = let b = h.behind in ground arith;
  same_length = ap suc h.same_length;
  ascii = λ a. (a.0, a.1, h.ascii a.2);
}

IsNext-up : (c d : ℕ) (m : CString) → c < d → d < 128 → IsNext (c ∷ m) (d ∷ m)
unfolding strcmp
IsNext-up c d m h k = record {
  behind = ground arith;
  same_length = refl;
  ascii = λ a. (omega arith, k, a.2);
}

pub next_id-IsNext : (m n : CString) → next_id m ≡ some n → IsNext m n
unfolding next_id
next_id-IsNext [] n e = ground arith
next_id-IsNext (c ∷ cs) n e = elim (Bool-cases (ltb c 48)) [
  | inl low ↦
      let q : 48 ∷ cs ≡ n = ground arith in
      subst (IsNext (c ∷ cs)) q (IsNext-up c 48 cs (ground arith) (omega arith))
  | inr not_low ↦ elim (Bool-cases (ltb c 126)) [
    | inl middle ↦
        let q : (c + 1) ∷ cs ≡ n = ground arith in
        subst (IsNext (c ∷ cs)) q (IsNext-up c (c + 1) cs (omega arith) (ground arith))
    | inr high ↦ elim (Option-cases (next_id cs)) [
      | inl none_left ↦ ground arith
      | inr (s, found) ↦
          let q : c ∷ s ≡ n = ground arith in
          subst (IsNext (c ∷ cs)) q (IsNext-cons c cs s (next_id-IsNext cs s found))
    ]
  ]
]

read_string-append :
    (s : CString) (junk : List ℕ) → IsAscii s → read_string (s ++ 0 ∷ junk) ≡ some s
unfolding read_string
read_string-append [] junk h = refl
read_string-append (c ∷ cs) junk h =
    let r = read_string-append cs junk h.2 in let pos = h.0 in ground arith

get_elem?-append :
    (pre : List ℕ) (x : ℕ) (rest : List ℕ) → get_elem? (pre ++ x ∷ rest) (length pre) ≡ some x
get_elem?-append [] x rest = refl
get_elem?-append (p ∷ pre) x rest = get_elem?-append pre x rest

set-append :
    (pre : List ℕ) (x y : ℕ) (rest : List ℕ)
    → set (pre ++ x ∷ rest) (length pre) y ≡ pre ++ y ∷ rest
set-append [] x y rest = refl
set-append (p ∷ pre) x y rest = ap (◌∷◌ p) (set-append pre x y rest)

StrLt-append : (pre : CString) (c d : ℕ) (s : CString) → c < d → StrLt (pre ++ c ∷ s) (pre ++ d ∷ s)
unfolding strcmp
StrLt-append [] c d s h = ground arith
StrLt-append (p ∷ pre) c d s h = let r = StrLt-append pre c d s h in ground arith

IsAscii-append : (s t : CString) → IsAscii s → IsAscii t → IsAscii (s ++ t)
IsAscii-append [] t h k = k
IsAscii-append (c ∷ s) t h k = (h.0, h.1, IsAscii-append s t h.2 k)

-- The loop at index `length pre`, with `todo` of the ID still ahead.
module _ (max_id : CString) (junk : List ℕ) where
  again-made :
      (loop : NewId) (n : CString)
      → IsAscii n
      → StrLt max_id n
      → again max_id loop (n ++ 0 ∷ junk) ≡ made n
  unfolding again
  again-made loop n h lt = rw (read_string-append n junk h, again, StrLt-ne max_id n lt) refl

  again-loop : (loop : NewId) → IsAscii max_id → again max_id loop (max_id ++ 0 ∷ junk) ≡ loop
  unfolding again
  again-loop loop h = rw (read_string-append max_id junk h, again, strcmp_refl max_id) refl

  -- What a round reads and writes.
  module _ (pre : CString) (c : ℕ) (cs : CString) (e : pre ++ c ∷ cs ≡ max_id) where
    whole : max_id ++ 0 ∷ junk ≡ pre ++ c ∷ (cs ++ 0 ∷ junk)
    whole = ap (λ s. s ++ 0 ∷ junk) (sym e) ∙ append_assoc pre (c ∷ cs) (0 ∷ junk)

    round_reads : get_elem? (max_id ++ 0 ∷ junk) (length pre) ≡ some c
    round_reads = rw whole (get_elem?-append pre c (cs ++ 0 ∷ junk))

    round_writes : (d : ℕ) → set (max_id ++ 0 ∷ junk) (length pre) d ≡ (pre ++ d ∷ cs) ++ 0 ∷ junk
    round_writes d =
        rw whole (set-append pre c d (cs ++ 0 ∷ junk) ∙ sym (append_assoc pre (d ∷ cs) (0 ∷ junk)))

    -- A character that goes up is the last that is looked at.
    round-made :
        (loop : NewId) (d : ℕ)
        → IsAscii (pre ++ d ∷ cs)
        → c < d
        → again max_id loop (set (max_id ++ 0 ∷ junk) (length pre) d) ≡ made (pre ++ d ∷ cs)
    round-made loop d h lt = rw (round_writes d) (
        again-made loop (pre ++ d ∷ cs) h
          (subst (λ m. StrLt m (pre ++ d ∷ cs)) e (StrLt-append pre c d cs lt)))

    IsAscii-with : (d : ℕ) → 0 < d → d < 128 → IsAscii pre → IsAscii cs → IsAscii (pre ++ d ∷ cs)
    IsAscii-with d pos small hp h = IsAscii-append pre (d ∷ cs) hp (pos, small, h)

  loop-next :
      (fuel : ℕ) (pre todo n : CString)
      → pre ++ todo ≡ max_id
      → IsAscii pre
      → IsAscii todo
      → length pre + length todo ≤ 14
      → length todo < fuel
      → next_id todo ≡ some n
      → new_id_loop fuel max_id (length pre) (max_id ++ 0 ∷ junk) ≡ made (pre ++ n)
  unfolding new_id_loop new_id_round next_id
  loop-next zero pre todo n e hp ht fits f next = absurd (omega arith)
  loop-next (suc fuel) pre [] n e hp ht fits f next = ground arith
  loop-next (suc fuel) pre (c ∷ cs) n e hp ht fits f next =
      let at = round_reads pre c cs e in
      let ascii : leb 128 c ≡ false = (let small = ht.1 in ground arith) in
      elim (Bool-cases (ltb c 48)) [
        | inl low ↦
            let q : 48 ∷ cs ≡ n = ground arith in
            rw (at, new_id_round, low, ← q)
              (round-made pre c cs e _ 48
                (IsAscii-with pre c cs e 48 (omega arith) (omega arith) hp ht.2) (ground arith))
        | inr not_low ↦ elim (Bool-cases (ltb c 126)) [
          | inl middle ↦
              let q : (c + 1) ∷ cs ≡ n = ground arith in
              rw (at, new_id_round, not_low, ascii, middle, ← q)
                (round-made pre c cs e _ (c + 1)
                  (IsAscii-with pre c cs e (c + 1) (omega arith) (ground arith) hp ht.2)
                  (omega arith))
          | inr high ↦ elim (Option-cases (next_id cs)) [
            | inl none_left ↦ ground arith
            | inr (s, found) ↦
                let q : c ∷ s ≡ n = ground arith in
                let len = length-append pre (c ∷ []) in
                let more : ltb (length pre) 14 ≡ true = lt→ltb (length pre) 14 (omega arith) in
                let one : length pre + 1 ≡ length (pre ++ c ∷ []) = omega (arith, len) in
                let whole_ascii : IsAscii max_id =
                  subst IsAscii e (IsAscii-append pre (c ∷ cs) hp ht) in
                rw (at, new_id_round, not_low, ascii, high, more, ← q)
                  (again-loop _ whole_ascii
                    ∙ ap (λ i. new_id_loop fuel max_id i (max_id ++ 0 ∷ junk)) one
                    ∙ loop-next fuel (pre ++ c ∷ []) cs s (append_assoc pre (c ∷ []) cs ∙ e)
                        (IsAscii-append pre (c ∷ []) hp (ht.0, ht.1, record {})) ht.2
                        (omega (arith, len)) (omega arith) found
                    ∙ ap made (append_assoc pre (c ∷ []) s))
          ]
        ]
      ]

-- For an ASCII ID of at most 14 characters, one of them below `~`, `newID` gives an ID that is
-- behind it in the order of strings, as long, and ASCII, whatever stands in the new memory.
pub new_id-IsNext :
    (buffer : List ℕ) (m n : CString)
    → IsAscii m
    → length m ≤ 14
    → next_id m ≡ some n
    → (new_id buffer m ≡ made n) × IsNext m n
unfolding new_id strcpy
new_id-IsNext buffer m n ascii short e = (
  loop-next m (drop (length m + 1) buffer) 16 [] m n refl (record {}) ascii (omega arith)
      (omega arith) e,
  next_id-IsNext m n e,
)

-- While there is no largest ID, the new ID is `0` with the string behind it in the new memory,
-- since the end of the string is overwritten and not set again; without a string there, the loop
-- reads behind the buffer.
pub new_id_first :
    (byte : ℕ) (buffer : List ℕ)
    → new_id (byte ∷ buffer) []
      ≡ elim (read_string buffer) [ none ↦ fault | some s ↦ made (48 ∷ s) ]
unfolding new_id strcpy new_id_loop new_id_round again read_string strcmp
new_id_first byte buffer = elim (Option-cases (read_string buffer)) [
  | inl e ↦ rw (e, read_string) refl
  | inr (s, e) ↦ rw (e, read_string) refl
]
