-- ===== src/Buffer/Refine.antt =====
-- The circular buffer is a bounded queue of `size - 1` elements.
use systems_programming.Base.{
  ℕ, suc, ◌+◌, ◌-◌, ◌≤◌, ◌<◌, ◌≡◌, ◌↔◌, refl, ap, true, false, some, List, [], ◌∷◌, ◌++◌, ◌∙◌, inl,
  inr, Bool-cases, get_elem?-set_ne, arith, leb, if◌then◌else◌, length, get_or, set, length-set,
  get_elem?-eq-get_or,
}
use systems_programming.Base.Size.{size_mod}
use systems_programming.Buffer.{
  Buffer, next_index, buffer_is_empty, buffer_is_full, buffer_push, buffer_pop, buffer_at,
}
use systems_programming.Buffer.Window.{window, length-window, window-set}

module _ {ℓ} {A : Type ℓ} where
  pub record IsBuffer (b : Buffer A) : Type ℓ where
    pub storage : b.size ≤ length b.circ_buffer
    pub small : b.size < size_mod
    pub read_in : b.read < b.size
    pub write_in : b.write < b.size

  -- The number of elements.
  abbrev pub count : Buffer A → ℕ
  count b = if leb b.read b.write then b.write - b.read else b.size - b.read + b.write

module _ {ℓ} {A : Type ℓ} (d : A) where
  -- The elements, the next to be popped first.
  abbrev pub contents : Buffer A → List A
  contents b = window d b.circ_buffer b.size b.read (count b)

  -- The tests say whether no element is left and whether all slots but one are taken.
  pub buffer_tests :
      (b : Buffer A)
      → IsBuffer b
      → ((buffer_is_empty b ≡ true) ↔ (length (contents b) ≡ 0))
        × ((buffer_is_full b ≡ true) ↔ (length (contents b) + 1 ≡ b.size))
  unfolding buffer_is_empty buffer_is_full
  buffer_tests b v =
      let n = length-window d b.circ_buffer b.size b.read (count b) in
      (
        (λ h. ground (arith, n), λ h. ground (arith, n)),
        (λ h. ground (arith, n), λ h. ground (arith, n)),
      )

  -- Pushing into a buffer that is not full appends the element.
  pub buffer_push-contents :
      (b : Buffer A) (x : A)
      → IsBuffer b
      → buffer_is_full b ≡ false
      → IsBuffer (buffer_push b x) × (contents (buffer_push b x) ≡ contents b ++ x ∷ [])
  unfolding buffer_push buffer_is_full
  buffer_push-contents b x v room =
      let grown : count (buffer_push b x) ≡ suc (count b) = ground arith in
      let len = length-set b.circ_buffer b.write x in
      (
        record {
          storage = omega arith;
          small = v.small;
          read_in = v.read_in;
          write_in = ground arith;
        },
        ap (window d (set b.circ_buffer b.write x) b.size b.read) grown
            ∙ window-set d b.circ_buffer b.size x (count b) b.read b.write v.storage v.small
                v.read_in (ground arith) (ground arith),
      )

  -- Popping from a buffer that is not empty returns a pointer to the first element, and leaves
  -- the others.
  pub buffer_pop-contents :
      (b : Buffer A)
      → IsBuffer b
      → buffer_is_empty b ≡ false
      → let (i, b') = buffer_pop b in
        IsBuffer b' × (x : A) × (buffer_at b' i ≡ some x) × (contents b ≡ x ∷ contents b')
  unfolding buffer_pop buffer_is_empty
  buffer_pop-contents b v some_left =
      let shrunk : count b ≡ suc (count (buffer_pop b).1) = ground arith in
      (
        record {
          storage = v.storage;
          small = v.small;
          read_in = ground arith;
          write_in = v.write_in;
        },
        get_or b.circ_buffer b.read d,
        get_elem?-eq-get_or b.circ_buffer b.read d (omega arith),
        ap (window d b.circ_buffer b.size b.read) shrunk,
      )

  -- Any number of pushes, each made while the buffer is not full.
  abbrev pub push_all : Buffer A → List A → Buffer A
  push_all b [] = b
  push_all b (x ∷ xs) = if buffer_is_full b then push_all b xs else push_all (buffer_push b x) xs

  -- The slot in front of the read index is outside the window, so no guarded push writes it.
  pub slot_kept :
      (xs : List A) (b : Buffer A) (i : ℕ)
      → IsBuffer b
      → next_index b.size i ≡ b.read
      → i < b.size
      → buffer_at (push_all b xs) i ≡ buffer_at b i
  slot_kept [] b i v e h = refl
  slot_kept (x ∷ xs) b i v e h = elim (Bool-cases (buffer_is_full b)) [
    | inl full ↦ rw full (slot_kept xs b i v e h)
    | inr room ↦ rw room (
        slot_kept xs (buffer_push b x) i (buffer_push-contents b x v room).0
          (unfold buffer_push in e) (unfold buffer_push in h)
        ∙ kept room)
  ]
    where
      kept : buffer_is_full b ≡ false → buffer_at (buffer_push b x) i ≡ buffer_at b i
      kept room =
          unfold buffer_push buffer_is_full in get_elem?-set_ne b.circ_buffer x (ground arith)

  -- The pointer that a pop returns still reads the popped element after any number of guarded
  -- pushes, until the next pop.
  pub buffer_pop_pointer :
      (b : Buffer A) (xs : List A)
      → IsBuffer b
      → buffer_is_empty b ≡ false
      → let (i, b') = buffer_pop b in
        (x : A) × (contents b ≡ x ∷ contents b') × (buffer_at (push_all b' xs) i ≡ some x)
  buffer_pop_pointer b xs v left =
      let (v', x, e, c) = buffer_pop-contents b v left in
      (
        x,
        c,
        slot_kept xs (buffer_pop b).1 (buffer_pop b).0 v' (unfold buffer_pop in refl)
              (unfold buffer_pop in v.read_in)
            ∙ e,
      )
