-- ===== src/Buffer/Tests.antt =====
-- A buffer of three slots, of which two are taken round its end.
use systems_programming.Base.{ℕ, ◌≡◌, refl, some, List, [], ◌∷◌, arith}
use systems_programming.Buffer.{
  Buffer, buffer_is_empty, buffer_is_full, buffer_push, buffer_pop, buffer_at,
}
use systems_programming.Buffer.Refine.{
  IsBuffer, contents, push_all, buffer_push-contents, buffer_pop-contents, buffer_pop_pointer,
}

abbrev wrapped : Buffer ℕ
wrapped = record { circ_buffer = 9 ∷ 7 ∷ 8 ∷ 6 ∷ []; size = 4; read = 2; write = 1 }

abbrev storage : List ℕ
storage = 9 ∷ 7 ∷ 8 ∷ []

abbrev two_left : Buffer ℕ
two_left = record { circ_buffer = 9 ∷ 7 ∷ 8 ∷ 6 ∷ []; size = 4; read = 2; write = 0 }

wrapped-IsBuffer : IsBuffer wrapped
wrapped-IsBuffer = omega arith

two_left-IsBuffer : IsBuffer two_left
two_left-IsBuffer = omega arith

contents-wrapped : contents 0 wrapped ≡ 8 ∷ 6 ∷ 9 ∷ []
contents-wrapped = refl

buffer_push-contents_example :
    IsBuffer (buffer_push two_left 5) × (contents 0 (buffer_push two_left 5) ≡ 8 ∷ 6 ∷ 5 ∷ [])
unfolding buffer_is_full
buffer_push-contents_example = buffer_push-contents 0 two_left 5 two_left-IsBuffer refl

buffer_pop-contents_example :
    let (i, b') = buffer_pop wrapped in
    IsBuffer b' × (x : ℕ) × (buffer_at b' i ≡ some x) × (contents 0 wrapped ≡ x ∷ contents 0 b')
unfolding buffer_is_empty
buffer_pop-contents_example = buffer_pop-contents 0 wrapped wrapped-IsBuffer refl

-- The second push finds the buffer full.
buffer_pop_pointer_example :
    let (i, b') = buffer_pop wrapped in
    (x : ℕ) × (contents 0 wrapped ≡ x ∷ contents 0 b')
    × (buffer_at (push_all 0 b' (1 ∷ 2 ∷ [])) i ≡ some x)
unfolding buffer_is_empty
buffer_pop_pointer_example = buffer_pop_pointer 0 wrapped (1 ∷ 2 ∷ []) wrapped-IsBuffer refl
