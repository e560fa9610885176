-- ===== src/BitCoin/Free.antt =====
-- `freeTree` and `freeBitCoins` of SysPro_Project1/src/bitCoin.c, as the sequence of `free` calls.
use systems_programming.Base.{
  ℕ, zero, suc, ◌+◌, ◌*◌, ◌<◌, ◌≡◌, refl, ◌∙◌, ap, ◌≢◌, Option, none, some, List, [], ◌∷◌, ◌++◌,
  arith,
}
use mathlib.Core.List.{append_assoc, append-nil}
use systems_programming.Base.CString.{CString}
use systems_programming.BitCoin.{
  Transaction, TransTree, null, node, Context, at_root, in_left, in_right, BitCoin, size,
}

-- One `free`: of a tree node, with what it holds, or of a coin.
pub data Free : Type 0 where
  free_node : CString → ℕ → Option Transaction → Free
  free_coin : ℕ → Free

-- `tmpParent` is always the parent of `node`, so it is the first step of the context. A freed
-- node is unlinked from its parent.
unfoldable pub visit :
    (loop : List Free → TransTree → Context → Option (List Free))
    → List Free
    → TransTree
    → Context
    → Option (List Free)
visit loop freed null up = some freed
visit loop freed (node w a t (node wl c v ll rl) r) up =
    loop freed (node wl c v ll rl) (in_left w a t r up)
visit loop freed (node w a t null (node wr b u lr rr)) up =
    loop freed (node wr b u lr rr) (in_right w a t null up)
visit loop freed (node w a t null null) at_root = some (freed ++ free_node w a t ∷ [])
visit loop freed (node w a t null null) (in_left pw pa pt r up) =
    loop (freed ++ free_node w a t ∷ []) (node pw pa pt null r) up
visit loop freed (node w a t null null) (in_right pw pa pt l up) =
    loop (freed ++ free_node w a t ∷ []) (node pw pa pt l null) up

unfoldable pub free_loop : ℕ → List Free → TransTree → Context → Option (List Free)
unfolding visit
free_loop zero freed n up = none
free_loop (suc fuel) freed n up = visit (free_loop fuel) freed n up

unfoldable pub free_tree : TransTree → Option (List Free)
unfolding free_loop size
free_tree root = free_loop (2 * size root + 1) [] root at_root

-- The loop follows `nextBC`; an empty list is read through NULL.
unfoldable pub free_bit_coins : List BitCoin → Option (List Free)
unfolding free_tree
free_bit_coins [] = none
free_bit_coins (bc ∷ []) = elim (free_tree bc.root) [
  | none ↦ none
  | some fs ↦ some (fs ++ free_coin bc.id ∷ [])
]
free_bit_coins (bc ∷ next ∷ rest) =
    let others = free_bit_coins (next ∷ rest) in
    elim (free_tree bc.root) [
      | none ↦ none
      | some fs ↦ elim others [ none ↦ none | some gs ↦ some (fs ++ free_coin bc.id ∷ gs) ]
    ]

-- The nodes of a tree, each once and behind its children.
unfoldable pub post_order : TransTree → List Free
post_order null = []
post_order (node w a t l r) = post_order l ++ (post_order r ++ free_node w a t ∷ [])

-- What is still to be freed above a node.
abbrev above : Context → List Free
above at_root = []
above (in_left w a t r up) = post_order r ++ (free_node w a t ∷ above up)
above (in_right w a t l up) = post_order l ++ (free_node w a t ∷ above up)

abbrev weight : Context → ℕ
weight at_root = 0
weight (in_left w a t r up) = 2 * size r + 1 + weight up
weight (in_right w a t l up) = 2 * size l + 1 + weight up

abbrev Frees : ℕ → (List Free → TransTree → Context → Option (List Free)) → Type 0
Frees fuel loop =
    (freed : List Free) (n : TransTree) (up : Context)
    → n ≢ null
    → 2 * size n + weight up < fuel
    → loop freed n up ≡ some (freed ++ (post_order n ++ above up))

visit-Frees :
    (fuel : ℕ) (loop : List Free → TransTree → Context → Option (List Free))
    → Frees fuel loop
    → (freed : List Free) (n : TransTree) (up : Context) → n ≢ null
    → 2 * size n + weight up < suc fuel
    → visit loop freed n up ≡ some (freed ++ (post_order n ++ above up))
unfolding visit post_order size
visit-Frees fuel loop c freed null up nn h = absurd (nn refl)
visit-Frees fuel loop c freed (node w a t (node wl d v ll rl) r) up nn h =
    c freed (node wl d v ll rl) (in_left w a t r up) (λ e. cc) (omega arith) ∙ simp append_assoc
visit-Frees fuel loop c freed (node w a t null (node wr b u lr rr)) up nn h =
    c freed (node wr b u lr rr) (in_right w a t null up) (λ e. cc) (omega arith) ∙ simp append_assoc
visit-Frees fuel loop c freed (node w a t null null) at_root nn h = refl
visit-Frees fuel loop c freed (node w a t null null) (in_left pw pa pt r up) nn h =
    c (freed ++ free_node w a t ∷ []) (node pw pa pt null r) up (λ e. cc) (omega arith)
    ∙ simp append_assoc
visit-Frees fuel loop c freed (node w a t null null) (in_right pw pa pt l up) nn h =
    c (freed ++ free_node w a t ∷ []) (node pw pa pt l null) up (λ e. cc) (omega arith)
    ∙ simp append_assoc

free_loop-Frees : (fuel : ℕ) → Frees fuel (free_loop fuel)
unfolding free_loop
free_loop-Frees zero freed n up nn h = absurd (omega arith)
free_loop-Frees (suc fuel) freed n up nn h =
    visit-Frees fuel (free_loop fuel) (free_loop-Frees fuel) freed n up nn h

-- `freeTree` ends on every tree and frees each of its nodes exactly once, children first.
pub free_tree-post_order : (root : TransTree) → free_tree root ≡ some (post_order root)
unfolding free_tree
free_tree-post_order null = unfold free_loop visit post_order size in refl
free_tree-post_order (node w a t l r) =
    free_loop-Frees (2 * size (node w a t l r) + 1) [] (node w a t l r) at_root (λ e. cc)
      (omega arith)
    ∙ ap some (append-nil _)
