-- ===== src/BitCoin/Pay.antt =====
-- What the loop of `makeBCTransaction` does, by recursion on the tree instead of a cursor: the
-- leaves from left to right, each settled while the transferred amount is short.
use systems_programming.Base.{ℕ, ◌+◌, ◌≤◌, ◌≡◌, refl, ap₂, ◌≢◌, Option, arith, ltb, if◌then◌else◌}
use systems_programming.Base.CString.{CString}
use systems_programming.BitCoin.{
  Transaction, TransTree, null, node, Context, at_root, in_left, in_right, settle, plug, size,
}

-- Every node with a left child has a right child.
abbrev pub IsFull : TransTree → Type 0
IsFull null = Unit
IsFull (node w a t (node lw la lt ll lr) null) = ⊥
IsFull (node w a t (node lw la lt ll lr) (node rc ra rt rl rr)) =
    IsFull (node lw la lt ll lr) × IsFull (node rc ra rt rl rr)
IsFull (node w a t null r) = IsFull r

-- The same of what hangs beside the way from a node to the root.
abbrev pub IsFullAbove : Context → Type 0
IsFullAbove at_root = Unit
IsFullAbove (in_left w a t r up) = (r ≢ null) × IsFull r × IsFullAbove up
IsFullAbove (in_right w a t l up) = IsFullAbove up

-- The number of nodes that the loop has still to pass, right of the way to the root.
abbrev pub pending : Context → ℕ
pending at_root = 0
pending (in_left w a t r up) = size r + pending up
pending (in_right w a t l up) = pending up

module _ (sender receiver : CString) (trans : Option Transaction) (amount : ℕ) where
  -- The amount transferred once a tree is passed.
  unfoldable pub paid : ℕ → TransTree → ℕ
  paid got null = got
  paid got (node w a t null null) =
      if ltb got amount then (settle sender receiver trans amount got w a t).1 else got
  paid got (node w a t l r) = paid (paid got l) r

  -- The tree once it is passed.
  unfoldable pub pay : ℕ → TransTree → TransTree
  unfolding paid
  pay got null = null
  pay got (node w a t null null) =
      if ltb got amount
      then (settle sender receiver trans amount got w a t).0
      else node w a t null null
  pay got (node w a t l r) = node w a t (pay got l) (pay (paid got l) r)

  -- The rest of the walk, from a passed subtree up to the root.
  unfoldable pub finish : TransTree → ℕ → Context → TransTree × ℕ
  unfolding paid pay
  finish n got at_root = (n, got)
  finish n got (in_right w a t l up) = finish (node w a t l n) got up
  finish n got (in_left w a t r up) = finish (node w a t n (pay got r)) (paid got r) up

  pub paid_done : (n : TransTree) (got : ℕ) → amount ≤ got → paid got n ≡ got
  unfolding paid
  paid_done null got h = refl
  paid_done (node w a t null null) got h = ground arith
  paid_done (node w a t null (node rc ra rt rl rr)) got h = paid_done (node rc ra rt rl rr) got h
  paid_done (node w a t (node lw la lt ll lr) r) got h =
      rw (paid_done (node lw la lt ll lr) got h) (paid_done r got h)

  pub pay_done : (n : TransTree) (got : ℕ) → amount ≤ got → pay got n ≡ n
  unfolding pay
  pay_done null got h = refl
  pay_done (node w a t null null) got h = ground arith
  pay_done (node w a t null (node rc ra rt rl rr)) got h =
      ap₂ (node w a t) refl (pay_done (node rc ra rt rl rr) got h)
  pay_done (node w a t (node lw la lt ll lr) r) got h =
      rw (paid_done (node lw la lt ll lr) got h)
        (ap₂ (node w a t) (pay_done (node lw la lt ll lr) got h) (pay_done r got h))

  pub finish_done :
      (up : Context) (n : TransTree) (got : ℕ) → amount ≤ got → finish n got up ≡ (plug n up, got)
  unfolding finish plug
  finish_done at_root n got h = refl
  finish_done (in_left w a t r up) n got h =
      rw (paid_done r got h, pay_done r got h) (finish_done up (node w a t n r) got h)
  finish_done (in_right w a t l up) n got h = finish_done up (node w a t l n) got h
