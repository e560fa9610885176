-- ===== src/BitCoin/Trace.antt =====
-- `traceCoin` of SysPro_Project1/src/bitCoin.c, as the lines that it prints.
pub mod Walk
pub mod Skips
use systems_programming.Base.{
  ℕ, zero, suc, ◌+◌, Bool, true, false, Option, none, some, List, [], ◌∷◌, ◌++◌, ltb, ◌==◌,
  if◌then◌else◌, length,
}
use systems_programming.Base.CString.{CString, str_eq}
use systems_programming.BitCoin.{
  Transaction, TransTree, null, node, Context, at_root, in_left, in_right, BitCoin, size,
}

-- A printed line: the transaction, its sender and its receiver.
pub record Line : Type 0 where
  pub transaction : Transaction
  pub sender : CString
  pub receiver : CString

-- How a trace ends. `overflow` is a write behind the end of `transArray`, which has one slot for
-- each counted transaction; `fault` is a read through NULL.
pub data Trace : Type 0 where
  printed : List Line → Trace
  overflow fault out_of_fuel : Trace

-- The IDs in `transArray` are those of the lines printed.
unfoldable pub not_in : List Line → CString → Bool
not_in [] id = true
not_in (x ∷ xs) id = if str_eq x.transaction.transaction_id id then false else not_in xs id

-- One node: its line, unless its transaction has been printed.
unfoldable pub print_once :
    ℕ → List Line → CString → CString → Option Transaction → (List Line → Trace) → Trace
unfolding not_in
print_once slots lines from to none next = fault
print_once slots lines from to (some tr) next = elim (not_in lines tr.transaction_id) [
  | true ↦ elim (ltb (length lines) slots) [
    | true ↦ next (lines ++ record { transaction = tr; sender = from; receiver = to } ∷ [])
    | false ↦ overflow
  ]
  | false ↦ next lines
]

-- From a leaf, up while the node is a left child, then over to the left brother; `break` at the
-- root.
unfoldable pub climb :
    (loop : List Line → TransTree → Context → Trace) → List Line → TransTree → Context → Trace
climb loop lines n at_root = printed lines
climb loop lines n (in_right w a t l up) = loop lines l (in_left w a t n up)
climb loop lines n (in_left w a t r up) = climb loop lines (node w a t n r) up

-- The line of a leaf, which needs the leaf's parent.
unfoldable pub leaf :
    (loop : List Line → TransTree → Context → Trace)
    → ℕ
    → List Line
    → CString
    → ℕ
    → Option Transaction
    → Context
    → Trace
unfolding print_once climb
leaf loop slots lines w a t at_root = fault
leaf loop slots lines w a t (in_left pw pa pt r up) =
    print_once slots lines pw w t
      (λ ls. climb loop ls (node w a t null null) (in_left pw pa pt r up))
leaf loop slots lines w a t (in_right pw pa pt l up) =
    print_once slots lines pw w t
      (λ ls. climb loop ls (node w a t null null) (in_right pw pa pt l up))

-- One round of `while (node != NULL)`.
unfoldable pub visit :
    (loop : List Line → TransTree → Context → Trace) → ℕ → List Line → TransTree → Context → Trace
unfolding leaf
visit loop slots lines null up = printed lines
visit loop slots lines (node w a t l (node wr b u lr rr)) up =
    print_once slots lines w wr u (λ ls. loop ls (node wr b u lr rr) (in_right w a t l up))
visit loop slots lines (node w a t (node wl c v ll rl) null) up =
    loop lines (node wl c v ll rl) (in_left w a t null up)
visit loop slots lines (node w a t null null) up = leaf loop slots lines w a t up

unfoldable pub trace : ℕ → ℕ → List Line → TransTree → Context → Trace
unfolding visit
trace slots zero lines n up = out_of_fuel
trace slots (suc fuel) lines n up = visit (trace slots fuel) slots lines n up

-- What the command prints for a coin that exists.
pub data Report : Type 0 where
  not_involved : ℕ → Report
  traced : Trace → Report
  no_coin : ℕ → Report

unfoldable pub report : BitCoin → TransTree → Report
unfolding trace size
report bc null = traced fault
report bc (node w a t l null) = not_involved bc.id
report bc (node w a t l (node wr b u lr rr)) =
    let n = node w a t l (node wr b u lr rr) in
    traced (trace bc.num_of_transactions (size n + 1) [] n at_root)

unfoldable pub trace_coin : ℕ → List BitCoin → Report
unfolding report
trace_coin id [] = traced fault
trace_coin id (bc ∷ []) = if id == bc.id then report bc bc.root else no_coin id
trace_coin id (bc ∷ next ∷ rest) =
    if id == bc.id then report bc bc.root else trace_coin id (next ∷ rest)
