-- ===== src/BitCoin/Trace/Walk.antt =====
-- The loop of `traceCoin` ends: its fuel is enough.
use systems_programming.Base.{
  ℕ, zero, suc, ◌+◌, ◌<◌, ◌≢◌, inl, inr, Option, none, some, List, [], ◌∷◌, arith, ltb, Bool-cases,
  length,
}
use systems_programming.Base.CString.{CString}
use systems_programming.BitCoin.{
  Transaction, TransTree, null, node, Context, at_root, in_left, in_right, BitCoin, size,
}
use systems_programming.BitCoin.Trace.{
  Line, Trace, out_of_fuel, not_in, print_once, climb, leaf, visit, trace, traced, report,
  trace_coin,
}

-- The nodes that the loop has still to pass, left of the way to the root.
abbrev pending : Context → ℕ
pending at_root = 0
pending (in_right w a t l up) = size l + pending up
pending (in_left w a t r up) = pending up

module _ (slots : ℕ) where
  abbrev Loop : Type 0
  Loop = List Line → TransTree → Context → Trace

  abbrev Ends : ℕ → Loop → Type 0
  Ends fuel loop =
      (lines : List Line) (n : TransTree) (up : Context)
      → size n + pending up < fuel
      → loop lines n up ≢ out_of_fuel

  print_once_ends :
      (lines : List Line) (from to : CString) (t : Option Transaction) (next : List Line → Trace)
      → ((ls : List Line) → next ls ≢ out_of_fuel)
      → print_once slots lines from to t next ≢ out_of_fuel
  unfolding print_once
  print_once_ends lines from to none next h = λ e. cc
  print_once_ends lines from to (some tx) next h =
      elim (Bool-cases (not_in lines tx.transaction_id)) [
        | inl fresh ↦ elim (Bool-cases (ltb (length lines) slots)) [
          | inl room ↦ rw (fresh, room, print_once) (h _)
          | inr full ↦ rw (fresh, full, print_once) (λ e. cc)
        ]
        | inr old ↦ rw (old, print_once) (h _)
      ]

  climb-Ends :
      (fuel : ℕ) (loop : Loop)
      → Ends fuel loop
      → (lines : List Line) (n : TransTree) (up : Context) → pending up < fuel
      → climb loop lines n up ≢ out_of_fuel
  unfolding climb
  climb-Ends fuel loop c lines n at_root h = λ e. cc
  climb-Ends fuel loop c lines n (in_right w a t l up) h = c lines l (in_left w a t n up) h
  climb-Ends fuel loop c lines n (in_left w a t r up) h =
      climb-Ends fuel loop c lines (node w a t n r) up h

  leaf-Ends :
      (fuel : ℕ) (loop : Loop)
      → Ends fuel loop
      → (lines : List Line) (w : CString) (a : ℕ) (t : Option Transaction) (up : Context)
      → pending up < fuel
      → leaf loop slots lines w a t up ≢ out_of_fuel
  unfolding leaf
  leaf-Ends fuel loop c lines w a t at_root h = λ e. cc
  leaf-Ends fuel loop c lines w a t (in_left pw pa pt r up) h =
      print_once_ends lines pw w t _ (λ ls. climb-Ends fuel loop c ls _ (in_left pw pa pt r up) h)
  leaf-Ends fuel loop c lines w a t (in_right pw pa pt l up) h =
      print_once_ends lines pw w t _ (λ ls. climb-Ends fuel loop c ls _ (in_right pw pa pt l up) h)

  visit-Ends :
      (fuel : ℕ) (loop : Loop)
      → Ends fuel loop
      → (lines : List Line) (n : TransTree) (up : Context) → size n + pending up < suc fuel
      → visit loop slots lines n up ≢ out_of_fuel
  unfolding visit size
  visit-Ends fuel loop c lines null up h = λ e. cc
  visit-Ends fuel loop c lines (node w a t l (node wr b u lr rr)) up h =
      print_once_ends lines w wr u _
        (λ ls. c ls (node wr b u lr rr) (in_right w a t l up) (omega arith))
  visit-Ends fuel loop c lines (node w a t (node wl d v ll rl) null) up h =
      c lines (node wl d v ll rl) (in_left w a t null up) (omega arith)
  visit-Ends fuel loop c lines (node w a t null null) up h =
      leaf-Ends fuel loop c lines w a t up (omega arith)

  pub trace-Ends : (fuel : ℕ) → Ends fuel (trace slots fuel)
  unfolding trace
  trace-Ends zero lines n up h = absurd (omega arith)
  trace-Ends (suc fuel) lines n up h =
      visit-Ends fuel (trace slots fuel) (trace-Ends fuel) lines n up h

report_ends : (bc : BitCoin) (n : TransTree) → report bc n ≢ traced out_of_fuel
unfolding report
report_ends bc null = λ e. cc
report_ends bc (node w a t l null) = λ e. cc
report_ends bc (node w a t l (node wr b u lr rr)) = λ e.
    trace-Ends bc.num_of_transactions (size (node w a t l (node wr b u lr rr)) + 1) []
      (node w a t l (node wr b u lr rr)) at_root (omega arith) (cc)

-- The command ends on every list of coins, whatever their trees and counters.
pub trace_coin_ends : (id : ℕ) (coins : List BitCoin) → trace_coin id coins ≢ traced out_of_fuel
unfolding trace_coin
trace_coin_ends id [] = λ e. cc
trace_coin_ends id (bc ∷ []) = ground (arith, report_ends bc bc.root)
trace_coin_ends id (bc ∷ next ∷ rest) =
    ground (arith, report_ends bc bc.root, trace_coin_ends id (next ∷ rest))
