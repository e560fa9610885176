-- ===== src/BitCoin/Trace/Skips.antt =====
-- Transactions that `traceCoin` does not print.
use systems_programming.Base.{
  true, length, ◌++◌, ◌∙◌, false, ◌<◌, lt→ltb, ℕ, suc, ◌+◌, ◌≡◌, refl, ap, Option, none, some, [],
  List, ◌∷◌, arith, ltb, if◌then◌else◌,
}
use systems_programming.Base.Size.{sub_size}
use mathlib.Core.Option.{some-injective}
use systems_programming.Base.CString.{CString, str_eq, str_eq_iff}
use systems_programming.BitCoin.{
  Transaction, TransTree, null, node, at_root, in_right, BitCoin, size, bit_coin_initialization,
  make_bc_transaction, transact, tree_node_initialization,
}
use systems_programming.BitCoin.Trace.{
  Line, Trace, climb, not_in, printed, print_once, overflow, trace, traced, report, trace_coin,
}

-- A coin whose first receiver passed all of the share on: the root's right child has no left
-- child, and its right child is a leaf.
abbrev pub spent_on :
    (w wr wx : CString) (a b c : ℕ) (t u v : Option Transaction) → TransTree → TransTree
spent_on w wr wx a b c t u v l = node w a t l (node wr b u null (node wx c v null null))

module _ (slots : ℕ) (lines : List Line) (from to : CString) (tr : Transaction)
    (next : List Line → Trace) where
  print_new :
      not_in lines tr.transaction_id ≡ true
      → length lines < slots
      → print_once slots lines from to (some tr) next
        ≡ next (lines ++ record { transaction = tr; sender = from; receiver = to } ∷ [])
  unfolding print_once
  print_new new room = rw (new, print_once, lt→ltb (length lines) slots room) refl

  print_old :
      not_in lines tr.transaction_id ≡ false
      → print_once slots lines from to (some tr) next ≡ next lines
  unfolding print_once
  print_old old = rw (old, print_once) refl

module _ (w wr wx : CString) (a b c : ℕ) (t : Option Transaction) (x y : Transaction) where
  -- The two lines of the spent share.
  abbrev pub spent_lines : List Line
  spent_lines =
      record { transaction = x; sender = w; receiver = wr }
      ∷ record { transaction = y; sender = wr; receiver = wx }
      ∷ []

  trace-spent_on :
      (k fuel : ℕ) (l : TransTree)
      → str_eq x.transaction_id y.transaction_id ≡ false
      → 1 < k
      → trace k
          (suc (suc (suc (suc fuel))))
          []
          (spent_on w wr wx a b c t (some x) (some y) l)
          at_root
        ≡ printed spent_lines
  unfolding trace not_in
  trace-spent_on k fuel l apart room =
      let self = (str_eq_iff y.transaction_id y.transaction_id).1 refl in
      let leaf = node wx c (some y) null null in
      let below = in_right w a t l at_root in
      let bottom = in_right wr b (some x) null below in
      print_new k [] w wr x
        (λ ls. trace k (suc (suc (suc fuel))) ls (node wr b (some x) null leaf) below) refl
        (omega arith)
      ∙ print_new k (record { transaction = x; sender = w; receiver = wr } ∷ []) wr wx y
          (λ ls. trace k (suc (suc fuel)) ls leaf bottom) (rw apart refl) room
      ∙ print_old k spent_lines wr wx y (λ ls. climb (trace k (suc fuel)) ls leaf bottom)
          (rw (apart, self) refl)

  fuel_of_size :
      (l : TransTree)
      → size (spent_on w wr wx a b c t (some x) (some y) l) + 1 ≡ suc (suc (suc (suc (size l))))
  unfolding size
  fuel_of_size l = omega arith

  abbrev pub coin : ℕ → ℕ → TransTree → BitCoin
  coin id k l = record {
    id = id;
    num_of_transactions = k;
    root = spent_on w wr wx a b c t (some x) (some y) l;
  }

  report-spent_on :
      (id k : ℕ) (l : TransTree)
      → str_eq x.transaction_id y.transaction_id ≡ false
      → 1 < k
      → report (coin id k l) (coin id k l).root ≡ traced (printed spent_lines)
  unfolding report
  report-spent_on id k l apart room =
      ap (λ f. traced (trace k f [] (coin id k l).root at_root)) (fuel_of_size l)
      ∙ (ap traced (trace-spent_on k (size l) l apart room))

  -- A coin whose first receiver has passed all of its share on, in transactions with two IDs, and
  -- whose counter is at least two: the command prints these two transactions and then stops,
  -- whatever transactions the first owner's remaining share (the left subtree `l`) has been in.
  pub trace_coin_skips_left :
      (id k : ℕ) (l : TransTree) (rest : List BitCoin)
      → str_eq x.transaction_id y.transaction_id ≡ false
      → 1 < k
      → trace_coin id (coin id k l ∷ rest) ≡ traced (printed spent_lines)
  unfolding trace_coin
  trace_coin_skips_left id k l [] apart room = ground (arith, report-spent_on id k l apart room)
  trace_coin_skips_left id k l (bc ∷ rest) apart room =
      ground (arith, report-spent_on id k l apart room)

report_overflow :
    (bc : BitCoin) (w wr : CString) (a b : ℕ) (t : Option Transaction) (tx : Transaction)
    (l : TransTree)
    → bc.num_of_transactions ≡ 0
    → report bc (node w a t l (node wr b (some tx) null null)) ≡ traced overflow
unfolding report
report_overflow bc w wr a b t tx l e = rw (e, fuel_of_size) (unfold trace in refl)
  where
    fuel_of_size :
        size (node w a t l (node wr b (some tx) null null)) + 1 ≡ suc (suc (suc (size l)))
    fuel_of_size = unfold size in omega arith

-- When the first transaction of a new coin is made by `makeBCTransaction` alone, which then returns
-- the amount, it has no slot in `transArray`, since it is not counted there: printing it writes
-- behind the array, whatever the coin's ID and value, the wallets, the amount and the transaction.
-- (`makeTransaction` counts the transaction of a coin that it uses up itself.)
pub trace_coin_overflow_first :
    (id value amount : ℕ) (wallet receiver : CString) (tx : Transaction) (bc : BitCoin)
    → make_bc_transaction (bit_coin_initialization id wallet value) amount wallet receiver (some tx)
      ≡ some (bc, amount)
    → (rest : List BitCoin) → trace_coin id (bc ∷ rest) ≡ traced overflow
unfolding make_bc_transaction transact bit_coin_initialization
trace_coin_overflow_first id value amount wallet receiver tx bc made rest =
    rw (← made_bc) (run rest)
  where
    coin : BitCoin
    coin = record {
      id = id;
      num_of_transactions = 0;
      root =
          node wallet value none
            (if ltb amount value
              then tree_node_initialization wallet (sub_size value amount) (some tx)
              else null)
            (tree_node_initialization receiver amount (some tx));
    }

    made_bc : coin ≡ bc
    made_bc = ap (λ (p : BitCoin × ℕ). p.0) (some-injective _ _ made)

    here : report coin coin.root ≡ traced overflow
    here = report_overflow coin wallet receiver value amount none tx _ refl

    run : (rest : List BitCoin) → trace_coin id (coin ∷ rest) ≡ traced overflow
    run [] = unfold trace_coin in ground (arith, here)
    run (next ∷ rest) = unfold trace_coin in ground (arith, here)
