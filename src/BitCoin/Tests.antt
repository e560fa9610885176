-- ===== src/BitCoin/Tests.antt =====
-- A coin of alice's, of which bob gets a part: runs, and the theorems at these values.
use systems_programming.Base.{◌≡◌, ◌≢◌, refl, none, some, [], ◌∷◌, arith, min}
use systems_programming.Base.Size.{add_size}
use systems_programming.Base.CString.{CString, strcmp}
use systems_programming.BitCoin.{
  Transaction, TransTree, null, node, BitCoin, bit_coin_initialization, make_bc_transaction,
  transact,
}
use systems_programming.BitCoin.Owned.{owned, IsCoin}
use systems_programming.BitCoin.Transact.{make_bc_transaction-min}
use systems_programming.BitCoin.Parts.{IsTransfer}
use systems_programming.BitCoin.Shares.{IsShared, make_bc_transaction-IsShared}
use systems_programming.BitCoin.Trace.{printed, overflow, out_of_fuel, traced, trace_coin}
use systems_programming.BitCoin.Trace.Walk.{trace_coin_ends}
use systems_programming.BitCoin.Trace.Skips.{
  spent_lines, coin, trace_coin_skips_left, trace_coin_overflow_first,
}
use systems_programming.BitCoin.Free.{free_tree, post_order, free_tree-post_order}

abbrev alice : CString
alice = 97 ∷ []

abbrev bob : CString
bob = 98 ∷ []

abbrev carol : CString
carol = 99 ∷ []

abbrev pay_bob : Transaction
pay_bob = record { transaction_id = 49 ∷ []; value = 30; date_time = 1000 }

abbrev pay_carol : Transaction
pay_carol = record { transaction_id = 50 ∷ []; value = 80; date_time = 2000 }

abbrev fresh : BitCoin
fresh = bit_coin_initialization 7 alice 100

abbrev used_root : TransTree
used_root =
    node alice 100 none (node alice 70 (some pay_bob) null null)
      (node bob 30 (some pay_bob) null null)

abbrev used : BitCoin
used = record { id = 7; num_of_transactions = 0; root = used_root }

first_payment : make_bc_transaction fresh 30 alice bob (some pay_bob) ≡ some (used, 30)
unfolding make_bc_transaction transact bit_coin_initialization
first_payment = refl

-- alice owns 70 of the coin, which is all that a payment of 80 transfers.
short_payment :
    make_bc_transaction used 80 alice carol (some pay_carol)
    ≡ some (
      record {
        id = 7;
        num_of_transactions = 1;
        root =
            node alice 100 none
              (node alice 70 (some pay_bob) null (node carol 70 (some pay_carol) null null))
              (node bob 30 (some pay_bob) null null);
      },
      70,
    )
unfolding make_bc_transaction transact strcmp
short_payment = refl

used-IsCoin : IsCoin used_root
used-IsCoin = record { balanced = (refl, refl, tt, tt); small = omega arith }

alice-ne-carol : alice ≢ carol
alice-ne-carol e = ground arith

make_bc_transaction-IsShared_example :
    (bc' : BitCoin) × (make_bc_transaction used 20 alice carol (some pay_carol) ≡ some (bc', 20))
    × IsShared alice carol 20 used_root bc'.root
    × (bc'.id ≡ 7)
unfolding owned strcmp
make_bc_transaction-IsShared_example =
    make_bc_transaction-IsShared alice carol (some pay_carol) 20 used alice-ne-carol (λ e. cc)
      used-IsCoin (omega arith)

make_bc_transaction-min_example :
    (bc' : BitCoin) × (make_bc_transaction used 80 alice carol (some pay_carol)
      ≡ some (bc', min 80 (owned alice used_root)))
    × IsTransfer alice carol (min 80 (owned alice used_root)) used_root bc'.root
    × (bc'.num_of_transactions ≡ add_size 0 1)
make_bc_transaction-min_example =
    make_bc_transaction-min alice carol (some pay_carol) 80 used (λ e. ground arith) (λ e. cc)
      used-IsCoin (omega arith)

trace_coin_ends_example : trace_coin 7 (used ∷ []) ≢ traced out_of_fuel
trace_coin_ends_example = trace_coin_ends 7 (used ∷ [])

-- The remaining share was in a transaction with the ID 51, which is not printed.
abbrev pay_more : Transaction
pay_more = record { transaction_id = 51 ∷ []; value = 70; date_time = 1000 }

trace_coin_skips_left_example :
    trace_coin 7 (
      coin alice bob carol 100 30 30 none pay_bob pay_carol 7 3
        (node alice 70 (some pay_bob) null (node bob 70 (some pay_more) null null))
      ∷ [])
    ≡ traced (printed (spent_lines alice bob carol 100 30 30 none pay_bob pay_carol))
unfolding strcmp
trace_coin_skips_left_example =
    trace_coin_skips_left alice bob carol 100 30 30 none pay_bob pay_carol 7 3
      (node alice 70 (some pay_bob) null (node bob 70 (some pay_more) null null)) [] refl
      (omega arith)

trace_coin_overflow_first_example : trace_coin 7 (used ∷ []) ≡ traced overflow
trace_coin_overflow_first_example =
    trace_coin_overflow_first 7 100 30 alice bob pay_bob used first_payment []

free_tree-post_order_example : free_tree used_root ≡ some (post_order used_root)
free_tree-post_order_example = free_tree-post_order used_root
