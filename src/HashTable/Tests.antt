-- ===== src/HashTable/Tests.antt =====
-- A table of two entries with buckets of two records.
use systems_programming.Base.{
  ℕ, zero, suc, ◌<◌, ◌%◌, ◌≡◌, ◌≢◌, refl, arith, inr, map, true, some, [], ◌∷◌, ◌++◌, if◌then◌else◌,
}
use systems_programming.Base.CString.{CString, strcmp, str_eq}
use systems_programming.BitCoin.{Transaction}
use systems_programming.HashTable.Free.{
  a_transaction, a_node, a_bucket, the_table, free_sender_hash_table,
}
use systems_programming.HashTable.Example.{table, table-IsTable}
use systems_programming.HashTable.{
  TransEntry, HashTable, djb2_hash, empty_item, filled, initialize_hash_table, add_transaction,
  fault, absent, search_chain,
}
use systems_programming.HashTable.Chain.{IsPacked, listed, or_empty}
use systems_programming.HashTable.Find.{is_none, has_unused, answer, search_chain-answer}
use systems_programming.HashTable.Window.{
  printed, selected, sum_of, payment_line, earning_line, find_payments, find_earnings,
}
use systems_programming.HashTable.Payments.{is_between, find_payments-is_between}
use systems_programming.Base.Size.{size_mod}
use systems_programming.HashTable.Table.{chain_at, IsTable, transactions_of, add_transaction-maps}

abbrev alice : CString
alice = 97 ∷ []

abbrev bob : CString
bob = 98 ∷ []

abbrev tx : Transaction
tx = record { transaction_id = 49 ∷ []; value = 30; date_time = 100000 }

abbrev to_bob : TransEntry
to_bob = record { this_trans = tx; source_dest_wallet = bob }

table_made : initialize_hash_table 2 64 ≡ some table
unfolding initialize_hash_table
table_made = refl

-- A wallet that is not in a chain with a used and an unused record.
search_reads_null : search_chain bob (filled alice to_bob ∷ empty_item ∷ []) ≡ fault
unfolding search_chain strcmp
search_reads_null = refl

add_transaction-maps_example :
    let e : TransEntry = to_bob in
    (ht' : HashTable) × (add_transaction table alice bob tx ≡ some ht')
    × IsTable ht'
    × ((w : CString)
        → transactions_of ht' w ≡ (
            if str_eq alice w
            then some (or_empty (transactions_of table alice) ++ e ∷ [])
            else transactions_of table w))
add_transaction-maps_example = add_transaction-maps table alice bob tx table-IsTable

search_chain-answer_example : search_chain bob (filled alice to_bob ∷ empty_item ∷ []) ≡ (
    if is_none (some alice)
    then absent
    else answer
        (listed bob (filled alice to_bob ∷ empty_item ∷ []))
        (has_unused (filled alice to_bob ∷ empty_item ∷ [])))
search_chain-answer_example = search_chain-answer bob (filled alice to_bob) (empty_item ∷ [])

-- Two buckets of two records.
frees_all :
    free_sender_hash_table (record {
      table = (filled alice to_bob ∷ empty_item ∷ empty_item ∷ empty_item ∷ []) ∷ [];
      num_of_entries = 1;
      bucket_size = 64;
    })
    ≡ some (a_transaction tx ∷ a_node to_bob ∷ a_bucket 0 0 ∷ a_bucket 0 1 ∷ the_table ∷ [])
unfolding free_sender_hash_table
frees_all = refl

abbrev later_to_bob : TransEntry
later_to_bob = record {
  this_trans = record { transaction_id = 50 ∷ []; value = 12; date_time = 300000 };
  source_dest_wallet = bob;
}

-- Alice's payments, of 2 and of 4 January 1970.
abbrev paid : HashTable
paid = record {
  table =
      (record { wallet_id = some alice; trans_list = to_bob ∷ later_to_bob ∷ [] } ∷ empty_item ∷ [])
      ∷ (empty_item ∷ empty_item ∷ [])
      ∷ [];
  num_of_entries = 2;
  bucket_size = 64;
}

paid-IsTable : IsTable paid
paid-IsTable = record {
  entries = refl;
  some_entry = omega arith;
  big = omega arith;
  not_nil = not_nil;
  packed = packed;
}
  where
    not_nil : (i : ℕ) → i < 2 → chain_at paid i ≢ []
    not_nil zero h = λ e. cc
    not_nil (suc zero) h = λ e. cc
    not_nil (suc (suc i)) h = absurd (omega arith)

    packed : (i : ℕ) → i < 2 → IsPacked (chain_at paid i)
    packed zero h = ((λ e. (refl, tt)), ((λ e. tt), tt))
    packed (suc zero) h = ((λ e. (refl, tt)), ((λ e. tt), tt))
    packed (suc (suc i)) h = absurd (omega arith)

paid_transactions : transactions_of paid alice ≡ some (to_bob ∷ later_to_bob ∷ [])
unfolding transactions_of djb2_hash listed strcmp
paid_transactions = refl

-- Between 2 and 3 January there is the first one.
finds_the_first :
    find_payments paid alice 90000 200000 true ≡ printed 30 (payment_line alice to_bob ∷ [])
unfolding find_payments strcmp
finds_the_first = refl

find_payments-is_between_example :
    let hits = selected (is_between 90000 200000) (to_bob ∷ later_to_bob ∷ []) in
    (find_payments paid alice 90000 200000 true
      ≡ printed (sum_of hits % size_mod) (map (payment_line alice) hits))
    × (find_earnings paid alice 90000 200000 true
        ≡ printed (sum_of hits % size_mod) (map (earning_line alice) hits))
find_payments-is_between_example =
    find_payments-is_between paid alice to_bob (later_to_bob ∷ []) 90000 200000 paid-IsTable
      paid_transactions (inr (omega arith))
