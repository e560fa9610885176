-- ===== src/HashTable.antt =====
-- SysPro_Project1/src/hashTable.c: the tables from a wallet to its transactions. An entry of the
-- table is the chain of records that `nextItem` leads through, bucket after bucket.
pub mod Chain
pub mod Table
pub mod Find
pub mod Window
pub mod Payments
pub mod Free
pub mod Example
mod Tests
use systems_programming.Base.{
  ℕ, zero, suc, ◌+◌, ◌-◌, ◌*◌, ◌/◌, ◌%◌, ◌^◌, Bool, true, false, Option, none, some, List, [], ◌∷◌,
  ◌++◌, ltb, ◌==◌, if◌then◌else◌, get_elem?, set,
}
use systems_programming.Base.Size.{size_mod}
use systems_programming.Base.CString.{CString, str_eq}
use systems_programming.BitCoin.{Transaction}

-- `TransList`: a transaction and the wallet at its other end.
pub record TransEntry : Type 0 where
  pub this_trans : Transaction
  pub source_dest_wallet : CString

-- `HashedItem`: `first` and `last` are the ends of a list.
pub record HashedItem : Type 0 where
  pub wallet_id : Option CString
  pub trans_list : List TransEntry

pub record HashTable : Type 0 where
  pub table : List (List HashedItem)
  pub num_of_entries : ℕ
  pub bucket_size : ℕ

abbrev pub empty_item : HashedItem
empty_item = record { wallet_id = none; trans_list = [] }

-- A `char` as the `int` that is added, modulo 2^64: it is signed.
abbrev pub char_value : ℕ → ℕ
char_value c = if ltb c 128 then c else size_mod + c - 256

unfoldable pub djb2_loop : ℕ → CString → ℕ
djb2_loop hash [] = hash
djb2_loop hash (c ∷ cs) =
    djb2_loop (((hash * 2 ^ 5) % size_mod + hash + char_value c) % size_mod) cs

unfoldable pub djb2_hash : CString → ℕ → ℕ
unfolding djb2_loop
djb2_hash id num_of_entries = djb2_loop 5381 id % num_of_entries

-- `sizeof(HashedItem)`: four pointers.
abbrev pub item_size : ℕ
item_size = 32

unfoldable pub empty_items : ℕ → List HashedItem
empty_items zero = []
empty_items (suc n) = empty_item ∷ empty_items n

-- A bucket that is too small for one record is written behind its end (`none`).
unfoldable pub new_bucket : ℕ → Option (List HashedItem)
unfolding empty_items
new_bucket bucket_size =
    if bucket_size / item_size == 0 then none else some (empty_items (bucket_size / item_size))

unfoldable pub new_table : ℕ → List HashedItem → List (List HashedItem)
new_table zero bucket = []
new_table (suc n) bucket = bucket ∷ new_table n bucket

unfoldable pub initialize_hash_table : ℕ → ℕ → Option HashTable
unfolding new_bucket new_table
initialize_hash_table num_of_entries bucket_size = elim (new_bucket bucket_size) [
  | none ↦ none
  | some bucket ↦ some (record {
    table = new_table num_of_entries bucket;
    num_of_entries = num_of_entries;
    bucket_size = bucket_size;
  })
]

abbrev pub filled : CString → TransEntry → HashedItem
filled id e = record { wallet_id = some id; trans_list = e ∷ [] }

-- The first record of a new bucket is filled.
unfoldable pub fill_first : CString → TransEntry → List HashedItem → Option (List HashedItem)
fill_first id e [] = none
fill_first id e (item ∷ items) = some (filled id e ∷ items)

-- `if (tmpItem->first == NULL)`: a list of one, or one more at the end.
unfoldable pub append_trans : List TransEntry → TransEntry → List TransEntry
append_trans [] e = e ∷ []
append_trans (x ∷ xs) e = x ∷ xs ++ e ∷ []

-- The loop of `addTransaction`, along the chain of one entry.
unfoldable pub add_chain : ℕ → CString → TransEntry → List HashedItem → Option (List HashedItem)
unfolding new_bucket fill_first append_trans
add_chain bucket_size id e [] = none
add_chain bucket_size id e (item ∷ items) =
    let later = add_chain bucket_size id e items in
    elim item.wallet_id [
      | none ↦ some (filled id e ∷ items)
      | some w ↦
          if str_eq w id
          then some (record item { trans_list = append_trans item.trans_list e } ∷ items)
          else elim items [
            | [] ↦ elim (new_bucket bucket_size) [
              | none ↦ none
              | some bucket ↦ elim (fill_first id e bucket) [
                | none ↦ none
                | some bucket' ↦ some (item ∷ bucket')
              ]
            ]
            | _ ↦ elim later [ none ↦ none | some items' ↦ some (item ∷ items') ]
          ]
    ]

-- `addTransaction`. The pointer that it returns is to the new list node, whose transaction is the
-- argument.
unfoldable pub add_transaction : HashTable → CString → CString → Transaction → Option HashTable
unfolding djb2_hash add_chain
add_transaction ht id other tx =
    let hash = djb2_hash id ht.num_of_entries in
    elim (get_elem? ht.table hash) [
      | none ↦ none
      | some chain ↦
          elim (add_chain ht.bucket_size id (record { this_trans = tx; source_dest_wallet = other })
            chain) [
              | none ↦ none
              | some chain' ↦ some (record ht { table = set ht.table hash chain' })
            ]
    ]

-- How the search of `findPayments` and `findEarnings` ends. `fault` is `strcmp` on NULL.
pub data Search : Type 0 where
  fault absent : Search
  found : List TransEntry → Search

-- `while (strcmp(item->walletID, walletID))`
unfoldable pub search_loop : CString → List HashedItem → Search
search_loop id [] = fault
search_loop id (item ∷ items) =
    let later = search_loop id items in
    elim item.wallet_id [
      | none ↦ fault
      | some w ↦
          if str_eq w id then found item.trans_list else elim items [ [] ↦ absent | _ ↦ later ]
    ]

unfoldable pub search_chain : CString → List HashedItem → Search
unfolding search_loop
search_chain id [] = fault
search_chain id (item ∷ items) = elim item.wallet_id [
  | none ↦ absent
  | some w ↦ search_loop id (item ∷ items)
]

unfoldable pub search_table : HashTable → CString → Search
unfolding search_chain djb2_hash
search_table ht id = elim (get_elem? ht.table (djb2_hash id ht.num_of_entries)) [
  | none ↦ fault
  | some chain ↦ search_chain id chain
]
