-- ===== src/HashTable/Free.antt =====
-- `freeSenderHashTable` and `freeReceiverHashTable`, as the sequence of what they free.
use systems_programming.Base.{
  true, false, ℕ, zero, suc, ◌+◌, ◌/◌, ◌==◌, leb, Option, none, some, List, [], ◌∷◌, ◌++◌, length,
}
use systems_programming.BitCoin.{Transaction}
use systems_programming.HashTable.{TransEntry, HashedItem, HashTable, item_size}

-- What is freed: a transaction with its ID, a node of a list, the bucket with a number in the
-- entry with a number, and the table.
pub data Freed : Type 0 where
  a_transaction : Transaction → Freed
  a_node : TransEntry → Freed
  a_bucket : (entry bucket : ℕ) → Freed
  the_table : Freed

-- `freeSenderHashedItem`: the loop frees a node when it has stepped to the next.
unfoldable pub free_sender_list : List TransEntry → List Freed
free_sender_list [] = []
free_sender_list (e ∷ []) = a_transaction e.this_trans ∷ a_node e ∷ []
free_sender_list (e ∷ f ∷ es) = a_transaction e.this_trans ∷ a_node e ∷ free_sender_list (f ∷ es)

-- `freeReceiverHashedItem`: the transactions are freed already.
unfoldable pub free_receiver_list : List TransEntry → List Freed
free_receiver_list [] = []
free_receiver_list (e ∷ []) = a_node e ∷ []
free_receiver_list (e ∷ f ∷ es) = a_node e ∷ free_receiver_list (f ∷ es)

module _ (free_list : List TransEntry → List Freed) where
  -- The loop along `nextItem`.
  unfoldable pub free_items : List HashedItem → List Freed
  free_items [] = []
  free_items (item ∷ []) = free_list item.trans_list
  free_items (item ∷ next ∷ items) = free_list item.trans_list ++ free_items (next ∷ items)

  unfoldable pub skip_records : ℕ → List HashedItem → List HashedItem
  skip_records zero items = items
  skip_records (suc n) [] = []
  skip_records (suc n) (item ∷ items) = skip_records n items

  -- The loop over the buckets of an entry, each of `n` records: the next bucket is what the last
  -- record of a bucket leads to. `none` is a read outside the bucket.
  unfoldable pub free_buckets : (fuel n entry bucket : ℕ) → List HashedItem → Option (List Freed)
  unfolding skip_records
  free_buckets zero n entry bucket items = none
  free_buckets (suc fuel) n entry bucket items = elim (n == 0) [
    | true ↦ none
    | false ↦ elim (leb n (length items)) [
      | false ↦ none
      | true ↦ elim (skip_records n items) [
        | [] ↦ some (a_bucket entry bucket ∷ [])
        | item ∷ rest ↦ elim (free_buckets fuel n entry (bucket + 1) (item ∷ rest)) [
          | none ↦ none
          | some fs ↦ some (a_bucket entry bucket ∷ fs)
        ]
      ]
    ]
  ]

  -- The loop over the entries.
  unfoldable pub free_entries : (n entry : ℕ) → List (List HashedItem) → Option (List Freed)
  unfolding free_items free_buckets
  free_entries n entry [] = some []
  free_entries n entry (items ∷ chains) = elim (free_buckets (length items + 1) n entry 0 items) [
    | none ↦ none
    | some fs ↦ elim (free_entries n (entry + 1) chains) [
      | none ↦ none
      | some gs ↦ some (free_items items ++ fs ++ gs)
    ]
  ]

  unfoldable pub free_hash_table : HashTable → Option (List Freed)
  unfolding free_entries
  free_hash_table ht = elim (free_entries (ht.bucket_size / item_size) 0 ht.table) [
    | none ↦ none
    | some fs ↦ some (fs ++ the_table ∷ [])
  ]

unfoldable pub free_sender_hash_table : HashTable → Option (List Freed)
unfolding free_hash_table free_sender_list
free_sender_hash_table = free_hash_table free_sender_list

unfoldable pub free_receiver_hash_table : HashTable → Option (List Freed)
unfolding free_hash_table free_receiver_list
free_receiver_hash_table = free_hash_table free_receiver_list
