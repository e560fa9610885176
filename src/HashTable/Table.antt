-- ===== src/HashTable/Table.antt =====
-- The whole table as a map from wallets to their transactions.
use systems_programming.Base.{
  ℕ, zero, suc, ◌≤◌, ◌<◌, ◌≡◌, ◌≢◌, refl, ◌∙◌, ap, Option, none, some, List, [], ◌∷◌, ◌++◌, arith,
  ◌==◌, if◌then◌else◌, inl, inr, Bool-cases, length, get_or, set, length-set, get_or-set_self,
  get_or-set_ne, get_elem?-eq-get_or,
}
use systems_programming.Base.CString.{CString, str_eq, str_eq_iff}
use systems_programming.BitCoin.{Transaction}
use systems_programming.HashTable.{
  TransEntry, HashedItem, HashTable, item_size, djb2_hash, new_table, initialize_hash_table,
  add_transaction,
}
use systems_programming.HashTable.Chain.{
  listed, IsPacked, or_empty, new_bucket_lem, unused-IsPacked, listed_unused, add_chain-IsAdded,
}

abbrev pub chain_at : HashTable → ℕ → List HashedItem
chain_at ht i = get_or ht.table i []

pub record IsTable (ht : HashTable) : Type 0 where
  pub entries : length ht.table ≡ ht.num_of_entries
  pub some_entry : 0 < ht.num_of_entries
  pub big : item_size ≤ ht.bucket_size
  pub not_nil : (i : ℕ) → i < ht.num_of_entries → chain_at ht i ≢ []
  pub packed : (i : ℕ) → i < ht.num_of_entries → IsPacked (chain_at ht i)

-- The transactions that the table holds for a wallet.
unfoldable pub transactions_of : HashTable → CString → Option (List TransEntry)
transactions_of ht id = listed id (chain_at ht (djb2_hash id ht.num_of_entries))

-- The hash of a wallet is the index of an entry.
pub djb2_hash-lt : (id : CString) (n : ℕ) → 0 < n → djb2_hash id n < n
unfolding djb2_hash
djb2_hash-lt id n h = grind arith

length-new_table : (n : ℕ) (b : List HashedItem) → length (new_table n b) ≡ n
unfolding new_table
length-new_table zero b = refl
length-new_table (suc n) b = ap suc (length-new_table n b)

get_or-new_table : (n : ℕ) (b : List HashedItem) (i : ℕ) → i < n → get_or (new_table n b) i [] ≡ b
unfolding new_table
get_or-new_table zero b i h = absurd (omega arith)
get_or-new_table (suc n) b zero h = refl
get_or-new_table (suc n) b (suc i) h = get_or-new_table n b i (omega arith)

-- A new table of at least one entry, with buckets of at least one record, is well formed and holds
-- nothing for any wallet.
pub initialize_hash_table_lem :
    (n bucket_size : ℕ)
    → 0 < n
    → item_size ≤ bucket_size
    → (ht : HashTable) × (initialize_hash_table n bucket_size ≡ some ht)
      × IsTable ht
      × ((id : CString) → transactions_of ht id ≡ none)
unfolding initialize_hash_table
initialize_hash_table_lem n bucket_size pos big =
    let (first, rest, made, unused) = new_bucket_lem bucket_size big in
    let bucket = first ∷ rest in
    let at = get_or-new_table n bucket in
    (
      record { table = new_table n bucket; num_of_entries = n; bucket_size = bucket_size },
      rw (made, initialize_hash_table),
      record {
        entries = length-new_table n bucket;
        some_entry = pos;
        big = big;
        not_nil = λ i h. rw (at i h) (λ q. cc);
        packed = λ i h. rw (at i h) (unused-IsPacked bucket unused);
      },
      λ id.
          unfold transactions_of in
          rw (at (djb2_hash id n) (djb2_hash-lt id n pos)) (listed_unused id bucket unused),
    )

set-at :
    (t : List (List HashedItem)) (i : ℕ) (c : List HashedItem) (j : ℕ)
    → i < length t
    → get_or (set t i c) j [] ≡ (if i == j then c else get_or t j [])
set-at t i c j h = elim (Bool-cases (i == j)) [
  | inl e ↦ let i≡j : i ≡ j = ground arith in rw (e, ← i≡j) (get_or-set_self t i c [] h)
  | inr e ↦ rw e (get_or-set_ne t c [] (ground arith))
]

-- A table with one well-formed chain in place of another.
set-IsTable :
    (ht : HashTable) (i : ℕ) (c : List HashedItem)
    → IsTable ht
    → i < ht.num_of_entries
    → c ≢ []
    → IsPacked c
    → IsTable (record ht { table = set ht.table i c })
set-IsTable ht i c v h nn p = record {
  entries = length-set ht.table i c ∙ v.entries;
  some_entry = v.some_entry;
  big = v.big;
  not_nil = λ j k. elim (Bool-cases (i == j)) [
    | inl e ↦ rw (set-at ht.table i c j (omega (arith, v.entries)), e) nn
    | inr e ↦ rw (set-at ht.table i c j (omega (arith, v.entries)), e) (v.not_nil j k)
  ];
  packed = λ j k. elim (Bool-cases (i == j)) [
    | inl e ↦ rw (set-at ht.table i c j (omega (arith, v.entries)), e) p
    | inr e ↦ rw (set-at ht.table i c j (omega (arith, v.entries)), e) (v.packed j k)
  ];
}

-- An addition to a well-formed table succeeds and leaves it well formed: the transaction stands at
-- the end of the wallet's list, and every other wallet's list is as before.
pub add_transaction-maps :
    (ht : HashTable) (id other : CString) (tx : Transaction)
    → IsTable ht
    → let e : TransEntry = record { this_trans = tx; source_dest_wallet = other } in
      (ht' : HashTable) × (add_transaction ht id other tx ≡ some ht')
      × IsTable ht'
      × ((w : CString)
          → transactions_of ht' w ≡ (
              if str_eq id w
              then some (or_empty (transactions_of ht id) ++ e ∷ [])
              else transactions_of ht w))
unfolding add_transaction transactions_of
add_transaction-maps ht id other tx v =
    let e : TransEntry = record { this_trans = tx; source_dest_wallet = other } in
    let h = djb2_hash id ht.num_of_entries in
    let lt = djb2_hash-lt id ht.num_of_entries v.some_entry in
    let inside : h < length ht.table = omega (arith, v.entries) in
    let (chain, run, added) =
      add_chain-IsAdded ht.bucket_size v.big id e (chain_at ht h) (v.not_nil h lt)
        (v.packed h lt) in
    (
      record ht { table = set ht.table h chain },
      rw (get_elem?-eq-get_or ht.table h [] inside, run, add_transaction),
      set-IsTable ht h chain v lt added.not_nil added.packed,
      λ w. elim (Bool-cases (h == djb2_hash w ht.num_of_entries)) [
        | inl hit ↦
            let same : h ≡ djb2_hash w ht.num_of_entries = ground arith in
            rw (set-at ht.table h chain (djb2_hash w ht.num_of_entries) inside, hit, ← same)
              (added.maps w)
        | inr miss ↦
            rw (set-at ht.table h chain (djb2_hash w ht.num_of_entries) inside, miss)
              (ground (arith, str_eq_iff id w))
      ],
    )
