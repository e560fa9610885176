-- ===== src/HashTable/Example.antt =====
-- An empty table of two entries with buckets of two records, for the tests.
use systems_programming.Base.{ℕ, zero, suc, ◌<◌, ◌≢◌, refl, [], ◌∷◌, arith}
use systems_programming.HashTable.{HashTable, empty_item}
use systems_programming.HashTable.Chain.{IsPacked}
use systems_programming.HashTable.Table.{chain_at, IsTable}

abbrev pub table : HashTable
table = record {
  table = (empty_item ∷ empty_item ∷ []) ∷ (empty_item ∷ empty_item ∷ []) ∷ [];
  num_of_entries = 2;
  bucket_size = 64;
}

pub table-IsTable : IsTable table
table-IsTable = record {
  entries = refl;
  some_entry = omega arith;
  big = omega arith;
  not_nil = not_nil;
  packed = packed;
}
  where
    not_nil : (i : ℕ) → i < 2 → chain_at table i ≢ []
    not_nil zero h = λ e. cc
    not_nil (suc zero) h = λ e. cc
    not_nil (suc (suc i)) h = absurd (omega arith)

    packed : (i : ℕ) → i < 2 → IsPacked (chain_at table i)
    packed zero h = ((λ e. (refl, tt)), ((λ e. tt), tt))
    packed (suc zero) h = ((λ e. (refl, tt)), ((λ e. tt), tt))
    packed (suc (suc i)) h = absurd (omega arith)
