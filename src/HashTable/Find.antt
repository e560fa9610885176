-- ===== src/HashTable/Find.antt =====
-- The search of `findPayments` and `findEarnings` along one chain.
use systems_programming.Base.{
  ◌≡◌, Bool, true, false, Option, none, some, List, [], ◌∷◌, ◌||◌, arith, if◌then◌else◌,
}
use systems_programming.Base.CString.{CString}
use systems_programming.HashTable.{
  TransEntry, HashedItem, Search, fault, absent, found, search_loop, search_chain,
}
use systems_programming.HashTable.Chain.{listed}

abbrev pub is_none {ℓ} : {A : Type ℓ} → Option A → Bool
is_none none = true
is_none (some x) = false

unfoldable pub has_unused : List HashedItem → Bool
has_unused [] = false
has_unused (item ∷ items) = is_none item.wallet_id || has_unused items

-- What a search finds in a chain: the wallet's list; else nothing, but a read through NULL if a
-- record of the chain is unused and the first one is not.
abbrev pub answer : Option (List TransEntry) → Bool → Search
answer (some l) unused = found l
answer none true = fault
answer none false = absent

search_loop-answer :
    (id : CString) (item : HashedItem) (items : List HashedItem)
    → search_loop id (item ∷ items) ≡ answer (listed id (item ∷ items)) (has_unused (item ∷ items))
unfolding search_loop listed has_unused
search_loop-answer id item [] = ground arith
search_loop-answer id item (next ∷ items) = ground (arith, search_loop-answer id next items)

-- On every chain of records: a wallet in front of the first unused record is found with all of its
-- transactions, and any other is reported as absent if the chain begins with an unused record or
-- has none. In the remaining case, an absent wallet in a chain with records both used and unused,
-- the search compares with NULL.
pub search_chain-answer :
    (id : CString) (item : HashedItem) (items : List HashedItem)
    → search_chain id (item ∷ items) ≡ (
        if is_none item.wallet_id
        then absent
        else answer (listed id (item ∷ items)) (has_unused (item ∷ items)))
unfolding search_chain
search_chain-answer id item items = ground (arith, search_loop-answer id item items)
