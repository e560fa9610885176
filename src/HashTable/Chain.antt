-- ===== src/HashTable/Chain.antt =====
-- One chain as a map from wallets to their transactions.
use systems_programming.Base.{
  ℕ, zero, suc, ◌/◌, ◌≤◌, ◌≡◌, ◌≢◌, refl, true, false, Option, none, some, List, [], ◌∷◌, ◌++◌,
  arith, if◌then◌else◌, inl, inr, Bool-cases, Option-cases,
}
use systems_programming.Base.CString.{CString, str_eq, str_eq_iff}
use systems_programming.HashTable.{
  TransEntry, HashedItem, empty_item, item_size, empty_items, new_bucket, filled, fill_first,
  append_trans, add_chain,
}

-- The list of the first record of a wallet, up to the first unused record.
unfoldable pub listed : CString → List HashedItem → Option (List TransEntry)
listed id [] = none
listed id (item ∷ items) = elim item.wallet_id [
  | none ↦ none
  | some w ↦ if str_eq w id then some item.trans_list else listed id items
]

-- Behind an unused record all records are unused.
abbrev pub AreUnused : List HashedItem → Type 0
AreUnused [] = Unit
AreUnused (item ∷ items) = (item.wallet_id ≡ none) × AreUnused items

abbrev pub IsPacked : List HashedItem → Type 0
IsPacked [] = Unit
IsPacked (item ∷ items) = (item.wallet_id ≡ none → AreUnused items) × IsPacked items

abbrev pub or_empty : Option (List TransEntry) → List TransEntry
or_empty none = []
or_empty (some l) = l

append_trans_lem : (l : List TransEntry) (e : TransEntry) → append_trans l e ≡ l ++ e ∷ []
unfolding append_trans
append_trans_lem [] e = refl
append_trans_lem (x ∷ xs) e = refl

empty_items-AreUnused : (n : ℕ) → AreUnused (empty_items n)
unfolding empty_items
empty_items-AreUnused zero = tt
empty_items-AreUnused (suc n) = (refl, empty_items-AreUnused n)

pub unused-IsPacked : (items : List HashedItem) → AreUnused items → IsPacked items
unused-IsPacked [] u = tt
unused-IsPacked (item ∷ items) u = ((λ e. u.1), unused-IsPacked items u.1)

pub listed_unused :
    (id : CString) (items : List HashedItem) → AreUnused items → listed id items ≡ none
unfolding listed
listed_unused id [] u = refl
listed_unused id (item ∷ items) u = rw u.0

-- A new bucket is not empty, and nothing is used in it.
pub new_bucket_lem :
    (bucket_size : ℕ)
    → item_size ≤ bucket_size
    → (item : HashedItem) × (items : List HashedItem) × (new_bucket bucket_size
        ≡ some (item ∷ items))
      × AreUnused (item ∷ items)
unfolding new_bucket
new_bucket_lem bucket_size h = by_number (bucket_size / item_size) refl
  where
    by_number :
        (n : ℕ)
        → bucket_size / item_size ≡ n
        → (item : HashedItem) × (items : List HashedItem) × (new_bucket bucket_size
            ≡ some (item ∷ items))
          × AreUnused (item ∷ items)
    by_number zero e = absurd (omega arith)
    by_number (suc n) e = (
      empty_item,
      empty_items n,
      rw (e, new_bucket) (unfold empty_items in ground arith),
      (refl, empty_items-AreUnused n),
    )

module _ (bucket_size : ℕ) (big : item_size ≤ bucket_size) (id : CString) (e : TransEntry) where
  -- What an addition does to the chain: the wallet's list gets the transaction at its end.
  pub record IsAdded (chain chain' : List HashedItem) : Type 0 where
    pub packed : IsPacked chain'
    pub not_nil : chain' ≢ []
    pub maps :
        (other : CString)
        → listed other chain' ≡ (
            if str_eq id other
            then some (or_empty (listed id chain) ++ e ∷ [])
            else listed other chain)

  abbrev Result : List HashedItem → Type 0
  Result chain =
      (chain' : List HashedItem) × (add_chain bucket_size id e chain ≡ some chain')
      × IsAdded chain chain'

  -- The walk reaches an unused record.
  add_unused :
      (item : HashedItem) (items : List HashedItem)
      → IsPacked (item ∷ items)
      → item.wallet_id ≡ none
      → Result (item ∷ items)
  add_unused item items p u = (
    filled id e ∷ items,
    unfold add_chain in rw (u, add_chain),
    record {
      packed = ((λ q. cc), p.1);
      not_nil = λ q. cc;
      maps = λ other.
          unfold listed in
          rw (u, listed_unused other items (p.0 u)) (ground (arith, str_eq_iff id other));
    },
  )

  -- The walk reaches the wallet's record.
  add_used :
      (item : HashedItem) (items : List HashedItem) (w : CString)
      → IsPacked (item ∷ items)
      → item.wallet_id ≡ some w
      → str_eq w id ≡ true
      → Result (item ∷ items)
  add_used item items w p u same = (
    record item { trans_list = append_trans item.trans_list e } ∷ items,
    (unfold add_chain in ground arith),
    record {
      packed = ((λ q. cc), p.1);
      not_nil = λ q. cc;
      maps = λ other.
          unfold listed in
          rw (u, same, append_trans_lem item.trans_list e)
            (ground (arith, str_eq_iff w id, str_eq_iff w other, str_eq_iff id other));
    },
  )

  -- The walk ends at a record of another wallet, and a bucket is added.
  add_bucket :
      (item : HashedItem) (w : CString)
      → item.wallet_id ≡ some w
      → str_eq w id ≡ false
      → Result (item ∷ [])
  add_bucket item w u other_wallet =
      let (first, rest, made, all) = new_bucket_lem bucket_size big in
      let unused = all.1 in
      (
        item ∷ filled id e ∷ rest,
        (unfold add_chain in simp (u, other_wallet, made) (unfold fill_first in refl)),
        record {
          packed = ((λ q. cc), ((λ q. cc), unused-IsPacked rest unused));
          not_nil = λ q. cc;
          maps = λ other.
              unfold listed in
              rw (u, other_wallet, listed_unused other rest unused)
                (ground (arith, str_eq_iff w id, str_eq_iff w other, str_eq_iff id other));
        },
      )

  -- The walk goes on behind a record of another wallet.
  add_later :
      (item next : HashedItem) (items : List HashedItem) (w : CString)
      → IsPacked (item ∷ next ∷ items)
      → item.wallet_id ≡ some w
      → str_eq w id ≡ false
      → Result (next ∷ items)
      → Result (item ∷ next ∷ items)
  add_later item next items w p u other_wallet (chain, run, added) = (
    item ∷ chain,
    (unfold add_chain in ground arith),
    record {
      packed = ((λ q. cc), added.packed);
      not_nil = λ q. cc;
      maps = λ other.
          unfold listed in
          ground
            (arith, added.maps other, str_eq_iff w id, str_eq_iff w other, str_eq_iff id other);
    },
  )

  pub add_chain-IsAdded :
      (chain : List HashedItem)
      → chain ≢ []
      → IsPacked chain
      → (chain' : List HashedItem) × (add_chain bucket_size id e chain ≡ some chain')
        × IsAdded chain chain'
  add_chain-IsAdded [] nn p = absurd (nn refl)
  add_chain-IsAdded (item ∷ []) nn p = elim (Option-cases item.wallet_id) [
    | inl u ↦ add_unused item [] p u
    | inr (w, u) ↦ elim (Bool-cases (str_eq w id)) [
      | inl same ↦ add_used item [] w p u same
      | inr differ ↦ add_bucket item w u differ
    ]
  ]
  add_chain-IsAdded (item ∷ next ∷ items) nn p = elim (Option-cases item.wallet_id) [
    | inl u ↦ add_unused item (next ∷ items) p u
    | inr (w, u) ↦ elim (Bool-cases (str_eq w id)) [
      | inl same ↦ add_used item (next ∷ items) w p u same
      | inr differ ↦
          add_later item next items w p u differ (add_chain-IsAdded (next ∷ items) (λ q. cc) p.1)
    ]
  ]
