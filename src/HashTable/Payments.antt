-- ===== src/HashTable/Payments.antt =====
-- `findPayments` and `findEarnings` on a well-formed table, for a wallet that has transactions.
use systems_programming.Base.{
  ℕ, ◌≤◌, ◌≡◌, ◌∙◌, ap, refl, ◌≢◌, none, some, List, [], ◌∷◌, arith, ltb, ◌==◌, ◌&&◌, ◌||◌, ◌⊎◌,
  inl, inr, Option-cases, get_elem?-eq-get_or, map, ◌%◌, Bool, true,
}
use systems_programming.Base.CString.{CString}
use systems_programming.Base.Size.{size_mod}
use systems_programming.HashTable.{
  TransEntry, HashedItem, HashTable, found, djb2_hash, search_chain, search_table,
}
use systems_programming.HashTable.Chain.{listed}
use systems_programming.HashTable.Find.{search_chain-answer}
use systems_programming.HashTable.Table.{IsTable, transactions_of, djb2_hash-lt}
use systems_programming.HashTable.Window.{
  Line, printed, in_window, selected, sum_of, print_found, print_found-selected, payment_line,
  earning_line, find_payments, find_earnings,
}

-- Without a restriction every time; with two dates the times strictly between them.
abbrev pub is_between : (start end time : ℕ) → Bool
is_between start end time = (start == 0) || (ltb start time && ltb time end)

in_window-eq-is_between :
    (start end time : ℕ)
    → (start ≡ 0) ⊎ (86400 ≤ start)
    → in_window start end time ≡ is_between start end time
unfolding in_window
in_window-eq-is_between start end time (inl always) = ground arith
in_window-eq-is_between start end time (inr dated) = ground arith

not_listed :
    (id : CString) (chain : List HashedItem) (l : List TransEntry)
    → listed id chain ≡ none
    → listed id chain ≢ some l
not_listed id chain l h e = cc

listed_nil : (id : CString) → listed id [] ≡ none
unfolding listed
listed_nil id = refl

listed_first_unused :
    (id : CString) (item : HashedItem) (items : List HashedItem)
    → item.wallet_id ≡ none
    → listed id (item ∷ items) ≡ none
unfolding listed
listed_first_unused id item items h = rw h

-- A wallet that a chain holds is found.
search_chain-found :
    (id : CString) (chain : List HashedItem) (l : List TransEntry)
    → listed id chain ≡ some l
    → search_chain id chain ≡ found l
search_chain-found id [] l h = absurd (not_listed id [] l (listed_nil id) h)
search_chain-found id (item ∷ items) l h = elim (Option-cases item.wallet_id) [
  | inl unused ↦
      absurd (not_listed id (item ∷ items) l (listed_first_unused id item items unused) h)
  | inr (w, used) ↦ search_chain-answer id item items ∙ rw (h, used)
]

search_table-found :
    (ht : HashTable) (id : CString) (l : List TransEntry)
    → IsTable ht
    → transactions_of ht id ≡ some l
    → search_table ht id ≡ found l
unfolding search_table transactions_of
search_table-found ht id l v h =
    let lt = djb2_hash-lt id ht.num_of_entries v.some_entry in
    rw
      (
        get_elem?-eq-get_or ht.table (djb2_hash id ht.num_of_entries) [] (omega (arith, v.entries)),
        search_table,
      )
      (search_chain-found id _ l h)

selected-is_between :
    (start end : ℕ) (es : List TransEntry)
    → (start ≡ 0) ⊎ (86400 ≤ start)
    → selected (in_window start end) es ≡ selected (is_between start end) es
unfolding selected
selected-is_between start end [] h = refl
selected-is_between start end (e ∷ es) h =
    rw (
      in_window-eq-is_between start end e.this_trans.date_time h,
      selected-is_between start end es h,
    )

print_found-is_between :
    (line : TransEntry → Line) (start end : ℕ) (e : TransEntry) (es : List TransEntry)
    → (start ≡ 0) ⊎ (86400 ≤ start)
    → print_found line start end true (found (e ∷ es)) ≡ (
        let hits = selected (is_between start end) (e ∷ es) in
        printed (sum_of hits % size_mod) (map line hits))
print_found-is_between line start end e es h =
    print_found-selected line start end e es
    ∙ ap (λ hits. printed (sum_of hits % size_mod) (map line hits))
        (selected-is_between start end (e ∷ es) h)

-- In a well-formed table, for a wallet that it holds with at least one transaction, when the
-- temporary file can be created: without a restriction (the start is 0), or when the start is a
-- date from 2 January 1970 on, both commands give the sum (modulo 2^64) and the lines in the
-- temporary file of exactly those transactions of the wallet whose time is strictly between start
-- and end (without a restriction of all of them), in the order of the list. A payment has the
-- wallet as its sender, an earning as its receiver.
pub find_payments-is_between :
    (ht : HashTable) (id : CString) (e : TransEntry) (es : List TransEntry) (start end : ℕ)
    → IsTable ht
    → transactions_of ht id ≡ some (e ∷ es)
    → (start ≡ 0) ⊎ (86400 ≤ start)
    → let hits = selected (is_between start end) (e ∷ es) in
      (find_payments ht id start end true
        ≡ printed (sum_of hits % size_mod) (map (payment_line id) hits))
      × (find_earnings ht id start end true
          ≡ printed (sum_of hits % size_mod) (map (earning_line id) hits))
unfolding find_payments find_earnings
find_payments-is_between ht id e es start end v h w =
    let hit = search_table-found ht id (e ∷ es) v h in
    (
      rw hit (print_found-is_between (payment_line id) start end e es w),
      rw hit (print_found-is_between (earning_line id) start end e es w),
    )
