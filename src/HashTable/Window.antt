-- ===== src/HashTable/Window.antt =====
-- `findPayments` and `findEarnings`: which of a wallet's transactions are printed, and their sum.
use systems_programming.Base.{
  ℕ, ◌+◌, ◌/◌, ◌%◌, ◌≤◌, ◌<◌, ◌≡◌, sym, ◌∙◌, ap, ap₂, ◌↔◌, map, inl, inr, Bool-cases, Bool, true,
  false, List, [], ◌∷◌, ◌++◌, arith, ltb, ◌==◌, ◌&&◌, ◌||◌, if◌then◌else◌,
}
use mathlib.Core.List.{append-nil, append_assoc}
use systems_programming.BitCoin.{Transaction}
use systems_programming.Base.Size.{size_mod, add_size}
use systems_programming.Base.CString.{CString}
use systems_programming.HashTable.{
  TransEntry, HashTable, Search, fault, absent, found, search_table,
}

-- `gmtime_r` on the hour and the minute; the default date is 1 January 1970.
abbrev pub tm_hour : ℕ → ℕ
tm_hour t = t / 3600 % 24

abbrev pub tm_min : ℕ → ℕ
tm_min t = t / 60 % 60

abbrev pub is_default_date : ℕ → Bool
is_default_date t = ltb t 86400

-- The last part of both tests on the time of day, as it is written: minutes against `tm_hour`.
abbrev pub at_the_ends : (start end time : ℕ) → Bool
at_the_ends start end time =
    ((tm_hour time == tm_hour start) && ltb (tm_hour start) (tm_min time))
    || ((tm_hour time == tm_hour end) && ltb (tm_min time) (tm_min end))

-- The test on one transaction, by the kind of restriction.
unfoldable pub in_window : (start end time : ℕ) → Bool
in_window start end time =
    if start == 0
    then true
    else if is_default_date start
    then (if ltb end start
        then (ltb (tm_hour time) (tm_hour start) && ltb (tm_hour time) (tm_hour end))
          || at_the_ends start end time
        else if ltb start end
        then (ltb (tm_hour start) (tm_hour time) && ltb (tm_hour time) (tm_hour end))
          || at_the_ends start end time
        else false)
    else ltb start time && ltb time end

-- A printed line.
pub record Line : Type 0 where
  pub transaction : Transaction
  pub sender : CString
  pub receiver : CString

abbrev pub payment_line : CString → TransEntry → Line
payment_line id e = record {
  transaction = e.this_trans;
  sender = id;
  receiver = e.source_dest_wallet;
}

abbrev pub earning_line : CString → TransEntry → Line
earning_line id e = record {
  transaction = e.this_trans;
  sender = e.source_dest_wallet;
  receiver = id;
}

-- What the command prints; `no_file` if the temporary file cannot be created. `printed` has the sum
-- and the lines of the temporary file, which are copied to the output (up to a byte 255, which the
-- `char c` of that loop takes for EOF).
pub data Found : Type 0 where
  crash no_wallet nothing no_file : Found
  printed : ℕ → List Line → Found

module _ (line : TransEntry → Line) (start end : ℕ) where
  -- The loop over the list, with the `size_t` sum and the lines in the temporary file.
  unfoldable pub collect : ℕ → List Line → List TransEntry → ℕ × List Line
  unfolding in_window
  collect sum lines [] = (sum, lines)
  collect sum lines (e ∷ es) =
      let hit = in_window start end e.this_trans.date_time in
      collect (if hit then add_size sum e.this_trans.value else sum)
        (if hit then lines ++ line e ∷ [] else lines) es

  unfoldable pub print_found : (file : Bool) → Search → Found
  unfolding collect
  print_found file fault = crash
  print_found file absent = no_wallet
  print_found file (found []) = nothing
  print_found file (found (e ∷ es)) =
      if file then printed (collect 0 [] (e ∷ es)).0 (collect 0 [] (e ∷ es)).1 else no_file

unfoldable pub find_payments : HashTable → CString → (start end : ℕ) → (file : Bool) → Found
unfolding search_table print_found
find_payments ht id start end file =
    print_found (payment_line id) start end file (search_table ht id)

unfoldable pub find_earnings : HashTable → CString → (start end : ℕ) → (file : Bool) → Found
unfolding search_table print_found
find_earnings ht id start end file =
    print_found (earning_line id) start end file (search_table ht id)

-- The transactions of a list that a test accepts, and the sum of their values.
unfoldable pub selected : (ℕ → Bool) → List TransEntry → List TransEntry
selected test [] = []
selected test (e ∷ es) =
    if test e.this_trans.date_time then e ∷ selected test es else selected test es

unfoldable pub sum_of : List TransEntry → ℕ
sum_of [] = 0
sum_of (e ∷ es) = e.this_trans.value + sum_of es

module _ (line : TransEntry → Line) (start end : ℕ) where
  collect-selected :
      (sum : ℕ) (ls : List Line) (es : List TransEntry)
      → sum < size_mod
      → collect line start end sum ls es ≡ (
        (sum + sum_of (selected (in_window start end) es)) % size_mod,
        ls ++ map line (selected (in_window start end) es),
      )
  unfolding collect selected sum_of
  collect-selected sum ls [] h = ap₂ (λ a b. (a, b)) (omega arith) (sym (append-nil ls))
  collect-selected sum ls (e ∷ es) h =
      elim (Bool-cases (in_window start end e.this_trans.date_time)) [
        | inl hit ↦ rw hit (
            collect-selected (add_size sum e.this_trans.value) (ls ++ line e ∷ []) es (omega arith)
            ∙ ap₂ (λ a b. (a, b)) (omega arith)
                (append_assoc ls (line e ∷ []) (map line (selected (in_window start end) es))))
        | inr miss ↦ rw miss (collect-selected sum ls es h)
      ]

  -- A wallet that is found with transactions: exactly those in the window are printed, in the
  -- order in which they were made, with the sum of their values (modulo 2^64).
  pub print_found-selected :
      (e : TransEntry) (es : List TransEntry)
      → print_found line start end true (found (e ∷ es))
        ≡ printed
            (sum_of (selected (in_window start end) (e ∷ es)) % size_mod)
            (map line (selected (in_window start end) (e ∷ es)))
  unfolding print_found
  print_found-selected e es =
      let c = collect-selected 0 [] (e ∷ es) (omega arith) in
      ap (λ p. printed p.0 p.1) c
      ∙ ap (λ k. printed (k % size_mod) (map line (selected (in_window start end) (e ∷ es))))
          (omega arith)

-- A restriction by date means the times strictly between its ends.
pub in_window_dates :
    (start end time : ℕ)
    → 86400 ≤ start
    → (in_window start end time ≡ true) ↔ ((start < time) × (time < end))
unfolding in_window
in_window_dates start end time h = (λ e. ground arith, λ e. ground arith)

-- A restriction to a time of day that runs past midnight leaves out what it means to find in the
-- evening: no transaction in an hour behind that of the start is in the window.
pub in_window_evening :
    (start end time : ℕ)
    → 0 < start
    → start < 86400
    → end < start
    → tm_hour start < tm_hour time
    → in_window start end time ≡ false
unfolding in_window
in_window_evening start end time pos day wraps later = ground arith

-- In the hour of the start the minute is compared with the hour of the start: a transaction is in
-- the window when its minute is above that number, whatever the start's minute is.
pub in_window_first_hour :
    (start end time : ℕ)
    → 0 < start
    → start < 86400
    → start < end
    → tm_hour time ≡ tm_hour start
    → tm_hour start < tm_min time
    → in_window start end time ≡ true
unfolding in_window
in_window_first_hour start end time pos day order same above = ground arith
