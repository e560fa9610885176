-- ===== src/Transactions.antt =====
-- SysPro_Project1/src/transaction.c: new transactions, on request and from the lines of a file.
pub mod Ids
pub mod Valid
pub mod Commit
pub mod Request
pub mod Slots
pub mod Load
mod Tests
use systems_programming.Base.{
  ℕ, zero, suc, ◌+◌, Bool, true, false, Option, none, some, List, [], ◌∷◌, ◌++◌, ltb, leb, ◌==◌,
  ◌||◌, ◌&&◌, not, if◌then◌else◌, get_elem?, set, length, take, drop,
}
use Prim.Native.Nat.{Ordering}
use mathlib.Core.List.{reverse_aux}
use systems_programming.Base.CString.{CString, strcmp, str_eq}
use systems_programming.BitCoin.{Transaction, BitCoin}
use systems_programming.Wallet.{Wallet, sender_has_enough, make_transaction}
use systems_programming.Wallet.Search.{find_wallet}
use systems_programming.HashTable.{HashTable, add_transaction}

-- What the functions change: the array of wallets, the coins, both tables, `maxID` and
-- `lastDateTime`.
pub record Bank : Type 0 where
  pub wallets : List Wallet
  pub coins : List BitCoin
  pub sender_table : HashTable
  pub receiver_table : HashTable
  pub max_id : CString
  pub last_date_time : ℕ

-- `checkIfTransExists`. A slot of the array that is NULL is `none`.
unfoldable pub check_if_trans_exists : List (Option CString) → CString → Bool
check_if_trans_exists [] id = false
check_if_trans_exists (none ∷ ids) id = check_if_trans_exists ids id
check_if_trans_exists (some s ∷ ids) id = if str_eq s id then true else check_if_trans_exists ids id

-- `strcpy` into a buffer that is large enough.
unfoldable pub strcpy : List ℕ → CString → List ℕ
strcpy buffer s = s ++ 0 ∷ drop (length s + 1) buffer

-- The string at the start of a buffer; `none` if nothing ends it.
unfoldable pub read_string : List ℕ → Option CString
read_string [] = none
read_string (c ∷ cs) =
    let rest = read_string cs in
    if c == 0 then some [] else elim rest [ none ↦ none | some s ↦ some (c ∷ s) ]

-- How `newID` ends. `fault` is a read behind the end of the buffer.
pub data NewId : Type 0 where
  fault out_of_fuel no_more : NewId
  made : CString → NewId

-- `while (!(strcmp(maxID, new)))`, and `strcpy(maxID, new)` behind the loop, which reads the new ID to
-- its end: on, or out of the loop with the new ID.
unfoldable pub again : (max_id : CString) → NewId → List ℕ → NewId
unfolding read_string
again max_id loop new = elim (read_string new) [
  | none ↦ fault
  | some s ↦ elim (str_eq max_id s) [ true ↦ loop | false ↦ made s ]
]

-- The body of the loop, with the comparisons of a signed `char`.
unfoldable pub new_id_round :
    (loop : ℕ → List ℕ → NewId) → (max_id : CString) → (index : ℕ) → List ℕ → NewId
unfolding again
new_id_round loop max_id index new = elim (get_elem? new index) [
  | none ↦ fault
  | some c ↦
      if ltb c 48 || leb 128 c
      then again max_id (loop index (set new index 48)) (set new index 48)
      else if ltb c 126
      then again max_id (loop index (set new index (c + 1))) (set new index (c + 1))
      else if ltb index 14
      then again max_id (loop (index + 1) new) new
      else no_more
]

unfoldable pub new_id_loop : ℕ → (max_id : CString) → (index : ℕ) → List ℕ → NewId
unfolding new_id_round
new_id_loop zero max_id index new = out_of_fuel
new_id_loop (suc fuel) max_id index new = new_id_round (new_id_loop fuel max_id) max_id index new

-- `newID`; `buffer` is what `malloc` returns.
unfoldable pub new_id : List ℕ → CString → NewId
unfolding new_id_loop strcpy
new_id buffer max_id = new_id_loop 16 max_id 0 (strcpy buffer max_id)

-- The array after a change of the wallet with this ID.
unfoldable pub put : List Wallet → Wallet → List Wallet
put [] w = []
put (v ∷ vs) w = if str_eq v.wallet_id w.wallet_id then w ∷ vs else v ∷ put vs w

-- A transaction that is made: in both tables, and then between the wallets.
unfoldable pub commit : Bank → Wallet → Wallet → Transaction → Option Bank
unfolding put
commit b sndr rcvr tx = elim (add_transaction b.sender_table sndr.wallet_id rcvr.wallet_id tx) [
  | none ↦ none
  | some st ↦ elim (add_transaction b.receiver_table rcvr.wallet_id sndr.wallet_id tx) [
    | none ↦ none
    | some rt ↦ elim (make_transaction b.coins sndr rcvr tx.value (some tx)) [
      | none ↦ none
      | some (sndr', rcvr', coins') ↦ some (record b {
        wallets = put (put b.wallets sndr') rcvr';
        coins = coins';
        sender_table = st;
        receiver_table = rt;
      })
    ]
  ]
]

-- What `requestTransaction` reports.
pub data Outcome : Type 0 where
  same_wallet invalid_date no_sender no_receiver not_enough no_more_ids : Outcome
  success : Transaction → Outcome

-- The last part of `requestTransaction`, with the new ID.
unfoldable pub request_with_id :
    Bank → Wallet → Wallet → (amount date_time : ℕ) → NewId → Option (Bank × Outcome)
unfolding commit
request_with_id b sndr rcvr amount date_time fault = none
request_with_id b sndr rcvr amount date_time out_of_fuel = none
request_with_id b sndr rcvr amount date_time no_more = some (b, no_more_ids)
request_with_id b sndr rcvr amount date_time (made id) =
    let tx : Transaction = record { transaction_id = id; value = amount; date_time = date_time } in
    elim (commit (record b { max_id = id }) sndr rcvr tx) [
      | none ↦ none
      | some b' ↦ some (record b' { last_date_time = date_time }, success tx)
    ]

-- `requestTransaction`; `now` is what `time(NULL)` returns, and `buffer` what `malloc` returns.
unfoldable pub request_transaction :
    (now : ℕ)
    → (buffer : List ℕ) → Bank
    → (sndr_id rcvr_id : CString) → (amount date_time : ℕ) → Option (Bank × Outcome)
unfolding request_with_id new_id
request_transaction now buffer b sndr_id rcvr_id amount date_time =
    if str_eq sndr_id rcvr_id
    then some (b, same_wallet)
    else if not (date_time == 0) && ltb date_time b.last_date_time
    then some (b, invalid_date)
    else elim (find_wallet b.wallets sndr_id) [
      | none ↦ none
      | some none ↦ some (b, no_sender)
      | some (some sndr) ↦ elim (find_wallet b.wallets rcvr_id) [
        | none ↦ none
        | some none ↦ some (b, no_receiver)
        | some (some rcvr) ↦
            if not (sender_has_enough sndr amount)
            then some (b, not_enough)
            else request_with_id b sndr rcvr amount
                (if date_time == 0 then now + 7200 else date_time) (new_id buffer b.max_id)
      ]
    ]

-- A line of the transactions file, as the `fscanf` calls read it.
pub record TransLine : Type 0 where
  pub id : CString
  pub sender : CString
  pub receiver : CString
  pub value : ℕ
  pub date_time : ℕ

-- `if ((strcmp(maxID, tmpID)) < 0) strcpy(maxID, tmpID);`: an ID of more than 14 characters is
-- written behind `maxID` (`none`).
unfoldable pub max_of : CString → CString → Option CString
max_of m id = elim (strcmp m id) [
  | Ordering.lt ↦ if ltb 14 (length id) then none else some id
  | _ ↦ some m
]

-- A token that does not fit into the 64 bytes of its buffer.
abbrev pub is_long : CString → Bool
is_long s = ltb 63 (length s)

-- One line: the bank, and the slot of `transIDs` that the line fills. The receiver is read only when
-- the sender is there and the ID is new.
unfoldable pub load_line : Bank → List (Option CString) → TransLine → Option (Bank × Option CString)
unfolding check_if_trans_exists commit max_of
load_line b ids l =
    if is_long l.id || is_long l.sender then none else elim (find_wallet b.wallets l.sender) [
      | none ↦ none
      | some none ↦ some (b, none)
      | some (some sndr) ↦
          if check_if_trans_exists ids l.id
          then some (b, none)
          else if is_long l.receiver
          then none
          else elim (find_wallet b.wallets l.receiver) [
            | none ↦ none
            | some none ↦ some (b, none)
            | some (some rcvr) ↦
                if str_eq l.sender l.receiver
                then some (b, none)
                else if sender_has_enough sndr l.value
                then (let tx : Transaction = record {
                  transaction_id = l.id;
                  value = l.value;
                  date_time = l.date_time;
                } in
                    elim (commit b sndr rcvr tx) [
                      | none ↦ none
                      | some b' ↦ elim (max_of b'.max_id l.id) [
                        | none ↦ none
                        | some m ↦
                            some (record b' { max_id = m; last_date_time = l.date_time }, some l.id)
                      ]
                    ])
                else some (b, none)
          ]
    ]

-- The loop of `transactionsInitialization`. `ids` is the filled part of `transIDs`.
unfoldable pub load_lines :
    Bank → List (Option CString) → List TransLine → Option (Bank × List (Option CString))
unfolding load_line
load_lines b ids [] = some (b, ids)
load_lines b ids (l ∷ ls) = elim (load_line b ids l) [
  | none ↦ none
  | some (b', slot) ↦ load_lines b' (ids ++ slot ∷ []) ls
]

-- The loop of `findNumOfTransactions`; in a `char` the byte 255 is the end of the file.
unfoldable pub count_line_feeds : List ℕ → ℕ
count_line_feeds [] = 0
count_line_feeds (c ∷ cs) =
    let rest = count_line_feeds cs in if c == 255 then 0 else if c == 10 then suc rest else rest

unfoldable pub find_num_of_transactions : List ℕ → ℕ
unfolding count_line_feeds
find_num_of_transactions [] = 0
find_num_of_transactions (c ∷ cs) =
    let transactions = count_line_feeds (c ∷ cs) in
    if c == 255 then 0 else if transactions == 0 then 1 else transactions + 1

-- How `transactionsInitialization` ends: with 1, outside of an array, or with 0.
pub data Loading : Type 0 where
  refused crashed : Loading
  loaded : Bank → List (Option CString) → Loading

abbrev pub loading : Option (Bank × List (Option CString)) → Loading
loading none = crashed
loading (some (b, ids)) = loaded b ids

-- `transactionsInitialization` behind the opening of the file, which has these bytes and these
-- lines: no line is read yet, and `tmpDateTime` is 0. The loop ends with the file, or when as many
-- lines are read as there are slots.
unfoldable pub transactions_initialization : Bank → List ℕ → List TransLine → Loading
unfolding load_lines find_num_of_transactions
transactions_initialization b bytes ls =
    let n = find_num_of_transactions bytes in
    if n == 0
    then refused
    else loading (load_lines (record b { last_date_time = 0 }) [] (take n ls))
