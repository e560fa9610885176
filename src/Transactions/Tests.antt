-- ===== src/Transactions/Tests.antt =====
-- Both wallets of the example with empty tables: two requests and a file of three lines.
use systems_programming.Base.{
  if◌then◌else◌, ℕ, zero, suc, ◌<◌, ◌≡◌, refl, Option, none, some, List, [], ◌∷◌, arith, true,
}
use systems_programming.Base.CString.{CString, strcmp}
use systems_programming.BitCoin.{make_bc_transaction, transact}
use systems_programming.Wallet.{sender_has_enough, make_transaction}
use systems_programming.Wallet.Conserve.{IsWallet}
use systems_programming.Wallet.Search.{wallet_at, find_wallet}
use systems_programming.Wallet.Example.{
  alice, bob, coins, both, coins-AreCoins, sender-IsWallet, receiver-IsWallet, both-IsOrdered,
}
use systems_programming.HashTable.{add_transaction}
use systems_programming.HashTable.Example.{table, table-IsTable}
use systems_programming.Transactions.{
  Bank, fault, made, read_string, new_id, check_if_trans_exists, Outcome, success, not_enough,
  request_transaction, TransLine, refused, crashed, loaded, find_num_of_transactions,
  transactions_initialization, commit,
}
use systems_programming.Transactions.Ids.{IsNext, next_id, new_id-IsNext, new_id_first}
use systems_programming.Transactions.Valid.{IsBank, sum_of_amounts}
use systems_programming.Transactions.Commit.{IsCommitted}
use systems_programming.Transactions.Request.{
  IsReady, is_success, transaction, request_transaction-success, request_transaction-IsReady,
}
use systems_programming.Transactions.Load.{LinesDone, transactions_initialization-IsLoaded}
use systems_programming.Transactions.Slots.{is_unused, IsDistinct}

abbrev bank : Bank
bank = record {
  wallets = both;
  coins = coins;
  sender_table = table;
  receiver_table = table;
  max_id = 126 ∷ 57 ∷ [];
  last_date_time = 1000;
}

abbrev buffer : List ℕ
buffer = 1 ∷ 2 ∷ 3 ∷ 4 ∷ 5 ∷ []

-- `~9` is followed by `~:`.
abbrev next : CString
next = 126 ∷ 58 ∷ []

id_behind : new_id buffer (126 ∷ 57 ∷ []) ≡ made (126 ∷ 58 ∷ [])
unfolding new_id strcmp
id_behind = refl

new_id-IsNext_example :
    (new_id buffer (126 ∷ 57 ∷ []) ≡ made (126 ∷ 58 ∷ [])) × IsNext (126 ∷ 57 ∷ []) (126 ∷ 58 ∷ [])
unfolding next_id
new_id-IsNext_example =
    new_id-IsNext buffer (126 ∷ 57 ∷ []) (126 ∷ 58 ∷ [])
      (omega arith, omega arith, (omega arith, omega arith, tt)) (omega arith) refl

new_id_first_example :
    new_id (7 ∷ 65 ∷ 0 ∷ []) []
    ≡ elim (read_string (65 ∷ 0 ∷ [])) [ none ↦ fault | some s ↦ made (48 ∷ s) ]
new_id_first_example = new_id_first 7 (65 ∷ 0 ∷ [])

bank-IsBank : IsBank bank
unfolding sum_of_amounts
bank-IsBank = record {
  ordered = both-IsOrdered;
  few = omega arith;
  are_coins = coins-AreCoins;
  are_wallets = are_wallets;
  small = omega arith;
  senders = table-IsTable;
  receivers = table-IsTable;
}
  where
    are_wallets : (i : ℕ) → i < 2 → IsWallet coins (wallet_at both i)
    are_wallets zero h = sender-IsWallet
    are_wallets (suc zero) h = receiver-IsWallet
    are_wallets (suc (suc i)) h = absurd (omega arith)

bank-IsReady : IsReady bank
bank-IsReady = record {
  bank = bank-IsBank;
  ascii = (omega arith, omega arith, (omega arith, omega arith, tt));
  short = omega arith;
}

request_transaction-success_example :
    (b' : Bank) × (request_transaction 500 buffer bank alice bob 70 0
      ≡ some (b', success (transaction next 70 7700)))
    × IsCommitted bank b' 0 1 (transaction next 70 7700)
    × (b'.max_id ≡ next)
    × (b'.last_date_time ≡ 7700)
unfolding sender_has_enough next_id
request_transaction-success_example =
    request_transaction-success 500 buffer bank 70 0 next bank-IsReady refl 0 1 (omega arith)
      (omega arith) (omega arith) refl refl

request_transaction-IsReady_example :
    (out : Bank × Outcome) × (request_transaction 500 buffer bank bob alice 70 2000 ≡ some out)
    × IsReady out.0
    × (sum_of_amounts out.0.wallets ≡ sum_of_amounts both)
    × (out.0 ≡ (if is_success out.1 then out.0 else bank))
unfolding next_id
request_transaction-IsReady_example =
    request_transaction-IsReady 500 buffer bank 70 2000 next bank-IsReady refl bob alice

-- bob has nothing that he could pay with.
not_enough_money : request_transaction 500 buffer bank bob alice 70 2000 ≡ some (bank, not_enough)
unfolding request_transaction find_wallet strcmp sender_has_enough
not_enough_money = refl

abbrev line : CString → CString → CString → ℕ → TransLine
line id from to value = record {
  id = id;
  sender = from;
  receiver = to;
  value = value;
  date_time = 2000;
}

-- A transaction, one with the same ID, and one to an unknown wallet.
abbrev lines : List TransLine
lines =
    line (49 ∷ []) alice bob 70
    ∷ line (49 ∷ []) bob alice 10
    ∷ line (50 ∷ []) alice (100 ∷ []) 5
    ∷ []

abbrev bytes : List ℕ
bytes = 49 ∷ 10 ∷ 49 ∷ 10 ∷ 50 ∷ []

transactions_initialization-IsLoaded_example :
    (b' : Bank) × (ids : List (Option CString)) × (transactions_initialization bank bytes lines
      ≡ loaded b' ids)
    × IsBank b'
    × (sum_of_amounts b'.wallets ≡ sum_of_amounts both)
    × LinesDone (record bank { last_date_time = 0 }) lines ids b'
    × IsDistinct ids
    × (is_unused ids (next_id b'.max_id) ≡ true)
unfolding find_num_of_transactions
transactions_initialization-IsLoaded_example =
    transactions_initialization-IsLoaded bank bytes lines refl
      (
        omega arith,
        omega arith,
        omega arith,
        (omega arith, omega arith, omega arith, (omega arith, omega arith, omega arith, tt)),
      )
      bank-IsBank

-- A file without a character ends the program.
no_file : transactions_initialization bank [] lines ≡ refused
unfolding transactions_initialization find_num_of_transactions
no_file = refl

loads_one :
    elim (transactions_initialization bank bytes lines) [
      | refused ↦ []
      | crashed ↦ []
      | loaded b ids ↦ ids
    ]
    ≡ some (49 ∷ []) ∷ none ∷ none ∷ []
unfolding transactions_initialization find_num_of_transactions find_wallet strcmp sender_has_enough
    commit make_transaction make_bc_transaction transact add_transaction check_if_trans_exists
loads_one = refl
