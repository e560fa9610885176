-- ===== src/Startup/Tests.antt =====
-- The file of two wallets with three coins, and one of two transactions.
use systems_programming.Base.{ℕ, ◌*◌, ◌≡◌, refl, true, Option, some, List, [], ◌∷◌, arith}
use systems_programming.Base.CString.{CString, strcmp}
use systems_programming.BitCoin.{bit_coin_initialization, make_bc_transaction, transact}
use systems_programming.Wallet.{Wallet, sender_has_enough, make_transaction}
use systems_programming.Wallet.Example.{alice, bob}
use systems_programming.Wallet.Search.{find_wallet}
use systems_programming.Wallet.Sort.{sort_wallets}
use systems_programming.HashTable.{initialize_hash_table, add_transaction}
use systems_programming.Wallet.Init.{
  find_num_of_wallets, check_if_wallet_exists, has_bc, check_if_bc_exists, add_bcs, load_wallets,
  sort_loaded, wallets_initialization,
}
use systems_programming.Wallet.Init.Example.{two_balances, two_bytes, two_wallets}
use systems_programming.Wallet.Init.Example.{two_balances-IsFile}
use systems_programming.Transactions.{
  find_num_of_transactions, Bank, TransLine, transactions_initialization, check_if_trans_exists,
  commit,
}
use systems_programming.Transactions.Ids.{next_id}
use systems_programming.Transactions.Valid.{IsBank, sum_of_amounts}
use systems_programming.Transactions.Slots.{IsDistinct, is_unused}
use systems_programming.Startup.{TransFile, Params, Start, ended, crashed, commands, main}
use systems_programming.Transactions.Load.{LinesDone}
use systems_programming.Startup.Valid.{IsFresh, main-commands}

abbrev line : CString → CString → CString → ℕ → TransLine
line id from to value = record {
  id = id;
  sender = from;
  receiver = to;
  value = value;
  date_time = 2000;
}

-- Of the bytes only the line feed counts.
abbrev transactions : TransFile
transactions = record {
  bytes = 49 ∷ 10 ∷ 50 ∷ [];
  lines = line (49 ∷ []) bob alice 70 ∷ line (50 ∷ []) alice bob 500 ∷ [];
}

abbrev params : Params
params = record {
  bit_coin_value = 50;
  sender_ht_entries = 2;
  receiver_ht_entries = 1;
  bucket_size = 64;
}

main-commands_example :
    (b0 b : Bank) × (ids : List (Option CString)) × (main params two_wallets two_bytes two_balances
        (some transactions)
      ≡ commands b ids)
    × IsBank b
    × IsFresh 50 two_balances b0
    × LinesDone b0 transactions.lines ids b
    × (sum_of_amounts b.wallets ≡ 3 * 50)
    × IsDistinct ids
    × (is_unused ids (next_id b.max_id) ≡ true)
unfolding find_num_of_transactions
main-commands_example =
    main-commands params two_wallets two_bytes two_balances transactions
      (record { senders = omega arith; receivers = omega arith; bucket = omega arith })
      two_balances-IsFile (omega arith) refl
      ((omega arith, omega arith, omega arith, (omega arith, omega arith, omega arith, record {})))

abbrev amounts : Start → List ℕ
amounts ended = []
amounts crashed = []
amounts (commands b ids) = amounts_of b.wallets
  where
    amounts_of : List Wallet → List ℕ
    amounts_of [] = []
    amounts_of (w ∷ ws) = w.amount ∷ amounts_of ws

-- Alice is first now, and has 70 more.
starts :
    amounts (main params two_wallets two_bytes two_balances (some transactions)) ≡ 120 ∷ 30 ∷ []
unfolding main wallets_initialization sort_wallets initialize_hash_table strcmp
    transactions_initialization find_num_of_transactions find_wallet sender_has_enough commit
    make_transaction make_bc_transaction transact add_transaction check_if_trans_exists
    check_if_wallet_exists has_bc check_if_bc_exists add_bcs load_wallets sort_loaded
    find_num_of_wallets bit_coin_initialization
starts = refl
