-- ===== src/Startup/Valid.antt =====
-- What both files leave in front of the first command.
use systems_programming.Base.{
  none, ◌^◌, ◌==◌, take, false, ℕ, ◌*◌, ◌≤◌, ◌<◌, ◌≡◌, refl, ◌∙◌, true, Option, some, List, length,
  arith,
}
use systems_programming.Base.CString.{CString}
use systems_programming.BitCoin.{BitCoin}
use systems_programming.Wallet.{Wallet}
use systems_programming.HashTable.{HashTable, item_size, initialize_hash_table}
use systems_programming.HashTable.Table.{initialize_hash_table_lem, transactions_of}
use systems_programming.Wallet.Init.{BalanceLine, made, wallets_initialization}
use systems_programming.Wallet.Init.Ids.{ids_of}
use systems_programming.Wallet.Init.Opened.{IsFile, IsOpened, wallets_initialization-IsOpened}
use systems_programming.Transactions.{
  Bank, loaded, find_num_of_transactions, transactions_initialization,
}
use systems_programming.Transactions.Ids.{next_id}
use systems_programming.Transactions.Valid.{IsBank, sum_of_amounts}
use systems_programming.Transactions.Load.{
  AreShort, LinesDone, transactions_initialization-IsLoaded,
}
use systems_programming.Transactions.Slots.{IsDistinct, is_unused}
use systems_programming.Startup.{
  TransFile, Params, commands, new_bank, load_transactions, make_tables, main,
}

-- Tables of at least one entry, and buckets of at least one record.
pub record IsParams (p : Params) : Type 0 where
  pub senders : 0 < p.sender_ht_entries
  pub receivers : 0 < p.receiver_ht_entries
  pub bucket : item_size ≤ p.bucket_size

main_runs :
    (p : Params) (scnd : List Wallet) (bytes : List ℕ) (lines : List BalanceLine)
    (transactions : TransFile) (ws : List Wallet) (coins : List BitCoin) (st rt : HashTable)
    (b : Bank) (ids : List (Option CString))
    → wallets_initialization scnd bytes lines p.bit_coin_value ≡ made ws coins
    → initialize_hash_table p.sender_ht_entries p.bucket_size ≡ some st
    → initialize_hash_table p.receiver_ht_entries p.bucket_size ≡ some rt
    → transactions_initialization (new_bank ws coins st rt) transactions.bytes transactions.lines
      ≡ loaded b ids
    → main p scnd bytes lines (some transactions) ≡ commands b ids
unfolding main make_tables load_transactions
main_runs p scnd bytes lines transactions ws coins st rt b ids opens s r loads =
    rw (opens, main, s, make_tables, r, load_transactions, loads) refl

-- The bank in front of the file of transactions: the wallets and coins of the file of balances, and
-- tables without a transaction.
pub record IsFresh (value : ℕ) (lines : List BalanceLine) (b : Bank) : Type 0 where
  pub opened : IsOpened value lines b.wallets b.coins
  pub no_sender : (id : CString) → transactions_of b.sender_table id ≡ none
  pub no_receiver : (id : CString) → transactions_of b.receiver_table id ≡ none

-- The tables have at least one entry and buckets of at least one record. The file of balances has at
-- least one line, at most 2^30, as many as line feeds, and as many as the second array of the sort
-- has places, with names of at most 63 characters, no wallet and no coin twice, and values below
-- 2^64. The file of transactions can be opened, has at least one character, IDs of at most 14
-- characters and names of at most 63. Then the program comes to its commands, and wallets, coins and
-- tables agree there. They come from the wallets and coins of the file of balances and tables
-- without a transaction by the lines that are read, as many as `findNumOfTransactions` counts: each
-- either changes nothing, and its slot stays empty, or its transaction is made, and its slot has the
-- ID. The wallets have the value of all coins of the file of balances together, no ID stands in two
-- slots, and the ID that follows the largest stands in none.
pub main-commands :
    (p : Params) (scnd : List Wallet) (bytes : List ℕ) (lines : List BalanceLine)
    (transactions : TransFile)
    → IsParams p
    → IsFile scnd bytes lines p.bit_coin_value
    → length lines ≤ 2 ^ 30
    → (find_num_of_transactions transactions.bytes == 0) ≡ false
    → AreShort transactions.lines
    → (b0 b : Bank) × (ids : List (Option CString)) × (main p scnd bytes lines (some transactions)
        ≡ commands b ids)
      × IsBank b
      × IsFresh p.bit_coin_value lines b0
      × LinesDone b0 (take (find_num_of_transactions transactions.bytes) transactions.lines) ids b
      × (sum_of_amounts b.wallets ≡ length (ids_of lines) * p.bit_coin_value)
      × IsDistinct ids
      × (is_unused ids (next_id b.max_id) ≡ true)
main-commands p scnd bytes lines transactions q f few some_char short =
    let (ws, coins, opens, o) =
      wallets_initialization-IsOpened scnd bytes lines p.bit_coin_value f in
    let (st, st_made, st_valid, st_empty) =
      initialize_hash_table_lem p.sender_ht_entries p.bucket_size q.senders q.bucket in
    let (rt, rt_made, rt_valid, rt_empty) =
      initialize_hash_table_lem p.receiver_ht_entries p.bucket_size q.receivers q.bucket in
    let bank : IsBank (new_bank ws coins st rt) = record {
      ordered = o.ordered;
      few = omega (arith, o.same_length, few);
      are_coins = o.are_coins;
      are_wallets = o.are_wallets;
      small = omega (arith, o.sum, f.small);
      senders = st_valid;
      receivers = rt_valid;
    } in
    let (b, ids, loads, valid, money, done, distinct, unused) =
      transactions_initialization-IsLoaded (new_bank ws coins st rt) transactions.bytes
        transactions.lines some_char short bank in
    (
      new_bank ws coins st rt,
      b,
      ids,
      main_runs p scnd bytes lines transactions ws coins st rt b ids opens st_made rt_made loads,
      valid,
      record { opened = o; no_sender = st_empty; no_receiver = rt_empty },
      done,
      money ∙ o.sum,
      distinct,
      unused,
    )
