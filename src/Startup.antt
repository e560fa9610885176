-- ===== src/Startup.antt =====
-- SysPro_Project1/src/main.c: `main` up to the commands. The arguments are numbers, as `atoi` returns
-- them.
pub mod Valid
mod Tests
use systems_programming.Base.{ℕ, Bool, true, false, Option, none, some, List, []}
use systems_programming.Base.CString.{CString}
use systems_programming.HashTable.{HashTable, initialize_hash_table}
use systems_programming.Wallet.{Wallet}
use systems_programming.BitCoin.{BitCoin}
use systems_programming.Wallet.Init.{BalanceLine, refused, fault, made, wallets_initialization}
use systems_programming.Transactions.{Bank, TransLine, Loading, transactions_initialization}

pub record Params : Type 0 where
  pub bit_coin_value : ℕ
  pub sender_ht_entries : ℕ
  pub receiver_ht_entries : ℕ
  pub bucket_size : ℕ

-- The program ends with 1, reads or writes outside of its arrays, or takes commands.
pub data Start : Type 0 where
  ended crashed : Start
  commands : Bank → List (Option CString) → Start

abbrev pub new_bank : List Wallet → List BitCoin → HashTable → HashTable → Bank
new_bank ws coins senders receivers = record {
  wallets = ws;
  coins = coins;
  sender_table = senders;
  receiver_table = receivers;
  max_id = [];
  last_date_time = 0;
}

-- The bytes and the lines of a file of transactions.
pub record TransFile : Type 0 where
  pub bytes : List ℕ
  pub lines : List TransLine

-- The file of transactions; `none` if it cannot be opened.
unfoldable pub load_transactions : Bank → Option TransFile → Start
load_transactions b none = ended
load_transactions b (some file) = elim (transactions_initialization b file.bytes file.lines) [
  | Loading.refused ↦ ended
  | Loading.crashed ↦ crashed
  | Loading.loaded b' ids ↦ commands b' ids
]

unfoldable pub make_tables : Params → List Wallet → List BitCoin → Option TransFile → Start
unfolding load_transactions
make_tables p ws coins transactions =
    elim (initialize_hash_table p.sender_ht_entries p.bucket_size) [
      | none ↦ crashed
      | some senders ↦ elim (initialize_hash_table p.receiver_ht_entries p.bucket_size) [
        | none ↦ crashed
        | some receivers ↦ load_transactions (new_bank ws coins senders receivers) transactions
      ]
    ]

-- `scnd` is what `sortWallets` allocates, `bytes` and `lines` are the file of balances.
unfoldable pub main : Params → List Wallet → List ℕ → List BalanceLine → Option TransFile → Start
unfolding make_tables
main p scnd bytes lines transactions =
    elim (wallets_initialization scnd bytes lines p.bit_coin_value) [
      | refused ↦ ended
      | fault ↦ crashed
      | made ws coins ↦ make_tables p ws coins transactions
    ]
