-- ===== src/BitCoin/Status.antt =====
-- `bitCoinStatus` of SysPro_Project1/src/bitCoin.c, as the values that it prints.
use systems_programming.Base.{ℕ, ◌≡◌, Option, none, some, List, [], ◌∷◌, arith, ◌==◌, if◌then◌else◌}
use systems_programming.Base.CString.{CString}
use systems_programming.BitCoin.{TransTree, null, node, BitCoin, bit_coin_initialization}

-- What is printed: the value, the number of transactions and the unspent amount, or that the coin
-- does not exist.
pub data Status : Type 0 where
  status : ℕ → ℕ → ℕ → Status
  no_coin : ℕ → Status

-- The amount of the root's left child if that is a leaf, 0 otherwise.
unfoldable pub unspent : TransTree → ℕ
unspent (node w a t (node wl c u null null) r) = c
unspent n = 0

-- A coin whose root is NULL is not read (`none`).
unfoldable pub print_status : BitCoin → TransTree → Option Status
unfolding unspent
print_status bc null = none
print_status bc (node w a t l r) = some (status a bc.num_of_transactions (unspent (node w a t l r)))

-- The `do ... while` loop over the list of all coins; on no coin at all it reads through NULL.
unfoldable pub bit_coin_status : ℕ → List BitCoin → Option Status
unfolding print_status
bit_coin_status id [] = none
bit_coin_status id (bc ∷ []) = if id == bc.id then print_status bc bc.root else some (no_coin id)
bit_coin_status id (bc ∷ next ∷ rest) =
    if id == bc.id then print_status bc bc.root else bit_coin_status id (next ∷ rest)

-- A coin that has not been in a transaction is reported with nothing unspent, although its owner
-- still has all of it: whatever the ID, owner, value and the coins behind it.
pub bit_coin_status_unused :
    (id value : ℕ) (wallet : CString) (rest : List BitCoin)
    → bit_coin_status id (bit_coin_initialization id wallet value ∷ rest) ≡ some (status value 0 0)
unfolding bit_coin_status bit_coin_initialization
bit_coin_status_unused id value wallet [] = ground arith
bit_coin_status_unused id value wallet (bc ∷ rest) = ground arith
