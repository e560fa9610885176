-- ===== src/Wallet/InitTests.antt =====
-- Files of balances: one that is loaded, and three that are not as they should be.
use systems_programming.Base.{ℕ, ◌≡◌, refl, List, [], ◌∷◌}
use systems_programming.Base.CString.{strcmp}
use systems_programming.Wallet.{Wallet}
use systems_programming.Wallet.Example.{alice, bob}
use systems_programming.Wallet.Search.{no_wallet}
use systems_programming.BitCoin.{BitCoin, bit_coin_initialization}
use systems_programming.Wallet.Sort.{sort_wallets}
use systems_programming.Wallet.Init.{
  Init, refused, fault, made, find_num_of_wallets, check_if_wallet_exists, has_bc,
  check_if_bc_exists, add_bcs, load_wallets, sort_loaded, wallets_initialization,
}
use systems_programming.Wallet.Init.Example.{
  owner, two_balances, two_bytes, two_wallets, two_balances-IsFile,
}
use systems_programming.Wallet.Init.Opened.{IsOpened, wallets_initialization-IsOpened}

wallets_initialization-IsOpened_example :
    (out : List Wallet) × (coins : List BitCoin) × (wallets_initialization two_wallets two_bytes
        two_balances 50
      ≡ made out coins)
    × IsOpened 50 two_balances out coins
wallets_initialization-IsOpened_example =
    wallets_initialization-IsOpened two_wallets two_bytes two_balances 50 two_balances-IsFile

abbrev out_of : Init → ℕ
out_of refused = 0
out_of fault = 1
out_of (made ws coins) = 2

-- The same coin twice on one line is not seen, on two lines it is.
same_line :
    out_of (wallets_initialization (no_wallet ∷ []) (10 ∷ []) (owner bob (7 ∷ 7 ∷ []) ∷ []) 50) ≡ 2
unfolding wallets_initialization sort_wallets strcmp check_if_wallet_exists check_if_bc_exists
    add_bcs load_wallets sort_loaded find_num_of_wallets bit_coin_initialization
same_line = refl

two_lines :
    out_of (
      wallets_initialization two_wallets
        (10 ∷ 10 ∷ [])
        (owner bob (7 ∷ []) ∷ owner alice (7 ∷ []) ∷ [])
        50)
    ≡ 0
unfolding wallets_initialization sort_wallets strcmp check_if_wallet_exists has_bc
    check_if_bc_exists add_bcs load_wallets sort_loaded find_num_of_wallets bit_coin_initialization
two_lines = refl

-- The last line has no line feed: its wallet would stand behind the array.
no_feed :
    out_of (
      wallets_initialization
        (no_wallet ∷ [])
        (98 ∷ 32 ∷ 55 ∷ 10 ∷ 97 ∷ [])
        (owner bob (7 ∷ []) ∷ owner alice [] ∷ [])
        50)
    ≡ 1
unfolding wallets_initialization sort_wallets strcmp check_if_wallet_exists check_if_bc_exists
    add_bcs load_wallets sort_loaded find_num_of_wallets bit_coin_initialization
no_feed = refl
