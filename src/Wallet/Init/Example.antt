-- ===== src/Wallet/Init/Example.antt =====
-- A file of two wallets with three coins, for the tests.
use systems_programming.Base.{ℕ, refl, List, [], ◌∷◌, arith}
use systems_programming.Base.CString.{CString, strcmp}
use systems_programming.Wallet.{Wallet}
use systems_programming.Wallet.Example.{alice, bob}
use systems_programming.Wallet.Search.{no_wallet}
use systems_programming.Wallet.Init.{BalanceLine, find_num_of_wallets}
use systems_programming.Wallet.Init.Opened.{IsFile}

abbrev pub owner : CString → List ℕ → BalanceLine
owner id coins = record { wallet_id = id; bc_ids = coins }

-- `b 7 8` and `a 9`.
abbrev pub two_balances : List BalanceLine
two_balances = owner bob (7 ∷ 8 ∷ []) ∷ owner alice (9 ∷ []) ∷ []

abbrev pub two_bytes : List ℕ
two_bytes = 98 ∷ 32 ∷ 55 ∷ 32 ∷ 56 ∷ 10 ∷ 97 ∷ 32 ∷ 57 ∷ 10 ∷ []

abbrev pub two_wallets : List Wallet
two_wallets = no_wallet ∷ no_wallet ∷ []

pub two_balances-IsFile : IsFile two_wallets two_bytes two_balances 50
unfolding find_num_of_wallets strcmp
two_balances-IsFile = record {
  some_line = λ e. ground arith;
  ends = refl;
  second = refl;
  few = omega arith;
  small = omega arith;
  value_small = omega arith;
  short = (omega arith, (omega arith, record {}));
  names = ((refl, record {}), (record {}, record {}));
  ids = (
    ((λ e. ground arith), ((λ e. ground arith), record {})),
    (((λ e. ground arith), record {}), (record {}, record {})),
  );
}
