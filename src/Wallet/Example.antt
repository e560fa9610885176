-- ===== src/Wallet/Example.antt =====
-- Two wallets and two coins, for the tests.
use systems_programming.Base.{ℕ, zero, suc, ◌<◌, ◌≡◌, ◌≢◌, refl, none, List, [], ◌∷◌, arith}
use systems_programming.Base.CString.{CString, strcmp}
use systems_programming.BitCoin.{node, null, BitCoin}
use systems_programming.BitCoin.Owned.{owned, IsCoin}
use systems_programming.Wallet.{Wallet, entry, coin_at}
use systems_programming.Wallet.Held.{held, total, Agrees, AreCoins}
use systems_programming.Wallet.Conserve.{IsWallet}
use systems_programming.Wallet.Search.{IsOrdered}

abbrev pub alice : CString
alice = 97 ∷ []

abbrev pub bob : CString
bob = 98 ∷ []

abbrev pub new_coin : ℕ → BitCoin
new_coin id = record { id = id; num_of_transactions = 0; root = node alice 50 none null null }

abbrev pub coins : List BitCoin
coins = new_coin 7 ∷ new_coin 8 ∷ []

abbrev pub sender : Wallet
sender = record { wallet_id = alice; amount = 100; bc_list = entry 50 0 ∷ entry 50 1 ∷ [] }

abbrev pub receiver : Wallet
receiver = record { wallet_id = bob; amount = 0; bc_list = [] }

pub coins-AreCoins : AreCoins coins
coins-AreCoins = record { exists = exists; balanced = balanced; distinct = distinct }
  where
    exists : (c : ℕ) → c < 2 → (coin_at coins c).root ≢ null
    exists zero h = λ e. cc
    exists (suc zero) h = λ e. cc
    exists (suc (suc c)) h = absurd (omega arith)

    balanced : (c : ℕ) → c < 2 → IsCoin (coin_at coins c).root
    balanced zero h = record { balanced = tt; small = omega arith }
    balanced (suc zero) h = record { balanced = tt; small = omega arith }
    balanced (suc (suc c)) h = absurd (omega arith)

    distinct : (c d : ℕ) → c < 2 → d < 2 → (coin_at coins c).id ≡ (coin_at coins d).id → c ≡ d
    distinct zero zero h k e = refl
    distinct zero (suc zero) h k e = absurd (omega arith)
    distinct (suc zero) zero h k e = absurd (omega arith)
    distinct (suc zero) (suc zero) h k e = refl
    distinct (suc (suc c)) d h k e = absurd (omega arith)
    distinct c (suc (suc d)) h k e = absurd (omega arith)

pub sender-IsWallet : IsWallet coins sender
unfolding held total owned strcmp
sender-IsWallet = record { agrees = agrees; in_range = omega arith; sum = refl }
  where
    agrees : Agrees coins alice (entry 50 0 ∷ entry 50 1 ∷ [])
    agrees zero = refl
    agrees (suc zero) = refl
    agrees (suc (suc c)) = ground arith

pub receiver-IsWallet : IsWallet coins receiver
unfolding held total owned strcmp
receiver-IsWallet = record { agrees = agrees; in_range = tt; sum = refl }
  where
    agrees : Agrees coins bob []
    agrees zero = refl
    agrees (suc zero) = refl
    agrees (suc (suc c)) = refl

pub alice-ne-bob : alice ≢ bob
alice-ne-bob e = ground arith

abbrev pub both : List Wallet
both = sender ∷ receiver ∷ []

pub both-IsOrdered : IsOrdered both
unfolding strcmp
both-IsOrdered zero zero h k = absurd (omega arith)
both-IsOrdered zero (suc zero) h k = refl
both-IsOrdered (suc i) zero h k = absurd (omega arith)
both-IsOrdered (suc i) (suc zero) h k = absurd (omega arith)
both-IsOrdered i (suc (suc j)) h k = absurd (omega arith)
