-- ===== src/Wallet/Tests.antt =====
-- Two wallets and two coins: a payment that uses up one coin and takes the rest from the other.
use systems_programming.Base.{ℕ, zero, suc, ◌<◌, ◌≡◌, ◌≢◌, refl, none, some, List, [], ◌∷◌, arith}
use systems_programming.Base.CString.{strcmp}
use systems_programming.BitCoin.{Transaction, node, null, make_bc_transaction, transact}
use systems_programming.Wallet.Example.{
  alice, bob, coins, sender, receiver, both, coins-AreCoins, sender-IsWallet, receiver-IsWallet,
  alice-ne-bob, both-IsOrdered,
}
use systems_programming.Wallet.{Wallet, Wallets, entry, sender_has_enough, make_transaction}
use systems_programming.Wallet.Conserve.{IsTransaction, make_transaction-IsTransaction}
use mathlib.Core.List.{Perm, Pairwise-pair}
use systems_programming.Wallet.Sort.{sort_wallets}
use systems_programming.Wallet.Sort.Ordered.{sort_wallets-IsOrdered}
use systems_programming.Wallet.Search.{
  find_wallet, IsOrdered, wallet_at, find_wallet-present, find_wallet-absent,
}

abbrev pay : Transaction
pay = record { transaction_id = 49 ∷ []; value = 70; date_time = 1000 }

-- The coin that is used up counts its transaction once, the other not at all.
payment_of_70 :
    make_transaction coins sender receiver 70 (some pay)
    ≡ some (
      record { wallet_id = alice; amount = 30; bc_list = entry 30 1 ∷ [] },
      record { wallet_id = bob; amount = 70; bc_list = entry 50 0 ∷ entry 20 1 ∷ [] },
      record {
        id = 7;
        num_of_transactions = 1;
        root = node alice 50 none null (node bob 50 (some pay) null null);
      }
          ∷ record {
            id = 8;
            num_of_transactions = 0;
            root =
                node alice 50 none
                  (node alice 30 (some pay) null null)
                  (node bob 20 (some pay) null null);
          }
          ∷ [],
    )
unfolding make_transaction make_bc_transaction transact strcmp
payment_of_70 = refl

make_transaction-IsTransaction_example :
    (out : Wallets) × (make_transaction coins sender receiver 70 (some pay) ≡ some out)
    × IsTransaction coins sender receiver 70 out
unfolding sender_has_enough
make_transaction-IsTransaction_example =
    make_transaction-IsTransaction coins sender receiver 70 (some pay) coins-AreCoins
      sender-IsWallet receiver-IsWallet alice-ne-bob refl (omega arith)

find_wallet-present_example : find_wallet both bob ≡ some (some receiver)
find_wallet-present_example = find_wallet-present both 1 both-IsOrdered (omega arith) (omega arith)

find_wallet-absent_example : find_wallet both (99 ∷ []) ≡ some none
find_wallet-absent_example = find_wallet-absent both (99 ∷ []) both-IsOrdered (omega arith) out
  where
    out : (i : ℕ) → i < 2 → (wallet_at both i).wallet_id ≢ 99 ∷ []
    out zero h e = ground arith
    out (suc zero) h e = ground arith
    out (suc (suc i)) h e = omega arith

abbrev unordered : List Wallet
unordered = receiver ∷ sender ∷ []

sorts_two : sort_wallets both unordered ≡ some both
unfolding sort_wallets strcmp
sorts_two = refl

sort_wallets-IsOrdered_example :
    (out : List Wallet) × (sort_wallets both unordered ≡ some out)
    × Perm out unordered
    × IsOrdered out
sort_wallets-IsOrdered_example =
    sort_wallets-IsOrdered unordered both (λ e. ground arith) refl (omega arith)
      ((Pairwise-pair (λ a b. hlevel)).1 (λ e. ground arith))
