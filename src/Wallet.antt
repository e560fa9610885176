-- ===== src/Wallet.antt =====
-- SysPro_Project1/src/wallet.c: wallets, their lists of coins, and the transfer of an amount. A
-- `BitCoin *` is the position of the coin in the list of all coins. The doubly linked list of a
-- wallet is a list, and a pointer into it is a split of that list into what stands before, nearest
-- first, and what stands ahead.
pub mod Held
pub mod Add
pub mod Round
pub mod Loop
pub mod Paid
pub mod Conserve
pub mod Search
pub mod Sort
pub mod Example
pub mod Init
mod Tests
mod InitTests
use systems_programming.Base.{
  ℕ, zero, suc, ◌+◌, ◌≡◌, Bool, true, false, Option, none, some, List, [], ◌∷◌, ◌++◌, ltb, leb,
  ◌==◌, if◌then◌else◌, length, get_elem?, get_or, set,
}
use mathlib.Core.List.{reverse_aux}
use systems_programming.Base.Size.{add_size, sub_size}
use systems_programming.Base.CString.{CString}
use systems_programming.BitCoin.{Transaction, TransTree, null, BitCoin, make_bc_transaction}

-- `BCList`: one coin that a wallet owns something of.
pub record BcEntry : Type 0 where
  pub amount_of : ℕ
  pub this_bc : ℕ

pub record Wallet : Type 0 where
  pub wallet_id : CString
  pub amount : ℕ
  pub bc_list : List BcEntry

abbrev pub entry : ℕ → ℕ → BcEntry
entry amount c = record { amount_of = amount; this_bc = c }

-- The coin behind a pointer; behind no coin's pointer stands no coin of the program.
abbrev pub no_coin : BitCoin
no_coin = record { id = 0; num_of_transactions = 0; root = null }

abbrev pub coin_at : List BitCoin → ℕ → BitCoin
coin_at coins c = get_or coins c no_coin

-- `addToBCList`: the first entry whose coin has the ID, or a new one at the end.
unfoldable pub add_to_bc_list : List BitCoin → List BcEntry → ℕ → ℕ → List BcEntry
add_to_bc_list coins [] c got = entry got c ∷ []
add_to_bc_list coins (e ∷ es) c got =
    if (coin_at coins e.this_bc).id == (coin_at coins c).id
    then record e { amount_of = add_size e.amount_of got } ∷ es
    else e ∷ add_to_bc_list coins es c got

-- `removeFromBCList` of the entry between `before` and `ahead`: what is left of the list.
abbrev pub remove_from_bc_list : List BcEntry → List BcEntry → List BcEntry
remove_from_bc_list before ahead = reverse_aux before ahead

-- What the loop of `makeTransaction` works on: the rest of the amount, the sender's list on both
-- sides of the cursor, the receiver's list, and the coins.
pub record Payment : Type 0 where
  pub rest : ℕ
  pub before : List BcEntry
  pub ahead : List BcEntry
  pub received : List BcEntry
  pub coins : List BitCoin

-- The sender's list, the receiver's and the coins, when the loop is done.
abbrev pub Done : Type 0
Done = List BcEntry × List BcEntry × List BitCoin

-- `bitCoin->previous != NULL && bitCoin->previous->amountOf == 0`
unfoldable pub previous_is_empty : List BcEntry → Bool
previous_is_empty [] = false
previous_is_empty (p ∷ ps) = p.amount_of == 0

module _ (sender receiver : CString) (trans : Option Transaction) where
  -- The branch in which the coin at the cursor covers the rest. Once the entry at the cursor is
  -- removed, another round would read freed memory (`none`).
  unfoldable pub cover :
      (loop : Payment → Option Done) → Payment → BcEntry → List BcEntry → BitCoin → ℕ → Option Done
  unfolding add_to_bc_list previous_is_empty
  cover loop s e es bc got =
      let coins = set s.coins e.this_bc bc in
      let received = add_to_bc_list coins s.received e.this_bc got in
      let left = sub_size s.rest got in
      if previous_is_empty s.before
      then (if left == 0 then some (remove_from_bc_list s.before es, received, coins) else none)
      else loop (record {
        rest = left;
        before = s.before;
        ahead = record e { amount_of = sub_size e.amount_of got } ∷ es;
        received = received;
        coins = coins;
      })

  -- The branch in which it does not: the coin counts one more transaction, its entry is removed,
  -- and the cursor moves on. At the end of the list that reads through NULL.
  unfoldable pub use_up :
      (loop : Payment → Option Done) → Payment → BcEntry → List BcEntry → BitCoin → ℕ → Option Done
  unfolding add_to_bc_list
  use_up loop s e [] bc got = none
  use_up loop s e (e' ∷ es) bc got =
      let coins = set s.coins e.this_bc bc in
      loop (record {
        rest = sub_size s.rest got;
        before = s.before;
        ahead = e' ∷ es;
        received = add_to_bc_list coins s.received e.this_bc got;
        coins =
            set coins e.this_bc
              (record bc { num_of_transactions = add_size bc.num_of_transactions 1 });
      })

  -- One round of `while (tmpAmount > 0)`.
  unfoldable pub round : (loop : Payment → Option Done) → Payment → List BcEntry → Option Done
  unfolding cover use_up
  round loop s [] = none
  round loop s (e ∷ es) = elim (get_elem? s.coins e.this_bc) [
    | none ↦ none
    | some bc ↦
        if leb s.rest e.amount_of
        then elim (make_bc_transaction bc s.rest sender receiver trans) [
          | none ↦ none
          | some (bc', got) ↦ cover loop s e es bc' got
        ]
        else elim (make_bc_transaction bc e.amount_of sender receiver trans) [
          | none ↦ none
          | some (bc', got) ↦ use_up loop s e es bc' got
        ]
  ]

  unfoldable pub transfer : ℕ → Payment → Option Done
  unfolding round
  transfer zero s = none
  transfer (suc fuel) s =
      let next = round (transfer fuel) s s.ahead in
      if ltb 0 s.rest then next else some (reverse_aux s.before s.ahead, s.received, s.coins)

abbrev pub Wallets : Type 0
Wallets = Wallet × Wallet × List BitCoin

unfoldable pub sender_has_enough : Wallet → ℕ → Bool
sender_has_enough w amount = leb amount w.amount

-- `changeAmountsOfWallets`, on two different wallets.
abbrev pub change_amounts_of_wallets : Wallet → Wallet → ℕ → Wallet × Wallet
change_amounts_of_wallets sndr rcvr amount = (
  record sndr { amount = sub_size sndr.amount amount },
  record rcvr { amount = add_size rcvr.amount amount },
)

-- `makeTransaction` between two different wallets: both of them and the coins afterwards.
unfoldable pub make_transaction :
    List BitCoin → Wallet → Wallet → ℕ → Option Transaction → Option Wallets
unfolding transfer
make_transaction coins sndr rcvr amount trans =
    elim (transfer sndr.wallet_id rcvr.wallet_id trans (length sndr.bc_list + 2) (record {
      rest = amount;
      before = [];
      ahead = sndr.bc_list;
      received = rcvr.bc_list;
      coins = coins;
    })) [
      | none ↦ none
      | some (sent, received, coins') ↦
          let (s, r) = change_amounts_of_wallets sndr rcvr amount in
          some (record s { bc_list = sent }, record r { bc_list = received }, coins')
    ]
