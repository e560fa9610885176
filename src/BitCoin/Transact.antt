-- ===== src/BitCoin/Transact.antt =====
-- `makeBCTransaction` as a whole: it ends, reads nothing through NULL, and moves an amount.
use systems_programming.Base.{
  ℕ, ◌≤◌, ◌<◌, ◌≡◌, refl, ◌∙◌, ap, ◌≢◌, Bool, true, false, Option, some, arith, min, if◌then◌else◌,
}
use systems_programming.Base.Size.{size_mod, add_size}
use systems_programming.Base.CString.{CString}
use systems_programming.BitCoin.{
  Transaction, TransTree, null, node, BitCoin, transact, make_bc_transaction,
}
use systems_programming.BitCoin.Pay.{paid, pay}
use systems_programming.BitCoin.Owned.{owned, IsCoin}
use systems_programming.BitCoin.Owned.Flow.{paid-min}
use systems_programming.BitCoin.Parts.{
  pay-IsTransfer, IsTransfer, balanced-IsFull, transact-pay, first-IsTransfer, later-IsTransfer,
}

abbrev pub right_of : TransTree → TransTree
right_of null = null
right_of (node w a t l r) = r

-- The counter of a coin after a transaction that was counted or not.
abbrev count_of : Bool → ℕ → ℕ
count_of counted k = if counted then add_size k 1 else k

module _ (sender receiver : CString) (trans : Option Transaction) (amount : ℕ) where
  transact-IsTransfer :
      (n : TransTree)
      → sender ≢ receiver
      → n ≢ null
      → IsCoin n
      → amount ≤ owned sender n
      → (m : TransTree) × (counted : Bool) × (transact sender receiver trans amount n
          ≡ some (m, amount, counted))
        × IsTransfer sender receiver amount n m
  transact-IsTransfer null ne nn c h = absurd (nn refl)
  transact-IsTransfer (node w a t null null) ne nn c h =
      let (m, e, tr) = first-IsTransfer sender receiver trans amount w a t ne c.small h in
      (m, false, e, tr)
  transact-IsTransfer (node w a t (node wl d u ll rl) null) ne nn c h = absurd c.balanced
  transact-IsTransfer (node w a t l (node wr d u lr rr)) ne nn c h =
      let (m, e, tr) =
        later-IsTransfer sender receiver trans amount w a t l (node wr d u lr rr) (λ e. cc) ne c
          h in
      (m, true, e, tr)

  transact-min :
      (n : TransTree)
      → sender ≢ receiver
      → right_of n ≢ null
      → IsCoin n
      → amount < size_mod
      → (transact sender receiver trans amount n
          ≡ some (pay sender receiver trans amount 0 n, min amount (owned sender n), true))
        × IsTransfer sender receiver
            (min amount (owned sender n))
            n
            (pay sender receiver trans amount 0 n)
  transact-min null ne nn c small = absurd (nn refl)
  transact-min (node w a t l r) ne nn c small =
      let n = node w a t l r in
      let all : paid sender receiver trans amount 0 n ≡ min amount (owned sender n) =
        omega (
          arith,
          paid-min sender receiver trans amount small n 0 c.balanced c.small (omega arith),
        ) in
      (
        transact-pay sender receiver trans amount w a t l r nn (balanced-IsFull n c.balanced)
            ∙ ap (λ g. some (pay sender receiver trans amount 0 n, g, true)) all,
        pay-IsTransfer sender receiver trans amount small w a t l r ne c all,
      )

  transact_first :
      (n : TransTree)
      → n ≢ null
      → right_of n ≡ null
      → (m : TransTree) × (transact sender receiver trans amount n ≡ some (m, amount, false))
        × (right_of m ≢ null)
  unfolding transact
  transact_first null nn e = absurd (nn refl)
  transact_first (node w a t l null) nn e = (_, refl, λ q. cc)
  transact_first (node w a t l (node wr d u lr rr)) nn e = cc

  -- The coin that a successful `transact` leaves.
  abbrev coin_of : BitCoin → TransTree → Bool → BitCoin
  coin_of bc m counted = record bc {
    num_of_transactions = count_of counted bc.num_of_transactions;
    root = m;
  }

  make_of_transact :
      (bc : BitCoin) (m : TransTree) (got : ℕ) (counted : Bool)
      → transact sender receiver trans amount bc.root ≡ some (m, got, counted)
      → make_bc_transaction bc amount sender receiver trans ≡ some (coin_of bc m counted, got)
  unfolding make_bc_transaction
  make_of_transact bc m got counted e = rw (e, make_bc_transaction)

  -- It succeeds, and transfers what it is asked to.
  pub make_bc_transaction-IsTransfer :
      (bc : BitCoin)
      → sender ≢ receiver
      → bc.root ≢ null
      → IsCoin bc.root
      → amount ≤ owned sender bc.root
      → (bc' : BitCoin) × (make_bc_transaction bc amount sender receiver trans ≡ some (bc', amount))
        × IsTransfer sender receiver amount bc.root bc'.root
        × (bc'.id ≡ bc.id)
  make_bc_transaction-IsTransfer bc ne nn c h =
      let (m, counted, e, tr) = transact-IsTransfer bc.root ne nn c h in
      (coin_of bc m counted, make_of_transact bc m amount counted e, tr, refl)

  -- Once a coin has been in a transaction, one of any `size_t` amount between two different wallets
  -- ends, and transfers the smaller of the amount and of what the sender owns of the coin: the
  -- sender's share falls by it, the receiver's grows by it, and no other wallet's changes. The coin
  -- stays balanced and keeps its value, and its counter grows by one (modulo 2^64).
  pub make_bc_transaction-min :
      (bc : BitCoin)
      → sender ≢ receiver
      → right_of bc.root ≢ null
      → IsCoin bc.root
      → amount < size_mod
      → (bc' : BitCoin) × (make_bc_transaction bc amount sender receiver trans
          ≡ some (bc', min amount (owned sender bc.root)))
        × IsTransfer sender receiver (min amount (owned sender bc.root)) bc.root bc'.root
        × (bc'.num_of_transactions ≡ add_size bc.num_of_transactions 1)
  make_bc_transaction-min bc ne nn c small =
      let (e, tr) = transact-min bc.root ne nn c small in
      (coin_of bc _ true, make_of_transact bc _ _ true e, tr, refl)

  -- The first transaction of a coin transfers the amount asked for and is not counted: the coin
  -- keeps its counter although its root then has a right child.
  pub make_bc_transaction_first_uncounted :
      (bc : BitCoin)
      → bc.root ≢ null
      → right_of bc.root ≡ null
      → (bc' : BitCoin) × (make_bc_transaction bc amount sender receiver trans ≡ some (bc', amount))
        × (bc'.num_of_transactions ≡ bc.num_of_transactions)
        × (right_of bc'.root ≢ null)
  make_bc_transaction_first_uncounted bc nn e =
      let (m, q, r) = transact_first bc.root nn e in
      (coin_of bc m false, make_of_transact bc m amount false q, refl, r)
