-- ===== src/BitCoin/Owned/Transfer.antt =====
-- What each wallet owns of a coin after a pass over its tree.
use systems_programming.Base.{ℕ, ◌+◌, ◌≤◌, ◌<◌, ◌≡◌, ◌≢◌, Option, arith, lt→ltb}
use systems_programming.Base.Size.{size_mod}
use systems_programming.Base.CString.{CString}
use systems_programming.BitCoin.{Transaction, TransTree, null, node}
use systems_programming.BitCoin.Pay.{paid, pay}
use systems_programming.BitCoin.Owned.{owned, IsBalanced, amount_of}
use systems_programming.BitCoin.Owned.Settle.{
  settle-owned_sender, settle-owned_receiver, settle-owned_other,
}
use systems_programming.BitCoin.Owned.Flow.{Moves, Moves-node}

module _ (sender receiver : CString) (trans : Option Transaction) (amount : ℕ)
    (small : amount < size_mod) where
  leaf_sender :
      sender ≢ receiver
      → (w : CString) (a : ℕ) (t : Option Transaction) (got : ℕ) → a < size_mod
      → got < amount
      → Moves sender receiver trans amount small sender 0 1 got (node w a t null null)
  unfolding pay paid
  leaf_sender ne w a t got fits short = rw (lt→ltb got amount short) (
      omega (arith, settle-owned_sender sender receiver trans amount got w a t short small fits ne))

  leaf_receiver :
      sender ≢ receiver
      → (w : CString) (a : ℕ) (t : Option Transaction) (got : ℕ) → a < size_mod
      → got < amount
      → Moves sender receiver trans amount small receiver 1 0 got (node w a t null null)
  unfolding pay paid
  leaf_receiver ne w a t got fits short = rw (lt→ltb got amount short) (
      omega
        (arith, settle-owned_receiver sender receiver trans amount got w a t short small fits ne))

  leaf_other :
      (v : CString)
      → v ≢ sender
      → v ≢ receiver
      → (w : CString) (a : ℕ) (t : Option Transaction) (got : ℕ) → a < size_mod
      → got < amount
      → Moves sender receiver trans amount small v 0 0 got (node w a t null null)
  unfolding pay paid
  leaf_other v ns nr w a t got fits short = rw (lt→ltb got amount short) (
      omega
        (arith, settle-owned_other sender receiver trans amount got w a t short small fits v ns nr))

  module _ (n : TransTree) (got : ℕ) (b : IsBalanced n) (fits : amount_of n < size_mod)
      (h : got ≤ amount) where
    pub pay-owned_sender :
        sender ≢ receiver
        → owned sender (pay sender receiver trans amount got n)
            + paid sender receiver trans amount got n
          ≡ owned sender n + got
    pay-owned_sender ne = omega (
      arith,
      Moves-node sender receiver trans amount small sender 0 1 (leaf_sender ne) n got b fits h,
    )

    pub pay-owned_receiver :
        sender ≢ receiver
        → owned receiver (pay sender receiver trans amount got n) + got
          ≡ owned receiver n + paid sender receiver trans amount got n
    pay-owned_receiver ne = omega (
      arith,
      Moves-node sender receiver trans amount small receiver 1 0 (leaf_receiver ne) n got b fits h,
    )

    pub pay-owned_other :
        (v : CString)
        → v ≢ sender
        → v ≢ receiver
        → owned v (pay sender receiver trans amount got n) ≡ owned v n
    pay-owned_other v ns nr = omega (
      arith,
      Moves-node sender receiver trans amount small v 0 0 (leaf_other v ns nr) n got b fits h,
    )
