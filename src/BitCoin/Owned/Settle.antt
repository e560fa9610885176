-- ===== src/BitCoin/Owned/Settle.antt =====
-- One leaf: what `settle` transfers, and what the leaf's owners own afterwards.
use systems_programming.Base.{ℕ, ◌+◌, ◌<◌, ◌≡◌, ◌≢◌, Option, arith, min}
use systems_programming.Base.Size.{size_mod}
use systems_programming.Base.CString.{CString, str_eq_iff}
use systems_programming.BitCoin.{Transaction, null, node, settle}
use systems_programming.BitCoin.Owned.{owned, IsBalanced}

module _ (sender receiver : CString) (trans : Option Transaction) (amount : ℕ) (got : ℕ)
    (w : CString) (a : ℕ) (t : Option Transaction) (short : got < amount)
    (small : amount < size_mod) (fits : a < size_mod) where
  pub settle-paid :
      (settle sender receiver trans amount got w a t).1
      ≡ min amount (got + owned sender (node w a t null null))
  unfolding settle owned
  settle-paid = ground arith

  pub settle-IsBalanced : IsBalanced (settle sender receiver trans amount got w a t).0
  unfolding settle
  settle-IsBalanced = ground arith

  pub settle-owned_sender :
      sender ≢ receiver
      → owned sender (settle sender receiver trans amount got w a t).0
          + (settle sender receiver trans amount got w a t).1
        ≡ owned sender (node w a t null null) + got
  unfolding settle owned
  settle-owned_sender ne = ground (arith, str_eq_iff receiver sender, str_eq_iff w sender)

  pub settle-owned_receiver :
      sender ≢ receiver
      → owned receiver (settle sender receiver trans amount got w a t).0 + got
        ≡ owned receiver (node w a t null null) + (settle sender receiver trans amount got w a t).1
  unfolding settle owned
  settle-owned_receiver ne =
      ground (arith, str_eq_iff receiver receiver, str_eq_iff w sender, str_eq_iff w receiver)

  pub settle-owned_other :
      (v : CString)
      → v ≢ sender
      → v ≢ receiver
      → owned v (settle sender receiver trans amount got w a t).0 ≡ owned v (node w a t null null)
  unfolding settle owned
  settle-owned_other v ns nr =
      ground (arith, str_eq_iff receiver v, str_eq_iff w sender, str_eq_iff w v)
