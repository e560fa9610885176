-- ===== src/BitCoin/Walk.antt =====
-- The cursor loop of `makeBCTransaction` ends, reads no field through NULL, and computes `pay`.
use systems_programming.Base.{
  ℕ, zero, suc, ◌+◌, ◌≤◌, ◌<◌, ◌≡◌, refl, ◌≢◌, inl, inr, true, Option, some, arith, ltb, Bool-cases,
}
use systems_programming.Base.CString.{CString}
use systems_programming.BitCoin.{
  Transaction, TransTree, null, node, Context, at_root, in_left, in_right, climb, visit, walk, size,
}
use systems_programming.BitCoin.Pay.{
  IsFull, IsFullAbove, pending, paid, pay, finish, paid_done, pay_done, finish_done,
}

module _ (sender receiver : CString) (trans : Option Transaction) (amount : ℕ) where
  abbrev Loop : Type 0
  Loop = ℕ → TransTree → Context → Option (TransTree × ℕ)

  -- `loop` computes the reference on what lies within `fuel` nodes.
  abbrev Computes : ℕ → Loop → Type 0
  Computes fuel loop =
      (got : ℕ) (n : TransTree) (up : Context)
      → n ≢ null
      → IsFull n
      → IsFullAbove up
      → size n + pending up < fuel
      → loop got n up
        ≡ some (
            finish sender receiver trans amount (pay sender receiver trans amount got n)
              (paid sender receiver trans amount got n) up)

  climb-Computes :
      (fuel : ℕ) (loop : Loop)
      → Computes fuel loop
      → (got : ℕ) (n : TransTree) (up : Context) → IsFullAbove up
      → pending up < fuel
      → climb sender receiver trans amount loop got n up
        ≡ some (finish sender receiver trans amount n got up)
  unfolding climb finish
  climb-Computes fuel loop c got n at_root f h = refl
  climb-Computes fuel loop c got n (in_left w a t r up) f h =
      c got r (in_right w a t n up) f.0 f.1 f.2 h
  climb-Computes fuel loop c got n (in_right w a t l up) f h =
      climb-Computes fuel loop c got (node w a t l n) up f h

  visit-Computes :
      (fuel : ℕ) (loop : Loop)
      → Computes fuel loop
      → (got : ℕ) (n : TransTree) (up : Context) → n ≢ null
      → IsFull n
      → IsFullAbove up
      → size n + pending up < suc fuel
      → ltb got amount ≡ true
      → visit sender receiver trans amount loop got n up
        ≡ some (
            finish sender receiver trans amount
              (pay sender receiver trans amount got n)
              (paid sender receiver trans amount got n)
              up)
  unfolding visit pay finish size
  visit-Computes fuel loop c got null up p f g h short = absurd (p refl)
  visit-Computes fuel loop c got (node w a t null null) up p f g h short =
      rw short (climb-Computes fuel loop c _ _ up g (omega arith))
  visit-Computes fuel loop c got (node w a t null (node rc ra rt rl rr)) up p f g h short =
      c got (node rc ra rt rl rr) (in_right w a t null up) (λ e. cc) f g (omega arith)
  visit-Computes fuel loop c got (node w a t (node lw la lt ll lr) null) up p f g h short = absurd f
  visit-Computes fuel loop c got (node w a t (node lw la lt ll lr) (node rc ra rt rl rr)) up p f g h
        short =
      c got (node lw la lt ll lr) (in_left w a t (node rc ra rt rl rr) up) (λ e. cc) f.0
        ((λ e. cc), f.1, g) (omega arith)

  pub walk-pay : (fuel : ℕ) → Computes fuel (walk sender receiver trans amount fuel)
  unfolding walk
  walk-pay zero got n up p f g h = absurd (omega arith)
  walk-pay (suc fuel) got n up p f g h = elim (Bool-cases (ltb got amount)) [
    | inl short ↦
        rw (short, walk)
          (visit-Computes fuel (walk sender receiver trans amount fuel) (walk-pay fuel) got n up p f
            g h short)
    | inr done ↦
        let enough : amount ≤ got = ground arith in
        rw (
          done,
          walk,
          paid_done sender receiver trans amount n got enough,
          pay_done sender receiver trans amount n got enough,
          finish_done sender receiver trans amount up n got enough,
        )
  ]
