-- ===== src/BitCoin/Parts.antt =====
-- What one transaction moves in a coin, from the walk through its tree.
use systems_programming.Base.{
  ℕ, ◌+◌, ◌≤◌, ◌<◌, ◌≡◌, refl, ◌∙◌, ap, ◌≢◌, true, false, Option, some, arith,
}
use systems_programming.Base.Size.{size_mod}
use systems_programming.Base.CString.{CString, str_eq_iff}
use systems_programming.BitCoin.{
  Transaction, TransTree, null, node, at_root, in_left, in_right, size, transact,
}
use systems_programming.BitCoin.Pay.{IsFull, paid, pay, finish}
use systems_programming.BitCoin.Walk.{walk-pay}
use systems_programming.BitCoin.Owned.{owned, IsBalanced, amount_of, IsCoin}
use systems_programming.BitCoin.Owned.Flow.{IsHeadOf, pay-head, paid-min, pay-IsBalanced}
use systems_programming.BitCoin.Owned.Transfer.{
  pay-owned_sender, pay-owned_receiver, pay-owned_other,
}

-- `amount` of the coin goes from the sender to the receiver, and nothing else changes hands.
pub record IsTransfer (sender receiver : CString) (amount : ℕ) (n m : TransTree) : Type 0 where
  pub paid_out : owned sender m + amount ≡ owned sender n
  pub paid_in : owned receiver m ≡ owned receiver n + amount
  pub others : (v : CString) → v ≢ sender → v ≢ receiver → owned v m ≡ owned v n
  pub coin : IsCoin m
  pub value : amount_of m ≡ amount_of n
  pub exists : n ≢ null → m ≢ null

pub balanced-IsFull : (n : TransTree) → IsBalanced n → IsFull n
balanced-IsFull null b = tt
balanced-IsFull (node w a t null null) b = tt
balanced-IsFull (node w a t null (node wr c t' lr rr)) b = balanced-IsFull (node wr c t' lr rr) b.1
balanced-IsFull (node w a t (node wl d u ll rl) null) b = absurd b
balanced-IsFull (node w a t (node wl d u ll rl) (node wr c t' lr rr)) b =
    (balanced-IsFull (node wl d u ll rl) b.2, balanced-IsFull (node wr c t' lr rr) b.3)

-- No wallet owns more of a coin than its value.
pub owned-le-amount : (v : CString) (n : TransTree) → IsBalanced n → owned v n ≤ amount_of n
unfolding owned
owned-le-amount v null b = omega arith
owned-le-amount v (node w a t null null) b = ground arith
owned-le-amount v (node w a t null (node wr c t' lr rr)) b =
    omega (arith, owned-le-amount v (node wr c t' lr rr) b.1)
owned-le-amount v (node w a t (node wl d u ll rl) null) b = absurd b
owned-le-amount v (node w a t (node wl d u ll rl) (node wr c t' lr rr)) b =
    omega
      (arith, owned-le-amount v (node wl d u ll rl) b.2, owned-le-amount v (node wr c t' lr rr) b.3)

amount_of_head : (w : CString) (a : ℕ) (n : TransTree) → IsHeadOf w a n → amount_of n ≡ a
amount_of_head w a null h = absurd h
amount_of_head w a (node v b t l r) h = h.1

ne_null_of_head : (w : CString) (a : ℕ) (n : TransTree) → IsHeadOf w a n → n ≢ null
ne_null_of_head w a null h = absurd h
ne_null_of_head w a (node v b t l r) h = λ e. cc

-- Nothing is moved within one tree.
pub IsTransfer-none :
    (sender receiver : CString) (n : TransTree) → IsCoin n → IsTransfer sender receiver 0 n n
IsTransfer-none sender receiver n c = record {
  paid_out = omega arith;
  paid_in = omega arith;
  others = λ v p q. refl;
  coin = c;
  value = refl;
  exists = λ h. h;
}

module _ (sender receiver : CString) (trans : Option Transaction) (amount : ℕ) where
  -- After the first transaction the body is the reference on the root.
  pub transact-pay :
      (w : CString) (a : ℕ) (t : Option Transaction) (l r : TransTree)
      → r ≢ null
      → IsFull (node w a t l r)
      → transact sender receiver trans amount (node w a t l r)
        ≡ some (
          pay sender receiver trans amount 0 (node w a t l r),
          paid sender receiver trans amount 0 (node w a t l r),
          true,
        )
  unfolding transact pay finish
  transact-pay w a t l null ne f = absurd (ne refl)
  transact-pay w a t null (node wr c t' lr rr) ne f = rw (
    walk-pay sender receiver trans amount (size (node wr c t' lr rr) + 1) 0 (node wr c t' lr rr)
        (in_right w a t null at_root) (λ e. cc) f tt (omega arith),
    transact,
  )
  transact-pay w a t (node wl d u ll rl) (node wr c t' lr rr) ne f = rw (
    walk-pay sender receiver trans amount (size (node wl d u ll rl) + size (node wr c t' lr rr) + 1)
        0 (node wl d u ll rl) (in_left w a t (node wr c t' lr rr) at_root) (λ e. cc) f.0
        ((λ e. cc), f.1, tt) (omega arith),
    transact,
  )

  -- The first transaction of a coin.
  pub first-IsTransfer :
      (w : CString) (a : ℕ) (t : Option Transaction)
      → sender ≢ receiver
      → a < size_mod
      → amount ≤ owned sender (node w a t null null)
      → (m : TransTree) × (transact sender receiver trans amount (node w a t null null)
          ≡ some (m, amount, false))
        × IsTransfer sender receiver amount (node w a t null null) m
  unfolding transact owned
  first-IsTransfer w a t ne fits enough = (
    _,
    refl,
    record {
      paid_out = ground (arith, str_eq_iff w sender, str_eq_iff receiver sender);
      paid_in =
          ground (arith, str_eq_iff w receiver, str_eq_iff w sender, str_eq_iff receiver receiver);
      others =
          λ v ns nr. ground (arith, str_eq_iff w v, str_eq_iff w sender, str_eq_iff receiver v);
      coin = record { balanced = ground arith; small = fits };
      value = refl;
      exists = λ h e. cc;
    },
  )

  -- The reference moves what it pays.
  pub pay-IsTransfer :
      (small : amount < size_mod) (w : CString) (a : ℕ) (t : Option Transaction) (l r : TransTree)
      → sender ≢ receiver
      → IsCoin (node w a t l r)
      → {got : ℕ} → paid sender receiver trans amount 0 (node w a t l r) ≡ got
      → IsTransfer sender receiver got
          (node w a t l r)
          (pay sender receiver trans amount 0 (node w a t l r))
  pay-IsTransfer small w a t l r ne c all =
      let n = node w a t l r in
      let head = amount_of_head w a _ (pay-head sender receiver trans amount small 0 w a t l r) in
      let start : 0 ≤ amount = omega arith in
      record {
        paid_out = omega (
          arith,
          pay-owned_sender sender receiver trans amount small n 0 c.balanced c.small start ne,
          all,
        );
        paid_in = omega (
          arith,
          pay-owned_receiver sender receiver trans amount small n 0 c.balanced c.small start ne,
          all,
        );
        others = pay-owned_other sender receiver trans amount small n 0 c.balanced c.small start;
        coin = record {
          balanced = pay-IsBalanced sender receiver trans amount small n 0 c.balanced c.small start;
          small = omega arith;
        };
        value = head;
        exists =
            λ h. ne_null_of_head w a _ (pay-head sender receiver trans amount small 0 w a t l r);
      }

  pub later-IsTransfer :
      (w : CString) (a : ℕ) (t : Option Transaction) (l r : TransTree)
      → r ≢ null
      → sender ≢ receiver
      → IsCoin (node w a t l r)
      → amount ≤ owned sender (node w a t l r)
      → (m : TransTree) × (transact sender receiver trans amount (node w a t l r)
          ≡ some (m, amount, true))
        × IsTransfer sender receiver amount (node w a t l r) m
  later-IsTransfer w a t l r nr ne c enough =
      let n = node w a t l r in
      let below = owned-le-amount sender n c.balanced in
      let small : amount < size_mod = omega arith in
      let all : paid sender receiver trans amount 0 n ≡ amount =
        omega (
          arith,
          paid-min sender receiver trans amount small n 0 c.balanced c.small (omega arith),
        ) in
      (
        pay sender receiver trans amount 0 n,
        transact-pay w a t l r nr (balanced-IsFull n c.balanced)
            ∙ ap (λ g. some (pay sender receiver trans amount 0 n, g, true)) all,
        pay-IsTransfer small w a t l r ne c all,
      )
