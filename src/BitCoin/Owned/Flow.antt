-- ===== src/BitCoin/Owned/Flow.antt =====
-- The whole walk: what it transfers, and what each wallet owns afterwards.
use systems_programming.Base.{
  ℕ, ◌+◌, ◌*◌, ◌≤◌, ◌<◌, ◌≡◌, refl, sym, inl, inr, Option, arith, ltb, min, Bool-cases,
}
use systems_programming.Base.Size.{size_mod}
use systems_programming.Base.CString.{CString}
use systems_programming.BitCoin.{Transaction, TransTree, null, node, settle}
use systems_programming.BitCoin.Pay.{paid, pay}
use systems_programming.BitCoin.Owned.{owned, IsBalanced, amount_of}
use systems_programming.BitCoin.Owned.Settle.{settle-paid, settle-IsBalanced}

-- A node of this wallet and amount.
abbrev pub IsHeadOf : CString → ℕ → TransTree → Type 0
IsHeadOf w a null = ⊥
IsHeadOf w a (node v b t l r) = (v ≡ w) × (b ≡ a)

pub owned_of_right :
    (v w : CString) (a : ℕ) (t : Option Transaction) (l r : TransTree) (wr : CString) (b : ℕ)
    → IsHeadOf wr b r
    → owned v (node w a t l r) ≡ owned v l + owned v r
unfolding owned
owned_of_right v w a t l null wr b h = absurd h
owned_of_right v w a t null (node x c tr lr rr) wr b h = omega arith
owned_of_right v w a t (node wl d tl ll rl) (node x c tr lr rr) wr b h = refl

pub IsBalanced-right :
    (w : CString) (a : ℕ) (t : Option Transaction) (r : TransTree) (wr : CString)
    → IsHeadOf wr a r
    → IsBalanced r
    → IsBalanced (node w a t null r)
IsBalanced-right w a t null wr h b = absurd h
IsBalanced-right w a t (node v c tr lr rr) wr h b = (sym h.1, b)

pub IsBalanced-both :
    (w : CString) (a : ℕ) (t : Option Transaction) (l r : TransTree) (wr : CString) (c b : ℕ)
    → IsHeadOf w c l
    → IsHeadOf wr b r
    → a ≡ c + b
    → IsBalanced l
    → IsBalanced r
    → IsBalanced (node w a t l r)
IsBalanced-both w a t null r wr c b hl hr e bl br = absurd hl
IsBalanced-both w a t (node wl cl tl ll rl) null wr c b hl hr e bl br = absurd hr
IsBalanced-both w a t (node wl cl tl ll rl) (node v d tr lr rr) wr c b hl hr e bl br =
    (omega arith, hl.0, bl, br)

module _ (sender receiver : CString) (trans : Option Transaction) (amount : ℕ)
    (small : amount < size_mod) where
  pub pay-head :
      (got : ℕ) (w : CString) (a : ℕ) (t : Option Transaction) (l r : TransTree)
      → IsHeadOf w a (pay sender receiver trans amount got (node w a t l r))
  unfolding pay settle
  pay-head got w a t null null = ground arith
  pay-head got w a t null (node wr b tr lr rr) = (refl, refl)
  pay-head got w a t (node wl c tl ll rl) r = (refl, refl)

  pub paid-min :
      (n : TransTree) (got : ℕ)
      → IsBalanced n
      → amount_of n < size_mod
      → got ≤ amount
      → paid sender receiver trans amount got n ≡ min amount (got + owned sender n)
  unfolding paid owned
  paid-min null got b s h = omega arith
  paid-min (node w a t null null) got b s h = elim (Bool-cases (ltb got amount)) [
    | inl short ↦
        rw short (
          unfold owned in settle-paid sender receiver trans amount got w a t (ground arith) small s)
    | inr done ↦ rw done (ground arith)
  ]
  paid-min (node w a t null (node wr b tr lr rr)) got h s k =
      omega (arith, paid-min (node wr b tr lr rr) got h.1 (omega arith) k)
  paid-min (node w a t (node wl c tl ll rl) null) got h s k = absurd h
  paid-min (node w a t (node wl c tl ll rl) (node wr b tr lr rr)) got h s k =
      let left = paid-min (node wl c tl ll rl) got h.2 (omega arith) k in
      let right =
        paid-min (node wr b tr lr rr) (paid sender receiver trans amount got (node wl c tl ll rl))
          h.3 (omega arith) (omega arith) in
      omega (arith, left, right)

  -- The states of the walk on a node with two children.
  abbrev pub got_after : ℕ → TransTree → ℕ
  got_after got n = paid sender receiver trans amount got n

  paid-le :
      (n : TransTree) (got : ℕ)
      → IsBalanced n
      → amount_of n < size_mod
      → got ≤ amount
      → got_after got n ≤ amount
  paid-le n got b s h = omega (arith, paid-min n got b s h)

  pub pay-IsBalanced :
      (n : TransTree) (got : ℕ)
      → IsBalanced n
      → amount_of n < size_mod
      → got ≤ amount
      → IsBalanced (pay sender receiver trans amount got n)
  unfolding pay
  pay-IsBalanced null got b s h = tt
  pay-IsBalanced (node w a t null null) got b s h = elim (Bool-cases (ltb got amount)) [
    | inl short ↦
        rw short (settle-IsBalanced sender receiver trans amount got w a t (ground arith) small s)
    | inr done ↦ rw done tt
  ]
  pay-IsBalanced (node w a t null (node wr b tr lr rr)) got h s k =
      IsBalanced-right w a t _ wr (rw h.0 (unfold pay in pay-head got wr b tr lr rr))
        (pay-IsBalanced (node wr b tr lr rr) got h.1 (omega arith) k)
  pay-IsBalanced (node w a t (node wl c tl ll rl) null) got h s k = absurd h
  pay-IsBalanced (node w a t (node wl c tl ll rl) (node wr b tr lr rr)) got h s k =
      IsBalanced-both w a t _ _ wr c b (rw (← h.1) (pay-head got wl c tl ll rl))
        (pay-head (got_after got (node wl c tl ll rl)) wr b tr lr rr) h.0
        (pay-IsBalanced (node wl c tl ll rl) got h.2 (omega arith) k)
        (pay-IsBalanced (node wr b tr lr rr) (got_after got (node wl c tl ll rl)) h.3 (omega arith)
          (paid-le (node wl c tl ll rl) got h.2 (omega arith) k))

  -- How a pass over a tree changes what `v` owns: `gain` and `loss` in terms of the transfer.
  owned-null : (v : CString) → owned v null ≡ 0
  unfolding owned
  owned-null v = refl

  abbrev pub Moves : (v : CString) (factor_in factor_out : ℕ) → ℕ → TransTree → Type 0
  Moves v fi fo got n =
      owned v (pay sender receiver trans amount got n) + fo * got_after got n + fi * got
      ≡ owned v n + fo * got + fi * got_after got n

  pub Moves-node :
      (v : CString) (fi fo : ℕ)
      → ((w : CString) (a : ℕ) (t : Option Transaction) (got : ℕ)
          → a < size_mod
          → got < amount
          → Moves v fi fo got (node w a t null null))
      → (n : TransTree) (got : ℕ) → IsBalanced n
      → amount_of n < size_mod
      → got ≤ amount
      → Moves v fi fo got n
  unfolding pay paid
  Moves-node v fi fo leaf null got h s k = omega arith
  Moves-node v fi fo leaf (node w a t null null) got h s k = elim (Bool-cases (ltb got amount)) [
    | inl short ↦ leaf w a t got s (ground arith)
    | inr done ↦ rw done (omega arith)
  ]
  Moves-node v fi fo leaf (node w a t null (node wr b tr lr rr)) got h s k = omega (
    arith,
    owned_of_right v w a t null _ wr b (pay-head got wr b tr lr rr),
    owned_of_right v w a t null (node wr b tr lr rr) wr b (refl, refl),
    Moves-node v fi fo leaf (node wr b tr lr rr) got h.1 (omega arith) k,
    owned-null v,
  )
  Moves-node v fi fo leaf (node w a t (node wl c tl ll rl) null) got h s k = absurd h
  Moves-node v fi fo leaf (node w a t (node wl c tl ll rl) (node wr b tr lr rr)) got h s k =
      let mid = got_after got (node wl c tl ll rl) in
      omega (
        arith,
        owned_of_right v w a t (pay sender receiver trans amount got (node wl c tl ll rl))
            (pay sender receiver trans amount mid (node wr b tr lr rr)) wr b
            (pay-head mid wr b tr lr rr),
        owned_of_right v w a t (node wl c tl ll rl) (node wr b tr lr rr) wr b (refl, refl),
        Moves-node v fi fo leaf (node wl c tl ll rl) got h.2 (omega arith) k,
        Moves-node v fi fo leaf (node wr b tr lr rr) mid h.3 (omega arith)
            (paid-le (node wl c tl ll rl) got h.2 (omega arith) k),
      )
