-- ===== src/BitCoin/Shares.antt =====
-- What each wallet owns of a coin behind `makeBCTransaction`.
use systems_programming.Base.{
  ℕ, ◌+◌, ◌≤◌, ◌≡◌, ◌≢◌, sym, false, Option, some, arith, Bool-cases, inl, inr, if◌then◌else◌, ◌∙◌,
  subst,
}
use systems_programming.Base.CString.{CString, str_eq, str_eq_iff, str_eq-ne}
use systems_programming.BitCoin.{Transaction, TransTree, null, BitCoin, make_bc_transaction}
use systems_programming.BitCoin.Owned.{owned, amount_of, IsCoin}
use systems_programming.BitCoin.Transact.{make_bc_transaction-IsTransfer}
use systems_programming.BitCoin.Parts.{IsTransfer}

-- `amount` of the coin goes from the sender to the receiver, and nothing else changes hands.
pub record IsShared (sender receiver : CString) (amount : ℕ) (n m : TransTree) : Type 0 where
  pub shares :
      (v : CString)
      → owned v m + (if str_eq v sender then amount else 0)
        ≡ owned v n + (if str_eq v receiver then amount else 0)
  pub coin : IsCoin m
  pub value : amount_of m ≡ amount_of n

shares_of :
    (sender receiver : CString) (amount : ℕ) (n m : TransTree)
    → sender ≢ receiver
    → IsTransfer sender receiver amount n m
    → (v : CString)
    → owned v m + (if str_eq v sender then amount else 0)
      ≡ owned v n + (if str_eq v receiver then amount else 0)
shares_of sender receiver amount n m ne t v = elim (Bool-cases (str_eq v sender)) [
  | inl e ↦
      let q : v ≡ sender = (str_eq_iff v sender).0 e in
      let out : str_eq v receiver ≡ false = str_eq-ne v receiver (λ r. ne (sym q ∙ r)) in
      let p = subst (λ u. owned u m + amount ≡ owned u n) (sym q) t.paid_out in
      rw (e, out) (omega (arith, p))
  | inr other ↦ elim (Bool-cases (str_eq v receiver)) [
    | inl e ↦
        let q : v ≡ receiver = (str_eq_iff v receiver).0 e in
        let p = subst (λ u. owned u m ≡ owned u n + amount) (sym q) t.paid_in in
        rw (other, e) (omega (arith, p))
    | inr nr ↦
        let ns : v ≢ sender = λ q. let h = (str_eq_iff v sender).1 q in cc in
        let nn : v ≢ receiver = λ q. let h = (str_eq_iff v receiver).1 q in cc in
        rw (other, nr) (omega (arith, t.others v ns nn))
  ]
]

-- A transaction of at most what the sender owns of the coin succeeds and transfers all of it:
-- the sender's share falls by the amount, the receiver's grows by it, no other wallet's share
-- changes, and the coin stays balanced, of the same value and ID.
pub make_bc_transaction-IsShared :
    (sender receiver : CString) (trans : Option Transaction) (amount : ℕ) (bc : BitCoin)
    → sender ≢ receiver
    → bc.root ≢ null
    → IsCoin bc.root
    → amount ≤ owned sender bc.root
    → (bc' : BitCoin) × (make_bc_transaction bc amount sender receiver trans ≡ some (bc', amount))
      × IsShared sender receiver amount bc.root bc'.root
      × (bc'.id ≡ bc.id)
make_bc_transaction-IsShared sender receiver trans amount bc ne nn c enough =
    let (bc', run, t, id) =
      make_bc_transaction-IsTransfer sender receiver trans amount bc ne nn c enough in
    (
      bc',
      run,
      record {
        shares = shares_of sender receiver amount bc.root bc'.root ne t;
        coin = t.coin;
        value = t.value;
      },
      id,
    )
