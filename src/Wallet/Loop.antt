-- ===== src/Wallet/Loop.antt =====
-- The loop of `makeTransaction`: it ends, reads nothing through NULL, and pays the whole amount.
use systems_programming.Base.{
  ℕ, suc, ◌+◌, ◌≤◌, ◌<◌, ◌≡◌, ◌≢◌, refl, ◌∙◌, Option, some, List, [], ◌∷◌, arith, lt→ltb, le→leb,
  lt→leb, length, set, get_elem?-eq-get_or,
}
use systems_programming.Base.Size.{size_mod, add_size, sub_size}
use systems_programming.Base.CString.{CString}
use systems_programming.BitCoin.{Transaction, BitCoin, make_bc_transaction}
use systems_programming.BitCoin.Owned.{owned, amount_of}
use systems_programming.BitCoin.Transact.{make_bc_transaction-IsTransfer}
use systems_programming.BitCoin.Parts.{IsTransfer, owned-le-amount}
use systems_programming.Wallet.{
  BcEntry, Payment, Done, coin_at, no_coin, add_to_bc_list, cover, use_up, round, transfer,
  previous_is_empty,
}
use systems_programming.Wallet.Held.{held, total, InRange, Agrees, AreCoins, InRange-le}
use systems_programming.Wallet.Add.{total-add, add-InRange}
use systems_programming.Wallet.Round.{
  Moved, set-Moved, Agrees-lowered, Agrees-added, coin_at-IsCoin,
}

-- The state of the loop: the lists agree with the coins, and the sender has what is left to pay.
pub record IsPayment (sender receiver : CString) (s : Payment) : Type 0 where
  pub are_coins : AreCoins s.coins
  pub sent : Agrees s.coins sender s.ahead
  pub got : Agrees s.coins receiver s.received
  pub sent_in : InRange (length s.coins) s.ahead
  pub got_in : InRange (length s.coins) s.received
  pub enough : s.rest ≤ total s.ahead
  pub small : total s.received + s.rest < size_mod

-- The cursor stands at the first entry of the sender's list.
abbrev pub payment : ℕ → List BcEntry → List BcEntry → List BitCoin → Payment
payment rest ahead received coins = record {
  rest = rest;
  before = [];
  ahead = ahead;
  received = received;
  coins = coins;
}

-- What the loop has done when it ends.
pub record IsPaid (sender receiver : CString) (s : Payment) (d : Done) : Type 0 where
  pub are_coins : AreCoins d.2
  pub sent : Agrees d.2 sender d.0
  pub got : Agrees d.2 receiver d.1
  pub sent_in : InRange (length d.2) d.0
  pub got_in : InRange (length d.2) d.1
  pub sent_total : total d.0 + s.rest ≡ total s.ahead
  pub got_total : total d.1 ≡ total s.received + s.rest
  pub same_length : length d.2 ≡ length s.coins
  pub others :
      (v : CString) (c : ℕ)
      → v ≢ sender
      → v ≢ receiver
      → owned v (coin_at d.2 c).root ≡ owned v (coin_at s.coins c).root
  pub values : (c : ℕ) → amount_of (coin_at d.2 c).root ≡ amount_of (coin_at s.coins c).root

-- `numOfTransactions++`
abbrev pub counted : BitCoin → BitCoin
counted bc = record bc { num_of_transactions = add_size bc.num_of_transactions 1 }

module _ (sender receiver : CString) (trans : Option Transaction) (ne : sender ≢ receiver) where
  -- From a later state of the loop to an earlier one.
  pub IsPaid-back :
      (s t : Payment) (c k : ℕ) (d : Done)
      → Moved sender receiver c k s.coins t.coins
      → total t.ahead + k ≡ total s.ahead
      → total t.received ≡ total s.received + k
      → t.rest + k ≡ s.rest
      → IsPaid sender receiver t d
      → IsPaid sender receiver s d
  IsPaid-back s t c k d m sent got rest p = record {
    are_coins = p.are_coins;
    sent = p.sent;
    got = p.got;
    sent_in = p.sent_in;
    got_in = p.got_in;
    sent_total = omega (arith, p.sent_total);
    got_total = omega (arith, p.got_total);
    same_length = p.same_length ∙ m.same_length;
    others = λ v e ns nr. p.others v e ns nr ∙ (m.roots e).others v ns nr;
    values = λ e. p.values e ∙ (m.roots e).value;
  }

  abbrev pub Result : ℕ → Payment → Type 0
  Result fuel s =
      (d : Done) × (transfer sender receiver trans fuel s ≡ some d) × IsPaid sender receiver s d

  pub transfer_done :
      (fuel : ℕ) (ahead received : List BcEntry) (coins : List BitCoin)
      → IsPayment sender receiver (payment 0 ahead received coins)
      → Result (suc fuel) (payment 0 ahead received coins)
  unfolding transfer
  transfer_done fuel ahead received coins p = (
    (ahead, received, coins),
    refl,
    record {
      are_coins = p.are_coins;
      sent = p.sent;
      got = p.got;
      sent_in = p.sent_in;
      got_in = p.got_in;
      sent_total = omega arith;
      got_total = omega arith;
      same_length = refl;
      others = λ v c ns nr. refl;
      values = λ c. refl;
    },
  )

  -- What the head of the sender's list gives: the coin moves any amount of the entry.
  pub head-Moved :
      (s : Payment) (e : BcEntry) (es : List BcEntry) (k : ℕ)
      → AreCoins s.coins
      → Agrees s.coins sender (e ∷ es)
      → e.this_bc < length s.coins
      → k ≤ e.amount_of
      → (bc : BitCoin) × (make_bc_transaction (coin_at s.coins e.this_bc) k sender receiver trans
          ≡ some (bc, k))
        × (bc.id ≡ (coin_at s.coins e.this_bc).id)
        × IsTransfer sender receiver k (coin_at s.coins e.this_bc).root bc.root
  head-Moved s e es k a agree h le =
      let (bc, q, t, i) =
        make_bc_transaction-IsTransfer sender receiver trans k (coin_at s.coins e.this_bc) ne
          (a.exists e.this_bc h) (a.balanced e.this_bc h)
          (unfold held in ground (arith, agree e.this_bc)) in
      (bc, q, i, t)

  pub entry_small :
      (coins : List BitCoin) (e : BcEntry) (es : List BcEntry)
      → AreCoins coins
      → Agrees coins sender (e ∷ es)
      → e.amount_of < size_mod
  unfolding held
  entry_small coins e es a agree =
      let c = coin_at-IsCoin coins a e.this_bc in
      ground (
        arith,
        agree e.this_bc,
        owned-le-amount sender (coin_at coins e.this_bc).root c.balanced,
        c.small,
      )

  -- The state after a coin that covers the rest.
  pub covered :
      (k : ℕ) (e : BcEntry) (es received : List BcEntry) (coins : List BitCoin) (bc : BitCoin)
      → IsPayment sender receiver (payment k (e ∷ es) received coins)
      → k ≤ e.amount_of
      → bc.id ≡ (coin_at coins e.this_bc).id
      → IsTransfer sender receiver k (coin_at coins e.this_bc).root bc.root
      → let coins' = set coins e.this_bc bc in
        IsPayment sender receiver (
          payment 0
            (record e { amount_of = sub_size e.amount_of k } ∷ es)
            (add_to_bc_list coins' received e.this_bc k)
            coins')
  covered k e es received coins bc p le same t =
      let h = p.sent_in.0 in
      let m = set-Moved sender receiver e.this_bc k coins p.are_coins h bc same t in
      let len = m.same_length in
      let h' : e.this_bc < length (set coins e.this_bc bc) = omega arith in
      let in' = InRange-le received _ (length (set coins e.this_bc bc)) (omega arith) p.got_in in
      record {
        are_coins = m.are_coins;
        sent =
            Agrees-lowered sender receiver e.this_bc k coins _ m e es refl le
              (entry_small coins e es p.are_coins p.sent) p.sent;
        got =
            Agrees-added sender receiver e.this_bc k coins _ m received _ m.are_coins h' in' p.small
              p.got;
        sent_in = (h', InRange-le es _ _ (omega arith) p.sent_in.1);
        got_in = add-InRange _ m.are_coins e.this_bc k h' received in';
        enough = omega arith;
        small = omega (arith, total-add _ m.are_coins e.this_bc k h' received p.small, p.small);
      }

  -- One round of the loop, by either branch.
  module _ (fuel k : ℕ) (e : BcEntry) (received : List BcEntry) (coins : List BitCoin)
      (bc : BitCoin) (pos : 0 < k) (h : e.this_bc < length coins) where
    pub cover_step :
        (es : List BcEntry)
        → k ≤ e.amount_of
        → make_bc_transaction (coin_at coins e.this_bc) k sender receiver trans ≡ some (bc, k)
        → let coins' = set coins e.this_bc bc in
          transfer sender receiver trans (suc fuel) (payment k (e ∷ es) received coins)
          ≡ transfer sender receiver trans fuel (
              payment
                (sub_size k k)
                (record e { amount_of = sub_size e.amount_of k } ∷ es)
                (add_to_bc_list coins' received e.this_bc k)
                coins')
    unfolding transfer round cover previous_is_empty
    cover_step es le q =
        rw (
          lt→ltb 0 k pos,
          get_elem?-eq-get_or coins e.this_bc no_coin h,
          le→leb k e.amount_of le,
          q,
        )

    pub use_up_step :
        (e' : BcEntry) (es : List BcEntry)
        → e.amount_of < k
        → make_bc_transaction (coin_at coins e.this_bc) e.amount_of sender receiver trans
          ≡ some (bc, e.amount_of)
        → transfer sender receiver trans (suc fuel) (payment k (e ∷ e' ∷ es) received coins)
          ≡ transfer sender receiver trans fuel (
              payment
                (sub_size k e.amount_of)
                (e' ∷ es)
                (add_to_bc_list (set coins e.this_bc bc) received e.this_bc e.amount_of)
                (set (set coins e.this_bc bc) e.this_bc (counted bc)))
    unfolding transfer round use_up
    use_up_step e' es lt q =
        rw (
          lt→ltb 0 k pos,
          get_elem?-eq-get_or coins e.this_bc no_coin h,
          lt→leb k e.amount_of lt,
          q,
        )
