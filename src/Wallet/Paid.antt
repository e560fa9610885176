-- ===== src/Wallet/Paid.antt =====
-- The loop of `makeTransaction`, round by round to its end.
use systems_programming.Base.{
  ℕ, zero, suc, ◌+◌, ◌≤◌, ◌<◌, ◌≡◌, ◌≢◌, refl, ◌∙◌, Option, some, List, [], ◌∷◌, arith, length, set,
  set-set,
}
use native.Mathlib.Decide.{dec_lt}
use systems_programming.Base.Size.{size_mod, sub_size}
use systems_programming.Base.CString.{CString}
use systems_programming.BitCoin.{Transaction, BitCoin}
use systems_programming.BitCoin.Parts.{IsTransfer}
use systems_programming.Wallet.{BcEntry, coin_at, add_to_bc_list, transfer}
use systems_programming.Wallet.Held.{total, InRange-le}
use systems_programming.Wallet.Add.{total-add, add-InRange}
use systems_programming.Wallet.Round.{set-Moved, Agrees-removed, Agrees-added}
use systems_programming.Wallet.Loop.{
  IsPayment, payment, counted, Result, IsPaid-back, transfer_done, head-Moved, entry_small, covered,
  cover_step, use_up_step,
}

module _ (sender receiver : CString) (trans : Option Transaction) (ne : sender ≢ receiver) where
  cover-Result :
      (fuel k : ℕ) (e : BcEntry) (es received : List BcEntry) (coins : List BitCoin)
      → IsPayment sender receiver (payment k (e ∷ es) received coins)
      → 0 < k
      → k ≤ e.amount_of
      → Result sender receiver trans ne (suc (suc fuel)) (payment k (e ∷ es) received coins)
  cover-Result fuel k e es received coins p pos le =
      let s = payment k (e ∷ es) received coins in
      let (bc, q, same, t) =
        head-Moved sender receiver trans ne s e es k p.are_coins p.sent p.sent_in.0 le in
      let p' = covered sender receiver trans ne k e es received coins bc p le same t in
      let small = entry_small sender receiver trans ne coins e es p.are_coins p.sent in
      let m = set-Moved sender receiver e.this_bc k coins p.are_coins p.sent_in.0 bc same t in
      let e' = record e { amount_of = sub_size e.amount_of k } in
      let received' = add_to_bc_list (set coins e.this_bc bc) received e.this_bc k in
      let coins' = set coins e.this_bc bc in
      let (d, run, paid) =
        transfer_done sender receiver trans ne fuel (e' ∷ es) received' coins' p' in
      let none_left : sub_size k k ≡ 0 = omega (arith, p.small) in
      (
        d,
        cover_step sender receiver trans ne (suc fuel) k e received coins bc pos p.sent_in.0 es le q
            ∙ rw none_left run,
        IsPaid-back sender receiver trans ne s (payment 0 (e' ∷ es) received' coins') e.this_bc k d
            m (unfold total in omega arith)
            (total-add coins' m.are_coins e.this_bc k (omega (arith, m.same_length, p.sent_in.0))
              received p.small)
            (omega arith) paid,
      )

  -- The same, with the sender's list that it ends in.
  pub cover_runs :
      (fuel k : ℕ) (e : BcEntry) (es received : List BcEntry) (coins : List BitCoin)
      → IsPayment sender receiver (payment k (e ∷ es) received coins)
      → 0 < k
      → k ≤ e.amount_of
      → (received' : List BcEntry) × (coins' : List BitCoin) × (transfer sender receiver trans
            (suc (suc fuel))
            (payment k (e ∷ es) received coins)
          ≡ some (record e { amount_of = sub_size e.amount_of k } ∷ es, received', coins'))
  unfolding transfer
  cover_runs fuel k e es received coins p pos le =
      let s = payment k (e ∷ es) received coins in
      let (bc, q, same, t) =
        head-Moved sender receiver trans ne s e es k p.are_coins p.sent p.sent_in.0 le in
      let none_left : sub_size k k ≡ 0 = omega (arith, p.small) in
      (
        add_to_bc_list (set coins e.this_bc bc) received e.this_bc k,
        set coins e.this_bc bc,
        cover_step sender receiver trans ne (suc fuel) k e received coins bc pos p.sent_in.0 es le q
            ∙ rw (none_left, transfer),
      )

  -- The state after a coin that is used up.
  used_up :
      (k : ℕ) (e e' : BcEntry) (es received : List BcEntry) (coins : List BitCoin) (bc : BitCoin)
      → IsPayment sender receiver (payment k (e ∷ e' ∷ es) received coins)
      → e.amount_of < k
      → bc.id ≡ (coin_at coins e.this_bc).id
      → IsTransfer sender receiver e.amount_of (coin_at coins e.this_bc).root bc.root
      → IsPayment sender receiver (
          payment
            (sub_size k e.amount_of)
            (e' ∷ es)
            (add_to_bc_list (set coins e.this_bc bc) received e.this_bc e.amount_of)
            (set coins e.this_bc (counted bc)))
  used_up k e e' es received coins bc p lt same t =
      let h = p.sent_in.0 in
      let c = e.this_bc in
      let m = set-Moved sender receiver c e.amount_of coins p.are_coins h bc same t in
      let n = set-Moved sender receiver c e.amount_of coins p.are_coins h (counted bc) same t in
      let hm : c < length (set coins c bc) = omega (arith, m.same_length, p.sent_in.0) in
      let in_m =
        InRange-le received (length coins) (length (set coins c bc)) (omega (arith, m.same_length))
          p.got_in in
      let fits : total received + e.amount_of < size_mod = omega (arith, p.small) in
      let added = total-add _ m.are_coins c e.amount_of hm received fits in
      record {
        are_coins = n.are_coins;
        sent = Agrees-removed sender receiver c e.amount_of coins _ n e (e' ∷ es) refl refl p.sent;
        got =
            Agrees-added sender receiver c e.amount_of coins _ n received _ m.are_coins hm in_m fits
              p.got;
        sent_in = InRange-le (e' ∷ es) (length coins) _ (omega (arith, n.same_length)) p.sent_in.1;
        got_in =
            InRange-le _ (length (set coins c bc)) _ (omega (arith, n.same_length, m.same_length))
              (add-InRange _ m.are_coins c e.amount_of hm received in_m);
        enough = unfold total in omega (arith, p.enough, p.small);
        small = omega (arith, added, p.small);
      }

  -- A coin that is used up, given the rest of the loop.
  use_up-Result :
      (fuel k : ℕ) (e e' : BcEntry) (es received : List BcEntry) (coins : List BitCoin)
      → IsPayment sender receiver (payment k (e ∷ e' ∷ es) received coins)
      → 0 < k
      → e.amount_of < k
      → ((received' : List BcEntry) (coins' : List BitCoin)
          → IsPayment sender receiver (payment (sub_size k e.amount_of) (e' ∷ es) received' coins')
          → Result sender receiver trans ne fuel
              (payment (sub_size k e.amount_of) (e' ∷ es) received' coins'))
      → Result sender receiver trans ne (suc fuel) (payment k (e ∷ e' ∷ es) received coins)
  use_up-Result fuel k e e' es received coins p pos lt later =
      let s = payment k (e ∷ e' ∷ es) received coins in
      let c = e.this_bc in
      let h = p.sent_in.0 in
      let (bc, q, same, t) =
        head-Moved sender receiver trans ne s e (e' ∷ es) e.amount_of p.are_coins p.sent h
          (omega arith) in
      let m = set-Moved sender receiver c e.amount_of coins p.are_coins h bc same t in
      let n = set-Moved sender receiver c e.amount_of coins p.are_coins h (counted bc) same t in
      let received' = add_to_bc_list (set coins c bc) received c e.amount_of in
      let coins' = set coins c (counted bc) in
      let next = payment (sub_size k e.amount_of) (e' ∷ es) received' coins' in
      let (d, run, paid) =
        later received' coins' (used_up k e e' es received coins bc p lt same t) in
      (
        d,
        use_up_step sender receiver trans ne fuel k e received coins bc pos h e' es lt q
            ∙ rw (set-set coins c bc (counted bc)) run,
        IsPaid-back sender receiver trans ne s next c e.amount_of d n (unfold total in omega arith)
            (total-add (set coins c bc) m.are_coins c e.amount_of (omega (arith, m.same_length, h))
              received (omega (arith, p.small)))
            (omega (arith, p.small)) paid,
      )

  -- With fuel for one round more than the list is long, the loop ends and pays.
  pub transfer-Result :
      (fuel k : ℕ) (ahead received : List BcEntry) (coins : List BitCoin)
      → IsPayment sender receiver (payment k ahead received coins)
      → length ahead + 1 < fuel
      → Result sender receiver trans ne fuel (payment k ahead received coins)
  transfer-Result zero k ahead received coins p h = absurd (omega arith)
  transfer-Result (suc fuel) zero ahead received coins p h =
      transfer_done sender receiver trans ne fuel ahead received coins p
  transfer-Result (suc fuel) (suc k) [] received coins p h =
      absurd (unfold total in omega (arith, p.enough))
  transfer-Result (suc zero) (suc k) (e ∷ es) received coins p h = absurd (omega arith)
  transfer-Result (suc (suc fuel)) (suc k) (e ∷ []) received coins p h =
      cover-Result fuel (suc k) e [] received coins p (omega arith)
        (unfold total in omega (arith, p.enough))
  transfer-Result (suc (suc fuel)) (suc k) (e ∷ e' ∷ es) received coins p h =
      elim (dec_lt e.amount_of (suc k)) [
        | yes lt ↦
            use_up-Result (suc fuel) (suc k) e e' es received coins p (omega arith) lt (λ r cs q.
              transfer-Result (suc fuel) (sub_size (suc k) e.amount_of) (e' ∷ es) r cs q
                (omega arith))
        | no le ↦ cover-Result fuel (suc k) e (e' ∷ es) received coins p (omega arith) (omega arith)
      ]
