-- ===== src/Transactions/Request.antt =====
-- `requestTransaction`, on a valid bank.
use systems_programming.Base.{
  ℕ, ◌+◌, ◌≤◌, ◌<◌, ◌≡◌, ◌≢◌, refl, sym, ap, subst, ◌∙◌, Bool, true, false, some, List, ltb, ◌==◌,
  length, arith, Bool-cases, inl, inr, if◌then◌else◌, not, ◌&&◌,
}
use systems_programming.Base.CString.{CString, str_eq, str_eq_iff, str_eq-ne}
use systems_programming.BitCoin.{Transaction}
use systems_programming.Wallet.{Wallet, sender_has_enough}
use systems_programming.Wallet.Search.{wallet_at, find_wallet, find_wallet-present}
use systems_programming.Transactions.{
  Bank, made, new_id, commit, Outcome, same_wallet, invalid_date, no_sender, no_receiver,
  not_enough, success, request_with_id, request_transaction,
}
use systems_programming.Transactions.Ids.{IsAscii, next_id, new_id-IsNext, next_id-IsNext}
use systems_programming.Transactions.Valid.{
  IsBank, IsBank-same, sum_of_amounts, find_wallet-cases, IsOrdered-ne,
}
use systems_programming.Transactions.Commit.{IsCommitted, IsCommitted-same, commit-IsCommitted}

-- A valid bank whose largest ID fits into `maxID`.
pub record IsReady (b : Bank) : Type 0 where
  pub bank : IsBank b
  pub ascii : IsAscii b.max_id
  pub short : length b.max_id ≤ 14

-- Whether a date is given and lies before the last transaction.
abbrev pub is_too_early : Bank → ℕ → Bool
is_too_early b date_time = not (date_time == 0) && ltb date_time b.last_date_time

unfoldable pub is_success : Outcome → Bool
is_success (success tx) = true
is_success _ = false

-- The date of the transaction: two hours behind `now` if none is given.
abbrev pub date_of : (now date_time : ℕ) → ℕ
date_of now date_time = if date_time == 0 then now + 7200 else date_time

abbrev pub transaction : CString → (value date_time : ℕ) → Transaction
transaction id value date_time = record {
  transaction_id = id;
  value = value;
  date_time = date_time;
}

-- Wallets with different IDs are different.
pub apart_at :
    (b : Bank) (i j : ℕ) (s_id r_id : CString)
    → (wallet_at b.wallets i).wallet_id ≡ s_id
    → (wallet_at b.wallets j).wallet_id ≡ r_id
    → str_eq s_id r_id ≡ false
    → i ≢ j
apart_at b i j s_id r_id ei ej differ e =
    let same =
      (str_eq_iff s_id r_id).1 (sym ei ∙ ap (λ k. (wallet_at b.wallets k).wallet_id) e ∙ ej) in
    cc

request_runs :
    (now : ℕ) (buffer : List ℕ) (b b' : Bank) (amount date_time : ℕ) (n s_id r_id : CString)
    (sndr rcvr : Wallet)
    → str_eq s_id r_id ≡ false
    → is_too_early b date_time ≡ false
    → find_wallet b.wallets s_id ≡ some (some sndr)
    → find_wallet b.wallets r_id ≡ some (some rcvr)
    → sender_has_enough sndr amount ≡ true
    → new_id buffer b.max_id ≡ made n
    → commit (record b { max_id = n }) sndr rcvr (transaction n amount (date_of now date_time))
      ≡ some b'
    → request_transaction now buffer b s_id r_id amount date_time
      ≡ some (
        record b' { last_date_time = date_of now date_time },
        success (transaction n amount (date_of now date_time)),
      )
unfolding request_transaction request_with_id
request_runs now buffer b b' amount date_time n s_id r_id sndr rcvr e1 e2 e3 e4 e5 e6 e7 =
    rw (e1, e2, e3, e4, e5, e6, request_with_id, e7) refl

module _ (now : ℕ) (buffer : List ℕ) (b : Bank) (amount date_time : ℕ) (n : CString) (r : IsReady b)
    (next : next_id b.max_id ≡ some n) where
  -- In a valid bank whose largest ID is followed by another one (it is not empty, and one of its
  -- characters is before `~`), of at most 14 ASCII characters, a request between two
  -- different wallets, not before the last transaction, for an amount that the sender has,
  -- succeeds: the transaction has the next ID, and is made; its ID and its date are the last ones
  -- then.
  pub request_transaction-success :
      (i j : ℕ)
      → i < length b.wallets
      → j < length b.wallets
      → i ≢ j
      → is_too_early b date_time ≡ false
      → sender_has_enough (wallet_at b.wallets i) amount ≡ true
      → let tx = transaction n amount (date_of now date_time) in
        (b' : Bank) × (request_transaction now buffer b
            (wallet_at b.wallets i).wallet_id
            (wallet_at b.wallets j).wallet_id
            amount
            date_time
          ≡ some (b', success tx))
        × IsCommitted b b' i j tx
        × (b'.max_id ≡ n)
        × (b'.last_date_time ≡ date_of now date_time)
  request_transaction-success i j hi hj ne late has =
      let ws = b.wallets in
      let apart = IsOrdered-ne ws i j r.bank.ordered hi hj ne in
      let differ : str_eq (wallet_at ws i).wallet_id (wallet_at ws j).wallet_id ≡ false =
        str_eq-ne (wallet_at ws i).wallet_id (wallet_at ws j).wallet_id apart in
      let s_run = find_wallet-present ws i r.bank.ordered r.bank.few hi in
      let r_run = find_wallet-present ws j r.bank.ordered r.bank.few hj in
      let (id_run, _) = new_id-IsNext buffer b.max_id n r.ascii r.short next in
      let (b', run, c, same_id) =
        commit-IsCommitted (record b { max_id = n }) i j
          (transaction n amount (date_of now date_time)) (IsBank-same b n b.last_date_time r.bank)
          hi hj ne has in
      (
        record b' { last_date_time = date_of now date_time },
        request_runs now buffer b b' amount date_time n (wallet_at ws i).wallet_id
            (wallet_at ws j).wallet_id (wallet_at ws i) (wallet_at ws j) differ late s_run r_run has
            id_run run,
        IsCommitted-same b b' i j (transaction n amount (date_of now date_time)) n b'.max_id
            (date_of now date_time) c,
        same_id,
        refl,
      )

  -- What the next theorem says, where the request succeeds.
  success-IsReady :
      (i j : ℕ) (s_id r_id : CString)
      → i < length b.wallets
      → j < length b.wallets
      → (wallet_at b.wallets i).wallet_id ≡ s_id
      → (wallet_at b.wallets j).wallet_id ≡ r_id
      → str_eq s_id r_id ≡ false
      → is_too_early b date_time ≡ false
      → sender_has_enough (wallet_at b.wallets i) amount ≡ true
      → (out : Bank × Outcome) × (request_transaction now buffer b s_id r_id amount date_time
          ≡ some out)
        × IsReady out.0
        × (sum_of_amounts out.0.wallets ≡ sum_of_amounts b.wallets)
        × (out.0 ≡ (if is_success out.1 then out.0 else b))
  unfolding is_success
  success-IsReady i j s_id r_id hi hj ei ej differ late has =
      let (b', run, c, same_id, _) =
        request_transaction-success i j hi hj (apart_at b i j s_id r_id ei ej differ) late has in
      let tx = transaction n amount (date_of now date_time) in
      let step = next_id-IsNext b.max_id n next in
      (
        (b', success tx),
        subst
            (λ s. request_transaction now buffer b s r_id amount date_time ≡ some (b', success tx))
            ei
            (subst
              (λ s.
                request_transaction now buffer b (wallet_at b.wallets i).wallet_id s amount
                  date_time
                ≡ some (b', success tx))
              ej run),
        record {
          bank = c.bank;
          ascii = rw same_id (step.ascii r.ascii);
          short = omega (arith, ap length same_id, step.same_length, r.short);
        },
        c.money,
        refl,
      )

  -- A request to a valid bank with a next ID ends, whatever the wallets, the amount and the date
  -- are: without a fault, in a valid bank, with as much money in all wallets together; and a
  -- request that does not succeed changes nothing.
  pub request_transaction-IsReady :
      (s_id r_id : CString)
      → (out : Bank × Outcome) × (request_transaction now buffer b s_id r_id amount date_time
          ≡ some out)
        × IsReady out.0
        × (sum_of_amounts out.0.wallets ≡ sum_of_amounts b.wallets)
        × (out.0 ≡ (if is_success out.1 then out.0 else b))
  unfolding request_transaction is_success
  request_transaction-IsReady s_id r_id = elim (Bool-cases (str_eq s_id r_id)) [
    | inl same ↦ ((b, same_wallet), rw same refl, r, refl, refl)
    | inr differ ↦ elim (Bool-cases (is_too_early b date_time)) [
      | inl early ↦ ((b, invalid_date), rw (differ, early) refl, r, refl, refl)
      | inr late ↦ elim (find_wallet-cases b.wallets s_id r.bank.ordered r.bank.few) [
        | inl missing ↦ ((b, no_sender), rw (differ, late, missing) refl, r, refl, refl)
        | inr (i, hi, i_id, s_run) ↦
            elim (find_wallet-cases b.wallets r_id r.bank.ordered r.bank.few) [
              | inl missing ↦
                  ((b, no_receiver), rw (differ, late, s_run, missing) refl, r, refl, refl)
              | inr (j, hj, j_id, r_run) ↦
                  elim (Bool-cases (sender_has_enough (wallet_at b.wallets i) amount)) [
                    | inr poor ↦
                        ((b, not_enough), rw (differ, late, s_run, r_run, poor) refl, r, refl, refl)
                    | inl has ↦ success-IsReady i j s_id r_id hi hj i_id j_id differ late has
                  ]
            ]
      ]
    ]
  ]
