-- ===== src/Transactions/Commit.antt =====
-- A transaction that is made, in both tables and between both wallets.
use systems_programming.Base.{
  ℕ, ◌+◌, ◌<◌, ◌≡◌, ◌≢◌, refl, sym, ap, subst, ◌∙◌, true, some, List, [], ◌∷◌, ◌++◌, ◌==◌, length,
  arith, Bool-cases, inl, inr, if◌then◌else◌, set, ap₂,
}
use systems_programming.Base.CString.{CString, str_eq}
use systems_programming.BitCoin.{Transaction}
use systems_programming.Wallet.{Wallet, Wallets, make_transaction, sender_has_enough}
use systems_programming.Wallet.Conserve.{
  IsWallet, IsTransaction, make_transaction-IsTransaction, bystander-IsWallet,
}
use systems_programming.Wallet.Search.{wallet_at}
use systems_programming.HashTable.{TransEntry, HashTable, add_transaction}
use systems_programming.HashTable.Chain.{or_empty}
use systems_programming.HashTable.Table.{IsTable, transactions_of, add_transaction-maps}
use systems_programming.Transactions.{Bank, put, commit}
use systems_programming.Transactions.Valid.{
  IsBank, IsBank-same, sum_of_amounts, two_amounts-le, IsOrdered-ne, IsOrdered-same, both_set,
  at_first, at_second, at_other, both_set-length, both_set-ids, put-put, both_set-sum,
}

abbrev pub entry_of : CString → Transaction → TransEntry
entry_of other tx = record { this_trans = tx; source_dest_wallet = other }

-- `after` holds what `before` does, and one transaction more for a wallet.
abbrev pub Records : HashTable → HashTable → CString → CString → Transaction → Type 0
Records before after id other tx =
    (w : CString)
    → transactions_of after w ≡ (
        if str_eq id w
        then some (or_empty (transactions_of before id) ++ entry_of other tx ∷ [])
        else transactions_of before w)

-- The transaction from the wallet at `i` to the one at `j` is made.
pub record IsCommitted (b b' : Bank) (i j : ℕ) (tx : Transaction) : Type 0 where
  pub bank : IsBank b'
  pub money : sum_of_amounts b'.wallets ≡ sum_of_amounts b.wallets
  pub paid_out : (wallet_at b'.wallets i).amount + tx.value ≡ (wallet_at b.wallets i).amount
  pub paid_in : (wallet_at b'.wallets j).amount ≡ (wallet_at b.wallets j).amount + tx.value
  pub others :
      b'.wallets ≡ set (set b.wallets i (wallet_at b'.wallets i)) j (wallet_at b'.wallets j)
  pub ids : (k : ℕ) → (wallet_at b'.wallets k).wallet_id ≡ (wallet_at b.wallets k).wallet_id
  pub sent :
      Records b.sender_table b'.sender_table
        (wallet_at b.wallets i).wallet_id
        (wallet_at b.wallets j).wallet_id
        tx
  pub received :
      Records b.receiver_table b'.receiver_table
        (wallet_at b.wallets j).wallet_id
        (wallet_at b.wallets i).wallet_id
        tx

-- The largest ID and the last date play no part in it.
pub IsCommitted-same :
    (b b' : Bank) (i j : ℕ) (tx : Transaction) (m m' : CString) (d' : ℕ)
    → IsCommitted (record b { max_id = m }) b' i j tx
    → IsCommitted b (record b' { max_id = m'; last_date_time = d' }) i j tx
IsCommitted-same b b' i j tx m m' d' c = record {
  bank = IsBank-same b' m' d' c.bank;
  money = c.money;
  paid_out = c.paid_out;
  paid_in = c.paid_in;
  others = c.others;
  ids = c.ids;
  sent = c.sent;
  received = c.received;
}

module _ (b : Bank) (i j : ℕ) (tx : Transaction) where
  commit_runs :
      (sndr rcvr : Wallet) (st rt : HashTable) (out : Wallets)
      → add_transaction b.sender_table sndr.wallet_id rcvr.wallet_id tx ≡ some st
      → add_transaction b.receiver_table rcvr.wallet_id sndr.wallet_id tx ≡ some rt
      → make_transaction b.coins sndr rcvr tx.value (some tx) ≡ some out
      → commit b sndr rcvr tx
        ≡ some (record b {
          wallets = put (put b.wallets out.0) out.1;
          coins = out.2;
          sender_table = st;
          receiver_table = rt;
        })
  unfolding commit
  commit_runs sndr rcvr st rt out e1 e2 e3 = rw (e1, commit, e2, e3) refl

  -- What the three changes leave.
  module _ (v : IsBank b) (hi : i < length b.wallets) (hj : j < length b.wallets) (ne : i ≢ j)
      (out : Wallets)
      (t : IsTransaction b.coins (wallet_at b.wallets i) (wallet_at b.wallets j) tx.value out) where
    abbrev after : List Wallet
    after = both_set b.wallets i j out.0 out.1 v.ordered hi hj ne t.sender_id t.receiver_id

    after-IsWallet : (k : ℕ) → k < length after → IsWallet out.2 (wallet_at after k)
    after-IsWallet k h = elim (Bool-cases (i == k)) [
      | inl e ↦
          let q : i ≡ k = ground arith in
          subst (λ k. IsWallet out.2 (wallet_at after k)) q
            (rw (at_first b.wallets i j out.0 out.1 v.ordered hi hj ne t.sender_id t.receiver_id)
              t.sender)
      | inr n ↦ elim (Bool-cases (j == k)) [
        | inl e ↦
            let q : j ≡ k = ground arith in
            subst (λ k. IsWallet out.2 (wallet_at after k)) q
              (rw (at_second b.wallets i j out.0 out.1 v.ordered hi hj ne t.sender_id t.receiver_id)
                t.receiver)
        | inr m ↦
            let ni : i ≢ k = ground arith in
            let nj : j ≢ k = ground arith in
            let len =
              both_set-length b.wallets i j out.0 out.1 v.ordered hi hj ne t.sender_id
                t.receiver_id in
            let hk : k < length b.wallets = omega (arith, len) in
            subst (IsWallet out.2)
              (sym (
                at_other b.wallets i j out.0 out.1 v.ordered hi hj ne t.sender_id t.receiver_id k ni
                  nj))
              (bystander-IsWallet b.coins (wallet_at b.wallets i) (wallet_at b.wallets j) tx.value
                out (wallet_at b.wallets k) t
                (IsOrdered-ne b.wallets k i v.ordered hk hi (λ e. ni (sym e)))
                (IsOrdered-ne b.wallets k j v.ordered hk hj (λ e. nj (sym e))) (v.are_wallets k hk))
      ]
    ]

    after-IsCommitted :
        (st rt : HashTable)
        → IsTable st
        → IsTable rt
        → Records b.sender_table st
            (wallet_at b.wallets i).wallet_id
            (wallet_at b.wallets j).wallet_id
            tx
        → Records b.receiver_table rt
            (wallet_at b.wallets j).wallet_id
            (wallet_at b.wallets i).wallet_id
            tx
        → IsCommitted b
            (record b { wallets = after; coins = out.2; sender_table = st; receiver_table = rt })
            i
            j
            tx
    after-IsCommitted st rt st_ok rt_ok sent received =
        let first =
          at_first b.wallets i j out.0 out.1 v.ordered hi hj ne t.sender_id t.receiver_id in
        let second =
          at_second b.wallets i j out.0 out.1 v.ordered hi hj ne t.sender_id t.receiver_id in
        let ids =
          both_set-ids b.wallets i j out.0 out.1 v.ordered hi hj ne t.sender_id t.receiver_id in
        let sum =
          both_set-sum b.wallets i j out.0 out.1 v.ordered hi hj ne t.sender_id t.receiver_id in
        let money : sum_of_amounts after ≡ sum_of_amounts b.wallets =
          omega (arith, sum, t.paid_out, t.paid_in) in
        record {
          bank = record {
            ordered =
                IsOrdered-same b.wallets after
                  (both_set-length b.wallets i j out.0 out.1 v.ordered hi hj ne t.sender_id
                    t.receiver_id)
                  ids v.ordered;
            few =
                rw
                  (both_set-length b.wallets i j out.0 out.1 v.ordered hi hj ne t.sender_id
                    t.receiver_id)
                  v.few;
            are_coins = t.are_coins;
            are_wallets = after-IsWallet;
            small = rw money v.small;
            senders = st_ok;
            receivers = rt_ok;
          };
          money = money;
          paid_out = ap (λ w. w.amount + tx.value) first ∙ t.paid_out;
          paid_in = ap (λ w. w.amount) second ∙ t.paid_in;
          others = sym (ap₂ (λ v w. set (set b.wallets i v) j w) first second);
          ids = ids;
          sent = sent;
          received = received;
        }

  -- Between two different wallets of a valid bank, an amount that the sender has is paid, and both
  -- tables have the transaction; the largest ID is not changed yet.
  pub commit-IsCommitted :
      IsBank b
      → i < length b.wallets
      → j < length b.wallets
      → i ≢ j
      → sender_has_enough (wallet_at b.wallets i) tx.value ≡ true
      → (b' : Bank) × (commit b (wallet_at b.wallets i) (wallet_at b.wallets j) tx ≡ some b')
        × IsCommitted b b' i j tx
        × (b'.max_id ≡ b.max_id)
  commit-IsCommitted v hi hj ne has =
      let ws = b.wallets in
      let sndr = wallet_at ws i in
      let rcvr = wallet_at ws j in
      let room = two_amounts-le ws i j hi hj ne in
      let (st, st_run, st_ok, sent) =
        add_transaction-maps b.sender_table sndr.wallet_id rcvr.wallet_id tx v.senders in
      let (rt, rt_run, rt_ok, received) =
        add_transaction-maps b.receiver_table rcvr.wallet_id sndr.wallet_id tx v.receivers in
      let (out, run, t) =
        make_transaction-IsTransaction b.coins sndr rcvr tx.value (some tx) v.are_coins
          (v.are_wallets i hi) (v.are_wallets j hj) (IsOrdered-ne ws i j v.ordered hi hj ne) has
          (omega (arith, v.small)) in
      let puts = put-put ws i j out.0 out.1 v.ordered hi hj ne t.sender_id t.receiver_id in
      (
        record b {
          wallets = put (put ws out.0) out.1;
          coins = out.2;
          sender_table = st;
          receiver_table = rt;
        },
        commit_runs sndr rcvr st rt out st_run rt_run run,
        subst
            (λ z.
              IsCommitted b
                (record b { wallets = z; coins = out.2; sender_table = st; receiver_table = rt }) i
                j tx)
            (sym puts) (after-IsCommitted v hi hj ne out t st rt st_ok rt_ok sent received),
        refl,
      )
