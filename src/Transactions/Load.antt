-- ===== src/Transactions/Load.antt =====
-- The loop of `transactionsInitialization` over the lines of the file.
use systems_programming.Base.{
  length, take, zero, suc, ◌==◌, ◌||◌, ap, ◌≤◌, ℕ, ◌≡◌, ◌≢◌, ◌⊎◌, refl, subst, ◌∙◌, true, false,
  Option, none, some, List, [], ◌∷◌, ◌++◌, arith, Bool-cases, inl, inr,
}
use Prim.Native.Nat.{Ordering}
use mathlib.Core.List.{append_assoc, append-nil}
use systems_programming.Base.CString.{CString, strcmp, str_eq, str_eq_iff, not_gt_trans, StrLt-flip}
use systems_programming.BitCoin.{Transaction}
use systems_programming.Wallet.{Wallet, sender_has_enough}
use systems_programming.Wallet.Search.{wallet_at, find_wallet}
use systems_programming.Transactions.{
  Bank, TransLine, check_if_trans_exists, max_of, commit, load_line, load_lines, is_long, loaded,
  loading, find_num_of_transactions, transactions_initialization,
}
use systems_programming.Transactions.Ids.{next_id, next_id-IsNext}
use systems_programming.Transactions.Valid.{IsBank, IsBank-same, sum_of_amounts, find_wallet-cases}
use systems_programming.Transactions.Commit.{IsCommitted, commit-IsCommitted}
use systems_programming.Transactions.Request.{transaction, apart_at}
use systems_programming.Transactions.Slots.{
  IsDistinct, IsBounded, is_unused, check-append, IsDistinct-append, IsDistinct-skip, max_of-cases,
}

-- `maxID` has room for each ID of the file, and the buffers for each name.
abbrev pub AreShort : List TransLine → Type 0
AreShort [] = Unit
AreShort (l ∷ ls) =
    (length l.id ≤ 14) × (length l.sender ≤ 63) × (length l.receiver ≤ 63) × AreShort ls

take-AreShort : (n : ℕ) (ls : List TransLine) → AreShort ls → AreShort (take n ls)
take-AreShort zero ls h = record {}
take-AreShort (suc n) [] h = record {}
take-AreShort (suc n) (l ∷ ls) h = (h.0, h.1, h.2, take-AreShort n ls h.3)

-- What a line does: its slot stays empty and nothing changes, or the slot gets the ID of the line
-- and the transaction of the line is made between its sender and its receiver.
pub data LineDone : Bank → TransLine → Option CString → Bank → Type 0 where
  skipped : (b : Bank) (l : TransLine) → LineDone b l none b
  accepted :
      (b b' : Bank) (l : TransLine) (i j : ℕ) (m : CString)
      → (wallet_at b.wallets i).wallet_id ≡ l.sender
      → (wallet_at b.wallets j).wallet_id ≡ l.receiver
      → IsCommitted b b' i j (transaction l.id l.value l.date_time)
      → LineDone b l (some l.id) (record b' { max_id = m; last_date_time = l.date_time })

-- What the lines do one after the other, each with its slot.
pub data LinesDone : Bank → List TransLine → List (Option CString) → Bank → Type 0 where
  no_line : (b : Bank) → LinesDone b [] [] b
  next_line :
      (b b1 b' : Bank) (l : TransLine) (ls : List TransLine) (slot : Option CString)
      (slots : List (Option CString))
      → LineDone b l slot b1
      → LinesDone b1 ls slots b'
      → LinesDone b (l ∷ ls) (slot ∷ slots) b'

-- What the lines that are read leave, from the bank `b0`.
pub record IsLoaded (b0 b : Bank) (ids : List (Option CString)) : Type 0 where
  pub bank : IsBank b
  pub money : sum_of_amounts b.wallets ≡ sum_of_amounts b0.wallets
  pub bounded : IsBounded ids b.max_id
  pub distinct : IsDistinct ids

skip-IsLoaded :
    (b0 b : Bank) (ids : List (Option CString))
    → IsLoaded b0 b ids
    → IsLoaded b0 b (ids ++ none ∷ [])
skip-IsLoaded b0 b ids h = record {
  bank = h.bank;
  money = h.money;
  bounded = λ s e. h.bounded s (let c = check-append ids none s in ground arith);
  distinct = IsDistinct-skip ids h.distinct;
}

module _ (b0 b : Bank) (ids : List (Option CString)) (l : TransLine) (h : IsLoaded b0 b ids) where
  load_runs :
      (b' : Bank) (sndr rcvr : Wallet) (m : CString)
      → (is_long l.id || is_long l.sender) ≡ false
      → is_long l.receiver ≡ false
      → find_wallet b.wallets l.sender ≡ some (some sndr)
      → check_if_trans_exists ids l.id ≡ false
      → find_wallet b.wallets l.receiver ≡ some (some rcvr)
      → str_eq l.sender l.receiver ≡ false
      → sender_has_enough sndr l.value ≡ true
      → commit b sndr rcvr (transaction l.id l.value l.date_time) ≡ some b'
      → max_of b'.max_id l.id ≡ some m
      → load_line b ids l ≡ some (record b' { max_id = m; last_date_time = l.date_time }, some l.id)
  unfolding load_line
  load_runs b' sndr rcvr m f g e1 e2 e3 e4 e5 e6 e7 =
      rw (f, e1, load_line, e2, g, e3, e4, e5, e6, e7) refl

  accepted-IsLoaded :
      (b' : Bank) (i j : ℕ) (tx : Transaction) (m : CString)
      → check_if_trans_exists ids l.id ≡ false
      → IsCommitted b b' i j tx
      → strcmp b.max_id m ≢ Ordering.gt
      → strcmp l.id m ≢ Ordering.gt
      → IsLoaded b0 (record b' { max_id = m; last_date_time = l.date_time }) (ids ++ some l.id ∷ [])
  accepted-IsLoaded b' i j tx m fresh c old_bound new_bound = record {
    bank = IsBank-same b' m l.date_time c.bank;
    money = c.money ∙ h.money;
    bounded = λ s e. below s (Bool-cases (check_if_trans_exists ids s)) e;
    distinct = IsDistinct-append ids l.id fresh h.distinct;
  }
    where
      below :
          (s : CString)
          → (check_if_trans_exists ids s ≡ true) ⊎ (check_if_trans_exists ids s ≡ false)
          → check_if_trans_exists (ids ++ some l.id ∷ []) s ≡ true
          → strcmp s m ≢ Ordering.gt
      below s (inl old) e = not_gt_trans s b.max_id m (h.bounded s old) old_bound
      below s (inr new) e =
          let this : str_eq l.id s ≡ true =
            let c = check-append ids (some l.id) s in ground arith in
          subst (λ k. strcmp k m ≢ Ordering.gt) ((str_eq_iff l.id s).0 this) new_bound

  -- One line ends.
  load_line-IsLoaded :
      length l.id ≤ 14
      → length l.sender ≤ 63
      → length l.receiver ≤ 63
      → (b' : Bank) × (slot : Option CString) × (load_line b ids l ≡ some (b', slot))
        × IsLoaded b0 b' (ids ++ slot ∷ [])
        × LineDone b l slot b'
  unfolding load_line
  load_line-IsLoaded short s_short r_short =
      let f : (is_long l.id || is_long l.sender) ≡ false = ground arith in
      let g : is_long l.receiver ≡ false = ground arith in
      let kept = skipped b l in
      let skip = skip-IsLoaded b0 b ids h in
      elim (find_wallet-cases b.wallets l.sender h.bank.ordered h.bank.few) [
        | inl missing ↦ (b, none, rw (f, missing, load_line) refl, skip, kept)
        | inr (i, hi, i_id, s_run) ↦ elim (Bool-cases (check_if_trans_exists ids l.id)) [
          | inl old ↦ (b, none, rw (f, s_run, load_line, old) refl, skip, kept)
          | inr new ↦ elim (find_wallet-cases b.wallets l.receiver h.bank.ordered h.bank.few) [
            | inl missing ↦ (b, none, rw (f, s_run, load_line, new, g, missing) refl, skip, kept)
            | inr (j, hj, j_id, r_run) ↦ elim (Bool-cases (str_eq l.sender l.receiver)) [
              | inl same ↦ (b, none, rw (f, s_run, load_line, new, g, r_run, same) refl, skip, kept)
              | inr differ ↦ elim (Bool-cases (sender_has_enough (wallet_at b.wallets i) l.value)) [
                | inr poor ↦ (
                  b,
                  none,
                  rw (f, s_run, load_line, new, g, r_run, differ, poor) refl,
                  skip,
                  kept,
                )
                | inl has ↦
                    let (b', run, c, same_id) =
                      commit-IsCommitted b i j (transaction l.id l.value l.date_time) h.bank hi hj
                        (apart_at b i j l.sender l.receiver i_id j_id differ) has in
                    let (m, m_run, old_bound, new_bound) = max_of-cases b'.max_id l.id short in
                    (
                      record b' { max_id = m; last_date_time = l.date_time },
                      some l.id,
                      load_runs b' (wallet_at b.wallets i) (wallet_at b.wallets j) m f g s_run new
                          r_run differ has run m_run,
                      accepted-IsLoaded b' i j (transaction l.id l.value l.date_time) m new c
                          (subst (λ k. strcmp k m ≢ Ordering.gt) same_id old_bound) new_bound,
                      accepted b b' l i j m i_id j_id c,
                    )
              ]
            ]
          ]
        ]
      ]

load_lines-IsLoaded :
    (b0 b : Bank) (ids : List (Option CString)) (ls : List TransLine)
    → AreShort ls
    → IsLoaded b0 b ids
    → (b' : Bank) × (slots : List (Option CString)) × (load_lines b ids ls
        ≡ some (b', ids ++ slots))
      × IsLoaded b0 b' (ids ++ slots)
      × LinesDone b ls slots b'
unfolding load_lines
load_lines-IsLoaded b0 b ids [] short h =
    (b, [], rw (append-nil ids) refl, rw (append-nil ids) h, no_line b)
load_lines-IsLoaded b0 b ids (l ∷ ls) short h =
    let (b1, slot, run, h1, one) = load_line-IsLoaded b0 b ids l h short.0 short.1 short.2 in
    let (b', slots, runs, h', more) = load_lines-IsLoaded b0 b1 (ids ++ slot ∷ []) ls short.3 h1 in
    let all = append_assoc ids (slot ∷ []) slots in
    (
      b',
      slot ∷ slots,
      rw (run, load_lines) (runs ∙ ap (λ k. some (b', k)) all),
      subst (IsLoaded b0 b') all h',
      next_line b b1 b' l ls slot slots one more,
    )

-- The file has at least one character, and its IDs and names fit into `maxID` and the buffers (14
-- and 63 characters). Then a valid bank is valid behind the lines that are read, which are as many as
-- there are slots, without a fault on the way, and has as much money. Each line either changes
-- nothing, and its slot stays empty, or its transaction is made, and its slot has the ID; no ID
-- stands in two slots, so no two transactions that were made have the same one; and the ID that
-- follows the largest stands in none.
pub transactions_initialization-IsLoaded :
    (b : Bank) (bytes : List ℕ) (ls : List TransLine)
    → (find_num_of_transactions bytes == 0) ≡ false
    → AreShort ls
    → IsBank b
    → (b' : Bank) × (ids : List (Option CString)) × (transactions_initialization b bytes ls
        ≡ loaded b' ids)
      × IsBank b'
      × (sum_of_amounts b'.wallets ≡ sum_of_amounts b.wallets)
      × LinesDone
          (record b { last_date_time = 0 })
          (take (find_num_of_transactions bytes) ls)
          ids
          b'
      × IsDistinct ids
      × (is_unused ids (next_id b'.max_id) ≡ true)
unfolding transactions_initialization
transactions_initialization-IsLoaded b bytes ls some_char short v =
    let n = find_num_of_transactions bytes in
    let (b', ids, run, h, lines) =
      load_lines-IsLoaded b (record b { last_date_time = 0 }) [] (take n ls)
        (take-AreShort n ls short)
        (record {
          bank = IsBank-same b b.max_id 0 v;
          money = refl;
          bounded = λ s e. unfold check_if_trans_exists in ground arith;
          distinct = record {};
        }) in
    (
      b',
      ids,
      rw some_char (ap loading run),
      h.bank,
      h.money,
      lines,
      h.distinct,
      fresh b' ids h (next_id b'.max_id) refl,
    )
  where
    fresh :
        (b' : Bank) (ids : List (Option CString))
        → IsLoaded b b' ids
        → (o : Option CString) → next_id b'.max_id ≡ o
        → is_unused ids o ≡ true
    fresh b' ids h none e = refl
    fresh b' ids h (some n) e = elim (Bool-cases (check_if_trans_exists ids n)) [
      | inl old ↦
          absurd (h.bounded n old (StrLt-flip b'.max_id n (next_id-IsNext b'.max_id n e).behind))
      | inr new ↦ rw new refl
    ]
