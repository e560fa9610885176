-- ===== src/Transactions/Valid.antt =====
-- When the wallets, the coins and the tables agree, and what a change of two wallets keeps.
use systems_programming.Base.{
  ℕ, zero, suc, ◌+◌, ◌^◌, ◌≤◌, ◌<◌, ◌≡◌, ◌≢◌, refl, sym, ap, subst, ◌∙◌, false, ◌⊎◌, none, some,
  List, [], ◌∷◌, ltb, ◌==◌, length, set, arith, Bool-cases, inl, inr, length-set, get_or-set_self,
  get_or-set_ne,
}
use systems_programming.Base.Size.{size_mod}
use systems_programming.Base.CString.{CString, StrLt, str_eq, str_eq_iff, strcmp_refl, StrLt-ne}
use systems_programming.Wallet.{Wallet}
use systems_programming.Wallet.Held.{AreCoins}
use systems_programming.Wallet.Conserve.{IsWallet}
use systems_programming.Wallet.Search.{
  wallet_at, no_wallet, find_wallet, IsOrdered, find_wallet-present, find_wallet-absent,
}
use systems_programming.HashTable.Table.{IsTable}
use systems_programming.Transactions.{Bank, put}

-- All that the wallets have.
unfoldable pub sum_of_amounts : List Wallet → ℕ
sum_of_amounts [] = 0
sum_of_amounts (w ∷ ws) = w.amount + sum_of_amounts ws

pub record IsBank (b : Bank) : Type 0 where
  pub ordered : IsOrdered b.wallets
  pub few : length b.wallets ≤ 2 ^ 30
  pub are_coins : AreCoins b.coins
  pub are_wallets : (i : ℕ) → i < length b.wallets → IsWallet b.coins (wallet_at b.wallets i)
  pub small : sum_of_amounts b.wallets < size_mod
  pub senders : IsTable b.sender_table
  pub receivers : IsTable b.receiver_table

pub IsBank-same :
    (b : Bank) (m : CString) (d : ℕ)
    → IsBank b
    → IsBank (record b { max_id = m; last_date_time = d })
IsBank-same b m d v = record {
  ordered = v.ordered;
  few = v.few;
  are_coins = v.are_coins;
  are_wallets = v.are_wallets;
  small = v.small;
  senders = v.senders;
  receivers = v.receivers;
}

-- Where the wallet with an ID is, if there is one.
locate :
    (ws : List Wallet) (key : CString)
    → ((i : ℕ) × (i < length ws) × ((wallet_at ws i).wallet_id ≡ key))
      ⊎ ((i : ℕ) → i < length ws → (wallet_at ws i).wallet_id ≢ key)
locate [] key = inr (λ i h. absurd (omega arith))
locate (w ∷ ws) key = elim (Bool-cases (str_eq w.wallet_id key)) [
  | inl e ↦ inl (0, omega arith, (str_eq_iff w.wallet_id key).0 e)
  | inr e ↦ elim (locate ws key) [
    | inl (i, h, found) ↦ inl (suc i, omega arith, found)
    | inr out ↦ inr (behind e out)
  ]
]
  where
    behind :
        str_eq w.wallet_id key ≡ false
        → ((i : ℕ) → i < length ws → (wallet_at ws i).wallet_id ≢ key)
        → (i : ℕ) → i < suc (length ws)
        → (wallet_at (w ∷ ws) i).wallet_id ≢ key
    behind e out zero h = λ q. let t = (str_eq_iff w.wallet_id key).1 q in ground arith
    behind e out (suc i) h = out i (omega arith)

-- The search in an array that is in order ends: with NULL, or with the wallet that has the ID.
pub find_wallet-cases :
    (ws : List Wallet) (key : CString)
    → IsOrdered ws
    → length ws ≤ 2 ^ 30
    → (find_wallet ws key ≡ some none)
      ⊎ ((i : ℕ) × (i < length ws)
          × ((wallet_at ws i).wallet_id ≡ key)
          × (find_wallet ws key ≡ some (some (wallet_at ws i))))
find_wallet-cases ws key o few = elim (locate ws key) [
  | inl (i, h, e) ↦ inr (
    i,
    h,
    e,
    subst (λ k. find_wallet ws k ≡ some (some (wallet_at ws i))) e
        (find_wallet-present ws i o few h),
  )
  | inr out ↦ inl (find_wallet-absent ws key o few out)
]

StrLt-apart : (s t : CString) → StrLt s t → s ≢ t
StrLt-apart s t h e = let r = strcmp_refl t in cc

-- Two wallets of an ordered array with one ID are one.
pub IsOrdered-ne :
    (ws : List Wallet) (i j : ℕ)
    → IsOrdered ws
    → i < length ws
    → j < length ws
    → i ≢ j
    → (wallet_at ws i).wallet_id ≢ (wallet_at ws j).wallet_id
IsOrdered-ne ws i j o hi hj ne e = elim (Bool-cases (ltb i j)) [
  | inl lt ↦ StrLt-apart _ _ (o i j (ground arith) hj) e
  | inr ge ↦ StrLt-apart _ _ (o j i (ground arith) hi) (sym e)
]

pub IsOrdered-same :
    (ws vs : List Wallet)
    → length vs ≡ length ws
    → ((i : ℕ) → (wallet_at vs i).wallet_id ≡ (wallet_at ws i).wallet_id)
    → IsOrdered ws
    → IsOrdered vs
IsOrdered-same ws vs len ids o i j lt h = rw (ids i, ids j) (o i j lt (omega (arith, len)))

IsOrdered-tail : (w : Wallet) (ws : List Wallet) → IsOrdered (w ∷ ws) → IsOrdered ws
IsOrdered-tail w ws o i j lt h = o (suc i) (suc j) (omega arith) (omega arith)

-- The write through the pointer that the search returns.
pub put-set :
    (ws : List Wallet) (i : ℕ) (w : Wallet)
    → IsOrdered ws
    → i < length ws
    → w.wallet_id ≡ (wallet_at ws i).wallet_id
    → put ws w ≡ set ws i w
unfolding put
put-set [] i w o h e = absurd (omega arith)
put-set (v ∷ ws) zero w o h e =
    let hit = (str_eq_iff v.wallet_id w.wallet_id).1 (sym e) in rw (hit, put) refl
put-set (v ∷ ws) (suc i) w o h e =
    let apart = StrLt-ne v.wallet_id w.wallet_id (rw e (o 0 (suc i) (omega arith) h)) in
    rw (apart, put) (ap (◌∷◌ v) (put-set ws i w (IsOrdered-tail v ws o) (omega arith) e))

pub sum_of_amounts-set :
    (ws : List Wallet) (i : ℕ) (w : Wallet)
    → i < length ws
    → sum_of_amounts (set ws i w) + (wallet_at ws i).amount ≡ sum_of_amounts ws + w.amount
unfolding sum_of_amounts
sum_of_amounts-set [] i w h = absurd (omega arith)
sum_of_amounts-set (v ∷ ws) zero w h = omega arith
sum_of_amounts-set (v ∷ ws) (suc i) w h = omega (arith, sum_of_amounts-set ws i w (omega arith))

pub amount-le-sum_of_amounts :
    (ws : List Wallet) (i : ℕ) → i < length ws → (wallet_at ws i).amount ≤ sum_of_amounts ws
unfolding sum_of_amounts
amount-le-sum_of_amounts [] i h = absurd (omega arith)
amount-le-sum_of_amounts (v ∷ ws) zero h = omega arith
amount-le-sum_of_amounts (v ∷ ws) (suc i) h =
    omega (arith, amount-le-sum_of_amounts ws i (omega arith))

pub two_amounts-le :
    (ws : List Wallet) (i j : ℕ)
    → i < length ws
    → j < length ws
    → i ≢ j
    → (wallet_at ws i).amount + (wallet_at ws j).amount ≤ sum_of_amounts ws
unfolding sum_of_amounts
two_amounts-le [] i j hi hj ne = absurd (omega arith)
two_amounts-le (v ∷ ws) zero zero hi hj ne = absurd (ne refl)
two_amounts-le (v ∷ ws) zero (suc j) hi hj ne =
    omega (arith, amount-le-sum_of_amounts ws j (omega arith))
two_amounts-le (v ∷ ws) (suc i) zero hi hj ne =
    omega (arith, amount-le-sum_of_amounts ws i (omega arith))
two_amounts-le (v ∷ ws) (suc i) (suc j) hi hj ne =
    omega (arith, two_amounts-le ws i j (omega arith) (omega arith) (λ e. ne (ap suc e)))

-- The array after the writes to two wallets, which keep their IDs.
module _ (ws : List Wallet) (i j : ℕ) (v w : Wallet) (o : IsOrdered ws) (hi : i < length ws)
    (hj : j < length ws) (ne : i ≢ j) (ei : v.wallet_id ≡ (wallet_at ws i).wallet_id)
    (ej : w.wallet_id ≡ (wallet_at ws j).wallet_id) where
  abbrev pub both_set : List Wallet
  both_set = set (set ws i v) j w

  pub at_first : wallet_at both_set i ≡ v
  at_first =
      get_or-set_ne (set ws i v) w no_wallet (λ e. ne (sym e)) ∙ get_or-set_self ws i v no_wallet hi

  pub at_second : wallet_at both_set j ≡ w
  at_second = get_or-set_self (set ws i v) j w no_wallet (omega (arith, length-set ws i v))

  pub at_other : (k : ℕ) → i ≢ k → j ≢ k → wallet_at both_set k ≡ wallet_at ws k
  at_other k ni nj = get_or-set_ne (set ws i v) w no_wallet nj ∙ get_or-set_ne ws v no_wallet ni

  pub both_set-length : length both_set ≡ length ws
  both_set-length = length-set (set ws i v) j w ∙ length-set ws i v

  pub both_set-ids : (k : ℕ) → (wallet_at both_set k).wallet_id ≡ (wallet_at ws k).wallet_id
  both_set-ids k = elim (Bool-cases (i == k)) [
    | inl e ↦ let q : i ≡ k = ground arith in rw (← q) (ap (λ x. x.wallet_id) at_first ∙ ei)
    | inr n ↦ elim (Bool-cases (j == k)) [
      | inl e ↦ let q : j ≡ k = ground arith in rw (← q) (ap (λ x. x.wallet_id) at_second ∙ ej)
      | inr m ↦ ap (λ x. x.wallet_id) (at_other k (ground arith) (ground arith))
    ]
  ]

  -- It is what both writes through the pointers leave.
  pub put-put : put (put ws v) w ≡ both_set
  put-put = rw (put-set ws i v o hi ei) (
      put-set (set ws i v) j w (IsOrdered-same ws (set ws i v) (length-set ws i v) one_set-ids o)
        (omega (arith, length-set ws i v))
        (ej ∙ ap (λ x. x.wallet_id) (sym (get_or-set_ne ws v no_wallet ne))))
    where
      one_set-ids : (k : ℕ) → (wallet_at (set ws i v) k).wallet_id ≡ (wallet_at ws k).wallet_id
      one_set-ids k = elim (Bool-cases (i == k)) [
        | inl e ↦
            let q : i ≡ k = ground arith in
            rw (← q) (ap (λ x. x.wallet_id) (get_or-set_self ws i v no_wallet hi) ∙ ei)
        | inr n ↦ ap (λ x. x.wallet_id) (get_or-set_ne ws v no_wallet (ground arith))
      ]

  pub both_set-sum :
      sum_of_amounts both_set + (wallet_at ws i).amount + (wallet_at ws j).amount
      ≡ sum_of_amounts ws + v.amount + w.amount
  both_set-sum =
      let a = sum_of_amounts-set ws i v hi in
      let b = sum_of_amounts-set (set ws i v) j w (omega (arith, length-set ws i v)) in
      let c = ap (λ x. x.amount) (get_or-set_ne ws v no_wallet ne) in omega (arith, a, b, c)
