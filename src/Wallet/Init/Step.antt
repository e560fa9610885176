-- ===== src/Wallet/Init/Step.antt =====
-- One coin of a line, and all of them.
use systems_programming.Base.{
  ℕ, ◌+◌, ◌*◌, ◌<◌, ◌≡◌, ◌≢◌, refl, sym, true, false, some, List, [], ◌∷◌, ◌++◌, ◌==◌,
  if◌then◌else◌, length, length-append, arith, inl, inr, Bool-cases,
}
use systems_programming.Base.Size.{size_mod}
use systems_programming.Base.CString.{CString, str_eq, str_eq_iff}
use systems_programming.BitCoin.{BitCoin, bit_coin_initialization}
use systems_programming.BitCoin.Owned.{owned}
use systems_programming.Wallet.{BcEntry, Wallet, entry, coin_at}
use systems_programming.Wallet.Held.{total, InRange-le, AreCoins}
use systems_programming.Wallet.Conserve.{IsWallet}
use systems_programming.Wallet.Search.{wallet_at}
use systems_programming.Wallet.Init.{check_if_wallet_exists, check_if_bc_exists, add_bcs}
use systems_programming.Wallet.Init.Ids.{
  IsNotIn, HasNoRepeats, IsApart, coin_at-append, check_if_bc_exists-new,
}
use systems_programming.Wallet.Init.Adding.{
  held-append, total-append, InRange-append, held-out, str_eq_comm, exists-at, IsAdding,
}

module _ (coins : List BitCoin) (b : ℕ) (v : CString) (value : ℕ) where
  -- The coin that is made.
  abbrev new_coin : BitCoin
  new_coin = bit_coin_initialization b v value

  -- What a wallet owns of each coin with the new one.
  owned-new :
      (u : CString) (d : ℕ)
      → owned u (coin_at (coins ++ new_coin ∷ []) d).root ≡ (
          if d == length coins
          then (if str_eq v u then value else 0)
          else owned u (coin_at coins d).root)
  unfolding bit_coin_initialization owned
  owned-new u d = elim (Bool-cases (d == length coins)) [
    | inl e ↦ rw (coin_at-append coins new_coin d, e) refl
    | inr e ↦ rw (coin_at-append coins new_coin d, e) refl
  ]

  AreCoins-new :
      AreCoins coins
      → value < size_mod
      → ((d : ℕ) → d < length coins → (coin_at coins d).id ≢ b)
      → AreCoins (coins ++ new_coin ∷ [])
  unfolding bit_coin_initialization
  AreCoins-new a small new =
      let len = length-append coins (new_coin ∷ []) in
      record {
        exists = λ c h. elim (Bool-cases (c == length coins)) [
          | inl e ↦ rw (coin_at-append coins new_coin c, e) (λ q. cc)
          | inr e ↦ rw (coin_at-append coins new_coin c, e) (a.exists c (ground arith))
        ];
        balanced = λ c h. elim (Bool-cases (c == length coins)) [
          | inl e ↦
              rw (coin_at-append coins new_coin c, e)
                (record { balanced = record {}; small = small })
          | inr e ↦ rw (coin_at-append coins new_coin c, e) (a.balanced c (ground arith))
        ];
        distinct = λ c d h k. elim (Bool-cases (c == length coins)) [
          | inl e ↦ elim (Bool-cases (d == length coins)) [
            | inl f ↦ λ q. ground arith
            | inr f ↦
                rw (coin_at-append coins new_coin c, e, coin_at-append coins new_coin d, f)
                  (λ q. absurd (new d (ground arith) (sym q)))
          ]
          | inr e ↦ elim (Bool-cases (d == length coins)) [
            | inl f ↦
                rw (coin_at-append coins new_coin c, e, coin_at-append coins new_coin d, f)
                  (λ q. absurd (new c (ground arith) q))
            | inr f ↦
                rw (coin_at-append coins new_coin c, e, coin_at-append coins new_coin d, f)
                  (a.distinct c d (ground arith) (ground arith))
          ]
        ];
      }

  -- A wallet that is not the owner of the new coin stays as it is.
  other-IsWallet :
      (w : Wallet)
      → IsWallet coins w
      → str_eq v w.wallet_id ≡ false
      → IsWallet (coins ++ new_coin ∷ []) w
  other-IsWallet w i ne =
      let len = length-append coins (new_coin ∷ []) in
      record {
        agrees = λ d. elim (Bool-cases (d == length coins)) [
          | inl e ↦
              rw (owned-new w.wallet_id d, e, ne)
                (held-out w.bc_list (length coins) d i.in_range (ground arith))
          | inr e ↦ rw (owned-new w.wallet_id d, e) (i.agrees d)
        ];
        in_range = InRange-le w.bc_list (length coins) _ (omega arith) i.in_range;
        sum = i.sum;
      }

  -- One coin more in the list of the wallet that is being read.
  new-IsAdding :
      (ws : List Wallet) (es : List BcEntry)
      → IsAdding ws v es coins
      → check_if_wallet_exists ws v ≡ false
      → value < size_mod
      → ((d : ℕ) → d < length coins → (coin_at coins d).id ≢ b)
      → IsAdding ws v (es ++ entry value (length coins) ∷ []) (coins ++ new_coin ∷ [])
  new-IsAdding ws es i fresh small new =
      let len = length-append coins (new_coin ∷ []) in
      let self : str_eq v v ≡ true = (str_eq_iff v v).1 refl in
      record {
        are_coins = AreCoins-new i.are_coins small new;
        are_wallets = λ j h.
            other-IsWallet (wallet_at ws j) (i.are_wallets j h)
              (str_eq_comm (wallet_at ws j).wallet_id v (exists-at ws v j fresh h));
        agrees = λ d. elim (Bool-cases (d == length coins)) [
          | inl e ↦
              rw (owned-new v d, e, self, held-append es value (length coins) d)
                (ground (arith, held-out es (length coins) d i.in_range (ground arith)))
          | inr e ↦
              rw (owned-new v d, e, held-append es value (length coins) d)
                (ground (arith, i.agrees d))
        ];
        in_range =
            InRange-append es _ value (length coins)
              (InRange-le es (length coins) _ (omega arith) i.in_range) (omega arith);
        strangers = λ u h ne d. elim (Bool-cases (d == length coins)) [
          | inl e ↦ rw (owned-new u d, e, ne) refl
          | inr e ↦ rw (owned-new u d, e) (i.strangers u h ne d)
        ];
      }

-- The IDs that are still to come differ from those of the coins.
new-IsApart :
    (coins : List BitCoin) (b : ℕ) (v : CString) (value : ℕ) (ids : List ℕ)
    → IsApart coins (b ∷ ids)
    → IsNotIn b ids
    → IsApart (coins ++ bit_coin_initialization b v value ∷ []) ids
unfolding bit_coin_initialization
new-IsApart coins b v value ids a n d h =
    let len = length-append coins (bit_coin_initialization b v value ∷ []) in
    elim (Bool-cases (d == length coins)) [
      | inl e ↦ rw (coin_at-append coins (bit_coin_initialization b v value) d, e) n
      | inr e ↦
          rw (coin_at-append coins (bit_coin_initialization b v value) d, e) (a d (ground arith)).1
    ]

-- A coin that no wallet has gets an entry in both branches.
add_first :
    (ws : List Wallet) (v : CString) (value b : ℕ) (bs : List ℕ) (es : List BcEntry)
    (coins : List BitCoin) (r : List BcEntry × List BitCoin)
    → check_if_bc_exists (coins ++ bit_coin_initialization b v value ∷ []) ws b ≡ false
    → add_bcs ws v value bs
        (es ++ entry value (length coins) ∷ [])
        (coins ++ bit_coin_initialization b v value ∷ [])
      ≡ some r
    → add_bcs ws v value (b ∷ bs) es coins ≡ some r
unfolding add_bcs
add_first [] v value b bs [] coins r unseen runs = runs
add_first (w ∷ ws) v value b bs [] coins r unseen runs = rw unseen runs
add_first ws v value b bs (e ∷ es) coins r unseen runs = rw unseen runs

-- All coins of a line: they are new, so each gets an entry.
pub add_bcs-IsAdding :
    (ws : List Wallet) (v : CString) (value : ℕ) (bs later : List ℕ) (es : List BcEntry)
    (coins : List BitCoin)
    → IsAdding ws v es coins
    → check_if_wallet_exists ws v ≡ false
    → value < size_mod
    → IsApart coins (bs ++ later)
    → HasNoRepeats (bs ++ later)
    → (es' : List BcEntry) × (coins' : List BitCoin) × (add_bcs ws v value bs es coins
        ≡ some (es', coins'))
      × IsAdding ws v es' coins'
      × (total es' ≡ total es + length bs * value)
      × (length coins' ≡ length coins + length bs)
      × IsApart coins' later
unfolding add_bcs
add_bcs-IsAdding ws v value [] later es coins i fresh small apart once =
    (es, coins, refl, i, omega arith, omega arith, apart)
add_bcs-IsAdding ws v value (b ∷ bs) later es coins i fresh small apart once =
    let new = bit_coin_initialization b v value in
    let i' = new-IsAdding coins b v value ws es i fresh small (λ d h. (apart d h).0) in
    let apart' = new-IsApart coins b v value (bs ++ later) apart once.0 in
    let (es', coins', runs, j, sum, len, left) =
      add_bcs-IsAdding ws v value bs later (es ++ entry value (length coins) ∷ [])
        (coins ++ new ∷ []) i' fresh small apart' once.1 in
    let unseen =
      check_if_bc_exists-new (coins ++ new ∷ []) ws (length coins) b
        (λ k h. (i.are_wallets k h).in_range)
        (λ d h.
          let e : (d == length coins) ≡ false = ground arith in
          rw (coin_at-append coins new d, e) (apart d h).0) in
    let more = total-append es value (length coins) in
    let longer = length-append coins (new ∷ []) in
    (
      es',
      coins',
      add_first ws v value b bs es coins (es', coins') unseen runs,
      j,
      grind arith,
      omega arith,
      left,
    )
