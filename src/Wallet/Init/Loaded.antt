-- ===== src/Wallet/Init/Loaded.antt =====
-- All lines: the wallets and coins that they name.
use systems_programming.Base.{
  le→ltb, ℕ, zero, suc, ◌+◌, ◌*◌, ◌%◌, ◌≤◌, ◌<◌, ◌≡◌, refl, sym, ap, subst, ◌∙◌, false, List, [],
  ◌∷◌, ◌++◌, ◌==◌, if◌then◌else◌, length, length-append, arith, inl, inr, Bool-cases, lt→ltb,
}
use mathlib.Core.List.{append_assoc, append-nil}
use systems_programming.Base.Size.{size_mod}
use systems_programming.Base.CString.{CString}
use systems_programming.BitCoin.{BitCoin}
use systems_programming.BitCoin.Owned.{owned}
use systems_programming.Wallet.{Wallet, coin_at}
use systems_programming.Wallet.Held.{held, total, AreCoins}
use systems_programming.Wallet.Conserve.{IsWallet}
use systems_programming.Wallet.Search.{wallet_at}
use systems_programming.Transactions.Valid.{sum_of_amounts}
use systems_programming.Wallet.Init.{BalanceLine, made, check_if_wallet_exists, load_wallets}
use systems_programming.Wallet.Init.Ids.{
  HasNoRepeats, HasShortNames, ids_of, HasNoNamesakes, IsApart, AreNew, exists-append,
  AreNew-append,
}
use systems_programming.Wallet.Init.Adding.{IsAdding}
use systems_programming.Wallet.Init.Step.{add_bcs-IsAdding}

-- The wallets agree with the coins, and no other wallet owns anything.
pub record IsLoaded (value : ℕ) (ws : List Wallet) (coins : List BitCoin) : Type 0 where
  pub are_coins : AreCoins coins
  pub are_wallets : (i : ℕ) → i < length ws → IsWallet coins (wallet_at ws i)
  pub strangers :
      (u : CString)
      → check_if_wallet_exists ws u ≡ false
      → (c : ℕ) → owned u (coin_at coins c).root ≡ 0
  pub sum : sum_of_amounts ws ≡ length coins * value

-- The wallets have the names of the lines, and the value of as many coins as the lines have.
abbrev pub AreNamed : ℕ → List BalanceLine → List Wallet → Type 0
AreNamed value [] [] = Unit
AreNamed value [] (w ∷ ws) = ⊥
AreNamed value (l ∷ ls) [] = ⊥
AreNamed value (l ∷ ls) (w ∷ ws) =
    (w.wallet_id ≡ l.wallet_id) × (w.amount ≡ length l.bc_ids * value) × AreNamed value ls ws

-- A line begins with a wallet that owns nothing.
begin-IsAdding :
    (value : ℕ) (ws : List Wallet) (v : CString) (coins : List BitCoin)
    → IsLoaded value ws coins
    → check_if_wallet_exists ws v ≡ false
    → IsAdding ws v [] coins
unfolding held
begin-IsAdding value ws v coins i fresh = record {
  are_coins = i.are_coins;
  are_wallets = i.are_wallets;
  agrees = λ c. sym (i.strangers v fresh c);
  in_range = record {};
  strangers = λ u h ne c. i.strangers u h c;
}

wallet_at-append :
    (ws : List Wallet) (w : Wallet) (i : ℕ)
    → i < length ws + 1
    → wallet_at (ws ++ w ∷ []) i ≡ (if i == length ws then w else wallet_at ws i)
wallet_at-append [] w zero h = refl
wallet_at-append [] w (suc i) h = absurd (omega arith)
wallet_at-append (u ∷ ws) w zero h = ground arith
wallet_at-append (u ∷ ws) w (suc i) h = rw (wallet_at-append ws w i (omega arith)) (ground arith)

sum-append :
    (ws : List Wallet) (w : Wallet) → sum_of_amounts (ws ++ w ∷ []) ≡ sum_of_amounts ws + w.amount
unfolding sum_of_amounts
sum-append [] w = omega arith
sum-append (u ∷ ws) w = omega (arith, sum-append ws w)

-- A line ends with its wallet behind the others.
end-IsLoaded :
    (value n : ℕ) (ws : List Wallet) (w : Wallet) (coins coins' : List BitCoin)
    → IsLoaded value ws coins
    → IsAdding ws w.wallet_id w.bc_list coins'
    → total w.bc_list ≡ w.amount
    → w.amount ≡ n * value
    → length coins' ≡ length coins + n
    → IsLoaded value (ws ++ w ∷ []) coins'
end-IsLoaded value n ws w coins coins' l i sum amount len =
    let longer = length-append ws (w ∷ []) in
    let added = sum-append ws w in
    let before = l.sum in
    let more : sum_of_amounts (ws ++ w ∷ []) ≡ length coins' * value = grind arith in
    record {
      are_coins = i.are_coins;
      are_wallets = λ j h. elim (Bool-cases (j == length ws)) [
        | inl e ↦
            rw (wallet_at-append ws w j (omega arith), e)
              (record { agrees = i.agrees; in_range = i.in_range; sum = sum })
        | inr e ↦ rw (wallet_at-append ws w j (omega arith), e) (i.are_wallets j (ground arith))
      ];
      strangers =
          λ u h c. let both = exists-append ws w u in i.strangers u (ground arith) (ground arith) c;
      sum = more;
    }

-- The bound on the line's value, from that on the whole file.
line_small : (n m k value : ℕ) → (k + (n + m)) * value < size_mod → n * value < size_mod
line_small n m k value h = grind arith

-- What is left for the lines behind.
rest_small :
    (coins all n m k value : ℕ)
    → (coins + all) * value < size_mod
    → all ≡ n + m
    → k ≡ coins + n
    → (k + m) * value < size_mod
rest_small coins all n m k value h e f =
    let g : coins + all ≡ k + m = omega arith in subst (λ x. x * value < size_mod) g h

total-nil : total [] ≡ 0
unfolding total
total-nil = refl

HasNoRepeats-behind : (bs later : List ℕ) → HasNoRepeats (bs ++ later) → HasNoRepeats later
HasNoRepeats-behind [] later h = h
HasNoRepeats-behind (b ∷ bs) later h = HasNoRepeats-behind bs later h.1

pub load_wallets-IsLoaded :
    (capacity value : ℕ) (ls : List BalanceLine) (ws : List Wallet) (coins : List BitCoin)
    → length ws + length ls ≤ capacity
    → value < size_mod
    → (length coins + length (ids_of ls)) * value < size_mod
    → HasShortNames ls
    → HasNoNamesakes ls
    → AreNew ws ls
    → HasNoRepeats (ids_of ls)
    → IsApart coins (ids_of ls)
    → IsLoaded value ws coins
    → (new : List Wallet) × (coins' : List BitCoin) × (load_wallets capacity value ls ws coins
        ≡ made (ws ++ new) coins')
      × IsLoaded value (ws ++ new) coins'
      × AreNamed value ls new
      × (length coins' ≡ length coins + length (ids_of ls))
unfolding load_wallets
load_wallets-IsLoaded capacity value [] ws coins room small few names_fit names fresh once apart i =
    ([], coins, rw (append-nil ws) refl, rw (append-nil ws) i, record {}, omega arith)
load_wallets-IsLoaded capacity value (l ∷ ls) ws coins room small few names_fit names fresh once
      apart i =
    let (es, coins', runs, adding, sum, len, apart') =
      add_bcs-IsAdding ws l.wallet_id value l.bc_ids (ids_of ls) [] coins
        (begin-IsAdding value ws l.wallet_id coins i fresh.0) fresh.0 small apart once in
    let w : Wallet = record {
      wallet_id = l.wallet_id;
      amount = (length l.bc_ids * value) % size_mod;
      bc_list = es;
    } in
    let ids = length-append l.bc_ids (ids_of ls) in
    let longer = length-append ws (w ∷ []) in
    let fits : length l.bc_ids * value < size_mod =
      line_small (length l.bc_ids) (length (ids_of ls)) (length coins) value (rw ids at few) in
    let exact : (length l.bc_ids * value) % size_mod ≡ length l.bc_ids * value = omega arith in
    let nothing : total [] ≡ 0 = total-nil in
    let total_amount : total es ≡ w.amount = omega arith in
    let i' =
      end-IsLoaded value (length l.bc_ids) ws w coins coins' i adding total_amount exact len in
    let (new, coins'', runs', loaded, named, len') =
      load_wallets-IsLoaded capacity value ls (ws ++ w ∷ []) coins' (omega arith) small
        (rest_small (length coins) (length (ids_of (l ∷ ls))) (length l.bc_ids) (length (ids_of ls))
          (length coins') value few ids len)
        names_fit.1 names.1 (AreNew-append ws w ls fresh.1 names.0)
        (HasNoRepeats-behind l.bc_ids (ids_of ls) once) apart' i' in
    let all = append_assoc ws (w ∷ []) new in
    (
      w ∷ new,
      coins'',
      rw
          (
            le→ltb 63 (length l.wallet_id) names_fit.0,
            fresh.0,
            lt→ltb (length ws) capacity (omega arith),
            runs,
          )
          (runs' ∙ ap (λ v. made v coins'') all),
      rw (← all) loaded,
      (refl, exact, named),
      omega arith,
    )
