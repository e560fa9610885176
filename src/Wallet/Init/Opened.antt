-- ===== src/Wallet/Init/Opened.antt =====
-- The file as a whole: the array of wallets in order, and the coins.
use systems_programming.Base.{
  ℕ, zero, suc, ◌+◌, ◌*◌, ◌<◌, ◌≡◌, ◌≢◌, refl, sym, ap, subst, ◌∙◌, true, some, List, [], ◌∷◌, ◌==◌,
  length, arith,
}
use mathlib.Core.List.{Mem, Perm, Pairwise, map, foldr, not-mem-nil, eq-or-mem_of_mem-cons}
use mathlib.Core.List.Perm
use mathlib.Core.Logic.Or
use native.Mathlib.Bridge.{le_prop}
use native.Mathlib.Nat.{ℕ_set}
use systems_programming.Base.Size.{size_mod}
use systems_programming.Base.CString.{CString, str_eq_iff}
use systems_programming.BitCoin.{BitCoin}
use systems_programming.BitCoin.Owned.{owned}
use systems_programming.Wallet.{BcEntry, Wallet}
use systems_programming.Wallet.Held.{InRange, AreCoins}
use systems_programming.Wallet.Conserve.{IsWallet}
use systems_programming.Wallet.Search.{wallet_at, IsOrdered}
use systems_programming.Wallet.Sort.{sort_wallets}
use systems_programming.Wallet.Sort.Ordered.{wallet_at-Mem, HasNoTwins, sort_wallets-IsOrdered}
use systems_programming.Transactions.Valid.{sum_of_amounts}
use systems_programming.Wallet.Init.{
  BalanceLine, made, check_if_wallet_exists, find_num_of_wallets, load_wallets, sort_loaded,
  wallets_initialization,
}
use systems_programming.Wallet.Init.Ids.{
  HasNoRepeats, HasShortNames, ids_of, IsNotNamed, HasNoNamesakes, AreNew,
}
use systems_programming.Wallet.Init.Loaded.{IsLoaded, AreNamed, load_wallets-IsLoaded}

InRange-IsProp : (n : ℕ) (es : List BcEntry) → IsProp (InRange n es)
InRange-IsProp n [] = hlevel
InRange-IsProp n (e ∷ es) = let p = InRange-IsProp n es in hlevel (le_prop)

IsWallet-IsProp : (coins : List BitCoin) (w : Wallet) → IsProp (IsWallet coins w)
IsWallet-IsProp coins w = let p = InRange-IsProp (length coins) w.bc_list in hlevel

-- What holds of the wallet at each place holds of each wallet of the array.
Mem-wallet_at :
    (P : Wallet → Type 0)
    → ((w : Wallet) → IsProp (P w))
    → (ws : List Wallet) → ((i : ℕ) → i < length ws → P (wallet_at ws i))
    → (w : Wallet) → Mem w ws
    → P w
Mem-wallet_at P p [] h w m = absurd (not-mem-nil m)
Mem-wallet_at P p (v ∷ ws) h w m =
    Or.elim (p w) (eq-or-mem_of_mem-cons m) (λ e. subst P (sym e) (h 0 (omega arith)))
      (λ k. Mem-wallet_at P p ws (λ i l. h (suc i) (omega arith)) w k)

module _ (value : ℕ) where
  named-at :
      (n : CString) (ls : List BalanceLine) (ws : List Wallet)
      → AreNamed value ls ws
      → IsNotNamed n ls
      → (i : ℕ) → i < length ws
      → n ≢ (wallet_at ws i).wallet_id
  named-at n [] [] a h i l = absurd (omega arith)
  named-at n [] (w ∷ ws) a h i l = elim a [ ]
  named-at n (l ∷ ls) [] a h i k = elim a [ ]
  named-at n (l ∷ ls) (w ∷ ws) a h zero k =
      λ e. let same = (str_eq_iff n l.wallet_id).1 (e ∙ a.0) in let other = h.0 in ground arith
  named-at n (l ∷ ls) (w ∷ ws) a h (suc i) k = named-at n ls ws a.2 h.1 i (omega arith)

  AreNamed-HasNoTwins :
      (ls : List BalanceLine) (ws : List Wallet)
      → AreNamed value ls ws
      → HasNoNamesakes ls
      → HasNoTwins ws
  AreNamed-HasNoTwins [] [] a h = Pairwise.nil
  AreNamed-HasNoTwins [] (w ∷ ws) a h = elim a [ ]
  AreNamed-HasNoTwins (l ∷ ls) [] a h = elim a [ ]
  AreNamed-HasNoTwins (l ∷ ls) (w ∷ ws) a h =
      Pairwise.cons
        (Mem-wallet_at (λ u. w.wallet_id ≢ u.wallet_id) (λ u. hlevel) ws
          (subst (λ n. (i : ℕ) → i < length ws → n ≢ (wallet_at ws i).wallet_id) (sym a.0)
            (named-at l.wallet_id ls ws a.2 h.0)))
        (AreNamed-HasNoTwins ls ws a.2 h.1)

  -- Names and amounts, as the wallets and as the lines have them.
  abbrev pub balances : List Wallet → List (CString × ℕ)
  balances = map (λ w. (w.wallet_id, w.amount))

  abbrev pub balances_of : List BalanceLine → List (CString × ℕ)
  balances_of = map (λ l. (l.wallet_id, length l.bc_ids * value))

  AreNamed-balances :
      (ls : List BalanceLine) (ws : List Wallet)
      → AreNamed value ls ws
      → balances ws ≡ balances_of ls
  AreNamed-balances [] [] a = refl
  AreNamed-balances [] (w ∷ ws) a = elim a [ ]
  AreNamed-balances (l ∷ ls) [] a = elim a [ ]
  AreNamed-balances (l ∷ ls) (w ∷ ws) a = rw (AreNamed-balances ls ws a.2, a.0, a.1) refl

  AreNamed-length :
      (ls : List BalanceLine) (ws : List Wallet) → AreNamed value ls ws → length ws ≡ length ls
  AreNamed-length [] [] a = refl
  AreNamed-length [] (w ∷ ws) a = elim a [ ]
  AreNamed-length (l ∷ ls) [] a = elim a [ ]
  AreNamed-length (l ∷ ls) (w ∷ ws) a = ap suc (AreNamed-length ls ws a.2)

-- The lines of a file that can be loaded.
pub record IsFile (scnd : List Wallet) (bytes : List ℕ) (lines : List BalanceLine) (value : ℕ)
    : Type 0 where
  pub some_line : lines ≢ []
  pub ends : find_num_of_wallets bytes ≡ length lines
  pub second : length scnd ≡ length lines
  pub few : 2 * length lines < size_mod
  pub small : length (ids_of lines) * value < size_mod
  pub value_small : value < size_mod
  pub short : HasShortNames lines
  pub names : HasNoNamesakes lines
  pub ids : HasNoRepeats (ids_of lines)

-- The wallets are in the order of their IDs, agree with the coins, and are those of the lines.
pub record IsOpened (value : ℕ) (lines : List BalanceLine) (ws : List Wallet) (coins : List BitCoin)
    : Type 0 where
  pub ordered : IsOrdered ws
  pub are_coins : AreCoins coins
  pub are_wallets : (i : ℕ) → i < length ws → IsWallet coins (wallet_at ws i)
  pub sum : sum_of_amounts ws ≡ length (ids_of lines) * value
  pub same_length : length ws ≡ length lines
  pub same : Perm (balances value ws) (balances_of value lines)

sum-foldr : (ws : List Wallet) → sum_of_amounts ws ≡ foldr (λ w n. w.amount + n) 0 ws
unfolding sum_of_amounts
sum-foldr [] = refl
sum-foldr (w ∷ ws) = ap (λ n. w.amount + n) (sum-foldr ws)

-- Another order of the wallets has the same sum.
sum-Perm : (ws out : List Wallet) → Perm out ws → sum_of_amounts out ≡ sum_of_amounts ws
sum-Perm ws out p =
    sum-foldr out
    ∙ Perm.foldr-eq ℕ_set (λ w n. w.amount + n) (λ u v n. omega arith) p 0
    ∙ sym (sum-foldr ws)

length-foldr : (ws : List Wallet) → length ws ≡ foldr (λ w n. suc n) 0 ws
length-foldr [] = refl
length-foldr (w ∷ ws) = ap suc (length-foldr ws)

length-Perm : (ws out : List Wallet) → Perm out ws → length out ≡ length ws
length-Perm ws out p =
    length-foldr out
    ∙ Perm.foldr-eq ℕ_set (λ w n. suc n) (λ u v n. refl) p 0
    ∙ sym (length-foldr ws)

nothing-IsLoaded : (value : ℕ) → IsLoaded value [] []
unfolding sum_of_amounts check_if_wallet_exists owned
nothing-IsLoaded value = record {
  are_coins = record {
    exists = λ c h. absurd (omega arith);
    balanced = λ c h. absurd (omega arith);
    distinct = λ c d h. absurd (omega arith);
  };
  are_wallets = λ i h. absurd (omega arith);
  strangers = λ u h c. refl;
  sum = omega arith;
}

all_new : (lines : List BalanceLine) → AreNew [] lines
unfolding check_if_wallet_exists
all_new [] = record {}
all_new (l ∷ ls) = (refl, all_new ls)

zero-add : (n : ℕ) → n ≡ 0 + n
zero-add n = omega arith

-- All wallets are loaded and sorted.
sorted_runs :
    (scnd : List Wallet) (bytes : List ℕ) (lines : List BalanceLine) (value : ℕ)
    (ws out : List Wallet) (coins : List BitCoin)
    → IsFile scnd bytes lines value
    → load_wallets (length lines) value lines [] [] ≡ made ws coins
    → length ws ≡ length lines
    → sort_wallets scnd ws ≡ some out
    → wallets_initialization scnd bytes lines value ≡ made out coins
unfolding wallets_initialization sort_loaded
sorted_runs scnd bytes [] value ws out coins f load len sort = absurd (f.some_line refl)
sorted_runs scnd bytes (l ∷ ls) value ws out coins f load len sort =
    let same : (length ws == length (l ∷ ls)) ≡ true = ground arith in
    rw (f.ends, load, same, sort) (ground arith)

-- The file has at least one line, names of at most 63 characters, as many as line feeds, fewer than 2^63, and as many as the second
-- array of the sort has places; no wallet and no coin stands in it twice; and the value of a coin and
-- that of all coins are below 2^64. Then the program goes on: the array of wallets is in the strict
-- order of the IDs, each wallet has the name of a line and the value of as many coins as that line
-- has, its list holds what the coins' trees say and adds up to its balance, the coins have different
-- IDs, and the balances together are the value of all coins.
pub wallets_initialization-IsOpened :
    (scnd : List Wallet) (bytes : List ℕ) (lines : List BalanceLine) (value : ℕ)
    → IsFile scnd bytes lines value
    → (out : List Wallet) × (coins : List BitCoin) × (wallets_initialization scnd bytes lines value
        ≡ made out coins)
      × IsOpened value lines out coins
wallets_initialization-IsOpened scnd bytes lines value f =
    let small : (0 + length (ids_of lines)) * value < size_mod =
      subst (λ n. n * value < size_mod) (zero-add (length (ids_of lines))) f.small in
    let (ws, coins, load, loaded, named, len) =
      load_wallets-IsLoaded (length lines) value lines [] [] (omega arith) f.value_small small
        f.short f.names (all_new lines) f.ids (λ d h. absurd (omega arith))
        (nothing-IsLoaded value) in
    let same = AreNamed-length value lines ws named in
    let twins = AreNamed-HasNoTwins value lines ws named f.names in
    let (out, sort, perm, ordered) =
      sort_wallets-IsOrdered ws scnd (λ e. f.some_line (ground (arith, e))) (f.second ∙ sym same)
        (subst (λ n. 2 * n < size_mod) (sym same) f.few) twins in
    (
      out,
      coins,
      sorted_runs scnd bytes lines value ws out coins f load same sort,
      record {
        ordered = ordered;
        are_coins = loaded.are_coins;
        are_wallets = λ i h.
            Mem-wallet_at (IsWallet coins) (IsWallet-IsProp coins) ws loaded.are_wallets
              (wallet_at out i) ((Perm.mem_iff perm).0 (wallet_at-Mem out i h));
        sum = sum-Perm ws out perm ∙ loaded.sum ∙ ap (λ n. n * value) (len ∙ sym (zero-add _));
        same_length = length-Perm ws out perm ∙ same;
        same = rw (← AreNamed-balances value lines ws named) (Perm.map _ perm);
      },
    )
