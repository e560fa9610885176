-- ===== src/Wallet/Init.antt =====
-- SysPro_Project1/src/wallet.c: the wallets and coins that the file of balances names. A line is what
-- the calls of fscanf read off it.
pub mod Ids
pub mod Adding
pub mod Step
pub mod Loaded
pub mod Opened
pub mod Example
use systems_programming.Base.{
  ℕ, zero, suc, ◌+◌, ◌*◌, ◌%◌, Bool, true, false, Option, none, some, List, [], ◌∷◌, ◌++◌, not, ltb,
  ◌==◌, ◌&&◌, ◌||◌, if◌then◌else◌, length,
}
use systems_programming.Base.Size.{size_mod}
use systems_programming.Base.CString.{CString, str_eq}
use systems_programming.BitCoin.{BitCoin, bit_coin_initialization}
use systems_programming.Wallet.{BcEntry, Wallet, entry, coin_at}
use systems_programming.Wallet.Sort.{sort_wallets}

pub record BalanceLine : Type 0 where
  pub wallet_id : CString
  pub bc_ids : List ℕ

-- The program goes on, ends with a message, or writes or reads outside of its arrays.
pub data Init : Type 0 where
  refused fault : Init
  made : List Wallet → List BitCoin → Init

unfoldable pub check_if_wallet_exists : List Wallet → CString → Bool
check_if_wallet_exists [] id = false
check_if_wallet_exists (w ∷ ws) id =
    if str_eq w.wallet_id id then true else check_if_wallet_exists ws id

-- The inner loop of `checkIfBCExists`.
unfoldable pub has_bc : List BitCoin → List BcEntry → ℕ → Bool
has_bc coins [] id = false
has_bc coins (e ∷ es) id = if (coin_at coins e.this_bc).id == id then true else has_bc coins es id

unfoldable pub check_if_bc_exists : List BitCoin → List Wallet → ℕ → Bool
check_if_bc_exists coins [] id = false
check_if_bc_exists coins (w ∷ ws) id =
    if has_bc coins w.bc_list id then true else check_if_bc_exists coins ws id

-- The line feeds of the file; in a `char` the byte 255 is the end of the file.
unfoldable pub find_num_of_wallets : List ℕ → ℕ
find_num_of_wallets [] = 0
find_num_of_wallets (c ∷ cs) =
    if c == 255 then 0 else if c == 10 then suc (find_num_of_wallets cs) else find_num_of_wallets cs

abbrev pub is_empty {ℓ} : {A : Type ℓ} → List A → Bool
is_empty [] = true
is_empty (_ ∷ _) = false

-- The loop over the coins of a line: a coin is made first, and then looked for in the wallets in
-- front of this one; `none` if one of them has it.
unfoldable pub add_bcs :
    List Wallet
    → CString
    → ℕ
    → List ℕ
    → List BcEntry
    → List BitCoin
    → Option (List BcEntry × List BitCoin)
add_bcs ws id value [] es coins = some (es, coins)
add_bcs ws id value (b ∷ bs) es coins =
    let coins' = coins ++ bit_coin_initialization b id value ∷ [] in
    let exists = check_if_bc_exists coins' ws b in
    let first = add_bcs ws id value bs (entry value (length coins) ∷ []) coins' in
    let next = add_bcs ws id value bs (es ++ entry value (length coins) ∷ []) coins' in
    if is_empty es && (is_empty ws || not exists) then first else if not exists then next else none

-- The loop over the lines: `capacity` is the length of the array of wallets. A name of more than 63
-- characters is written behind `buffer`.
unfoldable pub load_wallets : ℕ → ℕ → List BalanceLine → List Wallet → List BitCoin → Init
load_wallets capacity value [] ws coins = made ws coins
load_wallets capacity value (l ∷ ls) ws coins =
    if ltb 63 (length l.wallet_id)
    then fault
    else if check_if_wallet_exists ws l.wallet_id
    then refused
    else if not (ltb (length ws) capacity)
    then fault
    else elim (add_bcs ws l.wallet_id value l.bc_ids [] coins) [
      | none ↦ refused
      | some (es, coins') ↦
          load_wallets capacity value ls
            (ws
              ++ record {
                wallet_id = l.wallet_id;
                amount = (length l.bc_ids * value) % size_mod;
                bc_list = es;
              }
                ∷ [])
            coins'
    ]

-- `sortWallets` reads as many wallets as the file has line feeds; `scnd` is its second array.
unfoldable pub sort_loaded : List Wallet → ℕ → Init → Init
sort_loaded scnd n refused = refused
sort_loaded scnd n fault = fault
sort_loaded scnd n (made ws coins) =
    if length ws == n
    then elim (sort_wallets scnd ws) [ none ↦ fault | some out ↦ made out coins ]
    else fault

unfoldable pub wallets_initialization : List Wallet → List ℕ → List BalanceLine → ℕ → Init
wallets_initialization scnd bytes lines value =
    let n = find_num_of_wallets bytes in
    if n == 0 then refused else sort_loaded scnd n (load_wallets n value lines [] [])
