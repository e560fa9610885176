-- ===== src/Wallet/Conserve.antt =====
-- `makeTransaction` as a whole, on wallets that agree with the coins.
use systems_programming.Base.{
  ℕ, suc, ◌+◌, ◌-◌, ◌≤◌, ◌<◌, ◌≡◌, ◌≢◌, refl, ◌∙◌, sym, ap, subst, true, Option, some, List, ◌∷◌,
  arith, length, false, ◌||◌, if◌then◌else◌, Bool-cases, inl, inr,
}
use systems_programming.Base.Size.{size_mod, sub_size, add_size}
use systems_programming.BitCoin.{Transaction, BitCoin}
use systems_programming.Base.CString.{CString, str_eq, str_eq_iff, str_eq-ne}
use systems_programming.BitCoin.Owned.{amount_of, owned}
use systems_programming.Wallet.{
  BcEntry, Wallet, Wallets, Done, coin_at, entry, sender_has_enough, make_transaction, transfer,
}
use systems_programming.Wallet.Held.{total, InRange, InRange-le, Agrees, AreCoins}
use systems_programming.Wallet.Loop.{payment, entry_small}
use systems_programming.Wallet.Paid.{cover_runs, transfer-Result}

-- The wallet's list holds what the coins' trees say, and adds up to its balance.
pub record IsWallet (coins : List BitCoin) (w : Wallet) : Type 0 where
  pub agrees : Agrees coins w.wallet_id w.bc_list
  pub in_range : InRange (length coins) w.bc_list
  pub sum : total w.bc_list ≡ w.amount

-- `amount` has gone from one wallet to the other.
pub record IsTransaction (coins : List BitCoin) (sndr rcvr : Wallet) (amount : ℕ) (out : Wallets)
    : Type 0 where
  pub are_coins : AreCoins out.2
  pub sender : IsWallet out.2 out.0
  pub receiver : IsWallet out.2 out.1
  pub sender_id : out.0.wallet_id ≡ sndr.wallet_id
  pub receiver_id : out.1.wallet_id ≡ rcvr.wallet_id
  pub paid_out : out.0.amount + amount ≡ sndr.amount
  pub paid_in : out.1.amount ≡ rcvr.amount + amount
  pub same_length : length out.2 ≡ length coins
  pub others :
      (v : CString) (c : ℕ)
      → owned v (coin_at out.2 c).root ≡ (
          if str_eq v sndr.wallet_id || str_eq v rcvr.wallet_id
          then owned v (coin_at out.2 c).root
          else owned v (coin_at coins c).root)
  pub values : (c : ℕ) → amount_of (coin_at out.2 c).root ≡ amount_of (coin_at coins c).root

-- A value that only the two parties change.
others_only :
    (a b v : CString) (new old : ℕ)
    → (v ≢ a → v ≢ b → new ≡ old)
    → new ≡ (if str_eq v a || str_eq v b then new else old)
others_only a b v new old h = elim (Bool-cases (str_eq v a)) [
  | inl e ↦ rw e refl
  | inr na ↦ elim (Bool-cases (str_eq v b)) [
    | inl e ↦ rw (na, e) refl
    | inr nb ↦
        rw (na, nb)
          (h (λ e. let t = (str_eq_iff v a).1 e in cc) (λ e. let t = (str_eq_iff v b).1 e in cc))
  ]
]

-- Every other valid wallet stays valid.
pub bystander-IsWallet :
    (coins : List BitCoin) (sndr rcvr : Wallet) (amount : ℕ) (out : Wallets) (w : Wallet)
    → IsTransaction coins sndr rcvr amount out
    → w.wallet_id ≢ sndr.wallet_id
    → w.wallet_id ≢ rcvr.wallet_id
    → IsWallet coins w
    → IsWallet out.2 w
bystander-IsWallet coins sndr rcvr amount out w t ns nr v =
    let s = str_eq-ne w.wallet_id sndr.wallet_id ns in
    let r = str_eq-ne w.wallet_id rcvr.wallet_id nr in
    record {
      agrees = λ c. v.agrees c ∙ sym (t.others w.wallet_id c ∙ pick _ _ s r);
      in_range = InRange-le w.bc_list (length coins) _ (omega (arith, t.same_length)) v.in_range;
      sum = v.sum;
    }
  where
    pick :
        (x y : ℕ)
        → str_eq w.wallet_id sndr.wallet_id ≡ false
        → str_eq w.wallet_id rcvr.wallet_id ≡ false
        → (if str_eq w.wallet_id sndr.wallet_id || str_eq w.wallet_id rcvr.wallet_id then x else y)
          ≡ y
    pick x y s r = rw (s, r) refl

module _ (coins : List BitCoin) (sndr rcvr : Wallet) (amount : ℕ) (trans : Option Transaction) where
  -- Between two different valid wallets that together have less than 2^64, an amount that the
  -- sender has is paid: the call ends, and
  -- reads nothing through NULL; the balances change by the amount, both wallets stay valid, and no
  -- other wallet's share of a coin changes; the coins stay balanced, and keep their values.
  pub make_transaction-IsTransaction :
      AreCoins coins
      → IsWallet coins sndr
      → IsWallet coins rcvr
      → sndr.wallet_id ≢ rcvr.wallet_id
      → sender_has_enough sndr amount ≡ true
      → sndr.amount + rcvr.amount < size_mod
      → (out : Wallets) × (make_transaction coins sndr rcvr amount trans ≡ some out)
        × IsTransaction coins sndr rcvr amount out
  unfolding make_transaction sender_has_enough
  make_transaction-IsTransaction a ws wr ne has small =
      let has' : amount ≤ sndr.amount = ground arith in
      let (d, run, p) =
        transfer-Result sndr.wallet_id rcvr.wallet_id trans ne (length sndr.bc_list + 2) amount
          sndr.bc_list rcvr.bc_list coins
          (record {
            are_coins = a;
            sent = ws.agrees;
            got = wr.agrees;
            sent_in = ws.in_range;
            got_in = wr.in_range;
            enough = omega (arith, ws.sum);
            small = omega (arith, wr.sum);
          })
          (omega arith) in
      (
        (
          record sndr { amount = sub_size sndr.amount amount; bc_list = d.0 },
          record rcvr { amount = add_size rcvr.amount amount; bc_list = d.1 },
          d.2,
        ),
        rw (run, make_transaction),
        record {
          are_coins = p.are_coins;
          sender = record {
            agrees = p.sent;
            in_range = p.sent_in;
            sum = omega (arith, p.sent_total, ws.sum);
          };
          receiver = record {
            agrees = p.got;
            in_range = p.got_in;
            sum = omega (arith, p.got_total, wr.sum);
          };
          sender_id = refl;
          receiver_id = refl;
          paid_out = omega arith;
          paid_in = omega arith;
          same_length = p.same_length;
          others = λ v c. others_only sndr.wallet_id rcvr.wallet_id v _ _ (p.others v c);
          values = p.values;
        },
      )

  -- An entry that covers the amount stays in the sender's list, lowered by it: also one that is
  -- lowered to nothing, by a payment of exactly what it holds.
  pub make_transaction_keeps_entry :
      (e : BcEntry) (es : List BcEntry)
      → AreCoins coins
      → IsWallet coins sndr
      → IsWallet coins rcvr
      → sndr.wallet_id ≢ rcvr.wallet_id
      → sndr.amount + rcvr.amount < size_mod
      → sndr.bc_list ≡ e ∷ es
      → 0 < amount
      → amount ≤ e.amount_of
      → (out : Wallets) × (make_transaction coins sndr rcvr amount trans ≡ some out)
        × (out.0.bc_list ≡ entry (e.amount_of - amount) e.this_bc ∷ es)
  unfolding make_transaction
  make_transaction_keeps_entry e es a ws wr ne small first pos le =
      let agrees = subst (Agrees coins sndr.wallet_id) first ws.agrees in
      let in_range = subst (InRange (length coins)) first ws.in_range in
      let sum : total (e ∷ es) ≡ sndr.amount = subst (λ ls. total ls ≡ sndr.amount) first ws.sum in
      let has : amount ≤ total (e ∷ es) = unfold total in omega arith in
      let (received, coins', run) =
        cover_runs sndr.wallet_id rcvr.wallet_id trans ne (length es + 1) amount e es rcvr.bc_list
          coins
          (record {
            are_coins = a;
            sent = agrees;
            got = wr.agrees;
            sent_in = in_range;
            got_in = wr.in_range;
            enough = has;
            small = omega (arith, wr.sum, sum);
          })
          pos le in
      let small_e = entry_small sndr.wallet_id rcvr.wallet_id trans ne coins e es a agrees in
      (
        (
          record sndr {
            amount = sub_size sndr.amount amount;
            bc_list = record e { amount_of = sub_size e.amount_of amount } ∷ es;
          },
          record rcvr { amount = add_size rcvr.amount amount; bc_list = received },
          coins',
        ),
        rw (from_list sndr.bc_list first run, make_transaction),
        ap (λ k. entry k e.this_bc ∷ es) (omega arith),
      )
    where
      from_list :
          (ls : List BcEntry)
          → ls ≡ e ∷ es
          → {out : Done}
          → transfer sndr.wallet_id rcvr.wallet_id trans
              (suc (suc (length es + 1)))
              (payment amount (e ∷ es) rcvr.bc_list coins)
            ≡ some out
          → transfer sndr.wallet_id rcvr.wallet_id trans
              (length ls + 2)
              (payment amount ls rcvr.bc_list coins)
            ≡ some out
      from_list ls q run =
          let fuel : length ls + 2 ≡ suc (suc (length es + 1)) = rw q (omega arith) in
          rw (fuel, q) run
