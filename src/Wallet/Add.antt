-- ===== src/Wallet/Add.antt =====
-- `addToBCList`: what the receiver's list holds afterwards.
use systems_programming.Base.{ℕ, ◌+◌, ◌<◌, ◌≡◌, List, [], ◌∷◌, arith, ◌==◌, if◌then◌else◌, length}
use systems_programming.Base.Size.{size_mod}
use systems_programming.BitCoin.{BitCoin}
use systems_programming.Wallet.{BcEntry, add_to_bc_list}
use systems_programming.Wallet.Held.{held, total, InRange, AreCoins}

module _ (coins : List BitCoin) (a : AreCoins coins) (c got : ℕ) (h : c < length coins) where
  -- The list holds `got` more of the coin at `c` and as much of every other.
  pub held-add :
      (es : List BcEntry)
      → InRange (length coins) es
      → total es + got < size_mod
      → (d : ℕ) → held (add_to_bc_list coins es c got) d ≡ held es d + (if c == d then got else 0)
  unfolding held total add_to_bc_list
  held-add [] r small d = ground arith
  held-add (e ∷ es) r small d =
      ground (arith, a.distinct e.this_bc c r.0 h, held-add es r.1 (omega arith) d)

  pub total-add :
      (es : List BcEntry)
      → total es + got < size_mod
      → total (add_to_bc_list coins es c got) ≡ total es + got
  unfolding total add_to_bc_list
  total-add [] small = omega arith
  total-add (e ∷ es) small = ground (arith, total-add es (omega arith))

  pub add-InRange :
      (es : List BcEntry)
      → InRange (length coins) es
      → InRange (length coins) (add_to_bc_list coins es c got)
  unfolding add_to_bc_list
  add-InRange [] r = (h, tt)
  add-InRange (e ∷ es) r = ground (arith, add-InRange es r.1)
