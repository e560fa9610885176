-- ===== src/BitCoin/Owned.antt =====
-- What each wallet owns of a coin, and how `makeBCTransaction` moves it.
pub mod Settle
pub mod Flow
pub mod Transfer
use systems_programming.Base.{ℕ, ◌+◌, ◌<◌, ◌≡◌, if◌then◌else◌}
use systems_programming.Base.Size.{size_mod}
use systems_programming.Base.CString.{CString, str_eq}
use systems_programming.BitCoin.{TransTree, null, node}

-- What a wallet owns of a coin: the amounts of its leaves.
unfoldable pub owned : CString → TransTree → ℕ
owned v null = 0
owned v (node w a t null null) = if str_eq w v then a else 0
owned v (node w a t l r) = owned v l + owned v r

-- The amount of a node is shared out among its children, the left one of which is of the same
-- wallet, and there is no left child without a right one.
abbrev pub IsBalanced : TransTree → Type 0
IsBalanced null = Unit
IsBalanced (node w a t null null) = Unit
IsBalanced (node w a t null (node wr b tr lr rr)) = (a ≡ b) × IsBalanced (node wr b tr lr rr)
IsBalanced (node w a t (node wl c tl ll rl) null) = ⊥
IsBalanced (node w a t (node wl c tl ll rl) (node wr b tr lr rr)) =
    (a ≡ c + b) × (wl ≡ w) × IsBalanced (node wl c tl ll rl) × IsBalanced (node wr b tr lr rr)

abbrev pub amount_of : TransTree → ℕ
amount_of null = 0
amount_of (node w a t l r) = a

-- A balanced coin whose value is a `size_t`.
pub record IsCoin (root : TransTree) : Type 0 where
  pub balanced : IsBalanced root
  pub small : amount_of root < size_mod
