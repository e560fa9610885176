-- ===== src/BitCoin.antt =====
-- SysPro_Project1/src/bitCoin.c: the tree of a coin's transactions. A pointer that may be NULL is
-- a tree that may be `null`; the `parent` pointers are the context of a cursor into the tree.
pub mod Pay
pub mod Walk
pub mod Owned
pub mod Parts
pub mod Transact
pub mod Shares
pub mod Status
pub mod Trace
pub mod Free
mod Tests
use systems_programming.Base.{
  ℕ, zero, suc, ◌+◌, ◌≡◌, Bool, true, false, Option, none, some, ltb, if◌then◌else◌,
}
use systems_programming.Base.Size.{add_size, sub_size}
use systems_programming.Base.CString.{CString, str_eq}

-- `Transaction`: it does not change once it is made.
pub record Transaction : Type 0 where
  pub transaction_id : CString
  pub value : ℕ
  pub date_time : ℕ

-- `TransTree`: the ID of its wallet, the amount, the transaction (NULL at a root), left and right.
pub data TransTree : Type 0 where
  null : TransTree
  node : CString → ℕ → Option Transaction → TransTree → TransTree → TransTree

-- Where a node hangs: the `parent` pointers up to the root, with the parents' other fields.
pub data Context : Type 0 where
  at_root : Context
  in_left : CString → ℕ → Option Transaction → TransTree → Context → Context
  in_right : CString → ℕ → Option Transaction → TransTree → Context → Context

pub record BitCoin : Type 0 where
  pub id : ℕ
  pub num_of_transactions : ℕ
  pub root : TransTree

-- The `parent` argument is where the caller stores the new node.
abbrev pub tree_node_initialization : CString → ℕ → Option Transaction → TransTree
tree_node_initialization wallet amount trans = node wallet amount trans null null

-- The list links `prevBC` and `nextBC` are the order of a list of coins.
unfoldable pub bit_coin_initialization : ℕ → CString → ℕ → BitCoin
bit_coin_initialization id wallet value = record {
  id = id;
  num_of_transactions = 0;
  root = tree_node_initialization wallet value none;
}

-- The whole tree, seen from a node of it.
unfoldable pub plug : TransTree → Context → TransTree
plug n at_root = n
plug n (in_left w a t r up) = plug (node w a t n r) up
plug n (in_right w a t l up) = plug (node w a t l n) up

unfoldable pub size : TransTree → ℕ
size null = 0
size (node w a t l r) = size l + size r + 1

module _ (sender receiver : CString) (trans : Option Transaction) (amount : ℕ) where
  -- A leaf at which the loop stops: the sender's leaf gets a right child for the receiver, and a
  -- left child for what remains.
  unfoldable pub settle : ℕ → CString → ℕ → Option Transaction → TransTree × ℕ
  settle got w a t =
      if str_eq w sender
      then (if ltb a (sub_size amount got)
          then (node w a t null (tree_node_initialization receiver a trans), add_size got a)
          else (
            node w a t
                (if ltb (sub_size amount got) a
                  then tree_node_initialization w (add_size (sub_size a amount) got) trans
                  else null)
                (tree_node_initialization receiver (sub_size amount got) trans),
            add_size got (sub_size amount got),
          ))
      else (node w a t null null, got)

  -- From a searched leaf, up while the node is a right child, then over to the right brother;
  -- `break` at the root. `loop` is the rest of the outer loop.
  unfoldable pub climb :
      (loop : ℕ → TransTree → Context → Option (TransTree × ℕ))
      → ℕ
      → TransTree
      → Context
      → Option (TransTree × ℕ)
  climb loop got n at_root = some (n, got)
  climb loop got n (in_left w a t r up) = loop got r (in_right w a t n up)
  climb loop got n (in_right w a t l up) = climb loop got (node w a t l n) up

  -- One round of the outer loop. `none` is the read of a field through NULL.
  unfoldable pub visit :
      (loop : ℕ → TransTree → Context → Option (TransTree × ℕ))
      → ℕ
      → TransTree
      → Context
      → Option (TransTree × ℕ)
  unfolding settle climb
  visit loop got null up = none
  visit loop got (node w a t (node lw la lt ll lr) r) up =
      loop got (node lw la lt ll lr) (in_left w a t r up)
  visit loop got (node w a t null (node rc ra rt rl rr)) up =
      loop got (node rc ra rt rl rr) (in_right w a t null up)
  visit loop got (node w a t null null) up = climb loop (settle got w a t).1 (settle got w a t).0 up

  -- `while (amountTransferred < amount)`, on fuel.
  unfoldable pub walk : ℕ → ℕ → TransTree → Context → Option (TransTree × ℕ)
  unfolding visit plug
  walk zero got n up = none
  walk (suc fuel) got n up = elim (ltb got amount) [
    | true ↦ visit (walk fuel) got n up
    | false ↦ some (plug n up, got)
  ]

  -- The body of `makeBCTransaction` on the root, and whether it reaches the count at its end.
  unfoldable pub transact : TransTree → Option (TransTree × ℕ × Bool)
  unfolding walk size
  transact null = none
  transact (node w a t l null) = some (
    node w a t (if ltb amount a then tree_node_initialization w (sub_size a amount) trans else l)
        (tree_node_initialization receiver amount trans),
    amount,
    false,
  )
  transact (node w a t null (node rc ra rt rl rr)) =
      elim (walk (size (node rc ra rt rl rr) + 1) 0 (node rc ra rt rl rr)
        (in_right w a t null at_root)) [ none ↦ none | some (root, got) ↦ some (root, got, true) ]
  transact (node w a t (node lw la lt ll lr) (node rc ra rt rl rr)) =
      elim (walk (size (node lw la lt ll lr) + size (node rc ra rt rl rr) + 1) 0
        (node lw la lt ll lr) (in_left w a t (node rc ra rt rl rr) at_root)) [
          | none ↦ none
          | some (root, got) ↦ some (root, got, true)
        ]

-- `makeBCTransaction`: the coin after it, and the amount transferred. The count grows only when
-- the transaction is not the coin's first.
unfoldable pub make_bc_transaction :
    BitCoin → ℕ → CString → CString → Option Transaction → Option (BitCoin × ℕ)
make_bc_transaction bc amount sender receiver trans =
    elim (transact sender receiver trans amount bc.root) [
      | none ↦ none
      | some (root, got, counted) ↦ some (
        record bc {
          num_of_transactions =
              if counted then add_size bc.num_of_transactions 1 else bc.num_of_transactions;
          root = root;
        },
        got,
      )
    ]
