-- ===== src/Server.antt =====
-- SysPro_Project3/src/dropbox_server.c with the codes of messages.h: the registry of clients. The
-- sockets are the environment: what each `connect`, `poll`, `read` and `write` does is an input,
-- and what is written to a socket is the output.
pub mod Code
pub mod Notify
pub mod Registry
pub mod Replies
mod Tests
use systems_programming.Base.{
  ℕ, zero, suc, ◌+◌, ◌-◌, ◌%◌, ◌^◌, Bool, true, false, Option, none, some, List, [], ◌∷◌, ◌++◌,
  ◌==◌, if◌then◌else◌, not, ◌||◌,
}
use Code
use systems_programming.ClientList.{
  ClientTuple, in_client_list, client_list_add, delete_from_client_list,
}

-- One successful `write`.
pub data Piece : Type 0 where
  code : ℕ → Piece
  number : ℕ → Piece
  tuple : ClientTuple → Piece

-- What a loop does next; `term` is a stop because of SIGINT.
pub data Next : Type 0 where
  go_on stop term : Next

-- How a client that is notified behaves: whether each call on its socket succeeds, whether SIGINT
-- arrives in one of the three waits, and the answer that is read.
pub record Peer : Type 0 where
  pub connects : Bool
  pub term_first : Bool
  pub writes_code : Bool
  pub writes_server : Bool
  pub term_answer : Bool
  pub answer : Option ℕ
  pub term_last : Bool
  pub writes_tuple : Bool

-- One round of `notify_clients_USER_ON` and of `notify_clients_USER_OFF`: the pieces written, and
-- whether the loop continues or the function returns.
unfoldable pub notify_one : ClientTuple → ℕ → ClientTuple → Peer → List Piece × Next
notify_one server msg ct p =
    if not p.connects
    then ([], go_on)
    else if p.term_first
    then ([], term)
    else if not p.writes_code
    then ([], go_on)
    else if not p.writes_server
    then (code msg ∷ [], go_on)
    else if p.term_answer
    then (code msg ∷ tuple server ∷ [], term)
    else elim p.answer [
      | none ↦ (code msg ∷ tuple server ∷ [], stop)
      | some a ↦
          if not (a == Code.ok)
          then (code msg ∷ tuple server ∷ [], stop)
          else if p.term_last
          then (code msg ∷ tuple server ∷ [], term)
          else if not p.writes_tuple
          then (code msg ∷ tuple server ∷ [], go_on)
          else (code msg ∷ tuple server ∷ tuple ct ∷ [], go_on)
    ]

-- What each notified client is sent, and whether SIGINT came meanwhile.
pub record Notified : Type 0 where
  pub sent : List (ClientTuple × List Piece)
  pub terminated : Bool

-- The round for one client in front of the rounds for the others.
unfoldable pub notify_then : ClientTuple → List Piece × Next → Notified → Notified
notify_then t (pieces, next) rest = elim next [
  | go_on ↦ record { sent = (t, pieces) ∷ rest.sent; terminated = rest.terminated }
  | stop ↦ record { sent = (t, pieces) ∷ []; terminated = false }
  | term ↦ record { sent = (t, pieces) ∷ []; terminated = true }
]

abbrev pub nobody : Notified
nobody = record { sent = []; terminated = false }

module _ (server : ClientTuple) (net : ClientTuple → Peer) where
  -- All but the last node, which is the client that the others hear of.
  unfoldable pub notify_clients_user_on : List ClientTuple → ClientTuple → Notified
  unfolding notify_one notify_then
  notify_clients_user_on [] ct = nobody
  notify_clients_user_on (t ∷ []) ct = nobody
  notify_clients_user_on (t ∷ u ∷ ts) ct =
      notify_then t (notify_one server Code.user_on ct (net t)) (notify_clients_user_on (u ∷ ts) ct)

  -- All nodes.
  unfoldable pub notify_clients_user_off : List ClientTuple → ClientTuple → Notified
  unfolding notify_one notify_then
  notify_clients_user_off [] ct = nobody
  notify_clients_user_off (t ∷ []) ct =
      notify_then t (notify_one server Code.user_off ct (net t)) nobody
  notify_clients_user_off (t ∷ u ∷ ts) ct =
      notify_then t (notify_one server Code.user_off ct (net t))
        (notify_clients_user_off (u ∷ ts) ct)

-- The variables of `main` that outlive a connection; `clients_logged_on` is a 32-bit `int`.
pub record Server : Type 0 where
  pub c_list : List ClientTuple
  pub clients_logged_on : ℕ

abbrev pub int_mod : ℕ
int_mod = 2 ^ 32

-- A connection: what the two reads give (`none` where a read fails), whether SIGINT arrives before
-- the reply, and which writes of the reply succeed.
pub record Connection : Type 0 where
  pub msg : Option ℕ
  pub c_tuple : Option ClientTuple
  pub term : Bool
  pub writes : ℕ → Bool

-- What one turn of the loop does: the state, the reply, the notifications, and whether `main` goes
-- on to the next connection.
pub record Turn : Type 0 where
  pub server : Server
  pub reply : List Piece
  pub sent : List (ClientTuple × List Piece)
  pub next : Next

-- A reply of one piece.
unfoldable pub reply_one : Connection → Piece → List Piece
reply_one c p = if c.writes 0 then p ∷ [] else []

-- The tuples of the reply to GET_CLIENTS. A failed write leaves the loop, and the node at which it
-- failed is written once more.
unfoldable pub reply_tuples : (ℕ → Bool) → ℕ → List ClientTuple → List Piece
reply_tuples writes i [] = []
reply_tuples writes i (t ∷ []) = if writes i then tuple t ∷ [] else []
reply_tuples writes i (t ∷ u ∷ ts) =
    let rest = reply_tuples writes (suc i) (u ∷ ts) in
    if writes i then tuple t ∷ rest else if writes (suc i) then tuple t ∷ [] else []

module _ (server_tuple : ClientTuple) (net : ClientTuple → Peer) where
  unfoldable pub handle_log_on : Server → Connection → ClientTuple → Turn
  unfolding notify_clients_user_on reply_one
  handle_log_on s c ct =
      if not (in_client_list s.c_list ct)
      then (let list = client_list_add s.c_list ct in
          let told = notify_clients_user_on server_tuple net list ct in
          let ends = told.terminated || c.term in
          record {
            server = record {
              c_list = list;
              clients_logged_on = (s.clients_logged_on + 1) % int_mod;
            };
            reply = if ends then [] else reply_one c (tuple server_tuple);
            sent = told.sent;
            next = if ends then stop else go_on;
          })
      else record { server = s; reply = []; sent = []; next = go_on }

  unfoldable pub handle_get_clients : Server → Connection → ClientTuple → Turn
  unfolding reply_one reply_tuples
  handle_get_clients s c ct = record {
    server = s;
    reply =
        if not (in_client_list s.c_list ct)
        then reply_one c (code Code.ip_port_not_found)
        else if not (c.writes 0)
        then []
        else if not (c.writes 1)
        then code Code.client_list ∷ []
        else code Code.client_list ∷ number s.clients_logged_on ∷ reply_tuples c.writes 2 s.c_list;
    sent = [];
    next = go_on;
  }

  unfoldable pub handle_log_off : Server → Connection → ClientTuple → Turn
  unfolding notify_clients_user_off reply_one
  handle_log_off s c ct =
      if not (in_client_list s.c_list ct)
      then record {
        server = s;
        reply = reply_one c (code Code.ip_port_not_found);
        sent = [];
        next = go_on;
      }
      else (let list = delete_from_client_list s.c_list ct in
          let told = notify_clients_user_off server_tuple net list ct in
          record {
            server = record {
              c_list = list;
              clients_logged_on = (s.clients_logged_on + int_mod - 1) % int_mod;
            };
            reply = reply_one c (code Code.succ_log_off);
            sent = told.sent;
            next = if told.terminated then stop else go_on;
          })

  -- The `switch` on the message.
  unfoldable pub dispatch : Server → Connection → ℕ → ClientTuple → Turn
  unfolding handle_log_on handle_get_clients handle_log_off
  dispatch s c msg ct =
      if msg == Code.log_on
      then handle_log_on s c ct
      else if msg == Code.get_clients
      then handle_get_clients s c ct
      else if msg == Code.log_off
      then handle_log_off s c ct
      else record { server = s; reply = []; sent = []; next = go_on }

  -- One turn of the loop in `main`: `continue` if no message is read, `break` if no tuple is.
  unfoldable pub turn : Server → Connection → Turn
  unfolding dispatch
  turn s c = elim c.msg [
    | none ↦ record { server = s; reply = []; sent = []; next = go_on }
    | some msg ↦ elim c.c_tuple [
      | none ↦ record { server = s; reply = []; sent = []; next = stop }
      | some ct ↦ dispatch s c msg ct
    ]
  ]

  -- The loop over the connections that are accepted, up to the one at which it ends.
  unfoldable pub run : Server → List Connection → Server × List Turn
  unfolding turn
  run s [] = (s, [])
  run s (c ∷ cs) =
      let t = turn s c in
      let rest = run t.server cs in
      elim t.next [ go_on ↦ (rest.0, t ∷ rest.1) | _ ↦ (t.server, t ∷ []) ]

abbrev pub start : Server
start = record { c_list = []; clients_logged_on = 0 }
