-- ===== src/Client/Registry.antt =====
-- The client's list and the server's: what the server sends keeps them together.
use systems_programming.Base.{
  ℕ, ◌<◌, ◌^◌, ◌%◌, ◌≡◌, refl, sym, ap, true, false, some, List, [], ◌∷◌, ◌++◌, map, if◌then◌else◌,
  length, arith, inl, inr, Bool-cases, lt→ltb,
}
use mathlib.Core.List.{append_assoc, append-nil}
use systems_programming.ClientList.{
  ClientTuple, same_client, in_client_list, client_list_add, delete_from_client_list,
}
use systems_programming.ClientList.Laws.{delete-cons}
use systems_programming.Server.{
  code, tuple, Peer, Server, Connection, notify_one, handle_get_clients, int_mod,
}
use systems_programming.Server.Code
use systems_programming.Server.Registry.{IsServer}
use systems_programming.Server.Replies.{handle_get_clients-reply}
use systems_programming.Client.Dialog.{
  told_on, told_off, from_server, switch, connection, note, receive_clients, start,
}

-- The clients but one: what a client should know when these are registered.
abbrev pub others : ClientTuple → List ClientTuple → List ClientTuple
others this [] = []
others this (t ∷ ts) = let rest = others this ts in if same_client t this then rest else t ∷ rest

others-add :
    (this t : ClientTuple) (ts : List ClientTuple)
    → same_client t this ≡ false
    → others this (client_list_add ts t) ≡ client_list_add (others this ts) t
unfolding client_list_add
others-add this t [] h = rw h refl
others-add this t (u ∷ ts) h = elim (Bool-cases (same_client u this)) [
  | inl e ↦ rw e (others-add this t ts h)
  | inr e ↦ rw (e, others-add this t ts h) refl
]

others-delete :
    (this t : ClientTuple) (ts : List ClientTuple)
    → same_client t this ≡ false
    → others this (delete_from_client_list ts t) ≡ delete_from_client_list (others this ts) t
others-delete this t [] h = unfold delete_from_client_list in refl
others-delete this t (u ∷ ts) h = elim (Bool-cases (same_client u this)) [
  | inl e ↦
      let other : same_client u t ≡ false = ground arith in
      rw (delete-cons u t ts, other, e) (others-delete this t ts h)
  | inr e ↦ elim (Bool-cases (same_client u t)) [
    | inl f ↦ rw (delete-cons u t ts, f, e, delete-cons u t (others this ts), f) refl
    | inr f ↦
        rw
          (delete-cons u t ts, f, e, delete-cons u t (others this ts), f, others-delete this t ts h)
          refl
  ]
]

add-append : (ts : List ClientTuple) (t : ClientTuple) → client_list_add ts t ≡ ts ++ t ∷ []
unfolding client_list_add
add-append [] t = refl
add-append (u ∷ ts) t = ap (λ us. u ∷ us) (add-append ts t)

receive_clients-others :
    (this : ClientTuple) (ts sofar : List ClientTuple)
    → receive_clients this (length ts) (map tuple ts) sofar ≡ some (sofar ++ others this ts)
unfolding receive_clients
receive_clients-others this [] sofar = ap some (sym (append-nil sofar))
receive_clients-others this (t ∷ ts) sofar = elim (Bool-cases (same_client t this)) [
  | inl e ↦ rw e (receive_clients-others this ts sofar)
  | inr e ↦
      rw (e, receive_clients-others this ts (client_list_add sofar t), add-append sofar t)
        (ap some (append_assoc sofar (t ∷ []) (others this ts)))
]

module _ (server_tuple : ClientTuple) (net : ClientTuple → Peer) where
  -- A registered client that asks for the clients, over a connection on which every write
  -- succeeds, starts with a list of all registered clients but itself, in the server's order, if
  -- there are fewer than 2^31 of them.
  pub start-handle_get_clients :
      (s : Server) (c : Connection) (this : ClientTuple)
      → IsServer s
      → ((j : ℕ) → c.writes j ≡ true)
      → in_client_list s.c_list this ≡ true
      → length s.c_list < 2 ^ 31
      → start this (handle_get_clients server_tuple net s c this).reply
        ≡ some (others this s.c_list)
  unfolding start
  start-handle_get_clients s c this v w h few =
      let small : length s.c_list % int_mod ≡ length s.c_list = omega arith in
      rw
        (
          (handle_get_clients-reply server_tuple net s c this v w).1,
          h,
          small,
          lt→ltb (length s.c_list) (2 ^ 31) few,
        )
        (receive_clients-others this s.c_list [])

-- A client that takes every call of the server and answers as main does.
abbrev pub good_peer : Peer
good_peer = record {
  connects = true;
  term_first = false;
  writes_code = true;
  writes_server = true;
  term_answer = false;
  answer = some Code.ok;
  term_last = false;
  writes_tuple = true;
}

-- The server's whole message is understood by main, which answers OK.
understood :
    (server : ClientTuple) (list : List ClientTuple) (t : ClientTuple)
    → (connection server list true (notify_one server Code.user_on t good_peer).0
        ≡ (code Code.ok ∷ [], told_on t))
      × (connection server list true (notify_one server Code.user_off t good_peer).0
          ≡ (code Code.ok ∷ [], told_off t))
unfolding connection switch from_server notify_one
understood server list t =
    let same : same_client server server ≡ true = ground arith in (rw same refl, rw same refl)

-- A client whose list is that of the server without itself, and that takes all calls, has the same
-- after another client has logged on and after another client has logged off, when the server has
-- changed its own list and has told the client.
pub note-notify_one :
    (server this t : ClientTuple) (registered list : List ClientTuple)
    → list ≡ others this registered
    → same_client t this ≡ false
    → (note list (connection server list true (notify_one server Code.user_on t good_peer).0).1
        ≡ others this (client_list_add registered t))
      × (note list (connection server list true (notify_one server Code.user_off t good_peer).0).1
          ≡ others this (delete_from_client_list registered t))
unfolding note
note-notify_one server this t registered list e h = (
  rw ((understood server list t).0, e) (sym (others-add this t registered h)),
  rw ((understood server list t).1, e) (sym (others-delete this t registered h)),
)
