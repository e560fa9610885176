-- ===== src/Server/Replies.antt =====
-- The reply to GET_CLIENTS.
use systems_programming.Base.{
  ℕ, suc, ◌%◌, ◌≡◌, refl, ap, Bool, true, List, [], ◌∷◌, map, length, if◌then◌else◌, Bool-cases,
  inl, inr,
}
use systems_programming.ClientList.{ClientTuple, in_client_list}
use systems_programming.Server.{
  Server, Connection, Peer, code, number, tuple, int_mod, reply_one, reply_tuples,
  handle_get_clients,
}
use systems_programming.Server.Registry.{IsServer}
use systems_programming.Server.Code

reply_tuples-all :
    (writes : ℕ → Bool) (i : ℕ) (ts : List ClientTuple)
    → ((j : ℕ) → writes j ≡ true)
    → reply_tuples writes i ts ≡ map tuple ts
unfolding reply_tuples
reply_tuples-all writes i [] w = refl
reply_tuples-all writes i (t ∷ []) w = rw (w i)
reply_tuples-all writes i (t ∷ u ∷ ts) w =
    rw (w i) (ap (λ ps. tuple t ∷ ps) (reply_tuples-all writes (suc i) (u ∷ ts) w))

module _ (server_tuple : ClientTuple) (net : ClientTuple → Peer) where
  -- A registered client whose socket takes every write is sent the code, the number of the
  -- registered clients (modulo 2^32), and the tuple of each of them in order; any other client is
  -- sent one code. The registry stays as it is in both cases.
  pub handle_get_clients-reply :
      (s : Server) (c : Connection) (ct : ClientTuple)
      → IsServer s
      → ((j : ℕ) → c.writes j ≡ true)
      → let t = handle_get_clients server_tuple net s c ct in
        (t.server ≡ s)
        × (t.reply ≡ (
            if in_client_list s.c_list ct
            then code Code.client_list ∷ number (length s.c_list % int_mod) ∷ map tuple s.c_list
            else code Code.ip_port_not_found ∷ []))
  unfolding handle_get_clients reply_one
  handle_get_clients-reply s c ct v w = elim (Bool-cases (in_client_list s.c_list ct)) [
    | inl h ↦ (refl, rw (h, w 0, w 1, v.counted, reply_tuples-all c.writes 2 s.c_list w))
    | inr h ↦ (refl, rw (h, w 0))
  ]
