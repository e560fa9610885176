-- ===== src/Server/Notify.antt =====
-- Whom the notifications reach.
use systems_programming.Base.{
  ℕ, suc, ◌≢◌, take, ◌≡◌, refl, ◌∙◌, ap, true, false, some, List, [], ◌∷◌, map, arith,
}
use systems_programming.ClientList.{ClientTuple, client_list_add}
use systems_programming.Server.{
  Peer, Piece, code, tuple, Next, go_on, stop, term, Notified, nobody, notify_one, notify_then,
  notify_clients_user_on, notify_clients_user_off,
}
use systems_programming.Server.Code

-- A client that answers: every call on its socket succeeds, and SIGINT does not come.
pub record Answers (p : Peer) : Type 0 where
  pub connects : p.connects ≡ true
  pub no_first : p.term_first ≡ false
  pub writes_code : p.writes_code ≡ true
  pub writes_server : p.writes_server ≡ true
  pub no_answer : p.term_answer ≡ false
  pub answer : p.answer ≡ some Code.ok
  pub no_last : p.term_last ≡ false
  pub writes_tuple : p.writes_tuple ≡ true

abbrev pub recipients : Notified → List ClientTuple
recipients n = map (λ p. p.0) n.sent

module _ (server : ClientTuple) (net : ClientTuple → Peer) where
  -- The full notification of one client.
  abbrev pub full : ℕ → ClientTuple → ClientTuple → ClientTuple × List Piece
  full msg ct t = (t, code msg ∷ tuple server ∷ tuple ct ∷ [])

  notify_one-full :
      (msg : ℕ) (ct t : ClientTuple)
      → Answers (net t)
      → notify_one server msg ct (net t) ≡ (code msg ∷ tuple server ∷ tuple ct ∷ [], go_on)
  unfolding notify_one
  notify_one-full msg ct t a = rw (
    a.connects, a.no_first, a.writes_code, a.writes_server, a.no_answer, a.answer, a.no_last,
    a.writes_tuple,
  )

  user_on-cons :
      (t u : ClientTuple) (us : List ClientTuple) (ct : ClientTuple)
      → notify_clients_user_on server net (t ∷ u ∷ us) ct
        ≡ notify_then t
            (notify_one server Code.user_on ct (net t))
            (notify_clients_user_on server net (u ∷ us) ct)
  unfolding notify_clients_user_on
  user_on-cons t u us ct = refl

  -- When a client has logged on and all clients answer, every client that was registered before
  -- is sent the full notification, in the order of the list, and the new one is sent none.
  pub user_on-full :
      (ts : List ClientTuple) (ct : ClientTuple)
      → ((t : ClientTuple) → Answers (net t))
      → notify_clients_user_on server net (client_list_add ts ct) ct
        ≡ record { sent = map (full Code.user_on ct) ts; terminated = false }
  unfolding client_list_add
  user_on-full [] ct a = unfold notify_clients_user_on in refl
  user_on-full (t ∷ []) ct a =
      unfold notify_clients_user_on notify_then in rw (notify_one-full Code.user_on ct t (a t))
  user_on-full (t ∷ u ∷ ts) ct a =
      user_on-cons t u (client_list_add ts ct) ct
      ∙ rw (notify_one-full Code.user_on ct t (a t), user_on-full (u ∷ ts) ct a)
          (unfold notify_then in refl)

  -- When a client has logged off and all the others answer, each of them is sent the full
  -- notification, in the order of the list.
  pub user_off-full :
      (ts : List ClientTuple) (ct : ClientTuple)
      → ((t : ClientTuple) → Answers (net t))
      → notify_clients_user_off server net ts ct
        ≡ record { sent = map (full Code.user_off ct) ts; terminated = false }
  unfolding notify_clients_user_off notify_then
  user_off-full [] ct a = refl
  user_off-full (t ∷ []) ct a = rw (notify_one-full Code.user_off ct t (a t))
  user_off-full (t ∷ u ∷ ts) ct a =
      rw (notify_one-full Code.user_off ct t (a t), user_off-full (u ∷ ts) ct a)

  -- A round that returns cuts the list off behind its client; any other goes on.
  recipients_then :
      (t : ClientTuple) (ts : List ClientTuple) (r : List Piece × Next) (rest : Notified)
      → (n : ℕ) × (recipients rest ≡ take n ts)
      → (n : ℕ) × (recipients (notify_then t r rest) ≡ take n (t ∷ ts))
  unfolding notify_then
  recipients_then t ts (ps, go_on) rest (n, e) = (suc n, ap (λ us. t ∷ us) e)
  recipients_then t ts (ps, stop) rest (n, e) = (1, refl)
  recipients_then t ts (ps, term) rest (n, e) = (1, refl)

  -- However the clients and SIGINT behave, the clients to which a socket is opened when one logs
  -- on are the first so many of those registered before, each once and in order; the new one is
  -- not among them.
  pub recipients-user_on :
      (ts : List ClientTuple) (ct : ClientTuple)
      → (n : ℕ) × (recipients (notify_clients_user_on server net (client_list_add ts ct) ct)
          ≡ take n ts)
  unfolding client_list_add
  recipients-user_on [] ct = (0, unfold notify_clients_user_on in refl)
  recipients-user_on (t ∷ []) ct =
      unfold notify_clients_user_on in
      recipients_then t [] (notify_one server Code.user_on ct (net t)) nobody (0, refl)
  recipients-user_on (t ∷ u ∷ ts) ct = rw (user_on-cons t u (client_list_add ts ct) ct) (
      recipients_then t (u ∷ ts) (notify_one server Code.user_on ct (net t)) _
        (recipients-user_on (u ∷ ts) ct))

  -- A client whose answer cannot be read, or is not OK, ends the round of notifications: no client
  -- behind it in the list hears of the new one.
  pub user_on_cut :
      (t u : ClientTuple) (ts : List ClientTuple) (ct : ClientTuple)
      → (net t).term_first ≡ false
      → (net t).term_answer ≡ false
      → (net t).connects ≡ true
      → (net t).writes_code ≡ true
      → (net t).writes_server ≡ true
      → (net t).answer ≢ some Code.ok
      → recipients (notify_clients_user_on server net (t ∷ u ∷ ts) ct) ≡ t ∷ []
  unfolding notify_clients_user_on notify_one notify_then
  user_on_cut t u ts ct f a c w s bad = ground arith
