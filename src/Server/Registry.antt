-- ===== src/Server/Registry.antt =====
-- The registry: which clients are logged on, and their number.
use systems_programming.Base.{
  ℕ, ◌%◌, ◌≡◌, refl, sym, ap, ◌∙◌, ◌++◌, Bool, true, false, Option, none, some, List, [], ◌∷◌, ◌&&◌,
  ◌||◌, not, arith, ◌==◌, if◌then◌else◌, length,
}
use systems_programming.ClientList.{ClientTuple, same_client, in_client_list}
use systems_programming.ClientList.Laws.{
  NoRepeat, in_client_list-add, add-NoRepeat, length-add, in_client_list-delete, delete-NoRepeat,
  length-delete, delete-add,
}
use systems_programming.Server.{
  stop, Server, Connection, Peer, int_mod, handle_log_on, handle_get_clients, handle_log_off,
  dispatch, turn, run,
}
use systems_programming.Server.Code

-- No client is registered twice, and the counter is the number of clients (modulo 2^32).
pub record IsServer (s : Server) : Type 0 where
  pub no_repeat : NoRepeat s.c_list
  pub counted : s.clients_logged_on ≡ length s.c_list % int_mod

-- The clients that should be registered after a message: a set that grows and shrinks.
unfoldable pub registered : (ClientTuple → Bool) → ℕ → ClientTuple → ClientTuple → Bool
registered before msg ct other =
    if msg == Code.log_on
    then before other || same_client other ct
    else if msg == Code.log_off
    then before other && not (same_client other ct)
    else before other

in_of_same :
    (ts : List ClientTuple) (a b : ClientTuple)
    → same_client a b ≡ true
    → in_client_list ts a ≡ in_client_list ts b
in_of_same ts a b h = ap (in_client_list ts) (ground arith)

module _ (server_tuple : ClientTuple) (net : ClientTuple → Peer) where
  dispatch-IsServer :
      (s : Server) (c : Connection) (msg : ℕ) (ct : ClientTuple)
      → IsServer s
      → IsServer (dispatch server_tuple net s c msg ct).server
  unfolding dispatch handle_log_on handle_get_clients handle_log_off
  dispatch-IsServer s c msg ct v = ground (
    arith,
    add-NoRepeat s.c_list ct,
    delete-NoRepeat s.c_list ct,
    length-add s.c_list ct,
    length-delete s.c_list ct,
  )

  turn-IsServer :
      (s : Server) (c : Connection) → IsServer s → IsServer (turn server_tuple net s c).server
  unfolding turn
  turn-IsServer s c v = by_reads c.msg c.c_tuple
    where
      by_reads :
          (m : Option ℕ) (t : Option ClientTuple)
          → IsServer (turn server_tuple net s (record c { msg = m; c_tuple = t })).server
      by_reads none t = v
      by_reads (some m) none = v
      by_reads (some m) (some ct) =
          dispatch-IsServer s (record c { msg = some m; c_tuple = some ct }) m ct v

  -- Whatever connections arrive, however they fail, and whenever SIGINT comes, no client is ever
  -- registered twice and the counter is the length of the list modulo 2^32.
  pub run-IsServer :
      (cs : List Connection) (s : Server) → IsServer s → IsServer (run server_tuple net s cs).0
  unfolding run
  run-IsServer [] s v = v
  run-IsServer (c ∷ cs) s v =
      ground (arith, turn-IsServer s c v, run-IsServer cs (turn server_tuple net s c).server)

  -- A message whose reads succeed changes the registered clients as a set would: LOG_ON adds the
  -- client, LOG_OFF removes it, and any other message changes nothing.
  pub turn-registered :
      (s : Server) (c : Connection) (msg : ℕ) (ct other : ClientTuple)
      → IsServer s
      → c.msg ≡ some msg
      → c.c_tuple ≡ some ct
      → in_client_list (turn server_tuple net s c).server.c_list other
        ≡ registered (in_client_list s.c_list) msg ct other
  unfolding turn dispatch handle_log_on handle_get_clients handle_log_off registered
  turn-registered s c msg ct other v em et =
      rw (em, et)
        (ground (
          arith,
          in_client_list-add s.c_list ct other,
          in_client_list-delete s.c_list ct other v.no_repeat,
          in_of_same s.c_list other ct,
        ))

  -- A client that was not registered logs on and off again: list and counter are as before,
  -- whatever happens on the sockets.
  pub log_off-log_on :
      (s : Server) (c d : Connection) (ct : ClientTuple)
      → IsServer s
      → in_client_list s.c_list ct ≡ false
      → (handle_log_off server_tuple net (handle_log_on server_tuple net s c ct).server d ct).server
        ≡ s
  unfolding handle_log_on handle_log_off
  log_off-log_on s c d ct v absent =
      ground (arith, in_client_list-add s.c_list ct ct, delete-add s.c_list ct)

  cut_turn :
      (s : Server) (c : Connection) (cs : List Connection) (msg : ℕ)
      → c.msg ≡ some msg
      → c.c_tuple ≡ none
      → run server_tuple net s (c ∷ cs)
        ≡ (s, record { server = s; reply = []; sent = []; next = stop } ∷ [])
  unfolding run turn
  cut_turn s c cs msg em et = rw (em, et) refl

  -- A connection that sends a message and no tuple ends the server, wherever it comes: none of the
  -- connections behind it is answered, and the registry is at the end what the connections in front
  -- of it have made of it.
  pub run_cut :
      (s : Server) (before : List Connection) (c : Connection) (cs : List Connection) (msg : ℕ)
      → c.msg ≡ some msg
      → c.c_tuple ≡ none
      → (run server_tuple net s (before ++ c ∷ cs) ≡ run server_tuple net s (before ++ c ∷ []))
        × ((run server_tuple net s (before ++ c ∷ cs)).0 ≡ (run server_tuple net s before).0)
  unfolding run
  run_cut s [] c cs msg em et = (
    cut_turn s c cs msg em et ∙ sym (cut_turn s c [] msg em et),
    ap (λ r. r.0) (cut_turn s c cs msg em et),
  )
  run_cut s (b ∷ before) c cs msg em et =
      let (same, registry) = run_cut (turn server_tuple net s b).server before c cs msg em et in
      (ground (arith, same), ground (arith, registry))
