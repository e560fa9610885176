-- ===== src/Server/Tests.antt =====
-- Clients that log on, ask for the list and log off.
use systems_programming.Base.{
  ℕ, ◌%◌, ◌≡◌, refl, ◌++◌, true, false, none, some, List, [], ◌∷◌, map, if◌then◌else◌,
}
use systems_programming.ClientList.{
  ClientTuple, in_client_list, client_list_add, delete_from_client_list,
}
use systems_programming.Server.{
  Server, Connection, Peer, code, number, tuple, int_mod, handle_log_on, handle_log_off,
  handle_get_clients, turn, run, start,
}
use systems_programming.Server.Registry.{
  IsServer, registered, run-IsServer, turn-registered, log_off-log_on, run_cut,
}
use systems_programming.Server.Replies.{handle_get_clients-reply}
use systems_programming.Server.Notify.{Answers}
use systems_programming.Server.Code

abbrev client : ℕ → ClientTuple
client port = record { ip_address = 16777343; port_num = port }

abbrev answering : Peer
answering = record {
  connects = true;
  term_first = false;
  writes_code = true;
  writes_server = true;
  term_answer = false;
  answer = some Code.ok;
  term_last = false;
  writes_tuple = true;
}

abbrev silent : Peer
silent = record answering { answer = none }

abbrev request : ℕ → ClientTuple → Connection
request msg ct = record { msg = some msg; c_tuple = some ct; term = false; writes = λ j. true }

abbrev half_request : Connection
half_request = record { msg = some Code.log_on; c_tuple = none; term = false; writes = λ j. true }

abbrev requests : List Connection
requests =
    request Code.log_on (client 1)
    ∷ request Code.log_on (client 2)
    ∷ request Code.log_on (client 1)
    ∷ request Code.log_off (client 1)
    ∷ []

session :
    (run (client 0) (λ t. answering) start requests).0
    ≡ record { c_list = client 2 ∷ []; clients_logged_on = 1 }
unfolding run in_client_list client_list_add delete_from_client_list
session = refl

start-IsServer : IsServer start
start-IsServer = record { no_repeat = tt; counted = refl }

abbrev one : Server
one = record { c_list = client 2 ∷ []; clients_logged_on = 1 }

one-IsServer : IsServer one
unfolding in_client_list
one-IsServer = record { no_repeat = (refl, tt); counted = refl }

run-IsServer_example : IsServer (run (client 0) (λ t. silent) start requests).0
run-IsServer_example = run-IsServer (client 0) (λ t. silent) requests start start-IsServer

turn-registered_example :
    in_client_list
      (turn (client 0) (λ t. silent) one (request Code.log_off (client 2))).server.c_list
      (client 2)
    ≡ registered (in_client_list (client 2 ∷ [])) Code.log_off (client 2) (client 2)
turn-registered_example =
    turn-registered (client 0) (λ t. silent) one (request Code.log_off (client 2)) Code.log_off
      (client 2) (client 2) one-IsServer refl refl

log_off-log_on_example :
    (handle_log_off
      (client 0)
      (λ t. silent)
      (handle_log_on
        (client 0)
        (λ t. silent)
        one
        (request Code.log_on (client 3))
        (client 3)).server
      (request Code.log_off (client 3))
      (client 3)).server
    ≡ one
unfolding in_client_list
log_off-log_on_example =
    log_off-log_on (client 0) (λ t. silent) one (request Code.log_on (client 3))
      (request Code.log_off (client 3)) (client 3) one-IsServer refl

run_cut_example :
    (run (client 0) (λ t. answering) one (requests ++ half_request ∷ requests)
      ≡ run (client 0) (λ t. answering) one (requests ++ half_request ∷ []))
    × ((run (client 0) (λ t. answering) one (requests ++ half_request ∷ requests)).0
        ≡ (run (client 0) (λ t. answering) one requests).0)
run_cut_example =
    run_cut (client 0) (λ t. answering) one requests half_request requests Code.log_on refl refl

handle_get_clients-reply_example :
    let t =
      handle_get_clients
        (client 0)
        (λ t. silent)
        one
        (request Code.get_clients (client 2))
        (client 2) in
    (t.server ≡ one)
    × (t.reply ≡ (
        if in_client_list (client 2 ∷ []) (client 2)
        then code Code.client_list ∷ number (1 % int_mod) ∷ map tuple (client 2 ∷ [])
        else code Code.ip_port_not_found ∷ []))
handle_get_clients-reply_example =
    handle_get_clients-reply (client 0) (λ t. silent) one (request Code.get_clients (client 2))
      (client 2) one-IsServer (λ j. refl)

answering-Answers : Answers answering
answering-Answers = record {
  connects = refl;
  no_first = refl;
  writes_code = refl;
  writes_server = refl;
  no_answer = refl;
  answer = refl;
  no_last = refl;
  writes_tuple = refl;
}
