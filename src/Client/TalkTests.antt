-- ===== src/Client/TalkTests.antt =====
-- Dialogs of a client with its server and with another client.
use systems_programming.Base.{
  ℕ, zero, suc, ◌≡◌, refl, true, false, none, some, List, [], ◌∷◌, arith, inl,
}
use systems_programming.Base.CString.{strcmp}
use systems_programming.ClientList.{
  ClientTuple, in_client_list, client_list_add, delete_from_client_list,
}
use systems_programming.Server.{code, tuple, Server, Connection, notify_one, handle_get_clients}
use systems_programming.Server.Registry.{IsServer}
use systems_programming.Server.Code
use systems_programming.Client.Dialog.{connection, note, start}
use systems_programming.Client.Registry.{
  others, good_peer, start-handle_get_clients, note-notify_one,
}
use systems_programming.Client.Guard.{IsAllowed, connection-IsAllowed}
use systems_programming.Client.Transfer.{Calls, overwrite, local_version, get_file, receive_data}
use systems_programming.Client.Exchange.{get_file_lem, receive_data_spins}

abbrev at_port : ℕ → ClientTuple
at_port p = record { ip_address = 16777343; port_num = p }

abbrev asking : Connection
asking = record {
  term = false;
  msg = some Code.get_clients;
  c_tuple = some (at_port 2);
  writes = λ j. true;
}

abbrev three : Server
three = record { c_list = at_port 1 ∷ at_port 2 ∷ at_port 3 ∷ []; clients_logged_on = 3 }

three-IsServer : IsServer three
unfolding in_client_list
three-IsServer = record { no_repeat = (refl, (refl, (refl, tt))); counted = refl }

start-handle_get_clients_example :
    start
      (at_port 2)
      (handle_get_clients (at_port 9) (λ t. good_peer) three asking (at_port 2)).reply
    ≡ some (at_port 1 ∷ at_port 3 ∷ [])
unfolding in_client_list
start-handle_get_clients_example =
    start-handle_get_clients (at_port 9) (λ t. good_peer) three asking (at_port 2) three-IsServer
      (λ j. refl) refl (omega arith)

note-notify_one_example :
    (note
        (at_port 1 ∷ [])
        (connection
          (at_port 9)
          (at_port 1 ∷ [])
          true
          (notify_one (at_port 9) Code.user_on (at_port 3) good_peer).0).1
      ≡ others (at_port 2) (client_list_add (at_port 1 ∷ at_port 2 ∷ []) (at_port 3)))
    × (note
          (at_port 1 ∷ [])
          (connection
            (at_port 9)
            (at_port 1 ∷ [])
            true
            (notify_one (at_port 9) Code.user_off (at_port 3) good_peer).0).1
        ≡ others (at_port 2) (delete_from_client_list (at_port 1 ∷ at_port 2 ∷ []) (at_port 3)))
note-notify_one_example =
    note-notify_one (at_port 9) (at_port 2) (at_port 3) (at_port 1 ∷ at_port 2 ∷ [])
      (at_port 1 ∷ []) refl refl

connection-IsAllowed_example :
    IsAllowed
      (at_port 9)
      (at_port 1 ∷ [])
      (at_port 1)
      (connection (at_port 9) (at_port 1 ∷ []) true (code Code.get_file ∷ tuple (at_port 1) ∷ [])).1
connection-IsAllowed_example =
    connection-IsAllowed (at_port 9) (at_port 1 ∷ []) true Code.get_file (at_port 1) []

abbrev zeros : ℕ → List ℕ
zeros zero = []
zeros (suc n) = 0 ∷ zeros n

abbrev buffer : List ℕ
buffer = zeros 129

-- A file is its own digest.
abbrev calm : Calls
calm = record {
  digest = λ bytes. bytes;
  open_file = λ path. some (1 ∷ 2 ∷ []);
  sends = λ sent. true;
  how_many = λ n socket. some n;
  storage = buffer;
}

-- A shorter file over a longer one keeps the end of the longer one.
get_file_lem_example :
    get_file calm 5 (110 ∷ []) (some (3 ∷ 4 ∷ 5 ∷ [])) ≡ some (some (1 ∷ 2 ∷ 5 ∷ []))
unfolding overwrite local_version strcmp
get_file_lem_example =
    get_file_lem calm (record { writes = λ sent. refl; reads = λ n socket h. refl; room = refl }) 5
      (110 ∷ []) (some (3 ∷ 4 ∷ 5 ∷ [])) (λ bytes e. ground arith)

abbrev closed : Calls
closed = record calm { how_many = λ n socket. none }

receive_data_spins_example : receive_data closed 1000 buffer 200 [] [] ≡ none
receive_data_spins_example =
    receive_data_spins closed 1000 buffer 200 [] [] (omega arith) (inl refl)
