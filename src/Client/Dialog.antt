-- ===== src/Client/Dialog.antt =====
-- SysPro_Project3/src/dropbox_client.c: what main does with one connection, and the list of clients
-- that it is sent at the start. What the other side writes is a list of pieces; a read that finds
-- no piece of its kind fails.
use systems_programming.Base.{
  ℕ, zero, suc, ◌^◌, Bool, Option, none, some, List, [], ◌∷◌, not, ltb, ◌==◌, if◌then◌else◌,
}
use systems_programming.ClientList.{
  ClientTuple, same_client, in_client_list, client_list_add, delete_from_client_list,
}
use systems_programming.Server.{Piece, code, number, tuple}
use systems_programming.Server.Code

-- What follows the first answer: nothing, the list of files or a file is sent, or the client is
-- told of another one that logged on or off.
pub data Event : Type 0 where
  nothing sends_file_list sends_file : Event
  told_on told_off : ClientTuple → Event

-- `writes`: the first write to the other side succeeds.
abbrev pub answer : Bool → ℕ → Event → List Piece × Event
answer writes c event = if writes then (code c ∷ [], event) else ([], nothing)

-- GET_FILE_LIST and GET_FILE: the sender must be in the list.
unfoldable pub from_client : List ClientTuple → Bool → ClientTuple → Event → List Piece × Event
from_client list writes sender event =
    if not (in_client_list list sender)
    then answer writes Code.ip_port_not_found nothing
    else answer writes Code.ok event

-- USER_ON and USER_OFF: the sender must be the server, and its second tuple is the client.
unfoldable pub from_server :
    ClientTuple → Bool → ClientTuple → List Piece → (ClientTuple → Event) → List Piece × Event
from_server server writes sender (tuple t ∷ rest) event =
    if not (same_client server sender)
    then answer writes Code.ip_port_not_found nothing
    else answer writes Code.ok (event t)
from_server server writes sender _ event =
    if not (same_client server sender)
    then answer writes Code.ip_port_not_found nothing
    else answer writes Code.ok nothing

-- The switch on the message.
unfoldable pub switch :
    ClientTuple → List ClientTuple → Bool → ℕ → ClientTuple → List Piece → List Piece × Event
switch server list writes msg sender rest =
    if msg == Code.get_file_list
    then from_client list writes sender sends_file_list
    else if msg == Code.get_file
    then from_client list writes sender sends_file
    else if msg == Code.user_on
    then from_server server writes sender rest told_on
    else if msg == Code.user_off
    then from_server server writes sender rest told_off
    else ([], nothing)

-- One connection: what is written back, and what follows.
unfoldable pub connection : ClientTuple → List ClientTuple → Bool → List Piece → List Piece × Event
connection server list writes (code msg ∷ tuple sender ∷ rest) =
    switch server list writes msg sender rest
connection server list writes _ = ([], nothing)

-- What an event does to the list of clients.
unfoldable pub note : List ClientTuple → Event → List ClientTuple
note list nothing = list
note list sends_file_list = list
note list sends_file = list
note list (told_on t) = client_list_add list t
note list (told_off t) = delete_from_client_list list t

-- The loop over the tuples that the server sends at the start; its own is not kept. What the loop
-- makes of the list of clients: it also pushes each client into the buffer, as `add` does, and may wait
-- there.
unfoldable pub receive_clients :
    ClientTuple → ℕ → List Piece → List ClientTuple → Option (List ClientTuple)
receive_clients this_client zero pieces list = some list
receive_clients this_client (suc n) (tuple t ∷ pieces) list =
    receive_clients this_client n pieces
      (if same_client t this_client then list else client_list_add list t)
receive_clients this_client (suc n) _ list = none

-- `number_of_clients` is an int: a count from 2^31 on is negative, and the loop makes no round.
unfoldable pub start : ClientTuple → List Piece → Option (List ClientTuple)
start this_client (code msg ∷ number n ∷ pieces) =
    if not (msg == Code.client_list)
    then none
    else receive_clients this_client (if ltb n (2 ^ 31) then n else 0) pieces []
start this_client _ = none
