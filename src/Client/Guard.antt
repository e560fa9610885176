-- ===== src/Client/Guard.antt =====
-- Whose messages the client obeys.
use systems_programming.Base.{
  ℕ, ◌≡◌, refl, Bool, true, false, List, [], ◌∷◌, not, ◌==◌, if◌then◌else◌, arith,
}
use systems_programming.ClientList.{ClientTuple, same_client, in_client_list}
use systems_programming.Server.{Piece, code, number, tuple}
use systems_programming.Server.Code
use systems_programming.Client.Dialog.{
  Event, nothing, sends_file_list, sends_file, told_on, told_off, answer, from_client, from_server,
  switch, connection,
}

-- Who may cause an event.
abbrev pub IsAllowed : ClientTuple → List ClientTuple → ClientTuple → Event → Type 0
IsAllowed server list sender nothing = Unit
IsAllowed server list sender sends_file_list = in_client_list list sender ≡ true
IsAllowed server list sender sends_file = in_client_list list sender ≡ true
IsAllowed server list sender (told_on t) = same_client server sender ≡ true
IsAllowed server list sender (told_off t) = same_client server sender ≡ true

-- A result that is allowed.
abbrev Allowed : ClientTuple → List ClientTuple → ClientTuple → List Piece × Event → Type 0
Allowed server list sender r = IsAllowed server list sender r.1

if_test {ℓ} :
    {X : Type 0} (P : X → Type ℓ) (b : Bool) (x y : X)
    → (b ≡ true → P x)
    → (b ≡ false → P y)
    → P (if b then x else y)
if_test P true x y h k = h refl
if_test P false x y h k = k refl

answer-Allowed :
    (server : ClientTuple) (list : List ClientTuple) (sender : ClientTuple) (writes : Bool) (c : ℕ)
    (e : Event)
    → IsAllowed server list sender e
    → Allowed server list sender (answer writes c e)
answer-Allowed server list sender writes c e h =
    if_test (Allowed server list sender) writes _ _ (λ q. h) (λ q. record {})

from_client-Allowed :
    (server : ClientTuple) (list : List ClientTuple) (writes : Bool) (sender : ClientTuple)
    (e : Event)
    → (in_client_list list sender ≡ true → IsAllowed server list sender e)
    → Allowed server list sender (from_client list writes sender e)
unfolding from_client
from_client-Allowed server list writes sender e h =
    if_test (Allowed server list sender) (not (in_client_list list sender)) _ _
      (λ q. answer-Allowed server list sender writes Code.ip_port_not_found nothing (record {}))
      (λ q. answer-Allowed server list sender writes Code.ok e (h (ground arith)))

from_server-Allowed :
    (server : ClientTuple) (list : List ClientTuple) (writes : Bool) (sender : ClientTuple)
    (rest : List Piece) (e : ClientTuple → Event)
    → (same_client server sender ≡ true → (t : ClientTuple) → IsAllowed server list sender (e t))
    → Allowed server list sender (from_server server writes sender rest e)
unfolding from_server
from_server-Allowed server list writes sender rest e h = by_rest rest
  where
    refused : Allowed server list sender (answer writes Code.ip_port_not_found nothing)
    refused = answer-Allowed server list sender writes Code.ip_port_not_found nothing (record {})

    silent : Allowed server list sender (answer writes Code.ok nothing)
    silent = answer-Allowed server list sender writes Code.ok nothing (record {})

    by_rest :
        (rest : List Piece) → Allowed server list sender (from_server server writes sender rest e)
    by_rest [] =
        if_test (Allowed server list sender) (not (same_client server sender)) _ _ (λ q. refused)
          (λ q. silent)
    by_rest (code c ∷ ps) =
        if_test (Allowed server list sender) (not (same_client server sender)) _ _ (λ q. refused)
          (λ q. silent)
    by_rest (number n ∷ ps) =
        if_test (Allowed server list sender) (not (same_client server sender)) _ _ (λ q. refused)
          (λ q. silent)
    by_rest (tuple t ∷ ps) =
        if_test (Allowed server list sender) (not (same_client server sender)) _ _ (λ q. refused)
          (λ q. answer-Allowed server list sender writes Code.ok (e t) (h (ground arith) t))

-- Whatever is written to a connection, and whether the answer can be written or not: the list of
-- files or a file is sent only to a sender that is in the list of clients, and the list changes
-- only on the message of a sender with the server's address.
pub connection-IsAllowed :
    (server : ClientTuple) (list : List ClientTuple) (writes : Bool) (msg : ℕ)
    (sender : ClientTuple) (rest : List Piece)
    → IsAllowed server list sender
        (connection server list writes (code msg ∷ tuple sender ∷ rest)).1
unfolding connection switch
connection-IsAllowed server list writes msg sender rest =
    let P = Allowed server list sender in
    if_test P (msg == Code.get_file_list) _ _
      (λ q. from_client-Allowed server list writes sender sends_file_list (λ h. h))
      (λ q.
        if_test P (msg == Code.get_file) _ _
          (λ q. from_client-Allowed server list writes sender sends_file (λ h. h))
          (λ q.
            if_test P (msg == Code.user_on) _ _
              (λ q. from_server-Allowed server list writes sender rest told_on (λ h t. h))
              (λ q.
                if_test P (msg == Code.user_off) _ _
                  (λ q. from_server-Allowed server list writes sender rest told_off (λ h t. h))
                  (λ q. record {}))))
