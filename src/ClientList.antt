-- ===== src/ClientList.antt =====
-- SysPro_Project3/src/client_list.c: the server's and the client's list of clients. The doubly
-- linked list is a list; the loops end one node early and treat the last node behind the loop.
pub mod Laws
mod Tests
use systems_programming.Base.{ℕ, Bool, true, false, List, [], ◌∷◌, ◌&&◌, ◌==◌, if◌then◌else◌}

-- `client_tuple`: an `in_addr_t` and an `int`, as the bit patterns that are compared.
pub record ClientTuple : Type 0 where
  pub ip_address : ℕ
  pub port_num : ℕ

abbrev pub same_client : ClientTuple → ClientTuple → Bool
same_client a b = (a.ip_address == b.ip_address) && (a.port_num == b.port_num)

unfoldable pub in_client_list : List ClientTuple → ClientTuple → Bool
in_client_list [] ct = false
in_client_list (t ∷ []) ct = if same_client ct t then true else false
in_client_list (t ∷ u ∷ ts) ct = if same_client ct t then true else in_client_list (u ∷ ts) ct

unfoldable pub client_list_add : List ClientTuple → ClientTuple → List ClientTuple
client_list_add [] ct = ct ∷ []
client_list_add (t ∷ ts) ct = t ∷ client_list_add ts ct

-- The first node of the tuple is unlinked; `next` and `previous` of its neighbours follow.
unfoldable pub delete_from_client_list : List ClientTuple → ClientTuple → List ClientTuple
delete_from_client_list [] ct = []
delete_from_client_list (t ∷ []) ct = if same_client t ct then [] else t ∷ []
delete_from_client_list (t ∷ u ∷ ts) ct =
    if same_client t ct then u ∷ ts else t ∷ delete_from_client_list (u ∷ ts) ct

-- `free_list`: the nodes in the order in which they are freed.
unfoldable pub free_list : List ClientTuple → List ClientTuple
free_list [] = []
free_list (t ∷ []) = t ∷ []
free_list (t ∷ u ∷ ts) = t ∷ free_list (u ∷ ts)
