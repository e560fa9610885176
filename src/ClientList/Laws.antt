-- ===== src/ClientList/Laws.antt =====
-- The client list as a set of clients without repetition.
use systems_programming.Base.{
  ◌+◌, ◌≡◌, refl, ap, true, false, List, [], ◌∷◌, ◌&&◌, ◌||◌, not, arith, if◌then◌else◌, length,
  inl, inr, Bool-cases,
}
use systems_programming.ClientList.{
  ClientTuple, same_client, in_client_list, client_list_add, delete_from_client_list, free_list,
}

-- No client stands in the list twice.
abbrev pub NoRepeat : List ClientTuple → Type 0
NoRepeat [] = Unit
NoRepeat (t ∷ ts) = (in_client_list ts t ≡ false) × NoRepeat ts

pub same_client_eq : (a b : ClientTuple) → same_client a b ≡ true → a ≡ b
same_client_eq a b h = ground arith

pub in_client_list-cons :
    (t ct : ClientTuple) (ts : List ClientTuple)
    → in_client_list (t ∷ ts) ct ≡ (same_client ct t || in_client_list ts ct)
unfolding in_client_list
in_client_list-cons t ct [] = ground arith
in_client_list-cons t ct (u ∷ ts) = ground arith

-- After an addition exactly the old clients and the new one are in the list.
pub in_client_list-add :
    (ts : List ClientTuple) (ct other : ClientTuple)
    → in_client_list (client_list_add ts ct) other
      ≡ (in_client_list ts other || same_client other ct)
unfolding client_list_add
in_client_list-add [] ct other = rw in_client_list-cons (unfold in_client_list in ground arith)
in_client_list-add (t ∷ ts) ct other = ground (
  arith,
  in_client_list-cons t other (client_list_add ts ct),
  in_client_list-cons t other ts,
  in_client_list-add ts ct other,
)

pub add-NoRepeat :
    (ts : List ClientTuple) (ct : ClientTuple)
    → NoRepeat ts
    → in_client_list ts ct ≡ false
    → NoRepeat (client_list_add ts ct)
unfolding client_list_add
add-NoRepeat [] ct n h = (unfold in_client_list in refl, tt)
add-NoRepeat (t ∷ ts) ct n h = (
  ground (arith, in_client_list-add ts ct t, in_client_list-cons t ct ts),
  add-NoRepeat ts ct n.1 (ground (arith, in_client_list-cons t ct ts)),
)

pub length-add :
    (ts : List ClientTuple) (ct : ClientTuple) → length (client_list_add ts ct) ≡ length ts + 1
unfolding client_list_add
length-add [] ct = refl
length-add (t ∷ ts) ct = omega (arith, length-add ts ct)

pub delete-cons :
    (t ct : ClientTuple) (ts : List ClientTuple)
    → delete_from_client_list (t ∷ ts) ct
      ≡ (if same_client t ct then ts else t ∷ delete_from_client_list ts ct)
unfolding delete_from_client_list
delete-cons t ct [] = ground arith
delete-cons t ct (u ∷ ts) = refl

-- After a deletion from a list without repetition exactly the other clients are in it.
pub in_client_list-delete :
    (ts : List ClientTuple) (ct other : ClientTuple)
    → NoRepeat ts
    → in_client_list (delete_from_client_list ts ct) other
      ≡ (in_client_list ts other && not (same_client other ct))
in_client_list-delete [] ct other n = unfold in_client_list delete_from_client_list in refl
in_client_list-delete (t ∷ ts) ct other n = ground (
  arith,
  delete-cons t ct ts,
  in_client_list-cons t other ts,
  in_client_list-cons t other (delete_from_client_list ts ct),
  in_client_list-delete ts ct other n.1,
)

pub delete-NoRepeat :
    (ts : List ClientTuple) (ct : ClientTuple)
    → NoRepeat ts
    → NoRepeat (delete_from_client_list ts ct)
delete-NoRepeat [] ct n = unfold delete_from_client_list in tt
delete-NoRepeat (t ∷ ts) ct n = elim (Bool-cases (same_client t ct)) [
  | inl hit ↦ rw (delete-cons t ct ts, hit) n.1
  | inr miss ↦
      rw (delete-cons t ct ts, miss)
        (ground (arith, in_client_list-delete ts ct t n.1), delete-NoRepeat ts ct n.1)
]

pub length-delete :
    (ts : List ClientTuple) (ct : ClientTuple)
    → in_client_list ts ct ≡ true
    → length (delete_from_client_list ts ct) + 1 ≡ length ts
length-delete [] ct h = unfold in_client_list in cc
length-delete (t ∷ ts) ct h =
    ground (arith, delete-cons t ct ts, in_client_list-cons t ct ts, length-delete ts ct)

-- Adding a client that was not in the list and deleting it again gives the list back.
pub delete-add :
    (ts : List ClientTuple) (ct : ClientTuple)
    → in_client_list ts ct ≡ false
    → delete_from_client_list (client_list_add ts ct) ct ≡ ts
unfolding client_list_add
delete-add [] ct h = unfold delete_from_client_list in ground arith
delete-add (t ∷ ts) ct h =
    ground (
      arith,
      delete-cons t ct (client_list_add ts ct),
      in_client_list-cons t ct ts,
      delete-add ts ct,
    )

-- Every node is freed once, in the order of the list.
pub free_list_lem : (ts : List ClientTuple) → free_list ts ≡ ts
unfolding free_list
free_list_lem [] = refl
free_list_lem (t ∷ []) = refl
free_list_lem (t ∷ u ∷ ts) = ap (λ us. t ∷ us) (free_list_lem (u ∷ ts))
