-- ===== src/Client/Order.antt =====
-- What all orders of steps keep: the buffer is a queue, and a thread sleeps only while its test
-- holds.
use systems_programming.Base.{
  ℕ, ◌≡◌, subst, some, List, [], ◌∷◌, get_elem?, inl, inr, Bool-cases, Option-cases, arith,
}
use systems_programming.ClientList.{ClientTuple, client_list_add, delete_from_client_list}
use systems_programming.Buffer.{buffer_is_empty, buffer_is_full, buffer_pop}
use systems_programming.Client.{
  Place, at_top, wait_pop, holding, asked, fetching, gone, next_place, slot_path, after_file,
  pushing, wait_push, MainPlace, waiting, adding, wait_add, Client, Answer, Action, user_on,
  user_off, main_goes_on, worker_goes_on, client_element, push_one, pop_one, listed, after_answer,
  push_files, work, add, main_step, act, run,
}
use systems_programming.Client.Due.{
  IsMainDue, IsClient, push_one-IsClient, pop_one-IsClient, put-IsClient, after_answer-IsDue,
  next_place-IsDue, after_file-IsDue,
}

work-IsClient :
    (c c' : Client) (i : ℕ) (p : Place) (a : Answer)
    → IsClient c
    → work c i p a ≡ some c'
    → IsClient c'
unfolding work push_files
work-IsClient c c' i at_top a v h = elim (Bool-cases (buffer_is_empty c.buffer)) [
  | inl e ↦ subst IsClient (ground arith) (put-IsClient c i wait_pop v e)
  | inr e ↦ subst IsClient (ground arith) (
      put-IsClient (pop_one c) i (holding (buffer_pop c.buffer).0) (pop_one-IsClient c v e)
        (record {}))
]
work-IsClient c c' i wait_pop a v h = absurd (ground arith)
work-IsClient c c' i (holding j) a v h = elim (Bool-cases (listed c j)) [
  | inl e ↦ subst IsClient (ground arith) (
      put-IsClient c i (next_place (slot_path c j) j) v
        (next_place-IsDue (slot_path c j) j c.buffer))
  | inr e ↦ subst IsClient (ground arith) (put-IsClient c i at_top v (record {}))
]
work-IsClient c c' i (asked j) a v h =
    subst IsClient (ground arith)
      (put-IsClient c i (after_answer c j a) v (after_answer-IsDue c j a c.buffer))
work-IsClient c c' i fetching a v h =
    subst IsClient (ground arith) (put-IsClient c i (after_file a) v (after_file-IsDue a c.buffer))
work-IsClient c c' i gone a v h = absurd (ground arith)
work-IsClient c c' i (pushing []) a v h =
    subst IsClient (ground arith) (put-IsClient c i at_top v (record {}))
work-IsClient c c' i (pushing (e ∷ es)) a v h = elim (Bool-cases (buffer_is_full c.buffer)) [
  | inl full ↦ subst IsClient (ground arith) (put-IsClient c i (wait_push (e ∷ es)) v (record {}))
  | inr room ↦
      subst IsClient (ground arith)
        (put-IsClient (push_one c e) i (pushing es) (push_one-IsClient c e v room) (record {}))
]
work-IsClient c c' i (wait_push es) a v h = absurd (ground arith)

to_main :
    (c : Client) (l : List ClientTuple) (m : MainPlace)
    → IsClient c
    → IsMainDue c.buffer m
    → IsClient (record c { list = l; main = m })
to_main c l m v h = record { ring = v.ring; order = v.order; due = v.due; main_due = h }

main_step-IsClient :
    (c c' : Client) (m : MainPlace) (a : Action)
    → IsClient c
    → main_step c m a ≡ some c'
    → IsClient c'
unfolding main_step add
main_step-IsClient c c' waiting (user_on t) v h =
    subst IsClient (ground arith)
      (to_main c (client_list_add c.list t) (adding (client_element t)) v (record {}))
main_step-IsClient c c' waiting (user_off t) v h =
    subst IsClient (ground arith) (to_main c (delete_from_client_list c.list t) c.main v v.main_due)
main_step-IsClient c c' waiting main_goes_on v h = absurd (ground arith)
main_step-IsClient c c' waiting (worker_goes_on i a) v h = absurd (ground arith)
main_step-IsClient c c' (adding e) (user_on t) v h = absurd (ground arith)
main_step-IsClient c c' (adding e) (user_off t) v h = absurd (ground arith)
main_step-IsClient c c' (adding e) (worker_goes_on i a) v h = absurd (ground arith)
main_step-IsClient c c' (adding e) main_goes_on v h = elim (Bool-cases (buffer_is_full c.buffer)) [
  | inl full ↦ subst IsClient (ground arith) (to_main c c.list (wait_add e) v full)
  | inr room ↦ subst IsClient (ground arith) (
      to_main (push_one c e) (push_one c e).list waiting (push_one-IsClient c e v room) (record {}))
]
main_step-IsClient c c' (wait_add e) a v h = absurd (ground arith)

pub act-IsClient : (c c' : Client) (a : Action) → IsClient c → act c a ≡ some c' → IsClient c'
unfolding act
act-IsClient c c' (worker_goes_on i a) v h = elim (Option-cases (get_elem? c.workers i)) [
  | inl e ↦ absurd (ground arith)
  | inr (p, e) ↦ work-IsClient c c' i p a v (ground arith)
]
act-IsClient c c' (user_on t) v h = main_step-IsClient c c' c.main (user_on t) v h
act-IsClient c c' (user_off t) v h = main_step-IsClient c c' c.main (user_off t) v h
act-IsClient c c' main_goes_on v h = main_step-IsClient c c' c.main main_goes_on v h

-- In every order of steps that the threads can make, the elements that were popped and after them
-- those in the buffer are those that were pushed, in the same order; the main thread sleeps only
-- while the buffer is full, and a worker at its first test only while it is empty.
pub run-IsClient :
    (steps : List Action) (c c' : Client) → IsClient c → run steps c ≡ some c' → IsClient c'
unfolding run
run-IsClient [] c c' v h = subst IsClient (ground arith) v
run-IsClient (a ∷ later) c c' v h = elim (Option-cases (act c a)) [
  | inl e ↦ absurd (ground arith)
  | inr (d, e) ↦ run-IsClient later d c' (act-IsClient c d a v e) (ground arith)
]
