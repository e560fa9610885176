-- ===== src/Client/Pointer.antt =====
-- With one worker, the slot that `elem` points to keeps the popped element.
use systems_programming.Base.{
  ℕ, zero, suc, ◌<◌, ◌≡◌, refl, sym, ap, subst, ◌∙◌, false, Option, none, some, List, [], ◌∷◌, ◌++◌,
  get_elem?, set, arith, inl, inr, Bool-cases, Option-cases, get_elem?-eq-get_or,
}
use systems_programming.Base.CString.{CString}
use systems_programming.ClientList.{ClientTuple, client_list_add, delete_from_client_list}
use systems_programming.Buffer.{
  Buffer, next_index, buffer_is_empty, buffer_is_full, buffer_push, buffer_pop, buffer_at,
}
use systems_programming.Buffer.Refine.{IsBuffer, slot_kept}
use systems_programming.Client.{
  Element, Place, at_top, wait_pop, holding, asked, fetching, gone, hung_up, after_file, slot_path,
  tmp_array, pushing, wait_push, MainPlace, waiting, adding, wait_add, Client, Answer, Action,
  user_on, user_off, main_goes_on, worker_goes_on, wake, no_element, push_files, work, add, put,
  main_step, act, run, push_one, pop_one, listed, after_answer, next_place, failed, files, woken,
  client_element,
}
use systems_programming.Client.Order.{act-IsClient}
use systems_programming.Client.Due.{IsClient}

abbrev pub last : List Element → Option Element
last [] = none
last (x ∷ []) = some x
last (x ∷ y ∷ xs) = last (y ∷ xs)

last-append : (xs : List Element) (x : Element) → last (xs ++ x ∷ []) ≡ some x
last-append [] x = refl
last-append (y ∷ []) x = refl
last-append (y ∷ z ∷ xs) x = last-append (z ∷ xs) x

-- The slot before the read index, which holds the element popped last.
pub record IsLast (b : Buffer Element) (popped : List Element) (j : ℕ) : Type 0 where
  pub inside : j < b.size
  pub before : next_index b.size j ≡ b.read
  pub same : buffer_at b j ≡ last popped

-- A worker with a pointer points to that slot.
abbrev pub PointsBack : Client → Place → Type 0
PointsBack c at_top = Unit
PointsBack c wait_pop = Unit
PointsBack c (holding j) = IsLast c.buffer c.popped j
PointsBack c (asked j) = IsLast c.buffer c.popped j
PointsBack c fetching = Unit
PointsBack c gone = Unit
PointsBack c (pushing es) = Unit
PointsBack c (wait_push es) = Unit

-- The process has one worker, and its pointer is good.
pub record IsSingle (c : Client) : Type 0 where
  pub place : Place
  pub alone : c.workers ≡ place ∷ []
  pub good : PointsBack c place

push-IsLast :
    (c : Client) (e : Element) (j : ℕ)
    → IsBuffer c.buffer
    → buffer_is_full c.buffer ≡ false
    → IsLast c.buffer c.popped j
    → IsLast (push_one c e).buffer (push_one c e).popped j
unfolding push_one buffer_push
push-IsLast c e j v room l = record {
  inside = l.inside;
  before = l.before;
  same = (rw room at (slot_kept no_element (e ∷ []) c.buffer j v l.before l.inside)) ∙ l.same;
}

pop-IsLast :
    (c : Client)
    → IsBuffer c.buffer
    → IsLast (pop_one c).buffer (pop_one c).popped (buffer_pop c.buffer).0
unfolding pop_one buffer_pop
pop-IsLast c v = record {
  inside = v.read_in;
  before = refl;
  same =
      get_elem?-eq-get_or c.buffer.circ_buffer c.buffer.read no_element (omega arith)
      ∙ sym (last-append c.popped _);
}

next_place-PointsBack :
    (c : Client) (s : CString) (j : ℕ) → IsLast c.buffer c.popped j → PointsBack c (next_place s j)
next_place-PointsBack c [] j l = l
next_place-PointsBack c (_ ∷ _) j l = record {}

after_file-PointsBack : (c : Client) (a : Answer) → PointsBack c (after_file a)
after_file-PointsBack c hung_up = record {}
after_file-PointsBack c failed = record {}
after_file-PointsBack c (files fs) = record {}

after_answer-PointsBack : (c d : Client) (j : ℕ) (a : Answer) → PointsBack d (after_answer c j a)
unfolding after_answer
after_answer-PointsBack c d j hung_up = record {}
after_answer-PointsBack c d j failed = record {}
after_answer-PointsBack c d j (files fs) = elim (Option-cases (buffer_at c.buffer j)) [
  | inl e ↦
      let at : at_top ≡ after_answer c j (files fs) = rw (e, after_answer) refl in
      subst (PointsBack d) at (record {})
  | inr (x, e) ↦
      let at : pushing (tmp_array x.c_tuple fs) ≡ after_answer c j (files fs) =
        rw (e, after_answer) refl in
      subst (PointsBack d) at (record {})
]

-- The only worker steps to `q`.
put-IsSingle :
    (c : Client) (p q : Place)
    → c.workers ≡ p ∷ []
    → PointsBack (put c 0 q) q
    → IsSingle (put c 0 q)
put-IsSingle c p q e h = record { place = q; alone = ap (λ ws. set ws 0 q) e; good = h }

work-IsSingle :
    (c c' : Client) (p : Place) (a : Answer)
    → IsBuffer c.buffer
    → c.workers ≡ p ∷ []
    → PointsBack c p
    → work c 0 p a ≡ some c'
    → IsSingle c'
unfolding work push_files
work-IsSingle c c' at_top a v e b h = elim (Bool-cases (buffer_is_empty c.buffer)) [
  | inl t ↦ subst IsSingle (ground arith) (put-IsSingle c at_top wait_pop e (record {}))
  | inr t ↦ subst IsSingle (ground arith) (
      put-IsSingle (pop_one c) at_top (holding (buffer_pop c.buffer).0) (unfold pop_one in e)
        (pop-IsLast c v))
]
work-IsSingle c c' wait_pop a v e b h = absurd (ground arith)
work-IsSingle c c' (holding j) a v e b h = elim (Bool-cases (listed c j)) [
  | inl t ↦ subst IsSingle (ground arith) (
      put-IsSingle c (holding j) (next_place (slot_path c j) j) e
        (next_place-PointsBack (put c 0 (next_place (slot_path c j) j)) (slot_path c j) j b))
  | inr t ↦ subst IsSingle (ground arith) (put-IsSingle c (holding j) at_top e (record {}))
]
work-IsSingle c c' (asked j) a v e b h = subst IsSingle (ground arith) (
    put-IsSingle c (asked j) (after_answer c j a) e
      (after_answer-PointsBack c (put c 0 (after_answer c j a)) j a))
work-IsSingle c c' fetching a v e b h =
    subst IsSingle (ground arith)
      (put-IsSingle c fetching (after_file a) e (after_file-PointsBack (put c 0 (after_file a)) a))
work-IsSingle c c' gone a v e b h = absurd (ground arith)
work-IsSingle c c' (pushing []) a v e b h =
    subst IsSingle (ground arith) (put-IsSingle c (pushing []) at_top e (record {}))
work-IsSingle c c' (pushing (x ∷ es)) a v e b h = elim (Bool-cases (buffer_is_full c.buffer)) [
  | inl t ↦
      subst IsSingle (ground arith)
        (put-IsSingle c (pushing (x ∷ es)) (wait_push (x ∷ es)) e (record {}))
  | inr t ↦ subst IsSingle (ground arith) (
      put-IsSingle (push_one c x) (pushing (x ∷ es)) (pushing es) (unfold push_one in ap woken e)
        (record {}))
]
work-IsSingle c c' (wait_push es) a v e b h = absurd (ground arith)

wake-PointsBack :
    (c : Client) (x : Element) (p : Place)
    → IsBuffer c.buffer
    → buffer_is_full c.buffer ≡ false
    → PointsBack c p
    → PointsBack (push_one c x) (wake p)
wake-PointsBack c x at_top v room b = record {}
wake-PointsBack c x wait_pop v room b = record {}
wake-PointsBack c x (holding j) v room b = push-IsLast c x j v room b
wake-PointsBack c x (asked j) v room b = push-IsLast c x j v room b
wake-PointsBack c x fetching v room b = record {}
wake-PointsBack c x gone v room b = record {}
wake-PointsBack c x (pushing es) v room b = record {}
wake-PointsBack c x (wait_push es) v room b = record {}

-- What the main thread changes besides the buffer is nothing to a worker.
main-IsSingle :
    (c : Client) (l : List ClientTuple) (m : MainPlace)
    → IsSingle c
    → IsSingle (record c { list = l; main = m })
main-IsSingle c l m s = record { place = s.place; alone = s.alone; good = same s.place s.good }
  where
    same : (p : Place) → PointsBack c p → PointsBack (record c { list = l; main = m }) p
    same at_top h = h
    same wait_pop h = h
    same (holding j) h = record { inside = h.inside; before = h.before; same = h.same }
    same (asked j) h = record { inside = h.inside; before = h.before; same = h.same }
    same fetching h = h
    same gone h = h
    same (pushing es) h = h
    same (wait_push es) h = h

main_step-IsSingle :
    (c c' : Client) (m : MainPlace) (a : Action)
    → IsBuffer c.buffer
    → IsSingle c
    → main_step c m a ≡ some c'
    → IsSingle c'
unfolding main_step add
main_step-IsSingle c c' waiting (user_on t) v s h =
    subst IsSingle (ground arith)
      (main-IsSingle c (client_list_add c.list t) (adding (client_element t)) s)
main_step-IsSingle c c' waiting (user_off t) v s h =
    subst IsSingle (ground arith) (main-IsSingle c (delete_from_client_list c.list t) c.main s)
main_step-IsSingle c c' waiting main_goes_on v s h = absurd (ground arith)
main_step-IsSingle c c' waiting (worker_goes_on i a) v s h = absurd (ground arith)
main_step-IsSingle c c' (adding e) (user_on t) v s h = absurd (ground arith)
main_step-IsSingle c c' (adding e) (user_off t) v s h = absurd (ground arith)
main_step-IsSingle c c' (adding e) (worker_goes_on i a) v s h = absurd (ground arith)
main_step-IsSingle c c' (adding e) main_goes_on v s h =
    elim (Bool-cases (buffer_is_full c.buffer)) [
      | inl full ↦ subst IsSingle (ground arith) (main-IsSingle c c.list (wait_add e) s)
      | inr room ↦ subst IsSingle (ground arith) (
          main-IsSingle (push_one c e) (push_one c e).list waiting (record {
            place = wake s.place;
            alone = (unfold push_one in ap woken s.alone);
            good = wake-PointsBack c e s.place v room s.good;
          }))
    ]
main_step-IsSingle c c' (wait_add e) a v s h = absurd (ground arith)

act-IsSingle :
    (c c' : Client) (a : Action) → IsBuffer c.buffer → IsSingle c → act c a ≡ some c' → IsSingle c'
unfolding act
act-IsSingle c c' (worker_goes_on zero a) v s h =
    let at : get_elem? c.workers 0 ≡ some s.place = ap (λ ws. get_elem? ws 0) s.alone in
    work-IsSingle c c' s.place a v s.alone s.good (ground arith)
act-IsSingle c c' (worker_goes_on (suc i) a) v s h =
    let at : get_elem? c.workers (suc i) ≡ none = ap (λ ws. get_elem? ws (suc i)) s.alone in
    absurd (ground arith)
act-IsSingle c c' (user_on t) v s h = main_step-IsSingle c c' c.main (user_on t) v s h
act-IsSingle c c' (user_off t) v s h = main_step-IsSingle c c' c.main (user_off t) v s h
act-IsSingle c c' main_goes_on v s h = main_step-IsSingle c c' c.main main_goes_on v s h

-- With one worker, in every order of steps, a slot that the worker points to holds the element
-- that was popped last, although the main thread pushes meanwhile.
pub run-IsSingle :
    (steps : List Action) (c c' : Client)
    → IsClient c
    → IsSingle c
    → run steps c ≡ some c'
    → IsSingle c'
unfolding run
run-IsSingle [] c c' v s h = subst IsSingle (ground arith) s
run-IsSingle (a ∷ later) c c' v s h = elim (Option-cases (act c a)) [
  | inl e ↦ absurd (ground arith)
  | inr (d, e) ↦
      run-IsSingle later d c' (act-IsClient c d a v e) (act-IsSingle c d a v.ring s e)
        (ground arith)
]
