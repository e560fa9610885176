-- ===== src/Client/Due.antt =====
-- What each thread waits for, and the steps that all of them take.
use systems_programming.Base.{
  ℕ, zero, suc, ◌≡◌, refl, sym, ap, subst, ◌∙◌, true, false, List, [], ◌∷◌, ◌++◌, set,
  get_elem?-get_or, inl, inr, Option-cases, arith,
}
use mathlib.Core.List.{append_assoc}
use systems_programming.Base.CString.{CString}
use systems_programming.Buffer.{
  Buffer, buffer_is_empty, buffer_is_full, buffer_push, buffer_pop, buffer_at,
}
use systems_programming.Buffer.Refine.{
  IsBuffer, contents, buffer_push-contents, buffer_pop-contents,
}
use systems_programming.Client.{
  Element, Place, at_top, wait_pop, holding, asked, pushing, wait_push, MainPlace, waiting, adding,
  wait_add, Client, Answer, fetching, gone, hung_up, failed, files, tmp_array, next_place,
  after_file, wake, woken, wake_main, no_element, push_one, pop_one, put, after_answer,
}

-- A worker that sleeps at its first test finds the buffer empty.
abbrev pub IsDue : Buffer Element → Place → Type 0
IsDue b at_top = Unit
IsDue b wait_pop = buffer_is_empty b ≡ true
IsDue b (holding j) = Unit
IsDue b (asked j) = Unit
IsDue b fetching = Unit
IsDue b gone = Unit
IsDue b (pushing es) = Unit
IsDue b (wait_push es) = Unit

abbrev pub AreDue : Buffer Element → List Place → Type 0
AreDue b [] = Unit
AreDue b (p ∷ ps) = IsDue b p × AreDue b ps

-- A main thread that sleeps finds it full.
abbrev pub IsMainDue : Buffer Element → MainPlace → Type 0
IsMainDue b waiting = Unit
IsMainDue b (adding e) = Unit
IsMainDue b (wait_add e) = buffer_is_full b ≡ true

pub record IsClient (c : Client) : Type 0 where
  pub ring : IsBuffer c.buffer
  pub order : c.popped ++ contents no_element c.buffer ≡ c.pushed
  pub due : AreDue c.buffer c.workers
  pub main_due : IsMainDue c.buffer c.main

set-AreDue :
    (b : Buffer Element) (ps : List Place) (i : ℕ) (p : Place)
    → AreDue b ps
    → IsDue b p
    → AreDue b (set ps i p)
set-AreDue b [] i p h k = h
set-AreDue b (q ∷ ps) zero p h k = (k, h.1)
set-AreDue b (q ∷ ps) (suc i) p h k = (h.0, set-AreDue b ps i p h.1 k)

wake-IsDue : (b : Buffer Element) (p : Place) → IsDue b (wake p)
wake-IsDue b at_top = record {}
wake-IsDue b wait_pop = record {}
wake-IsDue b (holding j) = record {}
wake-IsDue b (asked j) = record {}
wake-IsDue b fetching = record {}
wake-IsDue b gone = record {}
wake-IsDue b (pushing es) = record {}
wake-IsDue b (wait_push es) = record {}

woken-AreDue : (b : Buffer Element) (ps : List Place) → AreDue b (woken ps)
woken-AreDue b [] = record {}
woken-AreDue b (p ∷ ps) = (wake-IsDue b p, woken-AreDue b ps)

-- Where the buffer is not empty, no worker sleeps at its first test.
full-IsDue :
    (b b' : Buffer Element) (p : Place) → buffer_is_empty b ≡ false → IsDue b p → IsDue b' p
full-IsDue b b' at_top h k = k
full-IsDue b b' wait_pop h k = absurd (ground arith)
full-IsDue b b' (holding j) h k = k
full-IsDue b b' (asked j) h k = k
full-IsDue b b' fetching h k = k
full-IsDue b b' gone h k = k
full-IsDue b b' (pushing es) h k = k
full-IsDue b b' (wait_push es) h k = k

full-AreDue :
    (b b' : Buffer Element) (ps : List Place)
    → buffer_is_empty b ≡ false
    → AreDue b ps
    → AreDue b' ps
full-AreDue b b' [] h k = k
full-AreDue b b' (p ∷ ps) h k = (full-IsDue b b' p h k.0, full-AreDue b b' ps h k.1)

wake_main-IsMainDue : (b : Buffer Element) (m : MainPlace) → IsMainDue b (wake_main m)
wake_main-IsMainDue b waiting = record {}
wake_main-IsMainDue b (adding e) = record {}
wake_main-IsMainDue b (wait_add e) = record {}

-- Where the buffer is not full, the main thread does not sleep.
room-IsMainDue :
    (b b' : Buffer Element) (m : MainPlace)
    → buffer_is_full b ≡ false
    → IsMainDue b m
    → IsMainDue b' m
room-IsMainDue b b' waiting h k = k
room-IsMainDue b b' (adding e) h k = k
room-IsMainDue b b' (wait_add e) h k = absurd (ground arith)

pub push_one-IsClient :
    (c : Client) (e : Element)
    → IsClient c
    → buffer_is_full c.buffer ≡ false
    → IsClient (push_one c e)
unfolding push_one
push_one-IsClient c e v room =
    let (ring, more) = buffer_push-contents no_element c.buffer e v.ring room in
    record {
      ring = ring;
      order =
          ap (λ xs. c.popped ++ xs) more
          ∙ sym (append_assoc c.popped (contents no_element c.buffer) (e ∷ []))
          ∙ ap (λ xs. xs ++ e ∷ []) v.order;
      due = woken-AreDue (buffer_push c.buffer e) c.workers;
      main_due = room-IsMainDue c.buffer (buffer_push c.buffer e) c.main room v.main_due;
    }

pub pop_one-IsClient :
    (c : Client) → IsClient c → buffer_is_empty c.buffer ≡ false → IsClient (pop_one c)
unfolding pop_one buffer_pop
pop_one-IsClient c v some_left =
    let (ring, x, there, split) = buffer_pop-contents no_element c.buffer v.ring some_left in
    let i = (buffer_pop c.buffer).0 in
    let first = get_elem?-get_or c.buffer.circ_buffer i x no_element there in
    record {
      ring = ring;
      order =
          rw first
            (append_assoc c.popped (x ∷ []) _ ∙ ap (λ xs. c.popped ++ xs) (sym split) ∙ v.order);
      due = full-AreDue c.buffer (buffer_pop c.buffer).1 c.workers some_left v.due;
      main_due = wake_main-IsMainDue (buffer_pop c.buffer).1 c.main;
    }

pub put-IsClient :
    (c : Client) (i : ℕ) (p : Place) → IsClient c → IsDue c.buffer p → IsClient (put c i p)
put-IsClient c i p v h = record {
  ring = v.ring;
  order = v.order;
  due = set-AreDue c.buffer c.workers i p v.due h;
  main_due = v.main_due;
}

pub next_place-IsDue : (s : CString) (j : ℕ) (b : Buffer Element) → IsDue b (next_place s j)
next_place-IsDue [] j b = record {}
next_place-IsDue (_ ∷ _) j b = record {}

pub after_file-IsDue : (a : Answer) (b : Buffer Element) → IsDue b (after_file a)
after_file-IsDue hung_up b = record {}
after_file-IsDue failed b = record {}
after_file-IsDue (files fs) b = record {}

pub after_answer-IsDue :
    (c : Client) (j : ℕ) (a : Answer) (b : Buffer Element) → IsDue b (after_answer c j a)
unfolding after_answer
after_answer-IsDue c j hung_up b = record {}
after_answer-IsDue c j failed b = record {}
after_answer-IsDue c j (files fs) b = elim (Option-cases (buffer_at c.buffer j)) [
  | inl e ↦
      let at : at_top ≡ after_answer c j (files fs) = rw (e, after_answer) refl in
      subst (IsDue b) at (record {})
  | inr (x, e) ↦
      let at : pushing (tmp_array x.c_tuple fs) ≡ after_answer c j (files fs) =
        rw (e, after_answer) refl in
      subst (IsDue b) at (record {})
]
