-- ===== src/Client.antt =====
-- SysPro_Project3/src/dropbox_client.c: the main thread and the workers of a client around the
-- circular buffer. A thread runs from one call that takes a lock, sleeps or talks to another
-- process to the next such call in one step, and the steps of the threads come in any order.
pub mod Due
pub mod Order
pub mod Asleep
pub mod Clogged
pub mod Pointer
pub mod Dialog
pub mod Registry
pub mod Guard
pub mod Transfer
pub mod Exchange
pub mod FileList
pub mod Tuples
pub mod Listing
pub mod Sharing
pub mod Version
mod Tests
mod TalkTests
mod ListTests
use systems_programming.Base.{
  ℕ, Bool, true, false, Option, none, some, List, [], ◌∷◌, ◌++◌, if◌then◌else◌, get_elem?, get_or,
  set,
}
use systems_programming.Base.CString.{CString}
use systems_programming.Base.Fallible.{◌>>=◌}
use systems_programming.ClientList.{
  ClientTuple, in_client_list, client_list_add, delete_from_client_list,
}
use systems_programming.Buffer.{
  Buffer, buffer_is_empty, buffer_is_full, buffer_push, buffer_pop, buffer_at,
}

-- `file_tuple` and `element_t`.
pub record FileTuple : Type 0 where
  pub pathname : CString
  pub version : CString

pub record Element : Type 0 where
  pub f_tuple : FileTuple
  pub c_tuple : ClientTuple

-- `element_t el = {0}; memcpy(&(el.c_tuple), &c_tuple, ...)`
abbrev pub client_element : ClientTuple → Element
client_element t = record { f_tuple = record { pathname = []; version = [] }; c_tuple = t }

-- Where a worker is: in front of its test of an empty buffer, asleep on `buffer_nonempty` there,
-- with the index of the slot that `elem` points to, connected for the list of files of that slot's
-- client, connected for a file, in the loop that pushes the files of a list, asleep on
-- `buffer_nonempty` in that loop, or behind its outer loop, where the thread ends.
pub data Place : Type 0 where
  at_top wait_pop fetching gone : Place
  holding asked : ℕ → Place
  pushing wait_push : List Element → Place

-- Where the main thread is: waiting for a connection, in front of its test of a full buffer with
-- the element to push, or asleep on `buffer_nonfull` there.
pub data MainPlace : Type 0 where
  waiting : MainPlace
  adding wait_add : Element → MainPlace

-- The shared variables and the threads. `pushed` and `popped` are no variables of the code: they
-- record which elements went through the buffer.
pub record Client : Type 0 where
  pub list : List ClientTuple
  pub buffer : Buffer Element
  pub main : MainPlace
  pub workers : List Place
  pub pushed : List Element
  pub popped : List Element

-- What the client that a worker is connected to does: it writes no answer to the request at all, the
-- communication fails in another way or is over, or it sends its list of files.
pub data Answer : Type 0 where
  hung_up failed : Answer
  files : List FileTuple → Answer

pub data Action : Type 0 where
  user_on user_off : ClientTuple → Action
  main_goes_on : Action
  worker_goes_on : ℕ → Answer → Action

-- `pthread_cond_broadcast(&buffer_nonempty)`: every thread that sleeps on it tests again.
abbrev pub wake : Place → Place
wake at_top = at_top
wake wait_pop = at_top
wake (holding j) = holding j
wake (asked j) = asked j
wake fetching = fetching
wake gone = gone
wake (pushing es) = pushing es
wake (wait_push es) = pushing es

abbrev pub woken : List Place → List Place
woken [] = []
woken (p ∷ ps) = wake p ∷ woken ps

-- `pthread_cond_broadcast(&buffer_nonfull)`
abbrev pub wake_main : MainPlace → MainPlace
wake_main waiting = waiting
wake_main (adding e) = adding e
wake_main (wait_add e) = adding e

-- What stands in a slot that the buffer does not have.
abbrev pub no_element : Element
no_element = client_element (record { ip_address = 0; port_num = 0 })

-- A push and a pop, each with its broadcast.
unfoldable pub push_one : Client → Element → Client
push_one c e = record c {
  buffer = buffer_push c.buffer e;
  workers = woken c.workers;
  pushed = c.pushed ++ e ∷ [];
}

unfoldable pub pop_one : Client → Client
pop_one c = record c {
  buffer = (buffer_pop c.buffer).1;
  main = wake_main c.main;
  popped = c.popped ++ get_or c.buffer.circ_buffer (buffer_pop c.buffer).0 no_element ∷ [];
}

abbrev pub put : Client → ℕ → Place → Client
put c i p = record c { workers = set c.workers i p }

-- The elements that are made of a list of files: `tmp_array`.
abbrev pub tmp_array : ClientTuple → List FileTuple → List Element
tmp_array t [] = []
tmp_array t (f ∷ fs) = record { f_tuple = f; c_tuple = t } ∷ tmp_array t fs

-- `in_client_list(list, &elem->c_tuple)`, read through the pointer.
unfoldable pub listed : Client → ℕ → Bool
listed c j = elim (buffer_at c.buffer j) [ none ↦ false | some e ↦ in_client_list c.list e.c_tuple ]

-- `elem->f_tuple.pathname`, read in front of `connect`.
unfoldable pub slot_path : Client → ℕ → CString
slot_path c j = elim (buffer_at c.buffer j) [ none ↦ [] | some e ↦ e.f_tuple.pathname ]

-- An element without a path is only a client, which is asked for its list; a file is received. What
-- is received plays no part in the buffer, and `elem` is not read again.
abbrev pub next_place : CString → ℕ → Place
next_place [] j = asked j
next_place (_ ∷ _) j = fetching

-- What follows the request for a list: every failure is a `continue`.
unfoldable pub after_answer : Client → ℕ → Answer → Place
after_answer c j hung_up = at_top
after_answer c j failed = at_top
after_answer c j (files fs) = elim (buffer_at c.buffer j) [
  | none ↦ at_top
  | some e ↦ pushing (tmp_array e.c_tuple fs)
]

-- What follows the request for a file: a read of the answer that fails is a `break` out of the outer
-- loop, and every other failure a `continue`.
abbrev pub after_file : Answer → Place
after_file hung_up = gone
after_file failed = at_top
after_file (files fs) = at_top

-- The loop that pushes the files of a list, one at a time.
unfoldable pub push_files : Client → ℕ → List Element → Client
push_files c i [] = put c i at_top
push_files c i (e ∷ es) =
    if buffer_is_full c.buffer
    then put c i (wait_push (e ∷ es))
    else put (push_one c e) i (pushing es)

-- One step of worker `i`, which is at the given place. A thread that sleeps or has ended
-- makes none.
unfoldable pub work : Client → ℕ → Place → Answer → Option Client
work c i at_top a = some (
    if buffer_is_empty c.buffer
    then put c i wait_pop
    else put (pop_one c) i (holding (buffer_pop c.buffer).0))
work c i wait_pop a = none
work c i (holding j) a =
    some (put c i (if listed c j then next_place (slot_path c j) j else at_top))
work c i (asked j) a = some (put c i (after_answer c j a))
work c i fetching a = some (put c i (after_file a))
work c i gone a = none
work c i (pushing es) a = some (push_files c i es)
work c i (wait_push es) a = none

-- The main thread pushes the element that it holds.
unfoldable pub add : Client → Element → Client
add c e =
    if buffer_is_full c.buffer
    then record c { main = wait_add e }
    else record (push_one c e) { main = waiting }

-- One step of the main thread, which is at the given place.
unfoldable pub main_step : Client → MainPlace → Action → Option Client
main_step c waiting (user_on t) =
    some (record c { list = client_list_add c.list t; main = adding (client_element t) })
main_step c waiting (user_off t) = some (record c { list = delete_from_client_list c.list t })
main_step c (adding e) main_goes_on = some (add c e)
main_step c _ _ = none

-- A step of the client; `none` where the thread sleeps or is somewhere else.
unfoldable pub act : Client → Action → Option Client
act c (worker_goes_on i a) = elim (get_elem? c.workers i) [ none ↦ none | some p ↦ work c i p a ]
act c (user_on t) = main_step c c.main (user_on t)
act c (user_off t) = main_step c c.main (user_off t)
act c main_goes_on = main_step c c.main main_goes_on

-- The steps in an order.
unfoldable pub run : List Action → Client → Option Client
run [] c = some c
run (a ∷ later) c = do c' ← act c a; run later c'
