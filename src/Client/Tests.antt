-- ===== src/Client/Tests.antt =====
-- Runs of small clients: the witnesses, and the orders of steps in which the threads go wrong.
use systems_programming.Base.{ℕ, ◌≡◌, refl, true, none, some, List, [], ◌∷◌, arith}
use systems_programming.ClientList.{ClientTuple, in_client_list, client_list_add}
use systems_programming.Buffer.{buffer_is_empty, buffer_is_full, buffer_push, buffer_pop, buffer_at}
use systems_programming.Client.{
  FileTuple, Element, client_element, Place, at_top, wait_pop, holding, pushing, wait_push, waiting,
  adding, wait_add, Client, failed, files, Action, user_on, main_goes_on, worker_goes_on,
  no_element, push_one, pop_one, listed, slot_path, after_answer, push_files, work, add, main_step,
  act, run,
}
use systems_programming.Client.Order.{run-IsClient}
use systems_programming.Client.Due.{IsClient}
use systems_programming.Client.Clogged.{IsClogged, run-IsClogged}
use systems_programming.Client.Pointer.{IsSingle, run-IsSingle}

-- A client with a buffer of the given size and its workers, before it is told of others.
abbrev fresh : List Element → ℕ → List Place → Client
fresh storage size workers = record {
  list = [];
  buffer = record { circ_buffer = storage; size = size; read = 0; write = 0 };
  main = waiting;
  workers = workers;
  pushed = [];
  popped = [];
}

abbrev ann : ClientTuple
ann = record { ip_address = 1; port_num = 80 }

abbrev bob : ClientTuple
bob = record { ip_address = 2; port_num = 80 }

abbrev cas : ClientTuple
cas = record { ip_address = 3; port_num = 80 }

abbrev note : FileTuple
note = record { pathname = 110 ∷ []; version = [] }

abbrev small : Client
small = fresh (no_element ∷ no_element ∷ []) 2 (at_top ∷ [])

abbrev wide : Client
wide = fresh (no_element ∷ no_element ∷ no_element ∷ []) 3 (at_top ∷ at_top ∷ [])

abbrev go : ℕ → Action
go i = worker_goes_on i failed

small-IsClient : IsClient small
small-IsClient = record {
  ring = record {
    storage = omega arith;
    small = omega arith;
    read_in = omega arith;
    write_in = omega arith;
  };
  order = refl;
  due = (record {}, record {});
  main_due = record {};
}

-- Ann logs on, is popped, and sends a list of one file.
abbrev steps : List Action
steps = user_on ann ∷ main_goes_on ∷ go 0 ∷ go 0 ∷ worker_goes_on 0 (files (note ∷ [])) ∷ []

abbrev later : Client
later = record small {
  list = ann ∷ [];
  buffer = record {
    circ_buffer = client_element ann ∷ no_element ∷ [];
    size = 2;
    read = 1;
    write = 1;
  };
  workers = pushing (record { f_tuple = note; c_tuple = ann } ∷ []) ∷ [];
  pushed = client_element ann ∷ [];
  popped = client_element ann ∷ [];
}

runs : run steps small ≡ some later
unfolding run act main_step work push_files add push_one pop_one listed slot_path after_answer
    buffer_push buffer_pop buffer_is_empty buffer_is_full client_list_add in_client_list
runs = refl

run-IsClient_example : IsClient later
run-IsClient_example = run-IsClient steps small later small-IsClient runs

run-IsSingle_example : IsSingle later
run-IsSingle_example =
    run-IsSingle steps small later small-IsClient
      (record { place = at_top; alone = refl; good = record {} }) runs

-- The list has a second file, and the buffer room for one: the only worker cannot push it.
abbrev clogging : List Action
clogging =
    user_on ann
    ∷ main_goes_on
    ∷ go 0
    ∷ go 0
    ∷ worker_goes_on 0 (files (note ∷ note ∷ []))
    ∷ go 0
    ∷ []

abbrev note_of_ann : Element
note_of_ann = record { f_tuple = note; c_tuple = ann }

abbrev clogged : Client
clogged = record small {
  list = ann ∷ [];
  buffer = record {
    circ_buffer = client_element ann ∷ note_of_ann ∷ [];
    size = 2;
    read = 1;
    write = 0;
  };
  workers = pushing (note_of_ann ∷ []) ∷ [];
  pushed = client_element ann ∷ note_of_ann ∷ [];
  popped = client_element ann ∷ [];
}

becomes_clogged : run clogging small ≡ some clogged
unfolding run act main_step work push_files add push_one pop_one listed slot_path after_answer
    buffer_push buffer_pop buffer_is_empty buffer_is_full client_list_add in_client_list
becomes_clogged = refl

-- From there the worker falls asleep, and the main thread after the next client.
abbrev asleep : Client
asleep = record clogged {
  list = ann ∷ bob ∷ [];
  main = wait_add (client_element bob);
  workers = wait_push (note_of_ann ∷ []) ∷ [];
}

run-IsClogged_example :
    IsClogged asleep × (asleep.buffer ≡ clogged.buffer) × (asleep.popped ≡ clogged.popped)
unfolding run act main_step work push_files add push_one pop_one listed slot_path after_answer
    buffer_push buffer_pop buffer_is_empty buffer_is_full client_list_add in_client_list
run-IsClogged_example =
    run-IsClogged (go 0 ∷ user_on bob ∷ main_goes_on ∷ []) clogged asleep
      (record { full = refl; stuck = refl }) refl

-- The same with a second worker that has not begun.
abbrev clogged_other : Client
clogged_other = record clogged { workers = pushing (note_of_ann ∷ []) ∷ at_top ∷ [] }

abbrev told : Client
told = record small { list = ann ∷ []; main = adding (client_element ann) }

told-IsClient : IsClient told
told-IsClient = record {
  ring = small-IsClient.ring;
  order = refl;
  due = (record {}, record {});
  main_due = record {};
}

-- Two workers: the first sleeps with a file to push, the second takes what is there, and all
-- threads sleep or wait although the buffer is empty.
abbrev stranding : List Action
stranding =
    user_on ann
    ∷ main_goes_on
    ∷ go 0
    ∷ go 0
    ∷ worker_goes_on 0 (files (note ∷ note ∷ []))
    ∷ go 0
    ∷ go 0
    ∷ go 1
    ∷ go 1
    ∷ go 1
    ∷ go 1
    ∷ []

abbrev stranded : Client
stranded = record clogged {
  buffer = record {
    circ_buffer = client_element ann ∷ note_of_ann ∷ [];
    size = 2;
    read = 0;
    write = 0;
  };
  workers = wait_push (note_of_ann ∷ []) ∷ wait_pop ∷ [];
  popped = client_element ann ∷ note_of_ann ∷ [];
}

becomes_stranded :
    run stranding (fresh (no_element ∷ no_element ∷ []) 2 (at_top ∷ at_top ∷ [])) ≡ some stranded
unfolding run act main_step work push_files add push_one pop_one listed slot_path after_answer
    buffer_push buffer_pop buffer_is_empty buffer_is_full client_list_add in_client_list
becomes_stranded = refl

no_thread_moves :
    (act stranded (go 0) ≡ none)
    × (act stranded (go 1) ≡ none)
    × (act stranded main_goes_on ≡ none)
    × (buffer_is_empty stranded.buffer ≡ true)
unfolding run act main_step work push_files add push_one pop_one listed slot_path after_answer
    buffer_push buffer_pop buffer_is_empty buffer_is_full client_list_add in_client_list
no_thread_moves = (refl, refl, refl, refl)

-- Two workers with a pointer each: the slot of the first is filled again before it is read.
abbrev overwriting : List Action
overwriting =
    user_on ann
    ∷ main_goes_on
    ∷ go 0
    ∷ user_on bob
    ∷ main_goes_on
    ∷ go 1
    ∷ user_on cas
    ∷ main_goes_on
    ∷ user_on bob
    ∷ main_goes_on
    ∷ []

abbrev overwritten : Client
overwritten = record {
  list = ann ∷ bob ∷ cas ∷ bob ∷ [];
  buffer = record {
    circ_buffer = client_element bob ∷ client_element bob ∷ client_element cas ∷ [];
    size = 3;
    read = 2;
    write = 1;
  };
  main = waiting;
  workers = holding 0 ∷ holding 1 ∷ [];
  pushed = client_element ann ∷ client_element bob ∷ client_element cas ∷ client_element bob ∷ [];
  popped = client_element ann ∷ client_element bob ∷ [];
}

pointer_overwritten :
    (run overwriting wide ≡ some overwritten)
    × (buffer_at overwritten.buffer 0 ≡ some (client_element bob))
unfolding run act main_step work push_files add push_one pop_one listed slot_path after_answer
    buffer_push buffer_pop buffer_is_empty buffer_is_full client_list_add in_client_list
pointer_overwritten = (refl, refl)
