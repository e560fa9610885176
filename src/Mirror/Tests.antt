-- ===== src/Mirror/Tests.antt =====
-- Transfers of a small directory.
use systems_programming.Base.{
  ℕ, ◌≡◌, refl, true, none, some, List, [], ◌∷◌, arith, leb, if◌then◌else◌,
}
use systems_programming.Base.CString.{strcmp}
use systems_programming.Mirror.{Dir, end, entry, file, dir, System, dot, dot_dot}
use systems_programming.Mirror.Send.{sync_send}
use systems_programming.Mirror.Receive.{
  Mirror, begin, sync_receive, receive_files, read, read_chunks, read_file, read_file_path,
  read_unchecked, keep, c_string, strtok, make_tree, made_dirs, ends_in_slash,
}
use systems_programming.Mirror.Listing.{items, items_below, recreate}
use systems_programming.Mirror.RoundTrip.{sync_receive-sync_send}

-- A pipe whose reads are never short.
abbrev calm : System
calm = record {
  write_ok = λ pipe. true;
  may_open = λ path. true;
  how_many = λ n pipe. some n;
  may_create = λ path. true;
  storage = 7 ∷ 7 ∷ 7 ∷ 7 ∷ [];
}

-- A pipe whose reads return at most two bytes.
abbrev short_reads : System
short_reads = record calm { how_many = λ n pipe. some (if leb n 2 then n else 2) }

-- `a/b` with five bytes, an empty `c` without bytes, and the empty directory `a/d`.
abbrev input : Dir
input = entry dot (dir end) (
    entry (97 ∷ [])
      (dir (entry (98 ∷ []) (file (1 ∷ 2 ∷ 3 ∷ 4 ∷ 5 ∷ [])) (entry (100 ∷ []) (dir end) end)))
      (entry dot_dot (dir end) (entry (99 ∷ []) (file []) end)))

abbrev mirrored : Mirror
mirrored = record {
  dirs = (97 ∷ []) ∷ (97 ∷ []) ∷ (97 ∷ 47 ∷ 100 ∷ []) ∷ [];
  files = (97 ∷ 47 ∷ 98 ∷ [], 1 ∷ 2 ∷ 3 ∷ 4 ∷ 5 ∷ []) ∷ (99 ∷ [], []) ∷ [];
}

sync_receive-sync_send_example :
    (pipe : List ℕ) × (sync_send calm 3 input [] ≡ some pipe)
    × (sync_receive calm 4 9 pipe
        ≡ some (recreate (record { dirs = []; files = [] }) (items input), []))
unfolding items items_below strcmp
sync_receive-sync_send_example =
    sync_receive-sync_send calm calm 3 4 9 input
      (record {
        writes = λ pipe. refl;
        opens = λ path. refl;
        room = omega arith;
        positive = omega arith;
      })
      (record {
        reads = λ n pipe h. refl;
        creates = λ path. refl;
        room = omega arith;
        positive = omega arith;
      })
      (ground arith) (omega arith)

-- The same by running the code.
the_mirror : recreate (record { dirs = []; files = [] }) (items input) ≡ mirrored
unfolding items recreate strcmp items_below
the_mirror = refl

-- A short read shifts what follows: the old bytes of the buffer are taken for those not read.
short_read : sync_receive short_reads 4 9 (3 ∷ 0 ∷ 97 ∷ 47 ∷ 98 ∷ 0 ∷ 0 ∷ 0 ∷ 0 ∷ 0 ∷ 0 ∷ []) ≡ none
unfolding sync_receive begin receive_files read read_chunks read_file read_file_path read_unchecked
    keep strcmp c_string strtok make_tree made_dirs ends_in_slash
short_read = refl
