-- ===== src/Client/Sharing.antt =====
-- `send_file_list` and its other side: the list arrives.
use systems_programming.Base.{
  ℕ, suc, ◌+◌, ◌<◌, ◌^◌, ◌≡◌, refl, ap, ◌∙◌, Bool, true, none, some, List, [], ◌∷◌, length, map,
  arith, lt→ltb,
}
use systems_programming.Base.CString.{CString}
use systems_programming.Mirror.{Dir}
use systems_programming.ClientList.{ClientTuple}
use systems_programming.Server.Code
use systems_programming.Client.{FileTuple}
use systems_programming.Client.FileList.{
  FileList, done, failed, overflow, endless, get_file_list, list_files, Part, code, count, of_file,
  send_tuples, send_list, send_file_list, Slot, receive_tuples, receive_file_list,
}
use systems_programming.Client.Listing.{get_file_list-tuples}
use systems_programming.Client.Tuples.{tuples_in, HasShortPaths}

send_tuples-all :
    (writes : ℕ → Bool)
    → ((i : ℕ) → writes i ≡ true)
    → (i : ℕ) (ts : List FileTuple) → send_tuples writes i ts ≡ map of_file ts
unfolding send_tuples
send_tuples-all writes ok i [] = refl
send_tuples-all writes ok i (t ∷ ts) = rw (ok i, send_tuples-all writes ok (suc i) ts) refl

-- A slot that is filled.
abbrev pub filled : ClientTuple → FileTuple → Slot
filled c t = record { f_tuple = some t; c_tuple = c }

receive_tuples-all :
    (c : ClientTuple) (ts : List FileTuple)
    → receive_tuples (length ts) c (map of_file ts) ≡ map (filled c) ts
unfolding receive_tuples
receive_tuples-all c [] = refl
receive_tuples-all c (t ∷ ts) = rw (receive_tuples-all c ts) refl

send_list-all :
    (writes : ℕ → Bool)
    → ((i : ℕ) → writes i ≡ true)
    → (ts : List FileTuple)
    → send_list writes (record { files = ts; num_of_files = length ts })
      ≡ code Code.file_list ∷ count (length ts) ∷ map of_file ts
unfolding send_list
send_list-all writes ok [] = rw (ok 0, ok 1) refl
send_list-all writes ok (t ∷ ts) =
    rw (ok 0, ok 1, send_tuples-all writes ok 2 (t ∷ ts)) (ground arith)

receive_list-all :
    (c : ClientTuple) (ts : List FileTuple)
    → length ts < 2 ^ 31
    → receive_file_list c (code Code.ok ∷ code Code.file_list ∷ count (length ts) ∷ map of_file ts)
      ≡ map (filled c) ts
unfolding receive_file_list
receive_list-all c ts few = rw (lt→ltb (length ts) (2 ^ 31) few) (receive_tuples-all c ts)

-- The first round of the loop is the last one when it returns 0.
first_round :
    (version_of : List ℕ → CString) (may_open : CString → Bool) (others : List (CString → Bool))
    (path : CString) (d : Dir) (fl fl' : FileList)
    → get_file_list version_of may_open true path d fl ≡ (done, fl')
    → list_files version_of (may_open ∷ others) path d fl ≡ some fl'
unfolding list_files
first_round version_of may_open others path d fl fl' runs =
    ap
      (λ r. elim r.0 [
        | done ↦ some r.1
        | failed ↦ list_files version_of others path d r.1
        | overflow ↦ none
        | endless ↦ none
      ])
      runs

-- A client sends its list of files to another one. Every opendir, every open and every write succeeds, every
-- path has fewer than 129 characters, and there are fewer than 2^31 files. Then the other client,
-- which has read OK before, puts into its array exactly one element for each file below the
-- directory, and one for each directory below it that has nothing in it, in the order in which they
-- are met, with path, version and sender, and nothing under the entries `.`, `..` and `__RSRVD`.
pub receive_file_list-send_file_list :
    (version_of : List ℕ → CString) (may_open : CString → Bool) (others : List (CString → Bool))
    (writes : ℕ → Bool) (path : CString) (d : Dir) (c : ClientTuple)
    → ((path : CString) → may_open path ≡ true)
    → ((i : ℕ) → writes i ≡ true)
    → HasShortPaths (tuples_in version_of true path d)
    → length (tuples_in version_of true path d) < 2 ^ 31
    → (parts : List Part) × (send_file_list version_of (may_open ∷ others) writes path d
        ≡ some parts)
      × (receive_file_list c (code Code.ok ∷ parts)
          ≡ map (filled c) (tuples_in version_of true path d))
unfolding send_file_list
receive_file_list-send_file_list version_of may_open others writes path d c opens ok short few =
    let ts = tuples_in version_of true path d in
    let nothing : FileList = record { files = []; num_of_files = 0 } in
    let n : 0 + length ts ≡ length ts = omega arith in
    let runs : get_file_list version_of may_open true path d
          (record { files = []; num_of_files = 0 })
        ≡ (done, record { files = ts; num_of_files = length ts }) =
      get_file_list-tuples version_of may_open opens path d
        (record { files = []; num_of_files = 0 }) short
      ∙ ap (λ k. (done, record { files = ts; num_of_files = k })) n in
    (
      code Code.file_list ∷ count (length ts) ∷ map of_file ts,
      rw
          (
            first_round version_of may_open others path d nothing
                (record { files = ts; num_of_files = length ts }) runs,
            send_file_list,
          )
          (ap some (send_list-all writes ok ts)),
      receive_list-all c ts few,
    )
