-- ===== src/Client/FileList.antt =====
-- SysPro_Project3/src/dirControl.c: get_file_list and find_version; SysPro_Project3/src/dropbox_client.c:
-- send_file_list, and the part of work that takes the list of another client.
use systems_programming.Base.{
  ℕ, zero, suc, ◌+◌, ◌/◌, ◌%◌, ◌^◌, Bool, true, false, Option, none, some, List, [], ◌∷◌, ◌++◌, not,
  ltb, leb, ◌==◌, ◌&&◌, ◌||◌, if◌then◌else◌, length, get_or,
}
use systems_programming.Base.Fallible.{◌>>=◌}
use systems_programming.Base.CString.{CString, str_eq}
use systems_programming.Mirror.{Node, file, dir, Dir, end, entry, slash}
use systems_programming.Mirror.Send.{is_dot}
use systems_programming.ClientList.{ClientTuple}
use systems_programming.Client.{FileTuple}
use systems_programming.Server.Code

-- A digit of `%02x`.
abbrev pub hex_digit : ℕ → ℕ
hex_digit d = if ltb d 10 then 48 + d else 87 + d

abbrev pub hex : ℕ → CString
hex b = hex_digit (b / 16 % 16) ∷ hex_digit (b % 16) ∷ []

-- The loop over the digest, by the number of rounds that are left. Each round prints `c[0]`.
unfoldable pub print_digest : ℕ → List ℕ → CString → CString
print_digest zero c ret = ret
print_digest (suc n) c ret = print_digest n c (ret ++ hex (get_or c 0 0))

-- `find_version`; `md5` is the library's digest of 16 bytes.
unfoldable pub find_version : (List ℕ → List ℕ) → List ℕ → CString
unfolding print_digest
find_version md5 bytes = print_digest 15 (md5 bytes) (hex (get_or (md5 bytes) 0 0))

-- `__RSRVD` and `DIR`.
abbrev pub reserved : CString
reserved = 95 ∷ 95 ∷ 82 ∷ 83 ∷ 82 ∷ 86 ∷ 68 ∷ []

abbrev pub dir_version : CString
dir_version = 68 ∷ 73 ∷ 82 ∷ []

abbrev pub is_skipped : CString → Bool
is_skipped name = is_dot name || str_eq name reserved

-- The list with its count, and how a walk ends: with 0, with 1, with a path that does not fit into
-- the 129 bytes of a tuple, or not at all, in the loop of `find_version` on a file that is not open.
pub record FileList : Type 0 where
  pub files : List FileTuple
  pub num_of_files : ℕ

pub data Walk : Type 0 where
  done failed overflow endless : Walk

abbrev pub tuple_of : CString → CString → FileTuple
tuple_of path version = record { pathname = path; version = version }

unfoldable pub add_file : FileList → CString → CString → Walk × FileList
add_file fl path version = if leb 129 (length path) then (overflow, fl) else (
  done,
  record { files = fl.files ++ tuple_of path version ∷ []; num_of_files = fl.num_of_files + 1 },
)

-- What the calls for directories and files stand at: the path of an entry.
abbrev pub entry_path : Bool → CString → CString → CString
entry_path first_rec dir_path name = if first_rec then name else dir_path ++ slash ∷ name

-- The end of `get_file_list`, from what its loop returns; `opened` is the answer of `opendir`.
unfoldable pub close_dir :
    Bool → Bool → CString → FileList → Walk × Bool × FileList → Walk × FileList
unfolding add_file
close_dir opened first_rec dir_path fl (walk, file_found, fl') =
    if not opened then (failed, fl) else elim walk [
      | done ↦
          if not file_found && not first_rec then add_file fl' dir_path dir_version else (done, fl')
      | failed ↦ (failed, fl')
      | overflow ↦ (overflow, fl')
      | endless ↦ (endless, fl')
    ]

abbrev pub is_done : Walk → Bool
is_done done = true
is_done failed = false
is_done overflow = false
is_done endless = false

-- `may_open`: the answers of `opendir` and `open`.
module _ (version_of : List ℕ → CString) (may_open : CString → Bool) where
  unfoldable mutual
    -- The branches of the loop: a file, or a directory of its own.
    pub list_node : CString → Node → FileList → Walk × FileList
    list_node path (file bytes) fl =
        let added = add_file fl path (version_of bytes) in
        if leb 129 (length path) || may_open path then added else (endless, fl)
    list_node path (dir d) fl =
        let inside = list_entries false path d false fl in
        close_dir (may_open path) false path fl inside

    -- The loop over the entries, with `file_found`.
    pub list_entries : Bool → CString → Dir → Bool → FileList → Walk × Bool × FileList
    list_entries first_rec dir_path end file_found fl = (done, file_found, fl)
    list_entries first_rec dir_path (entry name node rest) file_found fl =
        let skipped = list_entries first_rec dir_path rest file_found fl in
        let (walk, fl') = list_node (entry_path first_rec dir_path name) node fl in
        let others = list_entries first_rec dir_path rest true fl' in
        if is_skipped name then skipped else if is_done walk then others else (walk, true, fl')

  unfoldable pub get_file_list : Bool → CString → Dir → FileList → Walk × FileList
  unfolding close_dir
  get_file_list first_rec dir_path d fl =
      close_dir (may_open dir_path) first_rec dir_path fl
        (list_entries first_rec dir_path d false fl)

-- `while (get_file_list(...) > 0)`, with the answers of `opendir` and `open` in each round. The list and the
-- count go on from round to round.
unfoldable pub list_files :
    (List ℕ → CString) → List (CString → Bool) → CString → Dir → FileList → Option FileList
unfolding get_file_list
list_files version_of [] dir_path d fl = none
list_files version_of (may_open ∷ others) dir_path d fl =
    let (walk, fl') = get_file_list version_of may_open true dir_path d fl in
    let again = list_files version_of others dir_path d fl' in
    elim walk [ done ↦ some fl' | failed ↦ again | overflow ↦ none | endless ↦ none ]

-- What goes over the socket.
pub data Part : Type 0 where
  code count : ℕ → Part
  of_file : FileTuple → Part

-- The loop over the list and the write of its last tuple; `writes i`: the write `i` succeeds.
unfoldable pub send_tuples : (ℕ → Bool) → ℕ → List FileTuple → List Part
send_tuples writes i [] = []
send_tuples writes i (t ∷ ts) =
    let rest = send_tuples writes (suc i) ts in if writes i then of_file t ∷ rest else []

unfoldable pub send_list : (ℕ → Bool) → FileList → List Part
unfolding send_tuples
send_list writes fl =
    if not (writes 0)
    then []
    else if not (writes 1)
    then code Code.file_list ∷ []
    else code Code.file_list
      ∷ count fl.num_of_files
      ∷ (if fl.num_of_files == 0 then [] else send_tuples writes 2 fl.files)

-- `none`: the walks do not end, or write behind a tuple.
unfoldable pub send_file_list :
    (List ℕ → CString) → List (CString → Bool) → (ℕ → Bool) → CString → Dir → Option (List Part)
unfolding list_files send_list
send_file_list version_of opens writes dir_path d = do
  fl ← list_files version_of opens dir_path d (record { files = []; num_of_files = 0 })
  some (send_list writes fl)

-- A slot of `tmp_array`; `none` is what `malloc` left there.
pub record Slot : Type 0 where
  pub f_tuple : Option FileTuple
  pub c_tuple : ClientTuple

-- The loop over the tuples. A `read` that fails is followed by `continue`, which is the loop's own:
-- the socket is closed, no later `read` succeeds, and the slots stay as they are.
unfoldable pub receive_tuples : ℕ → ClientTuple → List Part → List Slot
receive_tuples zero c parts = []
receive_tuples (suc n) c (of_file t ∷ parts) =
    record { f_tuple = some t; c_tuple = c } ∷ receive_tuples n c parts
receive_tuples (suc n) c _ = record { f_tuple = none; c_tuple = c } ∷ receive_tuples n c []

-- What is pushed into the buffer. `num_of_files` is an int: from 2^31 on it is negative.
unfoldable pub receive_file_list : ClientTuple → List Part → List Slot
unfolding receive_tuples
receive_file_list c (code answer ∷ code msg ∷ count n ∷ parts) =
    if not (answer == Code.ok)
    then []
    else if not (msg == Code.file_list)
    then []
    else receive_tuples (if ltb n (2 ^ 31) then n else 0) c parts
receive_file_list c _ = []
