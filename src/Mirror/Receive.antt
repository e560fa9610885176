-- ===== src/Mirror/Receive.antt =====
-- SysPro_Project2/src/mirror_client/sync_receive.c: recreating what comes out of the pipe.
use systems_programming.Base.{
  ℕ, zero, suc, ◌-◌, min, Bool, true, false, Option, none, some, List, [], ◌∷◌, ◌++◌, leb, ◌==◌,
  ◌||◌, if◌then◌else◌, length, take, drop,
}
use systems_programming.Base.Chunks.{fill}
use systems_programming.Base.Fallible.{◌>>=◌}
use systems_programming.Base.CString.{CString, str_eq}
use systems_programming.Mirror.{System, slash, number, append_to_rel_path}

-- What was made in the mirror directory: the arguments of `mkdir`, and each file with what was
-- written to it, in the order of the calls.
pub record Mirror : Type 0 where
  pub dirs : List CString
  pub files : List (CString × List ℕ)

-- The C string at the start of an array.
unfoldable pub c_string : List ℕ → CString
c_string [] = []
c_string (c ∷ cs) = let rest = c_string cs in if c == 0 then [] else c ∷ rest

-- A token is not empty.
abbrev pub end_token : CString → List CString → List CString
end_token [] tokens = tokens
end_token (c ∷ cs) tokens = (c ∷ cs) ∷ tokens

-- The tokens that `strtok` returns one after the other, for the delimiter `/`; the first argument
-- holds the token that has begun.
unfoldable pub strtok : CString → CString → List CString
strtok token [] = end_token token []
strtok token (c ∷ s) =
    let more = strtok (token ++ c ∷ []) s in
    let next = strtok [] s in if c == slash then end_token token next else more

-- The loop over the tokens behind the first one: the directories it makes.
unfoldable pub make_tree : CString → CString → List CString → List CString
make_tree path tree [] = []
make_tree path tree (token ∷ tokens) =
    let tree' = append_to_rel_path tree token in
    let rest = make_tree path tree' tokens in if str_eq path tree' then [] else tree' ∷ rest

-- The directories that `read_file_path` makes; `none` where `strcmp` gets a NULL token.
unfoldable pub made_dirs : CString → Option (List CString)
made_dirs path = elim (strtok [] path) [
  | [] ↦ none
  | token ∷ tokens ↦ some (if str_eq token path then [] else token ∷ make_tree path token tokens)
]

-- `path[strlen(path) - 1] == '/'`
unfoldable pub ends_in_slash : CString → Bool
ends_in_slash [] = false
ends_in_slash (c ∷ s) = elim s [ [] ↦ c == slash | _ ∷ _ ↦ ends_in_slash s ]

-- The files of the mirror: what is written for a path that ends in `/` goes to no file.
unfoldable pub keep : Mirror → CString → List CString → List ℕ → Mirror
keep m path made contents = record {
  dirs = m.dirs ++ made;
  files = if ends_in_slash path then m.files else m.files ++ (path, contents) ∷ [];
}

module _ (os : System) (max_buffsize : ℕ) where
  -- `read` into a buffer: what the buffer holds behind the bytes that were read stays.
  unfoldable pub read : ℕ → List ℕ → List ℕ → Option (List ℕ × List ℕ)
  read n buffer pipe = do
    k ← os.how_many n pipe
    let got = min k (min n (length pipe))
    some (fill got buffer pipe, drop got pipe)

  -- The loop of `read_file_path` and that of `read_file`, and what follows it: `done` is what the
  -- path or the file holds so far.
  unfoldable pub read_chunks : ℕ → List ℕ → ℕ → List ℕ → List ℕ → Option (List ℕ × List ℕ)
  read_chunks zero buffer remaining done pipe = none
  read_chunks (suc fuel) buffer remaining done pipe = elim (leb max_buffsize remaining) [
    | true ↦ do
      (buffer', pipe') ← read max_buffsize buffer pipe
      read_chunks fuel buffer' (remaining - max_buffsize) (done ++ take max_buffsize buffer') pipe'
    | false ↦ do
      (buffer', pipe') ← read remaining buffer pipe
      some (done ++ take remaining buffer', pipe')
  ]

  -- The path and the directories made for it. A file is created, a path that ends in `/` is not.
  unfoldable pub read_file_path : ℕ → List ℕ → Option (CString × List CString × List ℕ)
  read_file_path path_length pipe = do
    (bytes, pipe') ← read_chunks (suc path_length) os.storage path_length [] pipe
    let path = c_string bytes
    made ← made_dirs path
    if ends_in_slash path || os.may_create path then some (path, made, pipe') else none

  unfoldable pub read_file : ℕ → List ℕ → Option (List ℕ × List ℕ)
  read_file file_size pipe = elim (file_size == 0) [
    | true ↦ some ([], pipe)
    | false ↦ read_chunks (suc file_size) os.storage file_size [] pipe
  ]

  -- `read` whose result is ignored.
  unfoldable pub read_unchecked : ℕ → List ℕ → List ℕ → List ℕ × List ℕ
  read_unchecked n buffer pipe = elim (read n buffer pipe) [ none ↦ (buffer, pipe) | some r ↦ r ]

  -- The loop of `main`. `path_length` and `file_size` are the bytes of these variables.
  unfoldable pub receive_files : ℕ → List ℕ → List ℕ → Mirror → List ℕ → Option (Mirror × List ℕ)
  receive_files zero path_length file_size m pipe = none
  receive_files (suc fuel) path_length file_size m pipe = do
    (path, made, pipe') ← read_file_path (number path_length) pipe
    (file_size', pipe') ← read 4 file_size pipe'
    (contents, pipe') ← read_file (number file_size') pipe'
    let m' = keep m path made contents
    let (path_length', pipe') = read_unchecked 2 path_length pipe'
    elim (number path_length' == 0) [
      | true ↦ some (m', pipe')
      | false ↦ receive_files fuel path_length' file_size' m' pipe'
    ]

  -- `main` behind its first `read` of a length.
  unfoldable pub begin : ℕ → List ℕ × List ℕ → Option (Mirror × List ℕ)
  begin fuel (path_length, pipe) =
      let empty : Mirror = record { dirs = []; files = [] } in
      elim (number path_length == 0) [
        | true ↦ some (empty, pipe)
        | false ↦ receive_files fuel path_length (0 ∷ 0 ∷ 0 ∷ 0 ∷ []) empty pipe
      ]

  unfoldable pub sync_receive : ℕ → List ℕ → Option (Mirror × List ℕ)
  sync_receive fuel pipe = begin fuel (read_unchecked 2 (0 ∷ 0 ∷ []) pipe)
