-- ===== src/Mirror/Send.antt =====
-- SysPro_Project2/src/mirror_client/sync_send.c: sending the input directory.
use systems_programming.Base.{
  ℕ, zero, suc, ◌-◌, ◌%◌, ◌^◌, Bool, true, false, Option, none, some, List, [], ◌++◌, leb, ◌==◌,
  ◌||◌, if◌then◌else◌, length, take, drop,
}
use systems_programming.Base.Chunks.{fill, read_bytes}
use systems_programming.Base.Fallible.{◌>>=◌}
use systems_programming.Base.CString.{CString, str_eq}
use systems_programming.Mirror.{
  Node, file, dir, Dir, end, entry, System, dot, dot_dot, short_bytes, unsigned_bytes,
  append_to_rel_path,
}

-- The names that `readdir` returns for the directory itself and for its parent.
abbrev pub is_dot : CString → Bool
is_dot name = str_eq name dot || str_eq name dot_dot

module _ (os : System) (max_buffsize : ℕ) where
  unfoldable pub write : List ℕ → List ℕ → Option (List ℕ)
  write pipe bytes = if os.write_ok pipe then some (pipe ++ bytes) else none

  -- One loop of `sync_send_file` and what follows it: pieces of `max_buffsize` bytes through the
  -- buffer, then the remaining ones. `load` fills the buffer from what is left of the source.
  unfoldable pub send_chunks :
      (ℕ → List ℕ → List ℕ → List ℕ) → ℕ → List ℕ → ℕ → List ℕ → List ℕ → Option (List ℕ × List ℕ)
  send_chunks load zero buffer remaining source pipe = none
  send_chunks load (suc fuel) buffer remaining source pipe = elim (leb max_buffsize remaining) [
    | true ↦
        let buffer' = load max_buffsize buffer source in
        do
          pipe' ← write pipe (take max_buffsize buffer')
          send_chunks load fuel buffer' (remaining - max_buffsize) (drop max_buffsize source) pipe'
    | false ↦
        let buffer' = load remaining buffer source in
        do pipe' ← write pipe (take remaining buffer'); some (buffer', pipe')
  ]

  -- The path is at most as long as `length` says, and the file as long as `file_size`.
  unfoldable pub sync_send_file : CString → Option (List ℕ) → List ℕ → Option (List ℕ)
  sync_send_file path contents pipe =
      let path_length = length path % 2 ^ 16 in
      do
        pipe' ← write pipe (short_bytes path_length)
        (buffer, pipe') ← send_chunks fill (suc path_length) os.storage path_length path pipe'
        elim contents [
          | none ↦ write pipe' (unsigned_bytes 0)
          | some bytes ↦
              let file_size = length bytes % 2 ^ 32 in
              do
                pipe' ← write pipe' (unsigned_bytes file_size)
                elim (file_size == 0) [
                  | true ↦ some pipe'
                  | false ↦ do
                    (_, pipe') ← send_chunks read_bytes (suc file_size) buffer file_size bytes pipe'
                    some pipe'
                ]
        ]

  unfoldable mutual
    -- The branches of both loops over a directory: a file, or a directory of its own.
    pub sync_send_node : CString → Node → List ℕ → Option (List ℕ)
    sync_send_node path (file bytes) pipe = sync_send_file path (some bytes) pipe
    sync_send_node path (dir d) pipe =
        let sent = sync_send_entries path d false pipe in
        if os.may_open path
        then (do
          (file_found, pipe') ← sent
          if file_found then some pipe' else sync_send_file (append_to_rel_path path []) none pipe')
        else none

    -- The loop of `sync_send_dir`, with `file_found`.
    pub sync_send_entries : CString → Dir → Bool → List ℕ → Option (Bool × List ℕ)
    sync_send_entries path end file_found pipe = some (file_found, pipe)
    sync_send_entries path (entry name node rest) file_found pipe =
        let skipped = sync_send_entries path rest file_found pipe in
        let sent = (do
          pipe' ← sync_send_node (append_to_rel_path path name) node pipe
          sync_send_entries path rest true pipe') in
        if is_dot name then skipped else sent

  -- The loop of `main` over the input directory, and the two zero bytes behind it.
  unfoldable pub sync_send : Dir → List ℕ → Option (List ℕ)
  sync_send end pipe = write pipe (short_bytes 0)
  sync_send (entry name node rest) pipe =
      let skipped = sync_send rest pipe in
      let sent = (do pipe' ← sync_send_node name node pipe; sync_send rest pipe') in
      if is_dot name then skipped else sent
