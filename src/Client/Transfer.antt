-- ===== src/Client/Transfer.antt =====
-- SysPro_Project3/src/dropbox_client.c: send_file and the part of work that asks for a file. The
-- version of a file's contents, which `find_version` prints, is a parameter.
use systems_programming.Base.{
  ℕ, zero, suc, ◌-◌, min, Bool, true, false, Option, none, some, List, [], ◌++◌, not, leb, ◌==◌,
  if◌then◌else◌, length, take, drop,
}
use systems_programming.Base.Chunks.{fill, read_bytes}
use systems_programming.Base.Fallible.{◌>>=◌}
use systems_programming.Base.CString.{CString, str_eq}
use systems_programming.Client.{FileTuple}

-- The sender's calls: `digest` is the version that `find_version` prints
-- for a file's bytes, `open_file` the bytes of a file
-- that exists, `sends` whether a write to the socket succeeds when these bytes of the file are
-- sent. The receiver's: `how_many`, the result of a `read` of so many bytes from a socket that
-- holds these, `none` for -1. `storage` is what the 129 bytes of a buffer hold at first.
pub record Calls : Type 0 where
  pub digest : List ℕ → CString
  pub open_file : CString → Option (List ℕ)
  pub sends : List ℕ → Bool
  pub how_many : ℕ → List ℕ → Option ℕ
  pub storage : List ℕ

-- What is written to the socket behind OK: FILE_NOT_FOUND, FILE_UP_TO_DATE, or FILE_SIZE with the
-- version, the size and the bytes.
pub data Reply : Type 0 where
  not_found up_to_date : Reply
  sized : CString → ℕ → List ℕ → Reply

-- Writing to a file from its start: it is opened without O_TRUNC.
unfoldable pub overwrite : Option (List ℕ) → List ℕ → List ℕ
overwrite none bytes = bytes
overwrite (some old) bytes = bytes ++ drop (length bytes) old

module _ (os : Calls) where
  -- The loop over the file and what follows it. The last `read` asks for 128 bytes too.
  unfoldable pub send_data : ℕ → List ℕ → ℕ → List ℕ → List ℕ → Option (List ℕ)
  send_data zero buffer remaining file sent = none
  send_data (suc fuel) buffer remaining file sent =
      let buffer' = read_bytes 128 buffer file in
      elim (os.sends sent) [
        | false ↦ none
        | true ↦ elim (leb 128 remaining) [
          | true ↦
              send_data fuel buffer' (remaining - 128) (drop 128 file) (sent ++ take 128 buffer')
          | false ↦ some (sent ++ take remaining buffer')
        ]
      ]

  -- `none`: a write fails, and the function returns 1.
  unfoldable pub send_file : FileTuple → Option Reply
  send_file ft = elim (os.open_file ft.pathname) [
    | none ↦ if os.sends [] then some not_found else none
    | some bytes ↦
        if not (os.sends [])
        then none
        else if str_eq (os.digest bytes) ft.version
        then some up_to_date
        else (do
          sent ←
              if length bytes == 0
              then some []
              else send_data (suc (length bytes)) os.storage (length bytes) bytes []
          some (sized (os.digest bytes) (length bytes) sent))
  ]

  -- The loop over the socket and what follows it. A `read` that fails or finds nothing is followed
  -- by `continue`, which is the loop's own, so it goes on with the same `remaining`.
  unfoldable pub receive_data : ℕ → List ℕ → ℕ → List ℕ → List ℕ → Option (List ℕ)
  receive_data zero buffer remaining done socket = none
  receive_data (suc fuel) buffer remaining done socket = elim (leb 128 remaining) [
    | true ↦ elim (os.how_many 128 socket) [
      | none ↦ receive_data fuel buffer remaining done socket
      | some zero ↦ receive_data fuel buffer remaining done socket
      | some (suc k) ↦
          let got = min (suc k) (min 128 (length socket)) in
          let buffer' = fill got buffer socket in
          receive_data fuel buffer' (remaining - 128) (done ++ take 128 buffer') (drop got socket)
    ]
    | false ↦ elim (os.how_many remaining socket) [
      | none ↦ some done
      | some k ↦
          let got = min k (min remaining (length socket)) in
          some (done ++ take remaining (fill got buffer socket))
    ]
  ]

  -- What the answer makes of the local file.
  unfoldable pub take_reply : ℕ → Option (List ℕ) → Reply → Option (Option (List ℕ))
  take_reply fuel old not_found = some old
  take_reply fuel old up_to_date = some old
  take_reply fuel old (sized version file_size data') = do
    bytes ← if file_size == 0 then some [] else receive_data fuel os.storage file_size [] data'
    some (some (overwrite old bytes))

  -- The version that the request carries: none for a file that is not there.
  unfoldable pub local_version : Option (List ℕ) → CString
  local_version none = []
  local_version (some old) = os.digest old

  -- The whole exchange for one path.
  unfoldable pub get_file : ℕ → CString → Option (List ℕ) → Option (Option (List ℕ))
  get_file fuel path old = do
    reply ← send_file (record { pathname = path; version = local_version old })
    take_reply fuel old reply
