-- ===== src/Client/Exchange.antt =====
-- What a client gets when it asks another one for a file.
use systems_programming.Base.{
  ℕ, zero, suc, ◌-◌, ◌≤◌, ◌<◌, ◌≡◌, refl, ap, ◌∙◌, ◌⊎◌, min, true, false, Option, none, some, List,
  [], ◌∷◌, ◌++◌, leb, ◌==◌, if◌then◌else◌, length, take, drop, arith, inl, inr, Bool-cases,
  Option-cases,
}
use mathlib.Core.List.{append_assoc}
use systems_programming.Base.Chunks.{
  fill, length-fill, take-fill, length-drop, append-take-drop, take-all,
}
use systems_programming.Base.CString.{CString, str_eq}
use systems_programming.Client.{FileTuple}
use systems_programming.Client.Transfer.{
  Calls, Reply, not_found, up_to_date, sized, send_data, send_file, receive_data, overwrite,
  take_reply, local_version, get_file,
}

-- No call on the socket fails, a read returns all the bytes that it asks for and that there are,
-- and the buffers have their 129 bytes.
pub record IsCalm (os : Calls) : Type 0 where
  pub writes : (sent : List ℕ) → os.sends sent ≡ true
  pub reads : (n : ℕ) (socket : List ℕ) → n ≤ length socket → os.how_many n socket ≡ some n
  pub room : length os.storage ≡ 129

module _ (os : Calls) where
  send_data-all :
      IsCalm os
      → (fuel : ℕ) (buffer : List ℕ) (remaining : ℕ) (file sent : List ℕ) → remaining < fuel
      → 128 ≤ length buffer
      → remaining ≡ length file
      → send_data os fuel buffer remaining file sent ≡ some (sent ++ file)
  unfolding send_data
  send_data-all ok zero buffer remaining file sent h b r = absurd (omega arith)
  send_data-all ok (suc fuel) buffer remaining file sent h b r =
      elim (Bool-cases (leb 128 remaining)) [
        | inl e ↦
            let n : 128 ≤ length file = ground arith in
            let m : min 128 (length file) ≡ 128 = omega arith in
            let len = length-fill 128 buffer file in
            let left = length-drop 128 file in
            rw
              (
                ok.writes sent,
                send_data,
                e,
                m,
                take-fill 128 buffer file b n,
                send_data-all ok fuel (fill 128 buffer file) (remaining - 128) (drop 128 file)
                    (sent ++ take 128 file) (omega arith) (omega arith) (omega arith),
              )
              (ap some (
                append_assoc sent (take 128 file) (drop 128 file)
                ∙ ap (λ xs. sent ++ xs) (append-take-drop 128 file)))
        | inr e ↦
            let n : length file < 128 = ground arith in
            let m : min 128 (length file) ≡ length file = omega arith in
            rw
              (
                ok.writes sent,
                send_data,
                e,
                m,
                r,
                take-fill (length file) buffer file (omega arith) (omega arith),
                take-all file,
              )
              refl
      ]

  receive_data-all :
      IsCalm os
      → (fuel : ℕ) (buffer : List ℕ) (remaining : ℕ) (done socket : List ℕ) → remaining < fuel
      → 128 ≤ length buffer
      → remaining ≡ length socket
      → receive_data os fuel buffer remaining done socket ≡ some (done ++ socket)
  unfolding receive_data
  receive_data-all ok zero buffer remaining done socket h b r = absurd (omega arith)
  receive_data-all ok (suc fuel) buffer remaining done socket h b r =
      elim (Bool-cases (leb 128 remaining)) [
        | inl e ↦
            let n : 128 ≤ length socket = ground arith in
            let m : min 128 (min 128 (length socket)) ≡ 128 = omega arith in
            let len = length-fill 128 buffer socket in
            let left = length-drop 128 socket in
            let rest =
              receive_data-all ok fuel (fill 128 buffer socket) (remaining - 128)
                (done ++ take 128 socket) (drop 128 socket) (omega arith) (omega arith)
                (omega arith) in
            rw (e, receive_data, ok.reads 128 socket n, m, take-fill 128 buffer socket b n, rest)
              (ap some (
                append_assoc done (take 128 socket) (drop 128 socket)
                ∙ ap (λ xs. done ++ xs) (append-take-drop 128 socket)))
        | inr e ↦
            let n : remaining < 128 = ground arith in
            let m : min remaining (min remaining (length socket)) ≡ remaining = omega arith in
            rw
              (
                e,
                receive_data,
                ok.reads remaining socket (omega arith),
                m,
                take-fill remaining buffer socket (omega arith) (omega arith),
                r,
                take-all socket,
              )
              refl
      ]

  -- A worker whose reads of a file fail while 128 bytes or more are to come goes round its loop for
  -- ever: no number of rounds is enough.
  pub receive_data_spins :
      (fuel : ℕ) (buffer : List ℕ) (remaining : ℕ) (done socket : List ℕ)
      → 128 ≤ remaining
      → (os.how_many 128 socket ≡ none) ⊎ (os.how_many 128 socket ≡ some 0)
      → receive_data os fuel buffer remaining done socket ≡ none
  unfolding receive_data
  receive_data_spins zero buffer remaining done socket h f = refl
  receive_data_spins (suc fuel) buffer remaining done socket h f =
      let e : leb 128 remaining ≡ true = ground arith in
      let again = receive_data_spins fuel buffer remaining done socket h f in
      elim f [ inl g ↦ rw (e, receive_data, g) again | inr g ↦ rw (e, receive_data, g) again ]

  sent-all :
      IsCalm os
      → (bytes : List ℕ)
      → (if length bytes == 0
          then some []
          else send_data os (suc (length bytes)) os.storage (length bytes) bytes [])
        ≡ some bytes
  sent-all ok [] = refl
  sent-all ok (b ∷ bs) =
      let room = ok.room in
      let more : (length (b ∷ bs) == 0) ≡ false = ground arith in
      rw more (
        send_data-all ok (suc (length (b ∷ bs))) os.storage (length (b ∷ bs)) (b ∷ bs) []
          (omega arith) (omega arith) refl)

  received-all :
      IsCalm os
      → (fuel : ℕ) (bytes : List ℕ) → length bytes < fuel
      → (if length bytes == 0
          then some []
          else receive_data os fuel os.storage (length bytes) [] bytes)
        ≡ some bytes
  received-all ok fuel [] h = refl
  received-all ok fuel (b ∷ bs) h =
      let room = ok.room in
      let more : (length (b ∷ bs) == 0) ≡ false = ground arith in
      rw more
        (receive_data-all ok fuel os.storage (length (b ∷ bs)) [] (b ∷ bs) h (omega arith) refl)

  replied :
      (fuel : ℕ) (path : CString) (old : Option (List ℕ)) (reply : Reply)
      → send_file os (record { pathname = path; version = local_version os old }) ≡ some reply
      → get_file os fuel path old ≡ take_reply os fuel old reply
  unfolding get_file
  replied fuel path old reply q = rw (q, get_file) refl

  sized-taken :
      IsCalm os
      → (fuel : ℕ) (old : Option (List ℕ)) (v : CString) (bytes : List ℕ) → length bytes < fuel
      → take_reply os fuel old (sized v (length bytes) bytes) ≡ some (some (overwrite old bytes))
  unfolding take_reply
  sized-taken ok fuel old v bytes h = rw (received-all ok fuel bytes h, take_reply) refl

  answered :
      IsCalm os
      → (ft : FileTuple)
      → send_file os ft
        ≡ some (elim (os.open_file ft.pathname) [
          | none ↦ not_found
          | some bytes ↦
              if str_eq (os.digest bytes) ft.version
              then up_to_date
              else sized (os.digest bytes) (length bytes) bytes
        ])
  unfolding send_file
  answered ok ft = elim (Option-cases (os.open_file ft.pathname)) [
    | inl e ↦ rw (e, send_file, ok.writes []) refl
    | inr (bytes, e) ↦ elim (Bool-cases (str_eq (os.digest bytes) ft.version)) [
      | inl q ↦ rw (e, send_file, ok.writes [], q) refl
      | inr q ↦ rw (e, send_file, ok.writes [], q, sent-all ok bytes) refl
    ]
  ]

  -- When no call fails, no read from the socket is short (each returns as many bytes as it asks for
  -- while the socket has them), and the receiver's loop has a round for each byte and one more: a
  -- file that the other client does not have stays as it is here, and so does one with the same
  -- version, as `find_version` prints it. Any other file is written over the local one: its bytes,
  -- and then what the local file had behind as many bytes.
  pub get_file_lem :
      IsCalm os
      → (fuel : ℕ) (path : CString) (old : Option (List ℕ))
      → ((bytes : List ℕ) → os.open_file path ≡ some bytes → length bytes < fuel)
      → get_file os fuel path old
        ≡ some (elim (os.open_file path) [
          | none ↦ old
          | some bytes ↦
              if str_eq (os.digest bytes) (local_version os old)
              then old
              else some (overwrite old bytes)
        ])
  unfolding take_reply
  get_file_lem ok fuel path old h =
      let ft : FileTuple = record { pathname = path; version = local_version os old } in
      replied fuel path old _ (answered ok ft) ∙ (elim (Option-cases (os.open_file path)) [
        | inl e ↦ rw e refl
        | inr (bytes, e) ↦ elim (Bool-cases (str_eq (os.digest bytes) (local_version os old))) [
          | inl q ↦ rw (e, q) refl
          | inr q ↦ rw (e, q) (sized-taken ok fuel old (os.digest bytes) bytes (h bytes e))
        ]
      ])
