-- ===== src/Mirror/Sending.antt =====
-- What `sync_send_file` puts into the pipe.
use systems_programming.Base.{
  ℕ, zero, suc, ◌-◌, ◌%◌, ◌^◌, ◌≤◌, ◌<◌, ◌≡◌, refl, sym, ap, ◌∙◌, true, Option, none, some, List,
  [], ◌∷◌, ◌++◌, leb, ◌==◌, length, take, drop, arith, inl, inr, Bool-cases,
}
use mathlib.Core.List.{append_assoc, append-nil}
use systems_programming.Base.Chunks.{
  fill, read_bytes, length-fill, take-fill, length-drop, take-drop, take-all,
}
use systems_programming.Base.CString.{CString}
use systems_programming.Mirror.{System, short_bytes, unsigned_bytes}
use systems_programming.Mirror.Send.{write, send_chunks, sync_send_file}
use systems_programming.Mirror.Listing.{encode_item}

-- The writer's calls succeed, and `malloc` gives a whole buffer.
pub record IsOpen (os : System) (max_buffsize : ℕ) : Type 0 where
  pub writes : (pipe : List ℕ) → os.write_ok pipe ≡ true
  pub opens : (path : CString) → os.may_open path ≡ true
  pub room : max_buffsize ≤ length os.storage
  pub positive : 0 < max_buffsize

-- A buffer that is filled up to `n` with what the source has.
abbrev IsLoad : (ℕ → List ℕ → List ℕ → List ℕ) → Type 0
IsLoad load =
    (n : ℕ) (buffer source : List ℕ)
    → n ≤ length source
    → load n buffer source ≡ fill n buffer source

read_bytes-IsLoad : IsLoad read_bytes
read_bytes-IsLoad n buffer source h = ap (λ k. fill k buffer source) (omega arith)

module _ (os : System) (max_buffsize : ℕ) (ok : IsOpen os max_buffsize) where
  write-ok : (pipe bytes : List ℕ) → write os max_buffsize pipe bytes ≡ some (pipe ++ bytes)
  unfolding write
  write-ok pipe bytes = rw (ok.writes pipe) refl

  -- The pieces make up the first `remaining` bytes of the source.
  send_chunks-take :
      (load : ℕ → List ℕ → List ℕ → List ℕ)
      → IsLoad load
      → (fuel : ℕ) (buffer : List ℕ) (remaining : ℕ) (source pipe : List ℕ) → remaining < fuel
      → max_buffsize ≤ length buffer
      → remaining ≤ length source
      → (buffer' : List ℕ) × (send_chunks os max_buffsize load fuel buffer remaining source pipe
          ≡ some (buffer', pipe ++ take remaining source))
        × (max_buffsize ≤ length buffer')
  unfolding send_chunks
  send_chunks-take load l zero buffer remaining source pipe h b s = absurd (omega arith)
  send_chunks-take load l (suc fuel) buffer remaining source pipe h b s =
      elim (Bool-cases (leb max_buffsize remaining)) [
        | inl e ↦
            let n : max_buffsize ≤ remaining = ground arith in
            let p = ok.positive in
            let len = length-fill max_buffsize buffer source in
            let left = length-drop max_buffsize source in
            let (buffer', runs, b') =
              send_chunks-take load l fuel (fill max_buffsize buffer source)
                (remaining - max_buffsize) (drop max_buffsize source)
                (pipe ++ take max_buffsize source) (omega arith) (omega arith) (omega arith) in
            (
              buffer',
              rw
                  (
                    e,
                    send_chunks,
                    l max_buffsize buffer source (omega arith),
                    take-fill max_buffsize buffer source b (omega arith),
                    write-ok pipe (take max_buffsize source),
                  )
                  (runs
                    ∙ ap (λ bytes. some (buffer', bytes))
                        (append_assoc pipe (take max_buffsize source) _
                          ∙ ap (λ bytes. pipe ++ bytes)
                              (sym (take-drop max_buffsize remaining source n)))),
              b',
            )
        | inr e ↦
            let n : remaining < max_buffsize = ground arith in
            let len = length-fill remaining buffer source in
            (
              fill remaining buffer source,
              rw
                  (
                    e,
                    send_chunks,
                    l remaining buffer source s,
                    take-fill remaining buffer source (omega arith) s,
                    write-ok pipe (take remaining source),
                  )
                  refl,
              omega arith,
            )
      ]

  pub sync_send_file-encode :
      (path : CString) (contents : Option (List ℕ)) (pipe : List ℕ)
      → length path < 2 ^ 16
      → length (elim contents [ none ↦ [] | some bytes ↦ bytes ]) < 2 ^ 32
      → sync_send_file os max_buffsize path contents pipe
        ≡ some (pipe ++ encode_item path (elim contents [ none ↦ [] | some bytes ↦ bytes ]))
  unfolding sync_send_file encode_item
  sync_send_file-encode path none pipe h k =
      let (buffer, runs, b) =
        send_chunks-take fill (λ n bs xs m. refl) (suc (length path)) os.storage (length path) path
          (pipe ++ short_bytes (length path)) (omega arith) ok.room (omega arith) in
      let small : length path % 2 ^ 16 ≡ length path = omega arith in
      rw
        (
          sync_send_file,
          small,
          write-ok pipe (short_bytes (length path)),
          runs,
          write-ok _ (unsigned_bytes 0),
          take-all path,
        )
        (simp (append_assoc, append-nil))
  sync_send_file-encode path (some bytes) pipe h k =
      let (buffer, runs, b) =
        send_chunks-take fill (λ n bs xs m. refl) (suc (length path)) os.storage (length path) path
          (pipe ++ short_bytes (length path)) (omega arith) ok.room (omega arith) in
      let small : length path % 2 ^ 16 ≡ length path = omega arith in
      let small' : length bytes % 2 ^ 32 ≡ length bytes = omega arith in
      let before = pipe ++ short_bytes (length path) ++ path ++ unsigned_bytes (length bytes) in
      let (buffer', runs', b') =
        send_chunks-take read_bytes read_bytes-IsLoad (suc (length bytes)) buffer (length bytes)
          bytes before (omega arith) b (omega arith) in
      rw
        (
          sync_send_file,
          small,
          small',
          write-ok pipe (short_bytes (length path)),
          runs,
          take-all path,
          write-ok _ (unsigned_bytes (length bytes)),
        )
        (elim (Bool-cases (length bytes == 0)) [
          | inl e ↦ rw (e, nil_of bytes (ground arith)) (simp (append_assoc, append-nil))
          | inr e ↦ rw (e, small', runs', take-all bytes) (simp append_assoc)
        ])
    where
      nil_of : (xs : List ℕ) → length xs ≡ 0 → xs ≡ []
      nil_of [] e = refl
      nil_of (x ∷ xs) e = absurd (omega arith)
