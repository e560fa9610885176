-- ===== src/Mirror/Receiving.antt =====
-- What one round of the receiver's loop takes out of the pipe.
use systems_programming.Base.{
  ℕ, zero, suc, ◌-◌, ◌^◌, ◌≤◌, ◌<◌, ◌≡◌, refl, ap, min, true, false, some, List, [], ◌∷◌, ◌++◌, leb,
  ◌==◌, if◌then◌else◌, length, take, drop, arith, inl, inr, Bool-cases, length-append,
}
use mathlib.Core.List.{append_assoc}
use systems_programming.Base.Chunks.{
  fill, length-fill, take-fill, length-drop, take-drop, take-length, drop-length, drop-drop,
}
use systems_programming.Base.Fallible.{◌>>=◌}
use systems_programming.Base.CString.{CString}
use systems_programming.Mirror.{System, number, short_bytes, unsigned_bytes}
use systems_programming.Mirror.Receive.{
  Mirror, c_string, made_dirs, read, read_chunks, read_file_path, read_file, read_unchecked, keep,
  receive_files,
}

-- The reader's calls succeed, and no read is short: it returns all the bytes that it asks for and that there are.
pub record IsReadable (os : System) (max_buffsize : ℕ) : Type 0 where
  pub reads : (n : ℕ) (pipe : List ℕ) → n ≤ length pipe → os.how_many n pipe ≡ some n
  pub creates : (path : CString) → os.may_create path ≡ true
  pub room : max_buffsize ≤ length os.storage
  pub positive : 0 < max_buffsize

module _ (os : System) (max_buffsize : ℕ) (ok : IsReadable os max_buffsize) where
  pub read-full :
      (n : ℕ) (buffer pipe : List ℕ)
      → n ≤ length pipe
      → read os max_buffsize n buffer pipe ≡ some (fill n buffer pipe, drop n pipe)
  unfolding read
  read-full n buffer pipe h =
      let all : min n (min n (length pipe)) ≡ n = omega arith in rw (ok.reads n pipe h, all) refl

  -- The pieces make up the next `remaining` bytes of the pipe.
  read_chunks-take :
      (fuel : ℕ) (buffer : List ℕ) (remaining : ℕ) (done pipe : List ℕ)
      → remaining < fuel
      → max_buffsize ≤ length buffer
      → remaining ≤ length pipe
      → read_chunks os max_buffsize fuel buffer remaining done pipe
        ≡ some (done ++ take remaining pipe, drop remaining pipe)
  unfolding read_chunks
  read_chunks-take zero buffer remaining done pipe h b s = absurd (omega arith)
  read_chunks-take (suc fuel) buffer remaining done pipe h b s =
      elim (Bool-cases (leb max_buffsize remaining)) [
        | inl e ↦
            let n : max_buffsize ≤ remaining = ground arith in
            let p = ok.positive in
            let len = length-fill max_buffsize buffer pipe in
            let left = length-drop max_buffsize pipe in
            rw
              (
                e,
                read_chunks,
                read-full max_buffsize buffer pipe (omega arith),
                take-fill max_buffsize buffer pipe b (omega arith),
                read_chunks-take fuel (fill max_buffsize buffer pipe) (remaining - max_buffsize)
                    (done ++ take max_buffsize pipe) (drop max_buffsize pipe) (omega arith)
                    (omega arith) (omega arith),
                drop-drop max_buffsize remaining pipe n,
                take-drop max_buffsize remaining pipe n,
              )
              (ap (λ bytes. some (bytes, drop remaining pipe)) (append_assoc done _ _))
        | inr e ↦
            let n : remaining < max_buffsize = ground arith in
            rw
              (
                e,
                read_chunks,
                read-full remaining buffer pipe s,
                take-fill remaining buffer pipe (omega arith) s,
              )
              refl
      ]

  -- The same with the bytes written out that come first.
  read_chunks-front :
      (bytes rest : List ℕ)
      → read_chunks os max_buffsize
          (suc (length bytes))
          os.storage
          (length bytes)
          []
          (bytes ++ rest)
        ≡ some (bytes, rest)
  read_chunks-front bytes rest =
      let len = length-append bytes rest in
      rw
        (
          read_chunks-take (suc (length bytes)) os.storage (length bytes) [] (bytes ++ rest)
              (omega arith) ok.room (omega arith),
          take-length bytes rest,
          drop-length bytes rest,
        )
        refl

  pub read_file_path-front :
      (path rest : List ℕ) (made : List CString)
      → c_string path ≡ path
      → made_dirs path ≡ some made
      → read_file_path os max_buffsize (length path) (path ++ rest) ≡ some (path, made, rest)
  unfolding read_file_path
  read_file_path-front path rest made c m =
      rw (read_chunks-front path rest, c, m, ok.creates path) (ground arith)

  pub read_file-front :
      (bytes rest : List ℕ)
      → read_file os max_buffsize (length bytes) (bytes ++ rest) ≡ some (bytes, rest)
  unfolding read_file
  read_file-front [] rest = refl
  read_file-front (b ∷ bs) rest =
      let more : (length (b ∷ bs) == 0) ≡ false = ground arith in
      rw (read_file, more) (read_chunks-front (b ∷ bs) rest)

  -- The next length replaces the old one.
  pub read_unchecked-short :
      (a b n : ℕ) (rest : List ℕ)
      → read_unchecked os max_buffsize 2 (a ∷ b ∷ []) (short_bytes n ++ rest)
        ≡ (short_bytes n, rest)
  unfolding read_unchecked
  read_unchecked-short a b n rest =
      rw (read-full 2 (a ∷ b ∷ []) (short_bytes n ++ rest) (omega arith), read_unchecked) refl

  -- One round, from the results of its calls.
  pub round :
      (fuel : ℕ) (len size len' size' pipe p₁ p₂ p₃ p₄ : List ℕ) (m : Mirror) (path : CString)
      (made : List CString) (contents : List ℕ)
      → read_file_path os max_buffsize (number len) pipe ≡ some (path, made, p₁)
      → read os max_buffsize 4 size p₁ ≡ some (size', p₂)
      → read_file os max_buffsize (number size') p₂ ≡ some (contents, p₃)
      → read_unchecked os max_buffsize 2 len p₃ ≡ (len', p₄)
      → receive_files os max_buffsize (suc fuel) len size m pipe ≡ (
          if number len' == 0
          then some (keep m path made contents, p₄)
          else receive_files os max_buffsize fuel len' size' (keep m path made contents) p₄)
  unfolding receive_files
  round fuel len size len' size' pipe p₁ p₂ p₃ p₄ m path made contents a b c d =
      rw (a, receive_files, b, c, ◌>>=◌, d)
        (elim (Bool-cases (number len' == 0)) [ inl e ↦ rw (e, d) refl | inr e ↦ rw (e, d) refl ])

pub number-short : (n : ℕ) → n < 2 ^ 16 → number (short_bytes n) ≡ n
number-short n h = omega arith

pub number-unsigned : (n : ℕ) → n < 2 ^ 32 → number (unsigned_bytes n) ≡ n
number-unsigned n h = omega arith
