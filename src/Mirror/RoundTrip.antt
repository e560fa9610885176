-- ===== src/Mirror/RoundTrip.antt =====
-- The mirror that the receiver makes holds what the sender's directory holds.
use systems_programming.Base.{
  ℕ, zero, suc, ◌<◌, ◌≡◌, ◌≢◌, refl, sym, ap, ◌∙◌, false, Option, none, some, List, [], ◌∷◌, ◌++◌,
  ◌==◌, if◌then◌else◌, length, arith, length-append,
}
use mathlib.Core.List.{append_assoc, append-nil}
use systems_programming.Base.CString.{CString}
use systems_programming.Mirror.{Dir, System, slash, number, short_bytes, unsigned_bytes}
use systems_programming.Mirror.Send.{sync_send}
use systems_programming.Mirror.Receive.{
  Mirror, c_string, made_dirs, keep, read_unchecked, receive_files, begin, sync_receive,
}
use systems_programming.Mirror.Listing.{
  Item, items, path_of, bytes_of, encode_item, wire, encode, Fits, below, join, recreate_item,
  recreate, ancestors, lineage,
}
use systems_programming.Mirror.Names.{
  made_dirs-file, made_dirs-dir, c_string-path, ends_in_slash-file, ends_in_slash-dir,
}
use systems_programming.Mirror.Sending.{IsOpen}
use systems_programming.Mirror.Walk.{sync_send-encode}
use systems_programming.Mirror.Receiving.{
  IsReadable, read-full, read_unchecked-short, round, read_file_path-front, read_file-front,
  number-short, number-unsigned,
}

-- The directories that an item needs.
abbrev made_for : Item → List CString
made_for i = elim i.contents [ none ↦ lineage i.top i.names | some bytes ↦ ancestors i.top i.names ]

-- The path of an item is a string, is not empty, and gets the item's directories.
path_facts :
    (i : Item) (is : List Item)
    → Fits (i ∷ is)
    → (c_string (path_of i) ≡ path_of i)
      × (made_dirs (path_of i) ≡ some (made_for i))
      × (0 < length (path_of i))
path_facts i is (h, n, a, l, b, f) = facts i.contents
  where
    long : (s : CString) → s ≢ [] → 0 < length s
    long [] q = absurd (q refl)
    long (c ∷ cs) q = omega arith

    facts :
        (c : Option (List ℕ))
        → let j = record i { contents = c } in
          (c_string (path_of j) ≡ path_of j)
          × (made_dirs (path_of j) ≡ some (made_for j))
          × (0 < length (path_of j))
    facts none = (
      c_string-path i.top i.names (slash ∷ []) n a ∙ unfold c_string in refl,
      made_dirs-dir i.top i.names h n a,
      omega (arith, length-append (join i.top i.names) (slash ∷ [])),
    )
    facts (some bytes) = (
      (ap c_string (sym (append-nil (join i.top i.names)))
          ∙ c_string-path i.top i.names [] n a
          ∙ (unfold c_string in append-nil (join i.top i.names))),
      made_dirs-file i.top i.names h n a,
      omega (arith, length-append i.top (below i.names), long i.top h),
    )

keep-recreate :
    (m : Mirror) (i : Item) (is : List Item)
    → Fits (i ∷ is)
    → keep m (path_of i) (made_for i) (bytes_of i) ≡ recreate_item m i
unfolding keep
keep-recreate m i is (h, n, a, l, b, f) = kept i.contents
  where
    kept :
        (c : Option (List ℕ))
        → let j = record i { contents = c } in
          keep m (path_of j) (made_for j) (bytes_of j) ≡ recreate_item m j
    kept none = rw (ends_in_slash-dir (join i.top i.names)) refl
    kept (some bytes) = rw (ends_in_slash-file i.top i.names h n a) refl

-- What an item puts into the pipe after the length of its path, with the items behind it.
abbrev behind : Item → List Item → List ℕ
behind i is = path_of i ++ (unsigned_bytes (length (bytes_of i)) ++ (bytes_of i ++ encode is))

encode-cons :
    (j : Item) (is : List Item) → encode (j ∷ is) ≡ short_bytes (length (path_of j)) ++ behind j is
unfolding encode wire encode_item
encode-cons j is = simp append_assoc

module _ (os : System) (max_buffsize : ℕ) (ok : IsReadable os max_buffsize) where
  -- One round takes one item out of the pipe, and the length of the next path.
  item_round :
      (i : Item) (is : List Item) (fuel a b c d n : ℕ) (m : Mirror) (rest : List ℕ)
      → Fits (i ∷ is)
      → receive_files os max_buffsize
          (suc fuel)
          (short_bytes (length (path_of i)))
          (a ∷ b ∷ c ∷ d ∷ [])
          m
          (path_of i
            ++ (unsigned_bytes (length (bytes_of i)) ++ (bytes_of i ++ (short_bytes n ++ rest))))
        ≡ (if number (short_bytes n) == 0
            then some (recreate_item m i, rest)
            else receive_files os max_buffsize fuel
                (short_bytes n)
                (unsigned_bytes (length (bytes_of i)))
                (recreate_item m i)
                rest)
  item_round i is fuel a b c d n m rest f =
      let (str, made, pos) = path_facts i is f in
      let after = bytes_of i ++ (short_bytes n ++ rest) in
      round os max_buffsize ok fuel (short_bytes (length (path_of i))) (a ∷ b ∷ c ∷ d ∷ [])
        (short_bytes n) (unsigned_bytes (length (bytes_of i))) _
        (unsigned_bytes (length (bytes_of i)) ++ after) after (short_bytes n ++ rest) rest m
        (path_of i) (made_for i) (bytes_of i)
        (rw (number-short (length (path_of i)) f.3)
          (read_file_path-front os max_buffsize ok (path_of i) _ (made_for i) str made))
        (read-full os max_buffsize ok 4 (a ∷ b ∷ c ∷ d ∷ []) _ (omega arith))
        (rw (number-unsigned (length (bytes_of i)) f.4)
          (read_file-front os max_buffsize ok (bytes_of i) (short_bytes n ++ rest)))
        (read_unchecked-short os max_buffsize ok _ _ n rest)
      ∙ rw (keep-recreate m i is f) refl

  -- The loop takes all items.
  receive_files-wire :
      (is : List Item) (i : Item) (fuel a b c d : ℕ) (m : Mirror)
      → length is < fuel
      → Fits (i ∷ is)
      → receive_files os max_buffsize fuel
          (short_bytes (length (path_of i)))
          (a ∷ b ∷ c ∷ d ∷ [])
          m
          (behind i is)
        ≡ some (recreate m (i ∷ is), [])
  unfolding encode wire recreate encode_item
  receive_files-wire is i zero a b c d m h f = absurd (omega arith)
  receive_files-wire [] i (suc fuel) a b c d m h f = item_round i [] fuel a b c d 0 m [] f
  receive_files-wire (j ∷ is) i (suc fuel) a b c d m h f =
      let (str, made, pos) = path_facts j is f.5 in
      let go : (number (short_bytes (length (path_of j))) == 0) ≡ false =
        rw (number-short (length (path_of j)) f.5.3) (ground arith) in
      rw
        (
          encode-cons j is,
          item_round i (j ∷ is) fuel a b c d (length (path_of j)) m (behind j is) f,
          go,
        )
        (receive_files-wire is j fuel _ _ _ _ (recreate_item m i) (omega arith) f.5)

  no_items :
      (fuel : ℕ)
      → sync_receive os max_buffsize fuel (encode []) ≡ some (record { dirs = []; files = [] }, [])
  unfolding sync_receive begin encode wire
  no_items fuel = ap (begin os max_buffsize fuel) (read_unchecked-short os max_buffsize ok 0 0 0 [])

  goes_on :
      (fuel : ℕ) (len rest : List ℕ)
      → (number len == 0) ≡ false
      → begin os max_buffsize fuel (len, rest)
        ≡ receive_files os max_buffsize fuel len
            (0 ∷ 0 ∷ 0 ∷ 0 ∷ [])
            (record { dirs = []; files = [] })
            rest
  unfolding begin
  goes_on fuel len rest e = rw (e, begin) refl

  -- A transfer of items that fit recreates all of them.
  sync_receive-encode :
      (is : List Item) (fuel : ℕ)
      → length is < fuel
      → Fits is
      → sync_receive os max_buffsize fuel (encode is)
        ≡ some (recreate (record { dirs = []; files = [] }) is, [])
  unfolding sync_receive begin
  sync_receive-encode [] fuel h f = no_items fuel ∙ unfold recreate in refl
  sync_receive-encode (i ∷ is) fuel h f =
      let (str, made, pos) = path_facts i is f in
      let go : (number (short_bytes (length (path_of i))) == 0) ≡ false =
        rw (number-short (length (path_of i)) f.3) (ground arith) in
      let first : read_unchecked os max_buffsize 2 (0 ∷ 0 ∷ []) (encode (i ∷ is))
          ≡ (short_bytes (length (path_of i)), behind i is) =
        rw (encode-cons i is) (read_unchecked-short os max_buffsize ok 0 0 _ (behind i is)) in
      rw (sync_receive, first)
        (goes_on fuel _ (behind i is) go ∙ receive_files-wire is i fuel 0 0 0 0 _ (omega arith) f)

-- A directory whose paths and files fit in the two and the four bytes that measure them, sent and
-- then received with buffers of any two sizes that are not 0, when the calls of the system succeed
-- and no read is short (each returns as many bytes as it asks for while the pipe has them): the
-- receiver, given a round for each item and one more, makes exactly the directories
-- and the files of the sender with their bytes, and leaves nothing in the pipe.
pub sync_receive-sync_send :
    (sender receiver : System) (sends reads fuel : ℕ) (input : Dir)
    → IsOpen sender sends
    → IsReadable receiver reads
    → Fits (items input)
    → length (items input) < fuel
    → (pipe : List ℕ) × (sync_send sender sends input [] ≡ some pipe)
      × (sync_receive receiver reads fuel pipe
          ≡ some (recreate (record { dirs = []; files = [] }) (items input), []))
sync_receive-sync_send sender receiver sends reads fuel input o r f h = (
  encode (items input),
  sync_send-encode sender sends o input f,
  sync_receive-encode receiver reads r (items input) fuel h f,
)
