-- ===== src/Mirror/Listing.antt =====
-- What a directory holds, file by file: the abstract view of a transfer.
use systems_programming.Base.{
  ℕ, ◌<◌, ◌^◌, ◌≢◌, Bool, true, false, Option, none, some, List, [], ◌∷◌, ◌++◌, if◌then◌else◌,
  length,
}
use systems_programming.Base.CString.{CString}
use systems_programming.Mirror.{
  Node, file, dir, Dir, end, entry, slash, short_bytes, unsigned_bytes, append_to_rel_path,
}
use systems_programming.Mirror.Send.{is_dot}
use systems_programming.Mirror.Receive.{Mirror}

-- A file with the names on the way to it and its bytes, or an empty directory, with no bytes.
pub record Item : Type 0 where
  pub top : CString
  pub names : List CString
  pub contents : Option (List ℕ)

-- The names behind the first one, each with its slash.
abbrev pub below : List CString → CString
below [] = []
below (n ∷ ns) = slash ∷ n ++ below ns

abbrev pub join : CString → List CString → CString
join top names = top ++ below names

-- Whether a directory has an entry but `.` and `..`.
abbrev pub has_entry : Dir → Bool
has_entry end = false
has_entry (entry name node rest) = let more = has_entry rest in if is_dot name then more else true

unfoldable mutual
  pub items_below : CString → List CString → Node → List Item
  items_below top names (file bytes) =
      record { top = top; names = names; contents = some bytes } ∷ []
  items_below top names (dir d) =
      let inside = items_inside top names d in
      if has_entry d then inside else (record { top = top; names = names; contents = none } ∷ [])

  pub items_inside : CString → List CString → Dir → List Item
  items_inside top names end = []
  items_inside top names (entry name node rest) =
      let here = items_below top (names ++ name ∷ []) node in
      let others = items_inside top names rest in if is_dot name then others else here ++ others

-- The items of the input directory, in the order in which they are met.
unfoldable pub items : Dir → List Item
items end = []
items (entry name node rest) =
    let here = items_below name [] node in
    let others = items rest in if is_dot name then others else here ++ others

-- The path of an item on the wire, and the bytes behind it.
abbrev pub path_of : Item → CString
path_of i = elim i.contents [
  | none ↦ append_to_rel_path (join i.top i.names) []
  | some bytes ↦ join i.top i.names
]

abbrev pub bytes_of : Item → List ℕ
bytes_of i = elim i.contents [ none ↦ [] | some bytes ↦ bytes ]

-- The transfer format.
unfoldable pub encode_item : CString → List ℕ → List ℕ
encode_item path bytes = short_bytes (length path) ++ path ++ unsigned_bytes (length bytes) ++ bytes

unfoldable pub wire : List Item → List ℕ
wire [] = []
wire (i ∷ is) = encode_item (path_of i) (bytes_of i) ++ wire is

-- A path of length 0 ends a transfer.
unfoldable pub encode : List Item → List ℕ
encode is = wire is ++ short_bytes 0

-- Names without `/` and NUL.
abbrev pub IsName : CString → Type 0
IsName [] = Unit
IsName (c ∷ cs) = (c ≢ 0) × (c ≢ slash) × IsName cs

abbrev pub AreNames : List CString → Type 0
AreNames [] = Unit
AreNames (n ∷ ns) = (n ≢ []) × IsName n × AreNames ns

-- The items that the two and the four bytes can measure.
abbrev pub Fits : List Item → Type 0
Fits [] = Unit
Fits (i ∷ is) =
    (i.top ≢ [])
    × IsName i.top
    × AreNames i.names
    × (length (path_of i) < 2 ^ 16)
    × (length (bytes_of i) < 2 ^ 32)
    × Fits is

-- The directories on the way to a file, and those on the way to an empty directory with itself.
abbrev pub ancestors : CString → List CString → List CString
ancestors path [] = []
ancestors path (n ∷ ns) = path ∷ ancestors (append_to_rel_path path n) ns

abbrev pub lineage : CString → List CString → List CString
lineage path [] = path ∷ []
lineage path (n ∷ ns) = path ∷ lineage (append_to_rel_path path n) ns

-- The mirror that the items ask for.
abbrev pub recreate_item : Mirror → Item → Mirror
recreate_item m i = elim i.contents [
  | none ↦ record { dirs = m.dirs ++ lineage i.top i.names; files = m.files }
  | some bytes ↦ record {
    dirs = m.dirs ++ ancestors i.top i.names;
    files = m.files ++ (join i.top i.names, bytes) ∷ [];
  }
]

unfoldable pub recreate : Mirror → List Item → Mirror
recreate m [] = m
recreate m (i ∷ is) = recreate (recreate_item m i) is
