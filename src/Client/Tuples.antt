-- ===== src/Client/Tuples.antt =====
-- The tuples that a directory should be listed as.
use systems_programming.Base.{
  ℕ, ◌+◌, ◌<◌, ◌≡◌, refl, ap, subst, ◌∙◌, Bool, true, false, List, [], ◌∷◌, ◌++◌, ◌||◌,
  if◌then◌else◌, length, length-append, arith, inl, inr, Bool-cases,
}
use mathlib.Core.List.{append_assoc, append-nil}
use systems_programming.Base.CString.{CString}
use systems_programming.Mirror.{Node, file, dir, Dir, end, entry}
use systems_programming.Client.{FileTuple}
use systems_programming.Client.FileList.{
  dir_version, is_skipped, FileList, Walk, done, tuple_of, add_file, entry_path, close_dir,
}

-- Whether a directory has an entry that is not skipped.
abbrev pub has_entry : Dir → Bool
has_entry end = false
has_entry (entry name node rest) =
    let more = has_entry rest in if is_skipped name then more else true

-- A tuple for each file, and one for each directory below the first that has none.
unfoldable mutual
  pub tuples_of : (List ℕ → CString) → CString → Node → List FileTuple
  tuples_of version_of path (file bytes) = tuple_of path (version_of bytes) ∷ []
  tuples_of version_of path (dir d) =
      let inside = tuples_in version_of false path d in
      if has_entry d then inside else tuple_of path dir_version ∷ []

  pub tuples_in : (List ℕ → CString) → Bool → CString → Dir → List FileTuple
  tuples_in version_of first path end = []
  tuples_in version_of first path (entry name node rest) =
      let here = tuples_of version_of (entry_path first path name) node in
      let others = tuples_in version_of first path rest in
      if is_skipped name then others else here ++ others

-- Every path fits into a tuple.
abbrev pub HasShortPaths : List FileTuple → Type 0
HasShortPaths [] = Unit
HasShortPaths (t ∷ ts) = (length t.pathname < 129) × HasShortPaths ts

pub HasShortPaths-append :
    (ts us : List FileTuple) → HasShortPaths (ts ++ us) → HasShortPaths ts × HasShortPaths us
HasShortPaths-append [] us h = (record {}, h)
HasShortPaths-append (t ∷ ts) us h = let (l, r) = HasShortPaths-append ts us h.1 in ((h.0, l), r)

-- The list with more tuples behind it.
abbrev pub extend : FileList → List FileTuple → FileList
extend fl ts = record { files = fl.files ++ ts; num_of_files = fl.num_of_files + length ts }

pub extend-nil : (fl : FileList) → extend fl [] ≡ fl
extend-nil fl =
    rw (append-nil fl.files) (ap (λ n. record { files = fl.files; num_of_files = n }) (omega arith))

extend-extend :
    (fl : FileList) (ts us : List FileTuple) → extend (extend fl ts) us ≡ extend fl (ts ++ us)
extend-extend fl ts us =
    let n : fl.num_of_files + length ts + length us ≡ fl.num_of_files + length (ts ++ us) =
      omega (arith, length-append ts us) in
    rw (n, append_assoc fl.files ts us) refl

pub add_file-extend :
    (fl : FileList) (path version : CString)
    → length path < 129
    → add_file fl path version ≡ (done, extend fl (tuple_of path version ∷ []))
unfolding add_file
add_file-extend fl path version h = ground arith

none_inside :
    (version_of : List ℕ → CString) (first : Bool) (path : CString) (d : Dir)
    → has_entry d ≡ false
    → tuples_in version_of first path d ≡ []
unfolding tuples_in
none_inside version_of first path end e = refl
none_inside version_of first path (entry name node rest) e = elim (Bool-cases (is_skipped name)) [
  | inl f ↦ rw f (none_inside version_of first path rest (ground arith))
  | inr f ↦ absurd (ground arith)
]

module _ (version_of : List ℕ → CString) (path : CString) (d : Dir) where
  some_tuples :
      has_entry d ≡ true → tuples_of version_of path (dir d) ≡ tuples_in version_of false path d
  unfolding tuples_of
  some_tuples e = rw e refl

  own_tuple :
      has_entry d ≡ false → tuples_of version_of path (dir d) ≡ tuple_of path dir_version ∷ []
  unfolding tuples_of
  own_tuple e = rw e refl

  pub inside_short :
      HasShortPaths (tuples_of version_of path (dir d))
      → HasShortPaths (tuples_in version_of false path d)
  inside_short h = elim (Bool-cases (has_entry d)) [
    | inl e ↦ subst HasShortPaths (some_tuples e) h
    | inr e ↦ rw (none_inside version_of false path d e) (record {})
  ]

  -- The end of a directory whose loop has listed what is in it.
  pub close_dir-extend :
      (fl : FileList)
      → HasShortPaths (tuples_of version_of path (dir d))
      → close_dir true false path fl
          (done, has_entry d, extend fl (tuples_in version_of false path d))
        ≡ (done, extend fl (tuples_of version_of path (dir d)))
  unfolding close_dir
  close_dir-extend fl h = elim (Bool-cases (has_entry d)) [
    | inl e ↦ rw (e, some_tuples e) refl
    | inr e ↦
        let short : length path < 129 = (subst HasShortPaths (own_tuple e) h).0 in
        rw (e, own_tuple e, none_inside version_of false path d e)
          (ap (λ f. add_file f path dir_version) (extend-nil fl)
            ∙ add_file-extend fl path dir_version short)
  ]

module _ (version_of : List ℕ → CString) (first : Bool) (path name : CString) (node : Node)
    (rest : Dir) where
  abbrev pub here : List FileTuple
  here = tuples_of version_of (entry_path first path name) node

  pub skip_tuples :
      is_skipped name ≡ true
      → tuples_in version_of first path (entry name node rest)
        ≡ tuples_in version_of first path rest
  unfolding tuples_in
  skip_tuples e = rw e refl

  pub keep_tuples :
      is_skipped name ≡ false
      → tuples_in version_of first path (entry name node rest)
        ≡ here ++ tuples_in version_of first path rest
  unfolding tuples_in
  keep_tuples e = rw e refl

-- What is found, and the list, behind an entry and the others.
pub entry_end :
    (found skipped more : Bool)
    → skipped ≡ false
    → (fl : FileList) (ts us all : List FileTuple) → ts ++ us ≡ all
    → ◌≡◌ {A = Walk × Bool × FileList}
        (done, (true || more), extend (extend fl ts) us)
        (done, (found || (if skipped then more else true)), extend fl all)
entry_end true skipped more e fl ts us all same =
    ap (λ f. (done, true, f)) (extend-extend fl ts us ∙ ap (extend fl) same)
entry_end false skipped more e fl ts us all same =
    rw e (ap (λ f. (done, true, f)) (extend-extend fl ts us ∙ ap (extend fl) same))
