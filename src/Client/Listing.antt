-- ===== src/Client/Listing.antt =====
-- The files of a directory, and that `get_file_list` lists them.
use systems_programming.Base.{
  arith, length, leb, ℕ, ◌≡◌, refl, ap, subst, ◌∙◌, Bool, true, false, List, [], ◌||◌, inl, inr,
  Bool-cases,
}
use systems_programming.Base.CString.{CString}
use systems_programming.Mirror.{Node, file, dir, Dir, end, entry}
use systems_programming.Client.FileList.{
  is_skipped, FileList, Walk, done, entry_path, close_dir, list_node, list_entries, get_file_list,
}
use systems_programming.Client.Tuples.{
  has_entry, tuples_of, tuples_in, HasShortPaths, HasShortPaths-append, extend, extend-nil,
  add_file-extend, inside_short, close_dir-extend, here, skip_tuples, keep_tuples, entry_end,
}

module _ (version_of : List ℕ → CString) (may_open : CString → Bool)
    (opens : (path : CString) → may_open path ≡ true) where
  -- One entry that is not skipped, and the entries behind it.
  entry_runs :
      (first : Bool) (path name : CString) (node : Node) (rest : Dir) (found : Bool)
      (fl fl' : FileList) (r : Walk × Bool × FileList)
      → is_skipped name ≡ false
      → list_node version_of may_open (entry_path first path name) node fl ≡ (done, fl')
      → list_entries version_of may_open first path rest true fl' ≡ r
      → list_entries version_of may_open first path (entry name node rest) found fl ≡ r
  unfolding list_entries
  entry_runs first path name node rest found fl fl' r keep here behind =
      rw (keep, here, behind) refl

  skip_runs :
      (first : Bool) (path name : CString) (node : Node) (rest : Dir) (found : Bool) (fl : FileList)
      → is_skipped name ≡ true
      → list_entries version_of may_open first path (entry name node rest) found fl
        ≡ list_entries version_of may_open first path rest found fl
  unfolding list_entries
  skip_runs first path name node rest found fl e = rw e refl

  file_runs :
      (path : CString) (bytes : List ℕ) (fl : FileList)
      → HasShortPaths (tuples_of version_of path (file bytes))
      → list_node version_of may_open path (file bytes) fl
        ≡ (done, extend fl (tuples_of version_of path (file bytes)))
  unfolding list_node tuples_of
  file_runs path bytes fl h =
      let short : leb 129 (length path) ≡ false = ground (arith, h.0) in
      rw (short, opens path) (add_file-extend fl path (version_of bytes) h.0)

  end_runs :
      (first : Bool) (path : CString) (found : Bool) (fl : FileList)
      → list_entries version_of may_open first path end found fl
        ≡ (done, (found || false), extend fl [])
  unfolding list_entries
  end_runs first path true fl = rw (extend-nil fl) refl
  end_runs first path false fl = rw (extend-nil fl) refl

  mutual
    unfolding tuples_of list_node

    list_node-tuples :
        (path : CString) (node : Node) (fl : FileList)
        → HasShortPaths (tuples_of version_of path node)
        → list_node version_of may_open path node fl
          ≡ (done, extend fl (tuples_of version_of path node))
    list_node-tuples path (file bytes) fl h = file_runs path bytes fl h
    list_node-tuples path (dir d) fl h =
        let inside = list_entries-tuples false path d false fl (inside_short version_of path d h) in
        ap (λ o. close_dir o false path fl (list_entries version_of may_open false path d false fl))
          (opens path)
        ∙ ap (λ r. close_dir true false path fl r) inside
        ∙ close_dir-extend version_of path d fl h

    list_entries-tuples :
        (first : Bool) (path : CString) (d : Dir) (found : Bool) (fl : FileList)
        → HasShortPaths (tuples_in version_of first path d)
        → list_entries version_of may_open first path d found fl
          ≡ (done, (found || has_entry d), extend fl (tuples_in version_of first path d))
    list_entries-tuples first path end found fl h = end_runs first path found fl
    list_entries-tuples first path (entry name node rest) found fl h =
        elim (Bool-cases (is_skipped name)) [
          | inl e ↦
              let tuples = skip_tuples version_of first path name node rest e in
              skip_runs first path name node rest found fl e
              ∙ list_entries-tuples first path rest found fl (subst HasShortPaths tuples h)
              ∙ rw e refl
          | inr e ↦
              let here = tuples_of version_of (entry_path first path name) node in
              let others = tuples_in version_of first path rest in
              let tuples = keep_tuples version_of first path name node rest e in
              let (l, r) = HasShortPaths-append here others (subst HasShortPaths tuples h) in
              entry_runs first path name node rest found fl (extend fl here) _ e
                (list_node-tuples (entry_path first path name) node fl l)
                (list_entries-tuples first path rest true (extend fl here) r)
              ∙ entry_end found (is_skipped name) (has_entry rest) e fl here others _ (rw e refl)
        ]

first_end :
    (path : CString) (fl fl' : FileList) (found : Bool)
    → close_dir true true path fl (done, found, fl') ≡ (done, fl')
unfolding close_dir
first_end path fl fl' true = refl
first_end path fl fl' false = refl

-- The list of a whole directory.
pub get_file_list-tuples :
    (version_of : List ℕ → CString) (may_open : CString → Bool)
    → ((path : CString) → may_open path ≡ true)
    → (path : CString) (d : Dir) (fl : FileList) → HasShortPaths (tuples_in version_of true path d)
    → get_file_list version_of may_open true path d fl
      ≡ (done, extend fl (tuples_in version_of true path d))
unfolding get_file_list
get_file_list-tuples version_of may_open opens path d fl h =
    ap (λ o. close_dir o true path fl (list_entries version_of may_open true path d false fl))
      (opens path)
    ∙ ap (λ r. close_dir true true path fl r)
        (list_entries-tuples version_of may_open opens true path d false fl h)
    ∙ first_end path fl (extend fl (tuples_in version_of true path d)) (has_entry d)
