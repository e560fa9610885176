-- ===== src/Mirror/Walk.antt =====
-- What the walk over the input directory puts into the pipe is the encoding of its items.
use systems_programming.Base.{
  ℕ, ◌<◌, ◌^◌, length, ◌≡◌, refl, sym, ap, subst, ◌∙◌, Bool, true, false, none, some, List, [], ◌∷◌,
  ◌++◌, ◌||◌, if◌then◌else◌, arith, inl, inr, Bool-cases,
}
use mathlib.Core.List.{append_assoc, append-nil}
use systems_programming.Base.CString.{CString}
use systems_programming.Mirror.{Node, file, dir, Dir, end, entry, System, slash, append_to_rel_path}
use systems_programming.Mirror.Send.{
  is_dot, write, sync_send_file, sync_send_node, sync_send_entries, sync_send,
}
use systems_programming.Mirror.Listing.{
  Item, has_entry, items_below, items_inside, items, wire, encode, Fits, below, join,
}
use systems_programming.Mirror.Sending.{IsOpen, sync_send_file-encode}

wire-append : (xs ys : List Item) → wire (xs ++ ys) ≡ wire xs ++ wire ys
unfolding wire
wire-append [] ys = refl
wire-append (x ∷ xs) ys = rw (wire-append xs ys) (sym (append_assoc _ (wire xs) (wire ys)))

Fits-append : (xs ys : List Item) → Fits (xs ++ ys) → Fits xs × Fits ys
Fits-append [] ys f = (record {}, f)
Fits-append (x ∷ xs) ys (a, b, c, d, e, f) =
    let (l, r) = Fits-append xs ys f in ((a, b, c, d, e, l), r)

below-snoc :
    (ns : List CString) (n : CString) → below (ns ++ n ∷ []) ≡ append_to_rel_path (below ns) n
below-snoc [] n = ap (λ r. slash ∷ r) (append-nil n)
below-snoc (m ∷ ns) n =
    ap (λ r. slash ∷ r) (rw (below-snoc ns n) (sym (append_assoc m (below ns) _)))

-- The path of an entry has one name more than that of its directory.
join-snoc :
    (top : CString) (ns : List CString) (n : CString)
    → join top (ns ++ n ∷ []) ≡ append_to_rel_path (join top ns) n
join-snoc top ns n = rw (below-snoc ns n) (sym (append_assoc top (below ns) _))

mutual
  unfolding items_below

  no_items :
      (top : CString) (ns : List CString) (d : Dir)
      → has_entry d ≡ false
      → items_inside top ns d ≡ []
  no_items top ns end h = refl
  no_items top ns (entry name node rest) h = ground (arith, no_items top ns rest)

module _ (os : System) (max_buffsize : ℕ) (ok : IsOpen os max_buffsize) where
  dir_step :
      (path : CString) (d : Dir) (found : Bool) (pipe pipe' : List ℕ)
      → sync_send_entries os max_buffsize path d false pipe ≡ some (found, pipe')
      → sync_send_node os max_buffsize path (dir d) pipe ≡ (
          if found
          then some pipe'
          else sync_send_file os max_buffsize (append_to_rel_path path []) none pipe')
  unfolding sync_send_node
  dir_step path d found pipe pipe' q = rw (ok.opens path, q) refl

  entry_step :
      (path name : CString) (node : Node) (rest : Dir) (found : Bool) (pipe pipe' : List ℕ)
      → is_dot name ≡ false
      → sync_send_node os max_buffsize (append_to_rel_path path name) node pipe ≡ some pipe'
      → sync_send_entries os max_buffsize path (entry name node rest) found pipe
        ≡ sync_send_entries os max_buffsize path rest true pipe'
  unfolding sync_send_node
  entry_step path name node rest found pipe pipe' e q = rw (e, q) refl

  dot_step :
      (path name : CString) (node : Node) (rest : Dir) (found : Bool) (pipe : List ℕ)
      → is_dot name ≡ true
      → sync_send_entries os max_buffsize path (entry name node rest) found pipe
        ≡ sync_send_entries os max_buffsize path rest found pipe
  unfolding sync_send_node
  dot_step path name node rest found pipe e = rw e refl

  file_step :
      (top : CString) (ns : List CString) (bytes pipe : List ℕ)
      → length (join top ns) < 2 ^ 16
      → length bytes < 2 ^ 32
      → sync_send_node os max_buffsize (join top ns) (file bytes) pipe
        ≡ some (pipe ++ wire (items_below top ns (file bytes)))
  unfolding sync_send_node wire items_below
  file_step top ns bytes pipe d e =
      rw (sync_send_file-encode os max_buffsize ok (join top ns) (some bytes) pipe d e)
        (simp append-nil)

  empty_step :
      (top : CString) (ns : List CString) (pipe : List ℕ)
      → Fits (record { top = top; names = ns; contents = none } ∷ [])
      → sync_send_file os max_buffsize (append_to_rel_path (join top ns) []) none (pipe ++ wire [])
        ≡ some (pipe ++ wire (record { top = top; names = ns; contents = none } ∷ []))
  unfolding wire
  empty_step top ns pipe (a, b, c, d, e, f) =
      rw
        (
          append-nil pipe,
          sync_send_file-encode os max_buffsize ok (append_to_rel_path (join top ns) []) none pipe d
              e,
        )
        (simp append-nil)

  end_step :
      (path : CString) (found : Bool) (pipe : List ℕ)
      → sync_send_entries os max_buffsize path end found pipe
        ≡ some (found || false, pipe ++ wire [])
  unfolding wire sync_send_node
  end_step path true pipe = rw (append-nil pipe) refl
  end_step path false pipe = rw (append-nil pipe) refl

  or_true : (b : Bool) → (b || true) ≡ true
  or_true b = ground arith

  mutual
    unfolding items_below

    node-wire :
        (top : CString) (ns : List CString) (node : Node) (pipe : List ℕ)
        → Fits (items_below top ns node)
        → sync_send_node os max_buffsize (join top ns) node pipe
          ≡ some (pipe ++ wire (items_below top ns node))
    node-wire top ns (file bytes) pipe (a, b, c, d, e, f) = file_step top ns bytes pipe d e
    node-wire top ns (dir d) pipe f = elim (Bool-cases (has_entry d)) [
      | inl e ↦
          let g : Fits (items_inside top ns d) = subst Fits (rw e refl) f in
          dir_step (join top ns) d _ pipe _ (entries-wire top ns d false pipe g) ∙ rw e refl
      | inr e ↦
          let none_in = no_items top ns d e in
          let g : Fits (items_inside top ns d) = subst Fits (sym none_in) (record {}) in
          let only : items_below top ns (dir d)
              ≡ record { top = top; names = ns; contents = none } ∷ [] =
            rw e refl in
          dir_step (join top ns) d _ pipe _ (entries-wire top ns d false pipe g)
          ∙ rw (e, none_in) (empty_step top ns pipe (subst Fits only f))
    ]

    entries-wire :
        (top : CString) (ns : List CString) (d : Dir) (found : Bool) (pipe : List ℕ)
        → Fits (items_inside top ns d)
        → sync_send_entries os max_buffsize (join top ns) d found pipe
          ≡ some (found || has_entry d, pipe ++ wire (items_inside top ns d))
    entries-wire top ns end found pipe f = end_step (join top ns) found pipe
    entries-wire top ns (entry name node rest) found pipe f = elim (Bool-cases (is_dot name)) [
      | inl e ↦
          dot_step (join top ns) name node rest found pipe e
          ∙ entries-wire top ns rest found pipe (subst Fits (rw e refl) f)
          ∙ rw e refl
      | inr e ↦
          let (l, r) =
            Fits-append (items_below top (ns ++ name ∷ []) node) (items_inside top ns rest)
              (subst Fits (rw e refl) f) in
          entry_step (join top ns) name node rest found pipe _ e (
            ap (λ p. sync_send_node os max_buffsize p node pipe) (sym (join-snoc top ns name))
            ∙ node-wire top (ns ++ name ∷ []) node pipe l)
          ∙ entries-wire top ns rest true _ r
          ∙ rw
              (
                e,
                or_true found,
                wire-append (items_below top (ns ++ name ∷ []) node) (items_inside top ns rest),
              )
              (ap (λ p. some (true, p)) (append_assoc pipe _ _))
    ]

  sync_send-wire :
      (input : Dir) (pipe : List ℕ)
      → Fits (items input)
      → sync_send os max_buffsize input pipe ≡ some (pipe ++ encode (items input))
  unfolding sync_send items encode wire write
  sync_send-wire end pipe f = rw (ok.writes pipe, write) refl
  sync_send-wire (entry name node rest) pipe f = elim (Bool-cases (is_dot name)) [
    | inl e ↦ rw e (sync_send-wire rest pipe (subst Fits (rw e refl) f))
    | inr e ↦
        let (l, r) =
          Fits-append (items_below name [] node) (items rest) (subst Fits (rw e refl) f) in
        let sent =
          ap (λ p. sync_send_node os max_buffsize p node pipe) (sym (append-nil name))
          ∙ node-wire name [] node pipe l in
        rw (e, sent, sync_send-wire rest _ r, wire-append (items_below name [] node) (items rest))
          (simp append_assoc)
  ]

  -- Every file and every empty directory is sent, in the order in which the walk meets them, and
  -- the two zero bytes last.
  pub sync_send-encode :
      (input : Dir)
      → Fits (items input)
      → sync_send os max_buffsize input [] ≡ some (encode (items input))
  sync_send-encode input f = sync_send-wire input [] f
