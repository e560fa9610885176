-- ===== src/Mirror/Names.antt =====
-- Paths of names: what `strtok` cuts them into and which directories are made for them.
use systems_programming.Base.{
  ℕ, ◌<◌, ◌≡◌, ◌≢◌, refl, sym, ap, ◌∙◌, true, false, some, List, [], ◌∷◌, ◌++◌, if◌then◌else◌,
  length, length-append, arith,
}
use mathlib.Core.List.{append_assoc, append-nil}
use systems_programming.Base.CString.{CString, str_eq, str_eq-ne, strcmp_refl}
use systems_programming.Mirror.{slash, append_to_rel_path}
use systems_programming.Mirror.Receive.{
  c_string, end_token, strtok, make_tree, made_dirs, ends_in_slash,
}
use systems_programming.Mirror.Listing.{below, join, IsName, AreNames, ancestors, lineage}

-- What follows the names on the wire: nothing, or the slash of an empty directory.
abbrev IsEnd : List ℕ → Type 0
IsEnd tail = (token : CString) → strtok token tail ≡ end_token token []

strtok-name : (token n s : CString) → IsName n → strtok token (n ++ s) ≡ strtok (token ++ n) s
unfolding strtok
strtok-name token [] s h = ap (λ t. strtok t s) (sym (append-nil token))
strtok-name token (c ∷ cs) s h =
    rw (strtok-name (token ++ c ∷ []) cs s h.2) (ground (arith, append_assoc token (c ∷ []) cs))

strtok-below :
    (c : ℕ) (cs : CString) (ns : List CString) (tail : List ℕ)
    → AreNames ns
    → IsEnd tail
    → strtok (c ∷ cs) (below ns ++ tail) ≡ (c ∷ cs) ∷ ns
unfolding strtok
strtok-below c cs [] tail h e = e (c ∷ cs)
strtok-below c cs ([] ∷ ns) tail h e = absurd (h.0 refl)
strtok-below c cs ((d ∷ ds) ∷ ns) tail h e =
    rw
      (
        append_assoc ds (below ns) tail,
        strtok-name (d ∷ []) ds (below ns ++ tail) h.1.2,
        strtok-below d ds ns tail h.2 e,
      )
      (ground arith)

-- The tokens of a path are its names.
strtok-path :
    (top : CString) (ns : List CString) (tail : List ℕ)
    → top ≢ []
    → IsName top
    → AreNames ns
    → IsEnd tail
    → strtok [] (join top ns ++ tail) ≡ top ∷ ns
strtok-path [] ns tail h n a e = absurd (h refl)
strtok-path (c ∷ cs) ns tail h n a e =
    rw (append_assoc (c ∷ cs) (below ns) tail, strtok-name [] (c ∷ cs) (below ns ++ tail) n)
      (strtok-below c cs ns tail a e)

-- A path is not equal to a tree that ends before it.
longer : (path tree rest : CString) → path ≡ tree ++ rest → 0 < length rest → path ≢ tree
longer path tree rest e h q = omega (arith, ap length (sym q ∙ e), length-append tree rest)

-- One name further down the path.
deeper :
    (tree t : CString) (ts : List CString) (tail : List ℕ)
    → tree ++ (below (t ∷ ts) ++ tail) ≡ append_to_rel_path tree t ++ (below ts ++ tail)
deeper tree t ts tail =
    rw (append_assoc t (below ts) tail) (sym (append_assoc tree (slash ∷ t) (below ts ++ tail)))

make_tree-file :
    (path tree t : CString) (ts : List CString)
    → path ≡ tree ++ (below (t ∷ ts) ++ [])
    → make_tree path tree (t ∷ ts) ≡ ancestors (append_to_rel_path tree t) ts
unfolding make_tree
make_tree-file path tree t [] e =
    let same : path ≡ append_to_rel_path tree t =
      e ∙ ap (λ r. tree ++ slash ∷ r) (append-nil (t ++ []) ∙ append-nil t) in
    rw same (ground (arith, strcmp_refl (append_to_rel_path tree t)))
make_tree-file path tree t (u ∷ us) e =
    let down = e ∙ deeper tree t (u ∷ us) [] in
    rw
      (
        str_eq-ne path _ (longer path (append_to_rel_path tree t) _ down (omega arith)),
        make_tree-file path (append_to_rel_path tree t) u us down,
      )
      refl

make_tree-dir :
    (path tree : CString) (ts : List CString)
    → path ≡ tree ++ (below ts ++ slash ∷ [])
    → tree ∷ make_tree path tree ts ≡ lineage tree ts
unfolding make_tree
make_tree-dir path tree [] e = refl
make_tree-dir path tree (t ∷ ts) e =
    let down = e ∙ deeper tree t ts (slash ∷ []) in
    let more = length-append (below ts) (slash ∷ []) in
    rw
      (
        str_eq-ne path _ (longer path (append_to_rel_path tree t) _ down (omega arith)),
        make_tree-dir path (append_to_rel_path tree t) ts down,
      )
      refl

-- The directories made for a file are those on the way to it.
pub made_dirs-file :
    (top : CString) (ns : List CString)
    → top ≢ []
    → IsName top
    → AreNames ns
    → made_dirs (join top ns) ≡ some (ancestors top ns)
unfolding made_dirs
made_dirs-file top ns h n a =
    rw
      (
        ap (strtok []) (sym (append-nil (join top ns)))
            ∙ strtok-path top ns [] h n a (λ t. unfold strtok in refl),
        made_dirs,
      )
      (ap some (made ns (ap (λ r. top ++ r) (sym (append-nil (below ns))))))
  where
    made :
        (ns : List CString)
        → join top ns ≡ top ++ (below ns ++ [])
        → (if str_eq top (join top ns) then [] else top ∷ make_tree (join top ns) top ns)
          ≡ ancestors top ns
    made [] e = rw (append-nil top) (ground (arith, strcmp_refl top))
    made (t ∷ ts) e =
        rw
          (
            str_eq-ne top _ (λ q. longer (join top (t ∷ ts)) top _ e (omega arith) (sym q)),
            make_tree-file (join top (t ∷ ts)) top t ts e,
          )
          refl

-- Those made for an empty directory are itself and those on the way to it.
pub made_dirs-dir :
    (top : CString) (ns : List CString)
    → top ≢ []
    → IsName top
    → AreNames ns
    → made_dirs (append_to_rel_path (join top ns) []) ≡ some (lineage top ns)
unfolding made_dirs
made_dirs-dir top ns h n a =
    let path = append_assoc top (below ns) (slash ∷ []) in
    let more = length-append (below ns) (slash ∷ []) in
    rw
      (
        strtok-path top ns (slash ∷ []) h n a (λ t. unfold strtok in refl),
        made_dirs,
        str_eq-ne top _
            (λ q. longer (append_to_rel_path (join top ns) []) top _ path (omega arith) (sym q)),
        make_tree-dir (append_to_rel_path (join top ns) []) top ns path,
      )
      refl

c_string-append : (n s : CString) → IsName n → c_string (n ++ s) ≡ n ++ c_string s
unfolding c_string
c_string-append [] s h = refl
c_string-append (c ∷ cs) s h = ground (arith, c_string-append cs s h.2)

c_string-below :
    (ns : List CString) (tail : List ℕ)
    → AreNames ns
    → c_string (below ns ++ tail) ≡ below ns ++ c_string tail
unfolding c_string
c_string-below [] tail h = refl
c_string-below (n ∷ ns) tail h =
    rw
      (
        append_assoc n (below ns) tail,
        c_string-append n (below ns ++ tail) h.1,
        c_string-below ns tail h.2,
        append_assoc n (below ns) (c_string tail),
      )
      refl

-- A path of names has no NUL inside.
pub c_string-path :
    (top : CString) (ns : List CString) (tail : List ℕ)
    → IsName top
    → AreNames ns
    → c_string (join top ns ++ tail) ≡ join top ns ++ c_string tail
c_string-path top ns tail n a =
    rw
      (
        append_assoc top (below ns) tail,
        c_string-append top (below ns ++ tail) n,
        c_string-below ns tail a,
        append_assoc top (below ns) (c_string tail),
      )
      refl

ends_in_slash-append :
    (s : CString) (c : ℕ) (t : CString) → ends_in_slash (s ++ c ∷ t) ≡ ends_in_slash (c ∷ t)
unfolding ends_in_slash
ends_in_slash-append [] c t = refl
ends_in_slash-append (x ∷ []) c t = refl
ends_in_slash-append (x ∷ y ∷ s) c t = ends_in_slash-append (y ∷ s) c t

ends_in_slash-name : (n : CString) → n ≢ [] → IsName n → ends_in_slash n ≡ false
unfolding ends_in_slash
ends_in_slash-name [] h n = absurd (h refl)
ends_in_slash-name (c ∷ []) h n = ground arith
ends_in_slash-name (c ∷ d ∷ s) h n = ends_in_slash-name (d ∷ s) (λ e. ground arith) n.2

-- A file's path does not end in a slash, that of an empty directory does.
pub ends_in_slash-file :
    (top : CString) (ns : List CString)
    → top ≢ []
    → IsName top
    → AreNames ns
    → ends_in_slash (join top ns) ≡ false
unfolding ends_in_slash
ends_in_slash-file top [] h n a = ap ends_in_slash (append-nil top) ∙ ends_in_slash-name top h n
ends_in_slash-file top ([] ∷ ns) h n a = absurd (a.0 refl)
ends_in_slash-file top ((c ∷ cs) ∷ ns) h n a =
    ends_in_slash-append top slash ((c ∷ cs) ++ below ns)
    ∙ ends_in_slash-file (c ∷ cs) ns a.0 a.1 a.2

pub ends_in_slash-dir : (s : CString) → ends_in_slash (append_to_rel_path s []) ≡ true
ends_in_slash-dir s = ends_in_slash-append s slash [] ∙ unfold ends_in_slash in refl
