-- ===== src/Buffer/Window.antt =====
-- A run of slots of the circular buffer, going round at its end.
use systems_programming.Base.{
  ℕ, zero, suc, ◌+◌, ◌-◌, ◌≤◌, ◌<◌, ◌≡◌, refl, ap, ap₂, List, [], ◌∷◌, ◌++◌, arith, leb,
  if◌then◌else◌, length, get_or, set, get_or-set_self, get_or-set_ne,
}
use systems_programming.Base.Size.{size_mod}
use systems_programming.Buffer.{next_index}

-- The index `n` steps behind `h`.
abbrev pub index_behind : ℕ → ℕ → ℕ → ℕ
index_behind size h n = if leb size (h + n) then h + n - size else h + n

module _ {ℓ} {A : Type ℓ} (d : A) where
  -- The `n` elements from index `h` on.
  abbrev pub window : List A → ℕ → ℕ → ℕ → List A
  window buf size h zero = []
  window buf size h (suc n) = get_or buf h d ∷ window buf size (next_index size h) n

  pub length-window : (buf : List A) (size h n : ℕ) → length (window buf size h n) ≡ n
  length-window buf size h zero = refl
  length-window buf size h (suc n) = ap suc (length-window buf size (next_index size h) n)

  -- Writing just behind a window extends it by the element.
  pub window-set :
      (buf : List A) (size : ℕ) (x : A) (n h i : ℕ)
      → size ≤ length buf
      → size < size_mod
      → h < size
      → n < size
      → i ≡ index_behind size h n
      → window (set buf i x) size h (suc n) ≡ window buf size h n ++ x ∷ []
  window-set buf size x zero h i room small hh hn e =
      let e' : i ≡ h = ground arith in rw (e', get_or-set_self buf h x d (omega arith))
  window-set buf size x (suc n) h i room small hh hn e =
      ap₂ ◌∷◌ (get_or-set_ne buf x d (ground arith)) (
        window-set buf size x n (next_index size h) i room small (ground arith) (omega arith)
          (ground arith))
