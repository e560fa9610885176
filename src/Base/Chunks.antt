-- ===== src/Base/Chunks.antt =====
-- Copies into an array, and lists cut into a front and a rest.
use Prim.Native.Nat.{ℕ, zero, suc, ◌-◌, ◌≤◌, min}
use mathlib.Core.Path.{◌≡◌, refl, sym, ap}
use mathlib.Core.List.{List, [], ◌∷◌, ◌++◌}
use native.Mathlib.Omega.{arith}
use systems_programming.Base.Lists.{length, take, drop, get_or, take-nil}

-- `for (i = 0; i < n; i++) buffer[i] = source[i];`, where what follows a string is NUL.
abbrev pub fill : ℕ → List ℕ → List ℕ → List ℕ
fill zero buffer source = buffer
fill (suc n) [] source = []
fill (suc n) (_ ∷ buffer) source = get_or source 0 0 ∷ fill n buffer (drop 1 source)

-- `read` from a file at the bytes that are left of it.
abbrev pub read_bytes : ℕ → List ℕ → List ℕ → List ℕ
read_bytes n buffer left = fill (min n (length left)) buffer left

pub length-fill : (n : ℕ) (buffer source : List ℕ) → length (fill n buffer source) ≡ length buffer
length-fill zero buffer source = refl
length-fill (suc n) [] source = refl
length-fill (suc n) (_ ∷ buffer) source = ap suc (length-fill n buffer (drop 1 source))

-- A buffer that is filled up to `n` holds the front of the source.
pub take-fill :
    (n : ℕ) (buffer source : List ℕ)
    → n ≤ length buffer
    → n ≤ length source
    → take n (fill n buffer source) ≡ take n source
take-fill zero buffer source h k = refl
take-fill (suc n) [] source h k = absurd (omega arith)
take-fill (suc n) (_ ∷ buffer) [] h k = absurd (omega arith)
take-fill (suc n) (_ ∷ buffer) (x ∷ source) h k =
    ap (λ xs. x ∷ xs) (take-fill n buffer source (omega arith) (omega arith))

module _ {ℓ} {A : Type ℓ} where
  pub length-drop : (n : ℕ) (xs : List A) → length (drop n xs) ≡ length xs - n
  length-drop zero xs = omega arith
  length-drop (suc n) [] = omega arith
  length-drop (suc n) (_ ∷ xs) = omega (arith, length-drop n xs)

  -- A front is a smaller front and the front of what follows it.
  pub take-drop :
      (n m : ℕ) (xs : List A) → n ≤ m → take m xs ≡ take n xs ++ take (m - n) (drop n xs)
  take-drop zero m xs h = ap (λ k. take k xs) (omega arith)
  take-drop (suc n) zero xs h = absurd (omega arith)
  take-drop (suc n) (suc m) [] h = sym (take-nil A (suc m - suc n))
  take-drop (suc n) (suc m) (x ∷ xs) h = rw (less, take-drop n m xs (omega arith)) refl
    where
      less : suc m - suc n ≡ m - n
      less = omega arith

  pub take-length : (xs ys : List A) → take (length xs) (xs ++ ys) ≡ xs
  take-length [] ys = refl
  take-length (x ∷ xs) ys = ap (λ zs. x ∷ zs) (take-length xs ys)

  pub drop-length : (xs ys : List A) → drop (length xs) (xs ++ ys) ≡ ys
  drop-length [] ys = refl
  drop-length (x ∷ xs) ys = drop-length xs ys

  pub drop-drop : (n m : ℕ) (xs : List A) → n ≤ m → drop (m - n) (drop n xs) ≡ drop m xs
  drop-drop zero m xs h = ap (λ k. drop k xs) (omega arith)
  drop-drop (suc n) zero xs h = absurd (omega arith)
  drop-drop (suc n) (suc m) [] h = drop-nil (suc m - suc n)
    where
      drop-nil : (k : ℕ) → drop {A = A} k [] ≡ []
      drop-nil zero = refl
      drop-nil (suc k) = refl
  drop-drop (suc n) (suc m) (x ∷ xs) h =
      let less : suc m - suc n ≡ m - n = omega arith in rw less (drop-drop n m xs (omega arith))

  pub append-take-drop : (n : ℕ) (xs : List A) → take n xs ++ drop n xs ≡ xs
  append-take-drop zero xs = refl
  append-take-drop (suc n) [] = refl
  append-take-drop (suc n) (x ∷ xs) = ap (λ ys. x ∷ ys) (append-take-drop n xs)

  pub take-all : (xs : List A) → take (length xs) xs ≡ xs
  take-all [] = refl
  take-all (x ∷ xs) = ap (λ ys. x ∷ ys) (take-all xs)
