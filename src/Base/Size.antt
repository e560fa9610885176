-- ===== src/Base/Size.antt =====
-- `size_t` of the target, 64 bits wide, with its wrap-around.
use Prim.Native.Nat.{ℕ, ◌+◌, ◌-◌, ◌%◌, ◌^◌, ◌≤◌, ◌<◌}
use mathlib.Core.Path.{◌≡◌}
use native.Mathlib.Omega.{arith}

abbrev pub size_mod : ℕ
size_mod = 2 ^ 64

abbrev pub add_size : ℕ → ℕ → ℕ
add_size a b = (a + b) % size_mod

abbrev pub sub_size : ℕ → ℕ → ℕ
sub_size a b = (a + size_mod - b) % size_mod

pub add_size-exact : (a b : ℕ) → a + b < size_mod → add_size a b ≡ a + b
add_size-exact a b h = omega arith

pub sub_size-exact : (a b : ℕ) → b ≤ a → a < size_mod → sub_size a b ≡ a - b
sub_size-exact a b h k = omega arith
