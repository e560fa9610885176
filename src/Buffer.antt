-- ===== src/Buffer.antt =====
-- SysPro_Project3/src/buffer.c: the circular buffer between the client's threads. One slot is
-- always free, so that `read == write` means empty.
pub mod Window
pub mod Refine
mod Tests
use systems_programming.Base.{
  ℕ, ◌+◌, Bool, true, false, Option, List, leb, ◌==◌, if◌then◌else◌, get_elem?, set,
}
use systems_programming.Base.Size.{add_size}

-- `buffer_t`, with elements of any type.
pub record Buffer {ℓ} (A : Type ℓ) : Type ℓ where
  pub circ_buffer : List A
  pub size : ℕ
  pub read : ℕ
  pub write : ℕ

-- The index behind `i`: `i++; if (i >= size) i = 0;`
abbrev pub next_index : ℕ → ℕ → ℕ
next_index size i = if leb size (add_size i 1) then 0 else add_size i 1

module _ {ℓ} {A : Type ℓ} where
  -- `storage` is what `malloc` returns.
  unfoldable pub buffer_init : List A → ℕ → Buffer A
  buffer_init storage size = record { circ_buffer = storage; size = size; read = 0; write = 0 }

  unfoldable pub buffer_is_empty : Buffer A → Bool
  buffer_is_empty b = b.read == b.write

  unfoldable pub buffer_is_full : Buffer A → Bool
  buffer_is_full b = b.read == next_index b.size b.write

  unfoldable pub buffer_push : Buffer A → A → Buffer A
  buffer_push b x = record b {
    circ_buffer = set b.circ_buffer b.write x;
    write = next_index b.size b.write;
  }

  -- The returned pointer is the index of the popped slot; `buffer_at` reads through it.
  unfoldable pub buffer_pop : Buffer A → ℕ × Buffer A
  buffer_pop b = (b.read, record b { read = next_index b.size b.read })

  abbrev pub buffer_at : Buffer A → ℕ → Option A
  buffer_at b i = get_elem? b.circ_buffer i
