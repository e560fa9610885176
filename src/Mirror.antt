-- ===== src/Mirror.antt =====
-- SysPro_Project2/src/mirror_client: what one client sends to another through a named pipe, the
-- directories it is read from, and what the calls of the system may answer.
pub mod Send
pub mod Receive
pub mod Names
pub mod Listing
pub mod Sending
pub mod Walk
pub mod Receiving
pub mod RoundTrip
mod Tests
use systems_programming.Base.{ℕ, ◌+◌, ◌*◌, ◌/◌, ◌%◌, Bool, Option, List, [], ◌∷◌, ◌++◌}
use systems_programming.Base.CString.{CString}

-- What `stat` and `readdir` tell of a path: a file's bytes, or the entries of a directory in the
-- order in which `readdir` returns them, `.` and `..` among them.
mutual
  pub data Node : Type 0 where
    file : List ℕ → Node
    dir : Dir → Node

  pub data Dir : Type 0 where
    end : Dir
    entry : CString → Node → Dir → Dir

-- The answers of the system. `write_ok`: a write succeeds on a pipe that holds these bytes.
-- `may_open`: `opendir` succeeds. `how_many`: the result of a `read` of so many bytes from a pipe
-- that holds these, `none` for -1. `may_create`: `open` with O_CREAT succeeds. `storage`: what
-- `malloc` returns for a buffer.
pub record System : Type 0 where
  pub write_ok : List ℕ → Bool
  pub may_open : CString → Bool
  pub how_many : ℕ → List ℕ → Option ℕ
  pub may_create : CString → Bool
  pub storage : List ℕ

abbrev pub slash : ℕ
slash = 47

abbrev pub dot : CString
dot = 46 ∷ []

abbrev pub dot_dot : CString
dot_dot = 46 ∷ 46 ∷ []

-- The bytes of a `short unsigned` and of an `unsigned` in memory, and the number in such bytes.
abbrev pub short_bytes : ℕ → List ℕ
short_bytes n = n % 256 ∷ n / 256 % 256 ∷ []

abbrev pub unsigned_bytes : ℕ → List ℕ
unsigned_bytes n = n % 256 ∷ n / 256 % 256 ∷ n / 65536 % 256 ∷ n / 16777216 % 256 ∷ []

abbrev pub number : List ℕ → ℕ
number [] = 0
number (b ∷ bs) = b + 256 * number bs

-- `append_to_rel_path`
abbrev pub append_to_rel_path : CString → CString → CString
append_to_rel_path path name = path ++ slash ∷ name
