-- ===== src/Client/Version.antt =====
-- `find_version` and what a request for a file makes of it.
use systems_programming.Base.{ℕ, zero, suc, ◌≡◌, refl, ap, ◌∙◌, true, some, List, [], ◌++◌, get_or}
use systems_programming.Base.CString.{CString, str_eq, str_eq_iff}
use systems_programming.Client.Transfer.{Calls, send_file, take_reply, local_version, get_file}
use systems_programming.Client.FileList.{hex, print_digest, find_version}

print_digest_same :
    (n : ℕ) (c d : List ℕ) (ret : CString)
    → get_or c 0 0 ≡ get_or d 0 0
    → print_digest n c ret ≡ print_digest n d ret
unfolding print_digest
print_digest_same zero c d ret h = refl
print_digest_same (suc n) c d ret h = rw h (print_digest_same n c d (ret ++ hex (get_or d 0 0)) h)

find_version_same :
    (md5 : List ℕ → List ℕ) (a b : List ℕ)
    → get_or (md5 a) 0 0 ≡ get_or (md5 b) 0 0
    → find_version md5 a ≡ find_version md5 b
unfolding find_version
find_version_same md5 a b h =
    print_digest_same 15 (md5 a) (md5 b) (hex (get_or (md5 a) 0 0)) h
    ∙ ap (λ x. print_digest 15 (md5 b) (hex x)) h

-- A client has a file, and another one has other bytes in it, whose digest has the same first byte.
-- When the client asks for the file and the first write to it succeeds, it keeps its own bytes.
pub get_file-same_first_byte :
    (md5 : List ℕ → List ℕ) (os : Calls) (fuel : ℕ) (path : CString) (old new : List ℕ)
    → os.open_file path ≡ some new
    → os.sends [] ≡ true
    → get_or (md5 new) 0 0 ≡ get_or (md5 old) 0 0
    → get_file (record os { digest = find_version md5 }) fuel path (some old) ≡ some (some old)
unfolding get_file send_file take_reply local_version
get_file-same_first_byte md5 os fuel path old new opens writes same =
    let e : str_eq (find_version md5 new) (find_version md5 old) ≡ true =
      (str_eq_iff (find_version md5 new) (find_version md5 old)).1
        (find_version_same md5 new old same) in
    rw (opens, writes, e) refl
