-- ===== src/Client/ListTests.antt =====
-- A directory with a file, a directory below it, and what is not listed.
use systems_programming.Base.{ℕ, ◌≡◌, refl, true, none, some, List, [], ◌∷◌, map, arith, not}
use systems_programming.Base.CString.{CString, strcmp, str_eq}
use systems_programming.Mirror.{file, dir, Dir, end, entry, dot}
use systems_programming.ClientList.{ClientTuple}
use systems_programming.Server.Code
use systems_programming.Client.Transfer.{Calls, get_file}
use systems_programming.Client.FileList.{
  reserved, tuple_of, add_file, list_node, get_file_list, list_files, Part, code, count, of_file,
  send_file_list, receive_file_list, find_version,
}
use systems_programming.Client.Tuples.{tuples_in}
use systems_programming.Client.Sharing.{filled, receive_file_list-send_file_list}
use systems_programming.Client.Version.{get_file-same_first_byte}

abbrev peer : ClientTuple
peer = record { ip_address = 16777343; port_num = 7 }

-- `./`, `a`, `b/c`, `e/` and `__RSRVD/x`.
abbrev tree : Dir
tree = entry dot (dir end) (
    entry (97 ∷ []) (file (1 ∷ [])) (
      entry (98 ∷ []) (dir (entry (99 ∷ []) (file (2 ∷ [])) end))
        (entry (101 ∷ []) (dir end) (entry reserved (dir (entry (120 ∷ []) (file []) end)) end))))

abbrev itself : List ℕ → CString
itself bytes = bytes

tree_tuples :
    tuples_in itself true (47 ∷ []) tree
    ≡ tuple_of (97 ∷ []) (1 ∷ [])
      ∷ tuple_of (98 ∷ 47 ∷ 99 ∷ []) (2 ∷ [])
      ∷ tuple_of (101 ∷ []) (68 ∷ 73 ∷ 82 ∷ [])
      ∷ []
unfolding tuples_in strcmp
tree_tuples = refl

receive_file_list-send_file_list_example :
    (parts : List Part) × (send_file_list itself ((λ path. true) ∷ []) (λ i. true) (47 ∷ []) tree
      ≡ some parts)
    × (receive_file_list peer (code Code.ok ∷ parts)
        ≡ map (filled peer) (tuples_in itself true (47 ∷ []) tree))
unfolding tuples_in strcmp
receive_file_list-send_file_list_example =
    receive_file_list-send_file_list itself (λ path. true) [] (λ i. true) (47 ∷ []) tree peer
      (λ path. refl) (λ i. refl) (omega arith, (omega arith, (omega arith, record {})))
      (omega arith)

-- When `b` cannot be opened at first, `a` is listed again in the next round.
twice :
    list_files itself
      ((λ path. not (str_eq path (98 ∷ []))) ∷ (λ path. true) ∷ [])
      (47 ∷ [])
      tree
      (record { files = []; num_of_files = 0 })
    ≡ some (record {
      files =
          tuple_of (97 ∷ []) (1 ∷ [])
          ∷ tuple_of (97 ∷ []) (1 ∷ [])
          ∷ tuple_of (98 ∷ 47 ∷ 99 ∷ []) (2 ∷ [])
          ∷ tuple_of (101 ∷ []) (68 ∷ 73 ∷ 82 ∷ [])
          ∷ [];
      num_of_files = 4;
    })
unfolding list_files get_file_list list_node add_file strcmp
twice = refl

-- The second tuple does not come: the slots behind are pushed as `malloc` left them.
cut_off :
    receive_file_list peer
      (code Code.ok ∷ code Code.file_list ∷ count 2 ∷ of_file (tuple_of (97 ∷ []) []) ∷ [])
    ≡ filled peer (tuple_of (97 ∷ []) []) ∷ record { f_tuple = none; c_tuple = peer } ∷ []
unfolding receive_file_list
cut_off = refl

abbrev calls : Calls
calls = record {
  digest = itself;
  open_file = λ path. some (1 ∷ 2 ∷ []);
  sends = λ sent. true;
  how_many = λ n socket. some n;
  storage = [];
}

abbrev seven : List ℕ → List ℕ
seven bytes = 7 ∷ bytes

get_file-same_first_byte_example :
    get_file (record calls { digest = find_version seven }) 5 (97 ∷ []) (some (3 ∷ []))
    ≡ some (some (3 ∷ []))
get_file-same_first_byte_example =
    get_file-same_first_byte seven calls 5 (97 ∷ []) (3 ∷ []) (1 ∷ 2 ∷ []) refl refl refl
