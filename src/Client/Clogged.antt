-- ===== src/Client/Clogged.antt =====
-- What happens when the buffer is full and every worker is about to push: nothing any more.
use systems_programming.Base.{
  ℕ, zero, suc, ◌≡◌, refl, subst, ◌∙◌, Bool, true, false, some, List, [], ◌∷◌, ◌&&◌, get_elem?, set,
  arith, inl, inr, Option-cases,
}
use systems_programming.ClientList.{client_list_add, delete_from_client_list}
use systems_programming.Buffer.{buffer_is_full}
use systems_programming.Client.{
  Place, at_top, wait_pop, holding, asked, fetching, gone, pushing, wait_push, MainPlace, waiting,
  adding, wait_add, Client, client_element, Answer, Action, user_on, user_off, main_goes_on,
  worker_goes_on, push_files, work, add, put, main_step, act, run,
}

-- A worker with files that it has not pushed, in the loop that pushes them.
abbrev pub has_files : Place → Bool
has_files at_top = false
has_files wait_pop = false
has_files (holding j) = false
has_files (asked j) = false
has_files fetching = false
has_files gone = false
has_files (pushing []) = false
has_files (pushing (_ ∷ _)) = true
has_files (wait_push []) = false
has_files (wait_push (_ ∷ _)) = true

abbrev pub all_have_files : List Place → Bool
all_have_files [] = true
all_have_files (p ∷ ps) = has_files p && all_have_files ps

pub record IsClogged (c : Client) : Type 0 where
  pub full : buffer_is_full c.buffer ≡ true
  pub stuck : all_have_files c.workers ≡ true

at-has_files :
    (ps : List Place) (i : ℕ) (p : Place)
    → all_have_files ps ≡ true
    → get_elem? ps i ≡ some p
    → has_files p ≡ true
at-has_files [] i p h e = absurd (ground arith)
at-has_files (q ∷ ps) zero p h e = ground arith
at-has_files (q ∷ ps) (suc i) p h e = at-has_files ps i p (ground arith) e

set-all_have_files :
    (ps : List Place) (i : ℕ) (p : Place)
    → all_have_files ps ≡ true
    → has_files p ≡ true
    → all_have_files (set ps i p) ≡ true
set-all_have_files [] i p h e = h
set-all_have_files (q ∷ ps) zero p h e = ground arith
set-all_have_files (q ∷ ps) (suc i) p h e = ground (arith, set-all_have_files ps i p)

abbrev Stays : Client → Client → Type 0
Stays c c' = IsClogged c' × (c'.buffer ≡ c.buffer) × (c'.popped ≡ c.popped)

work-Stays :
    (c c' : Client) (i : ℕ) (p : Place) (a : Answer)
    → IsClogged c
    → has_files p ≡ true
    → work c i p a ≡ some c'
    → Stays c c'
unfolding work push_files
work-Stays c c' i at_top a v f h = absurd (ground arith)
work-Stays c c' i wait_pop a v f h = absurd (ground arith)
work-Stays c c' i (holding j) a v f h = absurd (ground arith)
work-Stays c c' i (asked j) a v f h = absurd (ground arith)
work-Stays c c' i fetching a v f h = absurd (ground arith)
work-Stays c c' i gone a v f h = absurd (ground arith)
work-Stays c c' i (pushing []) a v f h = absurd (ground arith)
work-Stays c c' i (pushing (e ∷ es)) a v f h =
    let same : put c i (wait_push (e ∷ es)) ≡ c' = ground arith in
    subst (Stays c) same (
      record {
        full = v.full;
        stuck = set-all_have_files c.workers i (wait_push (e ∷ es)) v.stuck refl;
      },
      refl,
      refl,
    )
work-Stays c c' i (wait_push es) a v f h = absurd (ground arith)

main-Stays :
    (c c' : Client) (m : MainPlace) (a : Action)
    → IsClogged c
    → main_step c m a ≡ some c'
    → Stays c c'
unfolding main_step add
main-Stays c c' waiting (user_on t) v h =
    let same : record c { list = client_list_add c.list t; main = adding (client_element t) } ≡ c' =
      ground arith in
    subst (Stays c) same (record { full = v.full; stuck = v.stuck }, refl, refl)
main-Stays c c' waiting (user_off t) v h =
    let same : record c { list = delete_from_client_list c.list t } ≡ c' = ground arith in
    subst (Stays c) same (record { full = v.full; stuck = v.stuck }, refl, refl)
main-Stays c c' waiting main_goes_on v h = absurd (ground arith)
main-Stays c c' waiting (worker_goes_on i a) v h = absurd (ground arith)
main-Stays c c' (adding e) (user_on t) v h = absurd (ground arith)
main-Stays c c' (adding e) (user_off t) v h = absurd (ground arith)
main-Stays c c' (adding e) main_goes_on v h =
    let same : record c { main = wait_add e } ≡ c' = ground arith in
    subst (Stays c) same (record { full = v.full; stuck = v.stuck }, refl, refl)
main-Stays c c' (adding e) (worker_goes_on i a) v h = absurd (ground arith)
main-Stays c c' (wait_add e) a v h = absurd (ground arith)

act-Stays : (c c' : Client) (a : Action) → IsClogged c → act c a ≡ some c' → Stays c c'
unfolding act
act-Stays c c' (worker_goes_on i a) v h = elim (Option-cases (get_elem? c.workers i)) [
  | inl e ↦ absurd (ground arith)
  | inr (p, e) ↦ work-Stays c c' i p a v (at-has_files c.workers i p v.stuck e) (ground arith)
]
act-Stays c c' (user_on t) v h = main-Stays c c' c.main (user_on t) v h
act-Stays c c' (user_off t) v h = main-Stays c c' c.main (user_off t) v h
act-Stays c c' main_goes_on v h = main-Stays c c' c.main main_goes_on v h

-- Once the buffer is full while every worker has files to push, it stays so in every order of
-- steps: nothing is popped from the buffer and nothing is pushed into it again.
pub run-IsClogged :
    (steps : List Action) (c c' : Client)
    → IsClogged c
    → run steps c ≡ some c'
    → IsClogged c' × (c'.buffer ≡ c.buffer) × (c'.popped ≡ c.popped)
unfolding run
run-IsClogged [] c c' v h = let same : c ≡ c' = ground arith in subst (Stays c) same (v, refl, refl)
run-IsClogged (a ∷ later) c c' v h = elim (Option-cases (act c a)) [
  | inl e ↦ absurd (ground arith)
  | inr (d, e) ↦
      let (v', b, p) = act-Stays c d a v e in
      let (w, b', p') = run-IsClogged later d c' v' (ground arith) in (w, b' ∙ b, p' ∙ p)
]
