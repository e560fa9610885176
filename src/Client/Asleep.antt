-- ===== src/Client/Asleep.antt =====
-- Who can go on: the workers while the buffer is not empty, unless one sleeps in the loop that
-- pushes files or has ended.
use systems_programming.Base.{◌≡◌, refl, Bool, true, false, some, arith}
use systems_programming.Buffer.{Buffer, buffer_is_full}
use systems_programming.Client.{
  Place, at_top, wait_pop, holding, asked, fetching, gone, pushing, wait_push, MainPlace, waiting,
  adding, wait_add, Client, main_goes_on, push_one, add, main_step, act,
}
use systems_programming.Client.Due.{IsMainDue, IsClient}

-- A worker that sleeps in the loop that pushes files, or has ended.
abbrev pub is_stopped : Place → Bool
is_stopped at_top = false
is_stopped wait_pop = false
is_stopped (holding j) = false
is_stopped (asked j) = false
is_stopped fetching = false
is_stopped gone = true
is_stopped (pushing es) = false
is_stopped (wait_push es) = true

abbrev pub is_waiting : MainPlace → Bool
is_waiting waiting = true
is_waiting (adding e) = false
is_waiting (wait_add e) = false

-- While the buffer is not full, the main thread can push the element that it holds.
pub main_moves :
    (c : Client)
    → IsClient c
    → buffer_is_full c.buffer ≡ false
    → is_waiting c.main ≡ false
    → (c' : Client) × (act c main_goes_on ≡ some c') × (c'.main ≡ waiting)
unfolding act
main_moves c v h w = moves c.main v.main_due w
  where
    moves :
        (m : MainPlace)
        → IsMainDue c.buffer m
        → is_waiting m ≡ false
        → (c' : Client) × (main_step c m main_goes_on ≡ some c') × (c'.main ≡ waiting)
    moves waiting d q = absurd (ground arith)
    moves (adding e) d q =
        (record (push_one c e) { main = waiting }, (unfold main_step add in rw h refl), refl)
    moves (wait_add e) d q = absurd (ground arith)
