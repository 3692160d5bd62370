-- ===== src/Timer/Time.antt =====
-- `struct timeval` as a number of microseconds.
use wifitesttool.Base.{ℕ, ◌+◌, ◌-◌, ◌*◌, ◌≤◌, ◌<◌, ◌≡◌, ◌↔◌, true, false, arith}
use wifitesttool.Base.Int.{pos_part, ◌+ℤ◌, ◌-ℤ◌, ◌*ℤ◌}
use wifitesttool.Timer.{Timeval, million, earlier, add_usecs, timeout_usecs}

abbrev pub to_usecs : Timeval → ℕ
to_usecs t = t.sec * million + t.usec

abbrev pub IsNormal : Timeval → Type 0
IsNormal t = t.usec < million

pub earlier_iff :
    (a b : Timeval) → IsNormal a → IsNormal b → (earlier a b ≡ true) ↔ (to_usecs a < to_usecs b)
unfolding earlier
earlier_iff a b ha hb = ground arith

pub earlier-false :
    (a b : Timeval) → IsNormal a → IsNormal b → earlier a b ≡ false → to_usecs b ≤ to_usecs a
unfolding earlier
earlier-false a b ha hb h = ground arith

pub add_usecs-IsNormal : (t : Timeval) (n : ℕ) → IsNormal t → IsNormal (add_usecs t n)
unfolding add_usecs
add_usecs-IsNormal t n h = ground arith

-- `add_usecs` adds exactly the microseconds that it is given.
pub add_usecs_lem : (t : Timeval) (n : ℕ) → IsNormal t → to_usecs (add_usecs t n) ≡ to_usecs t + n
unfolding add_usecs
add_usecs_lem t n h = ground arith

pub timeout_usecs_lem :
    (t now : Timeval) → pos_part (timeout_usecs t now) ≡ to_usecs t - to_usecs now
unfolding timeout_usecs ◌+ℤ◌ ◌-ℤ◌ ◌*ℤ◌
timeout_usecs_lem t now = ground arith
