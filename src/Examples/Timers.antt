-- ===== src/Examples/Timers.antt =====
-- Two timers of timer.c, the first of them due, and one on the free list. A callback is a number, and
-- adds itself to a sum.
use wifitesttool.Base.{
  ℕ, ◌+◌, ◌<◌, ◌≡◌, refl, true, false, Option, none, some, List, [], ◌∷◌, arith,
}
use wifitesttool.Timer.{
  Timer, Timers, Timeval, done, earlier, find, tmr_create, tmr_timeout, tmr_reset, tmr_cancel,
  tmr_run, list_resort, list_remove, list_add, add_usecs, new_timer,
}
use wifitesttool.Timer.Time.{IsNormal, to_usecs}
use wifitesttool.Timer.Valid.{IsValid, tmr_cancel-IsValid}
use wifitesttool.Timer.Effects.{IsTimeout, tmr_timeout-IsTimeout}
use wifitesttool.Timer.Refines.{
  Op, create, reset, cancel, Changes, view, Calls, no_call, call, creates, resets, cancels,
  Calls-Changes,
}
use wifitesttool.Timer.Run.{Leaves, tmr_run-IsValid}
use wifitesttool.Timer.Run.Work.{work}
use wifitesttool.Timer.Run.Total.{traced, CalledAll, tmr_run_total}

abbrev at : ℕ → ℕ → Timeval
at s u = record { sec = s; usec = u }

abbrev first : Timer ℕ
first = record { addr = 1; proc = 7; usecs = 5; periodic = true; time = at 1 0 }

abbrev second : Timer ℕ
second = record { addr = 2; proc = 8; usecs = 3; periodic = false; time = at 2 0 }

abbrev spare : Timer ℕ
spare = record { addr = 3; proc = 9; usecs = 1; periodic = false; time = at 0 0 }

abbrev two : Timers ℕ
two = record { active = first ∷ second ∷ []; free = spare ∷ [] }

abbrev now : Timeval
now = at 1 2

now-IsNormal : IsNormal now
now-IsNormal = omega arith

two-IsValid : IsValid two
unfolding find
two-IsValid = record {
  sorted = (omega arith, omega arith, (omega arith, omega arith, tt));
  distinct = (refl, (refl, tt));
  distinct_free = (refl, tt);
  apart = λ a. ground arith;
}

little_work : work now two.active < 4
unfolding work earlier
little_work = ground arith

abbrev add : ℕ → Timeval → ℕ → ℕ
add p t w = p + w

tmr_run_total_example :
    (s' : Timers ℕ) × (r : ℕ × List ℕ) × (tmr_run (traced add) 4 now two (0, []) ≡ done (s', r))
    × IsValid s'
    × CalledAll now r.1 two.active
tmr_run_total_example =
    tmr_run_total add now now-IsNormal 4 two 0 two-IsValid
      ((λ e. omega arith), ((λ e. omega arith), tt)) little_work

-- A callback that cancels the second timer.
abbrev cancel_second : ℕ → Timeval → Timers ℕ → ℕ → Option (Timers ℕ × ℕ)
cancel_second p t s w = elim (tmr_cancel 2 s) [ none ↦ none | some s' ↦ some (s', w + 1) ]

cancel_second-IsValid :
    (p : ℕ) (t : Timeval) (s : Timers ℕ) (w : ℕ) (r : Timers ℕ × ℕ)
    → IsValid s
    → cancel_second p t s w ≡ some r
    → IsValid r.0
cancel_second-IsValid p t s w r v e = ground (arith, tmr_cancel-IsValid 2 s v)

tmr_run-IsValid_example : Leaves (λ s' _. IsValid s') (tmr_run cancel_second 4 now two 0)
tmr_run-IsValid_example =
    tmr_run-IsValid cancel_second cancel_second-IsValid 4 now two 0 two-IsValid

tmr_timeout_example : IsTimeout now two.active (tmr_timeout now two)
tmr_timeout_example = tmr_timeout-IsTimeout now two two-IsValid

-- The first timer is reset, a third is made, and the second is cancelled later.
abbrev or_two : Option (Timers ℕ) → Timers ℕ
or_two none = two
or_two (some s) = s

abbrev reset_first : Timers ℕ
reset_first = or_two (tmr_reset now 1 two)

abbrev with_third : Timers ℕ
with_third = (tmr_create none now 6 10 true reset_first).1

abbrev without_second : Timers ℕ
without_second = or_two (tmr_cancel 2 with_third)

abbrev ops : List (ℕ × Op ℕ)
ops =
    (to_usecs (at 1 9), cancel 2)
    ∷ (to_usecs now, create (tmr_create none now 6 10 true reset_first).0 6 10 true)
    ∷ (to_usecs now, reset 1)
    ∷ []

three_calls : Calls two ops without_second
unfolding tmr_reset tmr_create tmr_cancel find list_resort list_remove list_add add_usecs earlier
    new_timer
three_calls =
    call (at 1 9) (omega arith)
      (call now now-IsNormal (call now now-IsNormal no_call (resets 1 reset_first refl))
        (creates none 6 10 true tt))
      (cancels 2 without_second refl)

Calls-Changes_example : IsValid without_second × Changes (view two) ops (view without_second)
Calls-Changes_example = Calls-Changes two-IsValid three_calls
