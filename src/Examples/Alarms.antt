-- ===== src/Examples/Alarms.antt =====
-- A server's timers, with an allocator that takes an address above all in use.
use wifitesttool.Alarms.{
  Proc, stats_proc, omit_proc, Alarms, Started, Callbacks, create_server_timers, create_omit_timer,
  cancel_timers, timer_proc,
}
use wifitesttool.Alarms.Steps.{AllNull}
use wifitesttool.Alarms.Whole.{
  Reach, new_test, starts_server, starts_omit, tmr_run-Reach, cancel_timers-Reach,
}
use wifitesttool.Base.{
  ℕ, ◌+◌, ◌<◌, ◌≡◌, ◌≢◌, refl, false, map, Option, none, some, List, [], ◌∷◌, arith,
}
use wifitesttool.Base.Int.{pos, ◌*ℤ◌}
use wifitesttool.Examples.Runs.{at}
use wifitesttool.Test.{iperf_new_test}
use wifitesttool.Timer.{
  Timer, Timers, find, tmr_create, create_from, list_add, new_timer, earlier, add_usecs, tmr_run,
  undefined,
}
use wifitesttool.Timer.Valid.{IsFresh}

addresses : List (Timer Proc) → ℕ
addresses [] = 0
addresses (t ∷ ts) = t.addr + addresses ts

above-none : (a : ℕ) (ts : List (Timer Proc)) → addresses ts < a → find a ts ≡ none
unfolding find addresses
above-none a [] h = refl
above-none a (t ∷ ts) h = ground (arith, above-none a ts)

malloc : Timers Proc → Option ℕ
malloc s = some (1 + addresses s.active + addresses s.free)

malloc-IsFresh : (s : Timers Proc) → IsFresh (malloc s) s
unfolding malloc
malloc-IsFresh s =
    let a = 1 + addresses s.active + addresses s.free in
    (above-none a s.active (omega arith), above-none a s.free (omega arith))

abbrev callbacks : Callbacks
callbacks = record { stats_callback = some (λ now r. r); reporter_callback = none }

abbrev idle : Alarms
idle = record {
  running = record {
    test = record iperf_new_test { stats_interval = pos 1000000; omit = pos 2 };
    omitting = false;
    streams = [];
    write_set = [];
  };
  timer = none;
  stats_timer = none;
  reporter_timer = none;
  omit_timer = none;
}

abbrev first : Started
first = create_server_timers malloc (some (at 5)) (record { active = []; free = [] }) idle

abbrev second : Started
second = create_omit_timer malloc (some (at 5)) first.1 first.2

started : Reach malloc callbacks second.1 second.2
unfolding create_server_timers tmr_create create_from malloc
started =
    starts_omit (some (at 5))
      (starts_server (some (at 5)) (new_test idle (λ p. ground arith)) (λ p. ground arith)
        (omega arith))
      refl (omega arith)

tmr_run-Reach_example : tmr_run (timer_proc callbacks) 9 (at 8) second.1 second.2 ≢ undefined
tmr_run-Reach_example = tmr_run-Reach malloc malloc-IsFresh callbacks 9 (at 8) started (omega arith)

cancel_timers-Reach_example :
    (s' : Timers Proc) × (c' : Alarms) × (cancel_timers second.1 second.2 ≡ some (s', c'))
    × (s'.active ≡ [])
    × AllNull c'
unfolding create_server_timers create_omit_timer tmr_create create_from malloc
cancel_timers-Reach_example = cancel_timers-Reach malloc malloc-IsFresh callbacks started refl

-- The two timers that are wanted are active after the start.
test-started : map (λ (t : Timer Proc). t.proc) second.1.active ≡ stats_proc ∷ omit_proc ∷ []
unfolding create_server_timers create_omit_timer tmr_create create_from list_add new_timer malloc
    addresses earlier add_usecs ◌*ℤ◌
test-started = refl
