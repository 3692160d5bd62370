-- ===== src/Alarms.antt =====
-- The timers that a test sets for itself: create_client_timers, create_client_omit_timer and their callbacks of
-- iperf_jni/jni/iperf/src/iperf_client_api.c, create_server_timers, create_server_omit_timer, their callbacks
-- and cleanup_server of iperf_server_api.c. The callbacks of a client and a server are alike. `malloc` is an
-- argument, and so is what gettimeofday gives. Seconds in a `double` are microseconds.
pub mod Owned
pub mod Runs
pub mod Steps
pub mod Whole
use wifitesttool.Base.{ℕ, Bool, true, false, Option, none, some, List, [], ◌∷◌, if◌then◌else◌}
use wifitesttool.Base.Int.{ℤ, pos, pos_part, ◌+ℤ◌, ◌*ℤ◌}
use wifitesttool.Error.{Status, ok, error, ieinittest}
use wifitesttool.Params.{nonzero}
use wifitesttool.Streams.{Running, omit_timer_proc}
use wifitesttool.Test.{Test}
use wifitesttool.Timer.{Timers, Timeval, million, tmr_create, tmr_cancel, tmr_reset}

-- test_timer_proc, and the procs for statistics, reports and the end of the omitted time.
pub data Proc : Type 0 where
  test_proc stats_proc reporter_proc omit_proc : Proc

-- The pointers of `struct iperf_test` to its timers, with the rest of the test.
pub record Alarms : Type 0 where
  pub running : Running
  pub timer : Option ℕ
  pub stats_timer : Option ℕ
  pub reporter_timer : Option ℕ
  pub omit_timer : Option ℕ

-- `test->stats_callback` and `test->reporter_callback`.
pub record Callbacks : Type 0 where
  pub stats_callback : Option (Timeval → Running → Running)
  pub reporter_callback : Option (Timeval → Running → Running)

abbrev pub Started : Type 0
Started = Status × Timers Proc × Alarms

abbrev pub set_done : Bool → Alarms → Alarms
set_done b c = record c { running = record c.running { test = record c.running.test { done = b } } }

abbrev pub point : Proc → Option ℕ → Alarms → Alarms
point test_proc o c = record c { timer = o }
point stats_proc o c = record c { stats_timer = o }
point reporter_proc o c = record c { reporter_timer = o }
point omit_proc o c = record c { omit_timer = o }

abbrev pub created : Proc → Option ℕ × Timers Proc → Alarms → Started
created p (none, s) c = (error ieinittest, s, point p none c)
created p (some a, s) c = (ok, s, point p (some a) c)

module _ (malloc : Timers Proc → Option ℕ) where
  -- Create the timer for `p` if it is wanted, where all went well so far.
  abbrev pub then_create : Timeval → Bool → Proc → ℤ → Bool → Started → Started
  then_create now wanted p usecs periodic (error e, s, c) = (error e, s, c)
  then_create now wanted p usecs periodic (ok, s, c) =
      if wanted
      then created p (tmr_create (malloc s) now p (pos_part usecs) periodic s) c
      else (ok, s, c)

  abbrev pub then_stats_reporter : Timeval → Test → Started → Started
  then_stats_reporter now t x =
      then_create now (nonzero t.reporter_interval) reporter_proc t.reporter_interval true
        (then_create now (nonzero t.stats_interval) stats_proc t.stats_interval true x)

  unfoldable pub create_server_timers : Option Timeval → Timers Proc → Alarms → Started
  create_server_timers none s c = (error ieinittest, s, c)
  create_server_timers (some now) s c =
      then_stats_reporter now c.running.test
        (ok, s, record c { stats_timer = none; reporter_timer = none })

  abbrev pub undone : Alarms → Alarms
  undone c = if nonzero c.running.test.duration then set_done false c else c

  unfoldable pub create_client_timers : Option Timeval → Timers Proc → Alarms → Started
  create_client_timers none s c = (error ieinittest, s, c)
  create_client_timers (some now) s c =
      let t = c.running.test in
      then_stats_reporter now t (
        then_create now (nonzero t.duration) test_proc ((t.duration +ℤ t.omit) *ℤ pos million) false
          (ok, s, undone (record c { timer = none; stats_timer = none; reporter_timer = none })))

  abbrev pub set_omitting : Bool → Alarms → Alarms
  set_omitting b c = record c { running = record c.running { omitting = b } }

  abbrev pub omit_timer_at : Option Timeval → Timers Proc → Alarms → Started
  omit_timer_at none s c = (error ieinittest, s, c)
  omit_timer_at (some now) s c =
      then_create now true omit_proc (c.running.test.omit *ℤ pos million) false
        (ok, s, set_omitting true c)

  -- The same for the client and the server.
  unfoldable pub create_omit_timer : Option Timeval → Timers Proc → Alarms → Started
  create_omit_timer time s c =
      if nonzero c.running.test.omit
      then omit_timer_at time s c
      else (ok, s, set_omitting false (record c { omit_timer = none }))

-- `if (t != NULL) tmr_reset(nowP, t);`
abbrev pub reset_timer : Timeval → Option ℕ → Option (Timers Proc) → Option (Timers Proc)
reset_timer now o none = none
reset_timer now none (some s) = some s
reset_timer now (some a) (some s) = tmr_reset now a s

abbrev pub with_alarms : Alarms → Option (Timers Proc) → Option (Timers Proc × Alarms)
with_alarms c none = none
with_alarms c (some s) = some (s, c)

abbrev pub calls : Option (Timeval → Running → Running) → Timeval → Alarms → Alarms
calls none now c = c
calls (some f) now c = record c { running = f now c.running }

unfoldable pub timer_proc :
    Callbacks → Proc → Timeval → Timers Proc → Alarms → Option (Timers Proc × Alarms)
timer_proc cb test_proc now s c = some (s, set_done true (record c { timer = none }))
timer_proc cb stats_proc now s c =
    some (s, if c.running.test.done then c else calls cb.stats_callback now c)
timer_proc cb reporter_proc now s c =
    some (s, if c.running.test.done then c else calls cb.reporter_callback now c)
timer_proc cb omit_proc now s c =
    with_alarms (record c { omit_timer = none; running = omit_timer_proc now c.running })
      (reset_timer now c.reporter_timer (reset_timer now c.stats_timer (some s)))

-- `if (t != NULL) tmr_cancel(t);`
abbrev pub cancel_timer : Option ℕ → Option (Timers Proc) → Option (Timers Proc)
cancel_timer o none = none
cancel_timer none (some s) = some s
cancel_timer (some a) (some s) = tmr_cancel a s

-- The timers that cleanup_server cancels.
unfoldable pub cancel_timers : Timers Proc → Alarms → Option (Timers Proc × Alarms)
cancel_timers s c =
    with_alarms (record c { stats_timer = none; reporter_timer = none; omit_timer = none })
      (cancel_timer c.omit_timer
        (cancel_timer c.reporter_timer (cancel_timer c.stats_timer (some s))))
