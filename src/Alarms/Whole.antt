-- ===== src/Alarms/Whole.antt =====
-- Whatever a test does with its timers, in any order: it starts them, calls tmr_run, changes the rest of its state
-- and cancels them.
use mathlib.Core.Option.{some-injective, none-ne-some}
use wifitesttool.Alarms.{
  Proc, stats_proc, reporter_proc, omit_proc, Alarms, Callbacks, create_server_timers,
  create_client_timers, create_omit_timer, cancel_timer, with_alarms, cancel_timers, timer_proc,
}
use wifitesttool.Alarms.Owned.{
  label, IsOwned, IsOwned-cong, pointer, put, same-eq, cancelled-IsOwned,
}
use wifitesttool.Alarms.Runs.{Ends, tmr_run-Ends}
use wifitesttool.Alarms.Steps.{NormalTime, AllNull, server-IsOwned, client-IsOwned, omit-IsOwned}
use wifitesttool.Base.{
  ℕ, ◌≡◌, ◌≢◌, refl, sym, ap, subst, ◌∙◌, Bool, Option, none, some, List, [], ◌∷◌, arith, inl,
}
use wifitesttool.Streams.{Running}
use wifitesttool.Timer.{Timers, Timer, Timeval, find, tmr_run, done, undefined}
use wifitesttool.Timer.Time.{IsNormal}
use wifitesttool.Timer.Valid.{IsFresh}

pub data Reach (malloc : Timers Proc → Option ℕ) (cb : Callbacks)
    : Timers Proc → Alarms → Type 0 where
  new_test : (c : Alarms) → AllNull c → Reach malloc cb (record { active = []; free = [] }) c
  starts_server :
      {s : Timers Proc} {c : Alarms} (time : Option Timeval)
      → Reach malloc cb s c
      → AllNull c
      → NormalTime time
      → Reach malloc cb
          (create_server_timers malloc time s c).1
          (create_server_timers malloc time s c).2
  starts_client :
      {s : Timers Proc} {c : Alarms} (time : Option Timeval)
      → Reach malloc cb s c
      → AllNull c
      → NormalTime time
      → Reach malloc cb
          (create_client_timers malloc time s c).1
          (create_client_timers malloc time s c).2
  starts_omit :
      {s : Timers Proc} {c : Alarms} (time : Option Timeval)
      → Reach malloc cb s c
      → c.omit_timer ≡ none
      → NormalTime time
      → Reach malloc cb (create_omit_timer malloc time s c).1 (create_omit_timer malloc time s c).2
  runs :
      {s s' : Timers Proc} {c c' : Alarms} (k : ℕ) (now : Timeval)
      → Reach malloc cb s c
      → IsNormal now
      → tmr_run (timer_proc cb) k now s c ≡ done (s', c')
      → Reach malloc cb s' c'
  goes_on :
      {s : Timers Proc} {c : Alarms} (r : Running)
      → Reach malloc cb s c
      → Reach malloc cb s (record c { running = r })
  cancels :
      {s s' : Timers Proc} {c c' : Alarms}
      → Reach malloc cb s c
      → cancel_timers s c ≡ some (s', c')
      → Reach malloc cb s' c'

cancel-IsOwned :
    (q : Option ℕ) (s : Timers Proc) (h : Proc → Option ℕ) (p : Proc)
    → IsOwned s h
    → h p ≡ q
    → (s' : Timers Proc) × (cancel_timer q (some s) ≡ some s') × IsOwned s' (put p none h)
cancel-IsOwned none s h p o e =
    (s, refl, IsOwned-cong s h (put p none h) (λ q. grind (arith, same-eq p q, e)) o)
cancel-IsOwned (some a) s h p o e = cancelled-IsOwned a s h p o e

abbrev pub cancelled : Alarms → Alarms
cancelled c = record c { stats_timer = none; reporter_timer = none; omit_timer = none }

cancel_timers-IsOwned :
    (s : Timers Proc) (c : Alarms)
    → IsOwned s (pointer c)
    → (s' : Timers Proc) × (cancel_timers s c ≡ some (s', cancelled c))
      × IsOwned s' (pointer (cancelled c))
unfolding cancel_timers
cancel_timers-IsOwned s c o =
    let c' = cancelled c in
    let (s1, f1, o1) = cancel-IsOwned c.stats_timer s (pointer c) stats_proc o refl in
    let h1 = put stats_proc none (pointer c) in
    let (s2, f2, o2) = cancel-IsOwned c.reporter_timer s1 h1 reporter_proc o1 refl in
    let h2 = put reporter_proc none h1 in
    let (s3, f3, o3) = cancel-IsOwned c.omit_timer s2 h2 omit_proc o2 refl in
    (
      s3,
      ap (λ x. with_alarms c' (cancel_timer c.omit_timer (cancel_timer c.reporter_timer x))) f1
          ∙ ap (λ x. with_alarms c' (cancel_timer c.omit_timer x)) f2
          ∙ ap (with_alarms c') f3,
      IsOwned-cong s3 (put omit_proc none h2) (pointer c') (λ q. ground arith) o3,
    )

none_listed :
    (xs : List (Timer Proc))
    → ((a : ℕ) (p : Proc) (b : Bool) → ¬ (label (find a xs) ≡ some (p, b)))
    → xs ≡ []
unfolding find
none_listed [] f = refl
none_listed (t ∷ ts) f = absurd (f t.addr t.proc t.periodic (ground arith))

none_active :
    (s : Timers Proc) (h : Proc → Option ℕ)
    → IsOwned s h
    → ((p : Proc) → h p ≡ none)
    → s.active ≡ []
none_active s h o null =
    none_listed s.active (λ a p b e. none-ne-some a (sym (null p) ∙ o.known a p b e))

module _ (malloc : Timers Proc → Option ℕ) (fresh : (s : Timers Proc) → IsFresh (malloc s) s)
    (cb : Callbacks) where
  Reach-IsOwned : {s : Timers Proc} {c : Alarms} → Reach malloc cb s c → IsOwned s (pointer c)
  unfolding find
  Reach-IsOwned (new_test c null) = record {
    valid = record { sorted = tt; distinct = tt; distinct_free = tt; apart = λ a. inl refl };
    held = λ p a x. absurd (none-ne-some a (sym (null p) ∙ x));
    known = λ a p b x. absurd (none-ne-some (p, b) x);
  }
  Reach-IsOwned (starts_server {s} {c} time r null n) =
      server-IsOwned malloc fresh time s c n (Reach-IsOwned r) null
  Reach-IsOwned (starts_client {s} {c} time r null n) =
      client-IsOwned malloc fresh time s c n (Reach-IsOwned r) null
  Reach-IsOwned (starts_omit {s} {c} time r null n) =
      omit-IsOwned malloc fresh time s c n (Reach-IsOwned r) null
  Reach-IsOwned (runs {s} {s'} {c} {c'} k now r n e) =
      subst Ends e (tmr_run-Ends cb k now s c n (Reach-IsOwned r))
  Reach-IsOwned (goes_on {s} {c} running r) =
      IsOwned-cong s (pointer c) (pointer (record c { running = running })) (λ p. ground arith)
        (Reach-IsOwned r)
  Reach-IsOwned (cancels {s} {s'} {c} {c'} r e) =
      let (s2, f, o) = cancel_timers-IsOwned s c (Reach-IsOwned r) in
      let g = some-injective (s2, cancelled c) (s', c') (sym f ∙ e) in
      subst (λ x. IsOwned x.0 (pointer x.1)) g o

  -- However a test, of a server or a client, starts its timers, where tmr_create may fail at any
  -- of them, calls tmr_run and goes on: tmr_run never uses a freed timer.
  pub tmr_run-Reach :
      {s : Timers Proc} {c : Alarms} (k : ℕ) (now : Timeval)
      → Reach malloc cb s c
      → IsNormal now
      → tmr_run (timer_proc cb) k now s c ≢ undefined
  tmr_run-Reach {s} {c} k now r n e = subst Ends e (tmr_run-Ends cb k now s c n (Reach-IsOwned r))

  -- However a test has started its timers and run them, where it has no timer for the end of the test, as a server,
  -- cleanup_server cancels them without a freed pointer: no timer is active then, and all pointers are
  -- NULL.
  pub cancel_timers-Reach :
      {s : Timers Proc} {c : Alarms}
      → Reach malloc cb s c
      → c.timer ≡ none
      → (s' : Timers Proc) × (c' : Alarms) × (cancel_timers s c ≡ some (s', c'))
        × (s'.active ≡ [])
        × AllNull c'
  cancel_timers-Reach {s} {c} r e =
      let (s', f, o) = cancel_timers-IsOwned s c (Reach-IsOwned r) in
      let null : AllNull (cancelled c) = λ p. ground (arith, e) in
      (s', cancelled c, f, none_active s' (pointer (cancelled c)) o null, null)
