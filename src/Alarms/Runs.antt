-- ===== src/Alarms/Runs.antt =====
-- The timers of a test through its start, its calls of tmr_run, and its end.
use wifitesttool.Alarms.{
  Proc, test_proc, stats_proc, reporter_proc, omit_proc, Alarms, Callbacks, calls, set_done,
  reset_timer, with_alarms, timer_proc,
}
use wifitesttool.Alarms.Owned.{
  IsOwned, IsOwned-cong, pointer, put, is_periodic, reset-IsOwned, rescheduled-IsOwned,
  ended-IsOwned,
}
use wifitesttool.Base.{
  ℕ, zero, suc, ◌≡◌, ◌≢◌, refl, sym, ap, subst, ◌∙◌, true, false, Option, none, some, arith,
  if◌then◌else◌, is_some, Option-cases, Bool-cases, inl, inr,
}
use wifitesttool.Streams.{omit_timer_proc}
use wifitesttool.Timer.{
  Timer, Timers, Timeval, Outcome, done, undefined, out_of_fuel, earlier, find, head_addr, next_of,
  after_call, run_loop, tmr_run,
}
use wifitesttool.Timer.Time.{IsNormal}
use wifitesttool.Timer.Run.Total.{deref_active, next_ptr_active}
use wifitesttool.Timer.Run.Suffix.{next_of-find, next_of-ne, IsIn, head_find}

resets-IsOwned :
    (now : Timeval) (q : Option ℕ) (s : Timers Proc) (h : Proc → Option ℕ) (p : Proc)
    → IsNormal now
    → IsOwned s h
    → h p ≡ q
    → (s' : Timers Proc) × (reset_timer now q (some s) ≡ some s') × IsOwned s' h
resets-IsOwned now none s h p n o e = (s, refl, o)
resets-IsOwned now (some a) s h p n o e = reset-IsOwned now a s h p n o e

-- A timer that stays owned stays active.
still :
    (b : ℕ) (s s' : Timers Proc) (h k : Proc → Option ℕ)
    → IsOwned s h
    → IsOwned s' k
    → ((q : Proc) → h q ≡ some b → k q ≡ some b)
    → is_some (find b s.active) ≡ true
    → is_some (find b s'.active) ≡ true
still b s s' h k o w keep i = elim (Option-cases (find b s.active)) [
  | inl e ↦ grind (arith, e, i)
  | inr (t, e) ↦
      let f = w.held t.proc b (keep t.proc (o.known b t.proc t.periodic (rw (e) refl))) in
      grind (arith, f)
]

-- What a turn of the loop at the timer `a` comes to.
record Turn (cb : Callbacks) (p : Proc) (now : Timeval) (a : ℕ) (s : Timers Proc) (c : Alarms)
    : Type 0 where
  called : Timers Proc
  alarms : Alarms
  timers : Timers Proc
  calling : timer_proc cb p now s c ≡ some (called, alarms)
  after : after_call a called ≡ some timers
  owned : IsOwned timers (pointer alarms)
  keeps : (q : Proc) (b : ℕ) → b ≢ a → pointer c q ≡ some b → pointer alarms q ≡ some b

module _ (cb : Callbacks) (now : Timeval) (n : IsNormal now) (a : ℕ) (s : Timers Proc) (c : Alarms)
    (o : IsOwned s (pointer c)) where
  turn_test : c.timer ≡ some a → Turn cb test_proc now a s c
  unfolding timer_proc
  turn_test e =
      let c' = set_done true (record c { timer = none }) in
      let (s', f, w) = ended-IsOwned a s (pointer c) test_proc refl o e in
      record {
        called = s;
        alarms = c';
        timers = s';
        calling = refl;
        after = f;
        owned = IsOwned-cong s' (put test_proc none (pointer c)) (pointer c') (λ q. ground arith) w;
        keeps = λ q b d i. ground (arith, e);
      }

  turn_periodic :
      (p : Proc) (c' : Alarms)
      → is_periodic p ≡ true
      → timer_proc cb p now s c ≡ some (s, c')
      → ((q : Proc) → pointer c' q ≡ pointer c q)
      → pointer c p ≡ some a
      → Turn cb p now a s c
  turn_periodic p c' periodic g same_pointers e =
      let (s', f, w) = rescheduled-IsOwned a s (pointer c) p periodic o e in
      record {
        called = s;
        alarms = c';
        timers = s';
        calling = g;
        after = f;
        owned = IsOwned-cong s' (pointer c) (pointer c') (λ q. sym (same_pointers q)) w;
        keeps = λ q b d i. same_pointers q ∙ i;
      }

  turn_omit : c.omit_timer ≡ some a → Turn cb omit_proc now a s c
  unfolding timer_proc
  turn_omit e =
      let c' = record c { omit_timer = none; running = omit_timer_proc now c.running } in
      let (s1, f1, o1) = resets-IsOwned now c.stats_timer s (pointer c) stats_proc n o refl in
      let (s2, f2, o2) =
        resets-IsOwned now c.reporter_timer s1 (pointer c) reporter_proc n o1 refl in
      let (s3, f3, w) = ended-IsOwned a s2 (pointer c) omit_proc refl o2 e in
      record {
        called = s2;
        alarms = c';
        timers = s3;
        calling =
            ap (λ x. with_alarms c' (reset_timer now c.reporter_timer x)) f1
            ∙ ap (with_alarms c') f2;
        after = f3;
        owned = IsOwned-cong s3 (put omit_proc none (pointer c)) (pointer c') (λ q. ground arith) w;
        keeps = λ q b d i. ground (arith, e);
      }

  turn : (p : Proc) → pointer c p ≡ some a → Turn cb p now a s c
  unfolding timer_proc
  turn test_proc e = turn_test e
  turn stats_proc e =
      turn_periodic stats_proc (if c.running.test.done then c else calls cb.stats_callback now c)
        refl refl (λ q. ground arith) e
  turn reporter_proc e =
      turn_periodic reporter_proc
        (if c.running.test.done then c else calls cb.reporter_callback now c) refl refl
        (λ q. ground arith) e
  turn omit_proc e = turn_omit e

-- A walk never uses a pointer that is no timer, and leaves the timers owned; it may need more fuel.
abbrev pub Ends : Outcome (Timers Proc × Alarms) → Type 0
Ends (done (s, c)) = IsOwned s (pointer c)
Ends undefined = ⊥
Ends out_of_fuel = Unit

next_IsIn :
    (a : ℕ) (s s' : Timers Proc)
    → ((b : ℕ) → next_of a s.active ≡ some b → is_some (find b s'.active) ≡ true)
    → (cur : Option ℕ) → next_of a s.active ≡ cur
    → IsIn cur s'.active
next_IsIn a s s' f none e = tt
next_IsIn a s s' f (some b) e = f b e

run_loop_turn :
    (cb : Callbacks) (k : ℕ) (now : Timeval) (a : ℕ) (s : Timers Proc) (c : Alarms) (t : Timer Proc)
    → find a s.active ≡ some t
    → earlier now t.time ≡ false
    → (u : Turn cb t.proc now a s c)
    → run_loop (timer_proc cb) (suc k) now (some a) s c
      ≡ run_loop (timer_proc cb) k now (next_of a s.active) u.timers u.alarms
unfolding run_loop
run_loop_turn cb k now a s c t e f u =
    rw (deref_active a s t e, f, u.calling, u.after, next_ptr_active a s t e, run_loop)

run_loop_break :
    (cb : Callbacks) (k : ℕ) (now : Timeval) (a : ℕ) (s : Timers Proc) (c : Alarms) (t : Timer Proc)
    → find a s.active ≡ some t
    → earlier now t.time ≡ true
    → run_loop (timer_proc cb) (suc k) now (some a) s c ≡ done (s, c)
unfolding run_loop
run_loop_break cb k now a s c t e f = rw (deref_active a s t e, f, run_loop)

run_loop-Ends :
    (cb : Callbacks) (k : ℕ) (now : Timeval) (cur : Option ℕ) (s : Timers Proc) (c : Alarms)
    → IsNormal now
    → IsOwned s (pointer c)
    → IsIn cur s.active
    → Ends (run_loop (timer_proc cb) k now cur s c)
unfolding run_loop
run_loop-Ends cb zero now cur s c n o i = tt
run_loop-Ends cb (suc k) now none s c n o i = o
run_loop-Ends cb (suc k) now (some a) s c n o i = elim (Option-cases (find a s.active)) [
  | inl e ↦ absurd (grind (arith, e, i))
  | inr (t, e) ↦ elim (Bool-cases (earlier now t.time)) [
    | inl f ↦ subst Ends (sym (run_loop_break cb k now a s c t e f)) o
    | inr f ↦
        let u = turn cb now n a s c o t.proc (o.known a t.proc t.periodic (rw (e) refl)) in
        let there =
          next_IsIn a s u.timers
            (λ b g.
              still b s u.timers (pointer c) (pointer u.alarms) o u.owned
                (λ q. u.keeps q b (next_of-ne a b s.active o.valid.distinct g))
                (next_of-find a b s.active g))
            (next_of a s.active) refl in
        subst Ends (sym (run_loop_turn cb k now a s c t e f u))
          (run_loop-Ends cb k now (next_of a s.active) u.timers u.alarms n u.owned there)
  ]
]

-- While a test's pointers and timers belong together, tmr_run, however long it may run, never uses a timer
-- that has been freed, and if it ends they belong together again.
pub tmr_run-Ends :
    (cb : Callbacks) (k : ℕ) (now : Timeval) (s : Timers Proc) (c : Alarms)
    → IsNormal now
    → IsOwned s (pointer c)
    → Ends (tmr_run (timer_proc cb) k now s c)
unfolding tmr_run
tmr_run-Ends cb k now s c n o =
    run_loop-Ends cb k now (head_addr s.active) s c n o (head_find s.active)
