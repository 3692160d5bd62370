-- ===== src/Timer/Run/Total.antt =====
-- `tmr_run` ends and calls every timer that is due, for callbacks that leave the timers alone.
use wifitesttool.Base.{
  ℕ, zero, suc, ◌<◌, ◌≡◌, ◌≢◌, refl, sym, ◌∙◌, true, false, Option, none, some, List, [], ◌∷◌,
  arith, ◌==◌, Option-cases, Bool-cases, inl, inr, ◌⊎◌,
}
use wifitesttool.Timer.{
  Timer, Timers, Timeval, Outcome, done, earlier, add_usecs, list_add, list_remove, find, head_addr,
  next_of, next_ptr, deref, after_call, list_resort, tmr_cancel, run_loop, tmr_run,
}
use wifitesttool.Timer.Time.{IsNormal, earlier_iff, earlier-false}
use wifitesttool.Timer.Order.{Distinct, Chain-find, find_addr, find-list_add, find-list_remove}
use wifitesttool.Timer.Valid.{IsValid, AllValid, after_call-IsValid}
use wifitesttool.Timer.Run.Suffix.{
  suffix, suffix-head_addr, next_of-find, next_of-ne, find-suffix, find-suffix-list_remove,
  find-suffix-list_add, suffix-le, IsIn, suffix-IsNormal, head_find,
}
use wifitesttool.Timer.Run.Work.{
  work, AllTick, work-list_add, work-list_remove, AllTick-list_add, AllTick-list_remove,
  AllTick-find, weight_due, weight-add_usecs,
}

module _ {P : Type 0} where
  -- What a turn of the loop at the due timer `t` makes of the timers.
  record Turned (now : Timeval) (a : ℕ) (s s' : Timers P) : Type 0 where
    ran : after_call a s ≡ some s'
    valid : IsValid s'
    ticks : AllTick s'.active
    less : work now s'.active < work now s.active
    others : (c : ℕ) → c ≢ a → find c s'.active ≡ find c s.active
    ahead :
        (b c : ℕ)
        → b ≢ a
        → c ≢ a
        → find b (suffix (some c) s'.active) ≡ find b (suffix (some c) s.active)

  after_call_periodic :
      (a : ℕ) (s : Timers P) (t : Timer P)
      → find a s.active ≡ some t
      → t.periodic ≡ true
      → after_call a s
        ≡ some (record s {
          active = list_add (record t { time = add_usecs t.time t.usecs }) (list_remove a s.active);
        })
  unfolding after_call deref list_resort
  after_call_periodic a s t e p = ground arith

  after_call_once :
      (a : ℕ) (s : Timers P) (t : Timer P)
      → find a s.active ≡ some t
      → t.periodic ≡ false
      → after_call a s ≡ some (record { active = list_remove a s.active; free = t ∷ s.free })
  unfolding after_call deref tmr_cancel
  after_call_once a s t e p = ground arith

  module _ (now : Timeval) (a : ℕ) (s : Timers P) (t : Timer P) (n : IsNormal now) (v : IsValid s)
      (ticks : AllTick s.active) (e : find a s.active ≡ some t)
      (due : earlier now t.time ≡ false) where
    abbrev put_off : Timer P
    put_off = record t { time = add_usecs t.time t.usecs }

    absent : find t.addr (list_remove a s.active) ≡ none
    absent = ground (arith, find_addr a s.active t, find-list_remove t.addr a s.active v.distinct)

    turn_periodic : t.periodic ≡ true → (s' : Timers P) × Turned now a s s'
    turn_periodic p = (
      record s { active = list_add put_off (list_remove a s.active) },
      record {
        ran = after_call_periodic a s t e p;
        valid = rw (after_call_periodic a s t e p, AllValid) at (after_call-IsValid a s v);
        ticks =
            AllTick-list_add put_off (list_remove a s.active) (AllTick-find a s.active t ticks e)
              (AllTick-list_remove a s.active ticks);
        less = omega (
          arith,
          work-list_add now put_off (list_remove a s.active),
          work-list_remove now a s.active t e,
          weight-add_usecs now t n (Chain-find 0 a s.active t v.sorted e).1 due
              (AllTick-find a s.active t ticks e p),
        );
        others = λ c ne. ground (
          arith,
          find_addr a s.active t,
          absent,
          find-list_add c put_off (list_remove a s.active),
          find-list_remove c a s.active v.distinct,
        );
        ahead = λ b c nb nc. ground (
          arith,
          find_addr a s.active t,
          find-suffix-list_add b c put_off (list_remove a s.active),
          find-suffix-list_remove a b c s.active,
        );
      },
    )

    turn_once : t.periodic ≡ false → (s' : Timers P) × Turned now a s s'
    turn_once p = (
      record { active = list_remove a s.active; free = t ∷ s.free },
      record {
        ran = after_call_once a s t e p;
        valid = rw (after_call_once a s t e p, AllValid) at (after_call-IsValid a s v);
        ticks = AllTick-list_remove a s.active ticks;
        less = omega (
          arith,
          work-list_remove now a s.active t e,
          weight_due now t n (Chain-find 0 a s.active t v.sorted e).1 due,
        );
        others = λ c ne. ground (arith, find-list_remove c a s.active v.distinct);
        ahead = λ b c nb nc. find-suffix-list_remove a b c s.active nb nc;
      },
    )

    turn : (s' : Timers P) × Turned now a s s'
    turn = elim (Bool-cases t.periodic) [ inl p ↦ turn_periodic p | inr p ↦ turn_once p ]

  -- Callbacks that do `act` to the program and leave the timers alone, with a log of the calls.
  abbrev pub traced :
      {W : Type 0}
      → (P → Timeval → W → W)
      → P
      → Timeval
      → Timers P
      → W × List P
      → Option (Timers P × (W × List P))
  traced act p now s (w, log) = some (s, (act p now w, p ∷ log))

  abbrev pub IsLogged : P → List P → Type 0
  IsLogged p [] = ⊥
  IsLogged p (q ∷ log) = (q ≡ p) ⊎ IsLogged p log

  -- The pointer of the loop shows an active timer.
  abbrev Stands : Option ℕ → Timers P → Type 0
  Stands cur s = IsIn cur s.active

  -- A walk from `cur` ends in a valid state, and has called all due timers that it had to see.
  record Ended {W : Type 0} (now : Timeval) (cur : Option ℕ) (s : Timers P) (log : List P)
      (o : Outcome (Timers P × (W × List P))) : Type 0 where
    state : Timers P
    rest : W × List P
    ends : o ≡ done (state, rest)
    valid : IsValid state
    ticks : AllTick state.active
    called :
        (b : ℕ) (u : Timer P)
        → find b (suffix cur s.active) ≡ some u
        → earlier now u.time ≡ false
        → IsLogged u.proc rest.1
    keeps : (p : P) → IsLogged p log → IsLogged p rest.1

  suffix-none : (b : ℕ) (xs : List (Timer P)) → find b (suffix none xs) ≡ none
  unfolding suffix find
  suffix-none b xs = refl

  pub deref_active :
      (a : ℕ) (s : Timers P) (t : Timer P) → find a s.active ≡ some t → deref a s ≡ some t
  unfolding deref
  deref_active a s t e = ground arith

  pub next_ptr_active :
      (a : ℕ) (s : Timers P) (t : Timer P)
      → find a s.active ≡ some t
      → next_ptr a s ≡ next_of a s.active
  unfolding next_ptr
  next_ptr_active a s t e = ground arith

  head_Stands : (s : Timers P) → Stands (head_addr s.active) s
  head_Stands s = head_find s.active

  next_Stands :
      (a : ℕ) (s s' : Timers P)
      → Distinct s.active
      → ((c : ℕ) → c ≢ a → find c s'.active ≡ find c s.active)
      → (cur : Option ℕ) → next_of a s.active ≡ cur
      → Stands cur s'
  next_Stands a s s' d same none e = tt
  next_Stands a s s' d same (some c) e =
      rw (same c (next_of-ne a c s.active d e)) (next_of-find a c s.active e)

  next_ahead :
      (a b : ℕ) (s s' : Timers P)
      → Distinct s.active
      → ((b c : ℕ)
          → b ≢ a
          → c ≢ a
          → find b (suffix (some c) s'.active) ≡ find b (suffix (some c) s.active))
      → b ≢ a
      → (cur : Option ℕ) → next_of a s.active ≡ cur
      → find b (suffix cur s'.active) ≡ find b (suffix cur s.active)
  next_ahead a b s s' d same ne none e = suffix-none b s'.active ∙ sym (suffix-none b s.active)
  next_ahead a b s s' d same ne (some c) e = same b c ne (next_of-ne a c s.active d e)

  -- Every timer of the list is due after `now`, or its callback stands in the log.
  abbrev pub CalledAll : Timeval → List P → List (Timer P) → Type 0
  CalledAll now log [] = Unit
  CalledAll now log (x ∷ xs) =
      ((earlier now x.time ≡ true) ⊎ IsLogged x.proc log) × CalledAll now log xs

  called_all :
      (now : Timeval) (log : List P) (xs : List (Timer P))
      → Distinct xs
      → ((a : ℕ) (t : Timer P)
          → find a xs ≡ some t
          → earlier now t.time ≡ false
          → IsLogged t.proc log)
      → CalledAll now log xs
  unfolding find
  called_all now log [] d f = tt
  called_all now log (x ∷ xs) d f = (
    elim (Bool-cases (earlier now x.time)) [
      | inl e ↦ inl e
      | inr e ↦ inr (f x.addr x (ground arith) e)
    ],
    called_all now log xs d.1 (λ a t e g. f a t (ground arith) g),
  )

  module _ {W : Type 0} (act : P → Timeval → W → W) (now : Timeval) (n : IsNormal now) where
    run_loop_break :
        (k a : ℕ) (s : Timers P) (r : W × List P) (t : Timer P)
        → find a s.active ≡ some t
        → earlier now t.time ≡ true
        → run_loop (traced act) (suc k) now (some a) s r ≡ done (s, r)
    unfolding run_loop
    run_loop_break k a s r t e f = rw (deref_active a s t e, f, run_loop)

    run_loop_turn :
        (k a : ℕ) (s s' : Timers P) (r : W × List P) (t : Timer P)
        → find a s.active ≡ some t
        → earlier now t.time ≡ false
        → after_call a s ≡ some s'
        → run_loop (traced act) (suc k) now (some a) s r
          ≡ run_loop (traced act) k now (next_of a s.active) s' (act t.proc now r.0, t.proc ∷ r.1)
    unfolding run_loop
    run_loop_turn k a s s' r t e f g =
        rw (deref_active a s t e, f, g, next_ptr_active a s t e, run_loop)

    Ended-turn :
        (a : ℕ) (s s' : Timers P) (t : Timer P) (log : List P)
        (o : Outcome (Timers P × (W × List P)))
        → IsValid s
        → find a s.active ≡ some t
        → Turned now a s s'
        → Ended now (next_of a s.active) s' (t.proc ∷ log) o
        → Ended now (some a) s log o
    Ended-turn a s s' t log o v e turned ih = record {
      state = ih.state;
      rest = ih.rest;
      ends = ih.ends;
      valid = ih.valid;
      ticks = ih.ticks;
      called = λ b u h due. elim (Bool-cases (a == b)) [
        | inl p ↦
            let q : t.proc ≡ u.proc = ground (arith, find-suffix a b s.active t v.distinct e) in
            ih.keeps u.proc (inl q)
        | inr p ↦
            ih.called b u
              (ground (
                arith,
                find-suffix a b s.active t v.distinct e,
                next_ahead a b s s' v.distinct turned.ahead (ground arith) (next_of a s.active)
                    refl,
              ))
              due
      ];
      keeps = λ p l. ih.keeps p (inr l);
    }

    not_passed :
        (a b : ℕ) (s : Timers P) (t u : Timer P)
        → IsValid s
        → find a s.active ≡ some t
        → earlier now t.time ≡ true
        → find b (suffix (some a) s.active) ≡ some u
        → ¬ (earlier now u.time ≡ false)
    not_passed a b s t u v e f i due =
        let (_, nt) = Chain-find 0 a s.active t v.sorted e in
        let (_, nu) = suffix-IsNormal 0 a b s.active u v.sorted i in
        omega (
          arith,
          suffix-le 0 a b s.active t u v.sorted e i,
          (earlier_iff now t.time n nt).0 f,
          earlier-false now u.time n nu due,
        )

    run_loop-Ended :
        (k : ℕ) (cur : Option ℕ) (s : Timers P) (r : W × List P)
        → IsValid s
        → AllTick s.active
        → Stands cur s
        → work now s.active < k
        → Ended now cur s r.1 (run_loop (traced act) k now cur s r)
    run_loop-Ended zero cur s r v ticks h lt = absurd (omega arith)
    run_loop-Ended (suc k) none s r v ticks h lt = record {
      state = s;
      rest = r;
      ends = unfold run_loop in refl;
      valid = v;
      ticks = ticks;
      called = λ b u e. ground (arith, suffix-none b s.active);
      keeps = λ p l. l;
    }
    run_loop-Ended (suc k) (some a) s r v ticks h lt = elim (Option-cases (find a s.active)) [
      | inl e ↦ ground arith
      | inr (t, e) ↦ elim (Bool-cases (earlier now t.time)) [
        | inl f ↦ record {
          state = s;
          rest = r;
          ends = run_loop_break k a s r t e f;
          valid = v;
          ticks = ticks;
          called = λ b u i due. absurd (not_passed a b s t u v e f i due);
          keeps = λ p l. l;
        }
        | inr f ↦
            let (s', turned) = turn now a s t n v ticks e f in
            rw (run_loop_turn k a s s' r t e f turned.ran) (
              Ended-turn a s s' t r.1 _ v e turned (
                run_loop-Ended k (next_of a s.active) s' (act t.proc now r.0, t.proc ∷ r.1)
                  turned.valid turned.ticks
                  (next_Stands a s s' v.distinct turned.others (next_of a s.active) refl)
                  (omega (arith, turned.less))))
      ]
    ]

    -- From valid timers, at a normal time, with more fuel than there is work (a turn per due timer,
    -- and the microseconds that it is late), where no periodic timer has the period 0 and the
    -- callbacks `act` leave the timers alone: `tmr_run` ends, leaves valid timers, and has called the
    -- callback of every timer that was due.
    pub tmr_run_total :
        (k : ℕ) (s : Timers P) (w : W)
        → IsValid s
        → AllTick s.active
        → work now s.active < k
        → (s' : Timers P) × (r : W × List P) × (tmr_run (traced act) k now s (w, []) ≡ done (s', r))
          × IsValid s'
          × CalledAll now r.1 s.active
    unfolding tmr_run
    tmr_run_total k s w v ticks lt =
        let r = run_loop-Ended k (head_addr s.active) s (w, []) v ticks (head_Stands s) lt in
        (
          r.state,
          r.rest,
          r.ends,
          r.valid,
          called_all now r.rest.1 s.active v.distinct
              (λ a t e. r.called a t (rw (suffix-head_addr s.active) e)),
        )
