-- ===== src/Timer/Run.antt =====
-- The loop of `tmr_run`: what it keeps, and how much work a list of timers is.
pub mod Suffix
pub mod Work
pub mod Total
use wifitesttool.Base.{
  ℕ, zero, suc, ◌+◌, ◌-◌, ◌≤◌, ◌<◌, ◌≡◌, ◌≢◌, refl, Bool, true, false, Option, none, some, List, [],
  ◌∷◌, arith, ◌==◌, if◌then◌else◌, is_some, Option-cases, Bool-cases, inl, inr,
}
use wifitesttool.Timer.{
  Timer, Timers, Timeval, Outcome, done, undefined, out_of_fuel, earlier, add_usecs, list_add,
  list_remove, find, head_addr, next_of, next_ptr, deref, after_call, list_resort, tmr_cancel,
  run_loop, tmr_run,
}
use wifitesttool.Timer.Time.{
  to_usecs, IsNormal, add_usecs-IsNormal, add_usecs_lem, earlier_iff, earlier-false,
}
use wifitesttool.Timer.Order.{IsSorted, Distinct, Chain}
use wifitesttool.Timer.Valid.{IsValid, AllValid, after_call-IsValid}

module _ {P : Type 0} where
  -- What holds of the timers when a walk has ended.
  abbrev pub Leaves : {W : Type 0} → (Timers P → W → Type 0) → Outcome (Timers P × W) → Type 0
  Leaves Q (done (s, w)) = Q s w
  Leaves Q undefined = Unit
  Leaves Q out_of_fuel = Unit

module _ {P W : Type 0} (call : P → Timeval → Timers P → W → Option (Timers P × W))
    (keep : (p : P) (now : Timeval) (s : Timers P) (w : W) (r : Timers P × W)
      → IsValid s
      → call p now s w ≡ some r
      → IsValid r.0) where
  run_loop-IsValid :
      (k : ℕ) (now : Timeval) (cur : Option ℕ) (s : Timers P) (w : W)
      → IsValid s
      → Leaves (λ s' _. IsValid s') (run_loop call k now cur s w)
  unfolding run_loop
  run_loop-IsValid zero now cur s w v = tt
  run_loop-IsValid (suc k) now none s w v = v
  run_loop-IsValid (suc k) now (some a) s w v = elim (Option-cases (deref a s)) [
    | inl e ↦ rw (e, Leaves) tt
    | inr (t, e) ↦
        rw (e, Leaves)
          (elim (Bool-cases (earlier now t.time)) [
            | inl f ↦ rw (f, Leaves) v
            | inr f ↦
                rw (f, Leaves)
                  (elim (Option-cases (call t.proc now s w)) [
                    | inl g ↦ rw (g, Leaves) tt
                    | inr (r, g) ↦
                        rw (g, Leaves)
                          (elim (Option-cases (after_call a r.0)) [
                            | inl h ↦ rw (h, Leaves) tt
                            | inr (q, h) ↦
                                rw (h, Leaves)
                                  (run_loop-IsValid k now (next_ptr a s) q r.1 (
                                    rw (h, AllValid) at
                                      (after_call-IsValid a r.0 (keep t.proc now s w r v g))))
                          ])
                  ])
          ])
  ]

  -- If every callback that is defined keeps valid timers valid, then so does `tmr_run`, for every
  -- amount of fuel with which it ends.
  pub tmr_run-IsValid :
      (k : ℕ) (now : Timeval) (s : Timers P) (w : W)
      → IsValid s
      → Leaves (λ s' _. IsValid s') (tmr_run call k now s w)
  unfolding tmr_run
  tmr_run-IsValid k now s w v = run_loop-IsValid k now (head_addr s.active) s w v
