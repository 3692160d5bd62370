-- ===== src/Timer/Effects.antt =====
-- What the calls of timer.c do to the timers that a caller sees.
use wifitesttool.Base.{
  ℕ, ◌+◌, ◌-◌, ◌≤◌, ◌≡◌, refl, Bool, true, Option, none, some, List, [], ◌∷◌, arith, ◌==◌,
  if◌then◌else◌,
}
use wifitesttool.Timer.{
  Timer, Timers, Timeval, add_usecs, list_add, list_remove, find, new_timer, create_from,
  tmr_create, after_call, deref, tmr_cancel, tmr_reset, list_resort, tmr_timeout, timeout_of,
}
use wifitesttool.Timer.Time.{to_usecs, IsNormal, add_usecs_lem, timeout_usecs_lem}
use wifitesttool.Timer.Order.{IsSorted, Chain-find, find_addr, find-list_add, find-list_remove}
use wifitesttool.Timer.Valid.{IsValid, IsFresh}

module _ {P : Type 0} where
  abbrev pub IsTimeout : Timeval → List (Timer P) → Option Timeval → Type 0
  IsTimeout now xs none = xs ≡ []
  IsTimeout now xs (some d) =
      IsNormal d
      × ((a : ℕ) (t : Timer P) → find a xs ≡ some t → to_usecs d ≤ to_usecs t.time - to_usecs now)
      × ((t : Timer P) × (find t.addr xs ≡ some t) × (to_usecs d ≡ to_usecs t.time - to_usecs now))

  timeout_of-IsTimeout :
      (now : Timeval) (xs : List (Timer P)) → IsSorted xs → IsTimeout now xs (timeout_of xs now)
  unfolding timeout_of
  timeout_of-IsTimeout now [] c = refl
  timeout_of-IsTimeout now (x ∷ xs) c = (
    omega arith,
    λ a t e.
        unfold find in
        ground (arith, timeout_usecs_lem x.time now, Chain-find (to_usecs x.time) a xs t c.2),
    (x, unfold find in ground arith, omega (arith, timeout_usecs_lem x.time now)),
  )

  -- On valid timers, `tmr_timeout` gives no time exactly if no timer is active, and otherwise the
  -- time that is left to the earliest one, 0 if that is late.
  pub tmr_timeout-IsTimeout :
      (now : Timeval) (s : Timers P) → IsValid s → IsTimeout now s.active (tmr_timeout now s)
  unfolding tmr_timeout
  tmr_timeout-IsTimeout now s v = timeout_of-IsTimeout now s.active v.sorted

  abbrev pub IsCreated : Timeval → P → ℕ → Bool → Timers P → Option ℕ × Timers P → Type 0
  IsCreated now proc usecs periodic s (none, s') = (s.free ≡ []) × (s' ≡ s)
  IsCreated now proc usecs periodic s (some a, s') =
      (t : Timer P) × (t.proc ≡ proc)
      × (t.usecs ≡ usecs)
      × (t.periodic ≡ periodic)
      × (to_usecs t.time ≡ to_usecs now + usecs)
      × ((b : ℕ) → find b s'.active ≡ (if a == b then some t else find b s.active))

  create_from-IsCreated :
      (free : List (Timer P)) (fresh : Option ℕ) (now : Timeval) (proc : P) (usecs : ℕ)
      (periodic : Bool) (active : List (Timer P))
      → IsNormal now
      → IsFresh fresh (record { active = active; free = free })
      → IsValid (record { active = active; free = free })
      → IsCreated now proc usecs periodic
          (record { active = active; free = free })
          (create_from free fresh now proc usecs periodic active)
  unfolding create_from new_timer
  create_from-IsCreated (t ∷ rest) fresh now proc usecs periodic active n f v = (
    new_timer t.addr now proc usecs periodic,
    refl,
    refl,
    refl,
    add_usecs_lem now usecs n,
    λ b. find-list_add b _ active (unfold find in ground (arith, v.apart t.addr)),
  )
  create_from-IsCreated [] (some a) now proc usecs periodic active n f v = (
    new_timer a now proc usecs periodic,
    refl,
    refl,
    refl,
    add_usecs_lem now usecs n,
    λ b. find-list_add b _ active f.0,
  )
  create_from-IsCreated [] none now proc usecs periodic active n f v = (refl, refl)

  -- From valid timers, at a normal time and with an address from `malloc` that is not in use, or
  -- NULL: `tmr_create` returns NULL only with an empty free list, and then changes nothing. Otherwise
  -- it adds, at the address that it returns, a timer with the given fields that is due `usecs` after
  -- `now`, and leaves every other active timer as it was.
  pub tmr_create-IsCreated :
      (fresh : Option ℕ) (now : Timeval) (proc : P) (usecs : ℕ) (periodic : Bool) (s : Timers P)
      → IsNormal now
      → IsFresh fresh s
      → IsValid s
      → IsCreated now proc usecs periodic s (tmr_create fresh now proc usecs periodic s)
  unfolding tmr_create
  tmr_create-IsCreated fresh now proc usecs periodic s n f v =
      create_from-IsCreated s.free fresh now proc usecs periodic s.active n f v

  -- Resetting an active timer changes its time only.
  pub tmr_reset-at :
      (now : Timeval) (a : ℕ) (s : Timers P) (t : Timer P)
      → IsValid s
      → find a s.active ≡ some t
      → (s' : Timers P) × (tmr_reset now a s ≡ some s')
        × ((b : ℕ)
            → find b s'.active ≡ (
                if a == b
                then some (record t { time = add_usecs now t.usecs })
                else find b s.active))
  unfolding tmr_reset list_resort
  tmr_reset-at now a s t v e =
      let u = record t { time = add_usecs now t.usecs } in
      (
        record s { active = list_add u (list_remove a s.active) },
        ground arith,
        λ b. ground (
          arith,
          find_addr a s.active t,
          find-list_add b u (list_remove a s.active),
          find-list_remove t.addr a s.active v.distinct,
          find-list_remove b a s.active v.distinct,
        ),
      )

  -- After its call a periodic timer changes its time only.
  pub after_call-at :
      (a : ℕ) (s : Timers P) (t : Timer P)
      → IsValid s
      → find a s.active ≡ some t
      → t.periodic ≡ true
      → (s' : Timers P) × (after_call a s ≡ some s')
        × ((b : ℕ)
            → find b s'.active ≡ (
                if a == b
                then some (record t { time = add_usecs t.time t.usecs })
                else find b s.active))
  unfolding after_call deref list_resort
  after_call-at a s t v e p =
      let u = record t { time = add_usecs t.time t.usecs } in
      (
        record s { active = list_add u (list_remove a s.active) },
        ground arith,
        λ b. ground (
          arith,
          find_addr a s.active t,
          find-list_add b u (list_remove a s.active),
          find-list_remove t.addr a s.active v.distinct,
          find-list_remove b a s.active v.distinct,
        ),
      )

  -- Resetting an active timer of valid timers at a normal time is defined: it is then due its period
  -- after `now`, and every other active timer is as it was.
  pub tmr_reset-find :
      (now : Timeval) (a : ℕ) (s : Timers P) (t : Timer P)
      → IsNormal now
      → IsValid s
      → find a s.active ≡ some t
      → (s' : Timers P) × (u : Timer P) × (tmr_reset now a s ≡ some s')
        × (to_usecs u.time ≡ to_usecs now + t.usecs)
        × ((b : ℕ) → find b s'.active ≡ (if a == b then some u else find b s.active))
  tmr_reset-find now a s t n v e =
      let (s', g, h) = tmr_reset-at now a s t v e in
      (s', record t { time = add_usecs now t.usecs }, g, add_usecs_lem now t.usecs n, h)

  -- Cancelling an active timer of valid timers is defined: it leaves the active list, where every
  -- other timer stays, and heads the free list, to be used again first.
  pub tmr_cancel-find :
      (a : ℕ) (s : Timers P) (t : Timer P)
      → IsValid s
      → find a s.active ≡ some t
      → (s' : Timers P) × (tmr_cancel a s ≡ some s')
        × (s'.free ≡ t ∷ s.free)
        × ((b : ℕ) → find b s'.active ≡ (if a == b then none else find b s.active))
  unfolding tmr_cancel
  tmr_cancel-find a s t v e = (
    record { active = list_remove a s.active; free = t ∷ s.free },
    ground arith,
    refl,
    λ b. find-list_remove b a s.active v.distinct,
  )
