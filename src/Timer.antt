-- ===== src/Timer.antt =====
-- The timers of iperf_jni/jni/iperf/src/timer.c. The two chains of `Timer` structs are lists, each
-- from its head along `next`, and a pointer is an address, at which a list is searched.
pub mod Time
pub mod Order
pub mod Valid
pub mod Run
pub mod Effects
pub mod Refines
use wifitesttool.Base.{
  ℕ, zero, suc, ◌+◌, ◌/◌, ◌%◌, Bool, true, false, ◌&&◌, ◌||◌, Option, none, some, List, [], ◌∷◌,
  ltb, leb, ◌==◌, if◌then◌else◌,
}
use wifitesttool.Base.Int.{ℤ, pos, ◌+ℤ◌, ◌-ℤ◌, ◌*ℤ◌, pos_part}

-- `struct timeval` of a time after 1970; `tv_sec` does not overflow.
pub record Timeval : Type 0 where
  pub sec : ℕ
  pub usec : ℕ

abbrev pub million : ℕ
million = 1000000

-- `a` is earlier than `b`: the comparison that `list_add` and `tmr_run` write out.
unfoldable pub earlier : Timeval → Timeval → Bool
earlier a b = ltb a.sec b.sec || (a.sec == b.sec && ltb a.usec b.usec)

-- The carry of `add_usecs`, behind its `if`.
unfoldable pub add_usecs : Timeval → ℕ → Timeval
add_usecs t usecs =
    let s = t.sec + usecs / million in
    let u = t.usec + usecs % million in
    if leb million u
    then record { sec = s + u / million; usec = u % million }
    else record { sec = s; usec = u }

-- A timer, known by its address. `proc` stands for `timer_proc` with its `client_data`.
pub record Timer (P : Type 0) : Type 0 where
  pub addr : ℕ
  pub proc : P
  pub usecs : ℕ
  pub periodic : Bool
  pub time : Timeval

-- The lists `timers` and `free_timers`, each from its head along `next`.
pub record Timers (P : Type 0) : Type 0 where
  pub active : List (Timer P)
  pub free : List (Timer P)

-- `usecs` of `tmr_timeout`, which may be negative.
unfoldable pub timeout_usecs : Timeval → Timeval → ℤ
timeout_usecs t now = (pos t.sec -ℤ pos now.sec) *ℤ pos million +ℤ (pos t.usec -ℤ pos now.usec)

-- What a walk over the timers comes to. `undefined`: a pointer was used that is no timer, or one
-- was unlinked that is not in the active list. `out_of_fuel`: the walk did not end in time.
pub data Outcome (A : Type 0) : Type 0 where
  done : A → Outcome A
  undefined : Outcome A
  out_of_fuel : Outcome A

module _ {P : Type 0} where
  -- The new timer goes before the first one that is later.
  unfoldable pub list_add : Timer P → List (Timer P) → List (Timer P)
  list_add t [] = t ∷ []
  list_add t (x ∷ xs) = if earlier t.time x.time then t ∷ x ∷ xs else x ∷ list_add t xs

  unfoldable pub list_remove : ℕ → List (Timer P) → List (Timer P)
  list_remove a [] = []
  list_remove a (x ∷ xs) = if x.addr == a then xs else x ∷ list_remove a xs

  -- What the pointer `a` shows in a list.
  unfoldable pub find : ℕ → List (Timer P) → Option (Timer P)
  find a [] = none
  find a (x ∷ xs) = if x.addr == a then some x else find a xs

  abbrev pub head_addr : List (Timer P) → Option ℕ
  head_addr [] = none
  head_addr (x ∷ xs) = some x.addr

  -- `t->next`.
  unfoldable pub next_of : ℕ → List (Timer P) → Option ℕ
  next_of a [] = none
  next_of a (x ∷ xs) = if x.addr == a then head_addr xs else next_of a xs

  -- `list_resort` of the timer at `a` once its time is `new t`; `none` if it is not active.
  unfoldable pub list_resort : ℕ → (Timer P → Timeval) → Timers P → Option (Timers P)
  list_resort a new s = elim (find a s.active) [
    | none ↦ none
    | some t ↦
        some (record s { active = list_add (record t { time = new t }) (list_remove a s.active) })
  ]

  -- The timer that `tmr_create` fills in, at the address that it got.
  unfoldable pub new_timer : ℕ → Timeval → P → ℕ → Bool → Timer P
  new_timer a now proc usecs periodic = record {
    addr = a;
    proc = proc;
    usecs = usecs;
    periodic = periodic;
    time = add_usecs now usecs;
  }

  unfoldable pub create_from :
      List (Timer P) → Option ℕ → Timeval → P → ℕ → Bool → List (Timer P) → Option ℕ × Timers P
  create_from (t ∷ rest) fresh now proc usecs periodic active = (
    some t.addr,
    record { active = list_add (new_timer t.addr now proc usecs periodic) active; free = rest },
  )
  create_from [] (some a) now proc usecs periodic active =
      (some a, record { active = list_add (new_timer a now proc usecs periodic) active; free = [] })
  create_from [] none now proc usecs periodic active = (none, record { active = active; free = [] })

  -- `fresh` is what `malloc` would return; it is asked only if the free list is empty.
  unfoldable pub tmr_create : Option ℕ → Timeval → P → ℕ → Bool → Timers P → Option ℕ × Timers P
  unfolding create_from
  tmr_create fresh now proc usecs periodic s =
      create_from s.free fresh now proc usecs periodic s.active

  -- `if ( usecs <= 0 ) usecs = 0;` is the positive part.
  timeout_of : List (Timer P) → Timeval → Option Timeval
  unfolding timeout_usecs
  timeout_of [] now = none
  timeout_of (t ∷ ts) now =
      let usecs = pos_part (timeout_usecs t.time now) in
      some (record { sec = usecs / million; usec = usecs % million })

  unfoldable pub tmr_timeout : Timeval → Timers P → Option Timeval
  unfolding timeout_of
  tmr_timeout now s = timeout_of s.active now

  -- The timer at `a` leaves the active list and heads the free list; `none` if it is not active.
  unfoldable pub tmr_cancel : ℕ → Timers P → Option (Timers P)
  tmr_cancel a s = elim (find a s.active) [
    | none ↦ none
    | some t ↦ some (record { active = list_remove a s.active; free = t ∷ s.free })
  ]

  unfoldable pub tmr_reset : Timeval → ℕ → Timers P → Option (Timers P)
  tmr_reset now a s = list_resort a (λ t. add_usecs now t.usecs) s

  unfoldable pub tmr_cleanup : Timers P → Timers P
  tmr_cleanup s = record s { free = [] }

  -- `while ( timers != NULL ) tmr_cancel( timers );`
  cancel_all : List (Timer P) → List (Timer P) → List (Timer P)
  cancel_all [] free = free
  cancel_all (t ∷ ts) free = cancel_all ts (t ∷ free)

  unfoldable pub tmr_destroy : Timers P → Timers P
  unfolding cancel_all tmr_cleanup
  tmr_destroy s = tmr_cleanup (record { active = []; free = cancel_all s.active s.free })

  -- `*t`, for a timer of either list.
  unfoldable pub deref : ℕ → Timers P → Option (Timer P)
  deref a s = elim (find a s.active) [ some t ↦ some t | none ↦ find a s.free ]

  -- `t->next`, which links the list that holds the timer.
  unfoldable pub next_ptr : ℕ → Timers P → Option ℕ
  next_ptr a s = elim (find a s.active) [ some t ↦ next_of a s.active | none ↦ next_of a s.free ]

  -- After the callback of a due timer, which is read again: reschedule it, or cancel it.
  unfoldable pub after_call : ℕ → Timers P → Option (Timers P)
  after_call a s = elim (deref a s) [
    | none ↦ none
    | some t ↦ elim t.periodic [
      | true ↦ list_resort a (λ u. add_usecs u.time u.usecs) s
      | false ↦ tmr_cancel a s
    ]
  ]

  -- `call` is `timer_proc`, which may use the timers and changes the rest of the program, `W`.
  module _ {W : Type 0} (call : P → Timeval → Timers P → W → Option (Timers P × W)) where
    -- The loop of `tmr_run` at the pointer `cur`.
    unfoldable pub run_loop : ℕ → Timeval → Option ℕ → Timers P → W → Outcome (Timers P × W)
    run_loop zero now cur s w = out_of_fuel
    run_loop (suc k) now none s w = done (s, w)
    run_loop (suc k) now (some a) s w = elim (deref a s) [
      | none ↦ undefined
      | some t ↦ elim (earlier now t.time) [
        | true ↦ done (s, w)
        | false ↦ elim (call t.proc now s w) [
          | none ↦ undefined
          | some (s', w') ↦ elim (after_call a s') [
            | none ↦ undefined
            | some s'' ↦ run_loop k now (next_ptr a s) s'' w'
          ]
        ]
      ]
    ]

    unfoldable pub tmr_run : ℕ → Timeval → Timers P → W → Outcome (Timers P × W)
    unfolding run_loop
    tmr_run k now s w = run_loop k now (head_addr s.active) s w
