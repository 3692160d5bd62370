-- ===== src/Timer/Refines.antt =====
-- The timers of timer.c as their callers see them: a table of what is due at which address. Every
-- sequence of calls outside `tmr_run` is a sequence of changes of the table.
use mathlib.Core.Option.{some-injective, none-ne-some}
use mathlib.Core.Path.{fun_ext}
use wifitesttool.Base.{
  ℕ, ◌+◌, ◌≡◌, refl, sym, ap, subst, ◌∙◌, Bool, true, false, Option, none, some, List, [], ◌∷◌,
  arith, ◌==◌, if◌then◌else◌, Option-cases, inl, inr,
}
use wifitesttool.Timer.{
  Timer, Timers, Timeval, add_usecs, list_resort, find, create_from, tmr_create, tmr_cancel,
  tmr_reset, tmr_cleanup, tmr_destroy,
}
use wifitesttool.Timer.Time.{add_usecs_lem, to_usecs, IsNormal}
use wifitesttool.Timer.Valid.{
  IsValid, IsFresh, AllValid, tmr_create-IsValid, tmr_reset-IsValid, tmr_cancel-IsValid,
}
use wifitesttool.Timer.Effects.{IsCreated, tmr_create-IsCreated, tmr_reset-at, tmr_cancel-find}

-- What is due: the callback, its period, and when, in microseconds.
pub record Entry (P : Type 0) : Type 0 where
  pub proc : P
  pub usecs : ℕ
  pub periodic : Bool
  pub due : ℕ

-- The calls, with what they are given and the pointer that tmr_create returns.
pub data Op (P : Type 0) : Type 0 where
  create : Option ℕ → P → ℕ → Bool → Op P
  reset cancel : ℕ → Op P
  cleanup destroy : Op P

abbrev pub Table : Type 0 → Type 0
Table P = ℕ → Option (Entry P)

module _ {P : Type 0} where
  abbrev pub entry : Timer P → Entry P
  entry t = record { proc = t.proc; usecs = t.usecs; periodic = t.periodic; due = to_usecs t.time }

  abbrev entry_of : Option (Timer P) → Option (Entry P)
  entry_of none = none
  entry_of (some t) = some (entry t)

  abbrev pub view : Timers P → Table P
  view s a = entry_of (find a s.active)

  abbrev pub put : Table P → ℕ → Option (Entry P) → Table P
  put f a e b = if a == b then e else f b

  abbrev pub new_entry : ℕ → P → ℕ → Bool → Entry P
  new_entry now proc usecs periodic = record {
    proc = proc;
    usecs = usecs;
    periodic = periodic;
    due = now + usecs;
  }

  -- What each call does to a table at the time `now`.
  pub data Change (now : ℕ) : Op P → Table P → Table P → Type 0 where
    no_memory :
        (f : Table P) (proc : P) (usecs : ℕ) (periodic : Bool)
        → Change now (create none proc usecs periodic) f f
    added :
        (f : Table P) (a : ℕ) (proc : P) (usecs : ℕ) (periodic : Bool)
        → f a ≡ none
        → Change now
            (create (some a) proc usecs periodic)
            f
            (put f a (some (new_entry now proc usecs periodic)))
    moved :
        (f : Table P) (a : ℕ) (e : Entry P)
        → f a ≡ some e
        → Change now (reset a) f (put f a (some (record e { due = now + e.usecs })))
    removed :
        (f : Table P) (a : ℕ) (e : Entry P) → f a ≡ some e → Change now (cancel a) f (put f a none)
    kept : (f : Table P) → Change now cleanup f f
    cleared : (f : Table P) → Change now destroy f (λ a. none)

  -- The calls of the program, each with the answer of `malloc` where it asks for memory.
  pub data Call (now : Timeval) (s : Timers P) : Op P → Timers P → Type 0 where
    creates :
        (fresh : Option ℕ) (proc : P) (usecs : ℕ) (periodic : Bool)
        → IsFresh fresh s
        → Call now s
            (create (tmr_create fresh now proc usecs periodic s).0 proc usecs periodic)
            (tmr_create fresh now proc usecs periodic s).1
    resets : (a : ℕ) (s' : Timers P) → tmr_reset now a s ≡ some s' → Call now s (reset a) s'
    cancels : (a : ℕ) (s' : Timers P) → tmr_cancel a s ≡ some s' → Call now s (cancel a) s'
    cleans : Call now s cleanup (tmr_cleanup s)
    destroys : Call now s destroy (tmr_destroy s)

  entry_of-if :
      (c : Bool) (o x : Option (Timer P))
      → entry_of (if c then o else x) ≡ (if c then entry_of o else entry_of x)
  entry_of-if true o x = refl
  entry_of-if false o x = refl

  view-put :
      (a : ℕ) (o : Option (Timer P)) (s s' : Timers P)
      → ((b : ℕ) → find b s'.active ≡ (if a == b then o else find b s.active))
      → view s' ≡ put (view s) a (entry_of o)
  view-put a o s s' h = fun_ext λ b. (ap entry_of (h b) ∙ entry_of-if (a == b) o (find b s.active))

  created_fresh :
      (free : List (Timer P)) (fresh : Option ℕ) (now : Timeval) (proc : P) (usecs : ℕ)
      (periodic : Bool) (active : List (Timer P)) (a : ℕ)
      → IsFresh fresh (record { active = active; free = free })
      → IsValid (record { active = active; free = free })
      → (create_from free fresh now proc usecs periodic active).0 ≡ some a
      → find a active ≡ none
  unfolding create_from find
  created_fresh (t ∷ rest) fresh now proc usecs periodic active a f v e =
      subst (λ x. find x active ≡ none) (some-injective t.addr a e) (ground (arith, v.apart t.addr))
  created_fresh [] (some b) now proc usecs periodic active a f v e =
      subst (λ x. find x active ≡ none) (some-injective b a e) f.0
  created_fresh [] none now proc usecs periodic active a f v e = absurd (none-ne-some a e)

  pub tmr_create-fresh :
      (fresh : Option ℕ) (now : Timeval) (proc : P) (usecs : ℕ) (periodic : Bool) (s : Timers P)
      (a : ℕ)
      → IsFresh fresh s
      → IsValid s
      → (tmr_create fresh now proc usecs periodic s).0 ≡ some a
      → find a s.active ≡ none
  unfolding tmr_create
  tmr_create-fresh fresh now proc usecs periodic s a f v e =
      created_fresh s.free fresh now proc usecs periodic s.active a f v e

  created_entry :
      (now : ℕ) (t : Timer P) (proc : P) (usecs : ℕ) (periodic : Bool)
      → t.proc ≡ proc
      → t.usecs ≡ usecs
      → t.periodic ≡ periodic
      → to_usecs t.time ≡ now + usecs
      → new_entry now proc usecs periodic ≡ entry t
  created_entry now t proc usecs periodic ep eu eb et =
      ap (λ d. record { proc = proc; usecs = usecs; periodic = periodic; due = d }) (sym et)
      ∙ ap (λ b. record { proc = proc; usecs = usecs; periodic = b; due = to_usecs t.time })
          (sym eb)
      ∙ ap (λ u. record { proc = proc; usecs = u; periodic = t.periodic; due = to_usecs t.time })
          (sym eu)
      ∙ ap (λ p. record { proc = p; usecs = t.usecs; periodic = t.periodic; due = to_usecs t.time })
          (sym ep)

  created-Change :
      (now : Timeval) (proc : P) (usecs : ℕ) (periodic : Bool) (s : Timers P)
      (r : Option ℕ × Timers P)
      → ((a : ℕ) → r.0 ≡ some a → find a s.active ≡ none)
      → IsCreated now proc usecs periodic s r
      → Change (to_usecs now) (create r.0 proc usecs periodic) (view s) (view r.1)
  created-Change now proc usecs periodic s (none, s') h c =
      subst (λ x. Change (to_usecs now) (create none proc usecs periodic) (view s) (view x))
        (sym c.1) (no_memory (view s) proc usecs periodic)
  created-Change now proc usecs periodic s (some a, s') h (t, ep, eu, ed, et, k) =
      subst (Change (to_usecs now) (create (some a) proc usecs periodic) (view s))
        (ap (λ e. put (view s) a (some e))
            (created_entry (to_usecs now) t proc usecs periodic ep eu ed et)
          ∙ sym (view-put a (some t) s s' k))
        (added (view s) a proc usecs periodic (ap entry_of (h a refl)))

  undefined_reset :
      (now : Timeval) (a : ℕ) (s : Timers P) → find a s.active ≡ none → tmr_reset now a s ≡ none
  unfolding tmr_reset list_resort
  undefined_reset now a s e = rw (e, tmr_reset, list_resort) refl

  undefined_cancel : (a : ℕ) (s : Timers P) → find a s.active ≡ none → tmr_cancel a s ≡ none
  unfolding tmr_cancel
  undefined_cancel a s e = rw (e, tmr_cancel) refl

  reset-Change :
      (now : Timeval) (a : ℕ) (s s' : Timers P)
      → IsNormal now
      → IsValid s
      → tmr_reset now a s ≡ some s'
      → Change (to_usecs now) (reset a) (view s) (view s')
  reset-Change now a s s' n v e = elim (Option-cases (find a s.active)) [
    | inl f ↦ absurd (none-ne-some s' (sym (undefined_reset now a s f) ∙ e))
    | inr (t, f) ↦
        (let (u, g, k) = tmr_reset-at now a s t v f in
          let same = some-injective u s' (sym g ∙ e) in
          let t' = record t { time = add_usecs now t.usecs } in
          let due : record (entry t) { due = to_usecs now + t.usecs } ≡ entry t' =
            ap (λ d. record (entry t) { due = d }) (sym (add_usecs_lem now t.usecs n)) in
          subst (λ x. Change (to_usecs now) (reset a) (view s) (view x)) same
            (subst (Change (to_usecs now) (reset a) (view s))
              (ap (λ x. put (view s) a (some x)) due ∙ sym (view-put a (some t') s u k))
              (moved (view s) a (entry t) (ap entry_of f))))
  ]

  cancel-Change :
      (now a : ℕ) (s s' : Timers P)
      → IsValid s
      → tmr_cancel a s ≡ some s'
      → Change now (cancel a) (view s) (view s')
  cancel-Change now a s s' v e = elim (Option-cases (find a s.active)) [
    | inl f ↦ absurd (none-ne-some s' (sym (undefined_cancel a s f) ∙ e))
    | inr (t, f) ↦
        (let (u, g, h, k) = tmr_cancel-find a s t v f in
          let same = some-injective u s' (sym g ∙ e) in
          subst (λ x. Change now (cancel a) (view s) (view x)) same
            (subst (Change now (cancel a) (view s)) (sym (view-put a none s u k))
              (removed (view s) a (entry t) (ap entry_of f))))
  ]

  -- Each call keeps the timers valid and is a change of the table.
  Call-Change :
      {now : Timeval} {op : Op P} {s s' : Timers P}
      → IsNormal now
      → IsValid s
      → Call now s op s'
      → IsValid s' × Change (to_usecs now) op (view s) (view s')
  unfolding tmr_create tmr_cleanup tmr_destroy find
  Call-Change {now} {s} n v (creates fresh proc usecs periodic f) = (
    tmr_create-IsValid fresh now proc usecs periodic s n f v,
    created-Change now proc usecs periodic s (tmr_create fresh now proc usecs periodic s)
        (λ a. created_fresh s.free fresh now proc usecs periodic s.active a f v)
        (tmr_create-IsCreated fresh now proc usecs periodic s n f v),
  )
  Call-Change {now} {s} n v (resets a s' e) =
      (subst AllValid e (tmr_reset-IsValid now a s n v), reset-Change now a s s' n v e)
  Call-Change {now} {s} n v (cancels a s' e) =
      (subst AllValid e (tmr_cancel-IsValid a s v), cancel-Change (to_usecs now) a s s' v e)
  Call-Change {now} {s} n v cleans = (
    record { sorted = v.sorted; distinct = v.distinct; distinct_free = tt; apart = λ a. inr refl },
    kept (view s),
  )
  Call-Change {now} {s} n v destroys = (
    record { sorted = tt; distinct = tt; distinct_free = tt; apart = λ a. inl refl },
    cleared (view s),
  )

  -- Any number of calls, at any times, the latest first.
  pub data Calls (s : Timers P) : List (ℕ × Op P) → Timers P → Type 0 where
    no_call : Calls s [] s
    call :
        {ops : List (ℕ × Op P)} {op : Op P} {s' s'' : Timers P} (now : Timeval)
        → IsNormal now
        → Calls s ops s'
        → Call now s' op s''
        → Calls s ((to_usecs now, op) ∷ ops) s''

  pub data Changes (f : Table P) : List (ℕ × Op P) → Table P → Type 0 where
    no_change : Changes f [] f
    change :
        {ops : List (ℕ × Op P)} {op : Op P} {g h : Table P} (now : ℕ)
        → Changes f ops g
        → Change now op g h
        → Changes f ((now, op) ∷ ops) h

  -- However a program calls tmr_create, tmr_reset, tmr_cancel, tmr_cleanup and tmr_destroy, with
  -- normal times and an allocator that gives no address in use: the two lists stay valid, the active one
  -- in the order of time, and what the callers see is a table which the same calls change one after the other.
  -- There tmr_create adds a timer that is due after its period at the address that it returns, which
  -- was free, or returns NULL and changes nothing, tmr_reset makes a timer due after its period, tmr_cancel takes
  -- one away, tmr_cleanup changes nothing, and tmr_destroy takes all away.
  pub Calls-Changes :
      {s s' : Timers P} {ops : List (ℕ × Op P)}
      → IsValid s
      → Calls s ops s'
      → IsValid s' × Changes (view s) ops (view s')
  Calls-Changes v no_call = (v, no_change)
  Calls-Changes v (call now n cs c) =
      let (w, g) = Calls-Changes v cs in
      let (x, d) = Call-Change n w c in (x, change (to_usecs now) g d)
