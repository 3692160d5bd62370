-- ===== src/Timer/Valid.antt =====
-- Every operation of timer.c keeps the timers valid, and what each does to them.
use wifitesttool.Base.{
  ℕ, ◌≡◌, refl, Bool, Option, none, some, List, [], ◌∷◌, arith, Option-cases, inl, inr, ◌⊎◌,
}
use wifitesttool.Timer.{
  Timer, Timers, Timeval, add_usecs, list_add, list_remove, find, new_timer, create_from,
  tmr_create, tmr_cancel, tmr_reset, list_resort, after_call, deref,
}
use wifitesttool.Timer.Time.{IsNormal, add_usecs-IsNormal}
use wifitesttool.Timer.Order.{
  IsSorted, Distinct, list_add-Chain, list_remove-Chain, Chain-find, find_addr, find-list_add,
  find-list_remove, list_add-Distinct, list_remove-Distinct,
}

module _ {P : Type 0} where
  -- The active list is in the order of time, and no address stands twice in the two lists.
  pub record IsValid (s : Timers P) : Type 0 where
    pub sorted : IsSorted s.active
    pub distinct : Distinct s.active
    pub distinct_free : Distinct s.free
    pub apart : (a : ℕ) → find a s.active ≡ none ⊎ find a s.free ≡ none

  -- `malloc` returns no address that is in use.
  abbrev pub IsFresh : Option ℕ → Timers P → Type 0
  IsFresh none s = Unit
  IsFresh (some a) s = (find a s.active ≡ none) × (find a s.free ≡ none)

  add-IsValid :
      (t : Timer P) (xs free : List (Timer P))
      → IsNormal t.time
      → IsSorted xs
      → Distinct xs
      → Distinct free
      → find t.addr xs ≡ none
      → find t.addr free ≡ none
      → ((a : ℕ) → find a xs ≡ none ⊎ find a free ≡ none)
      → IsValid (record { active = list_add t xs; free = free })
  add-IsValid t xs free n c d df h hf apart = record {
    sorted = list_add-Chain 0 t xs n (omega arith) c;
    distinct = list_add-Distinct t xs h d;
    distinct_free = df;
    apart = λ a. ground (arith, apart a, find-list_add a t xs);
  }

  create_from-IsValid :
      (free : List (Timer P)) (fresh : Option ℕ) (now : Timeval) (proc : P) (usecs : ℕ)
      (periodic : Bool) (active : List (Timer P))
      → IsNormal now
      → IsFresh fresh (record { active = active; free = free })
      → IsValid (record { active = active; free = free })
      → IsValid (create_from free fresh now proc usecs periodic active).1
  unfolding create_from new_timer find
  create_from-IsValid (t ∷ rest) fresh now proc usecs periodic active n f v =
      add-IsValid _ active rest (add_usecs-IsNormal now usecs n) v.sorted v.distinct
        v.distinct_free.1 (ground (arith, v.apart t.addr)) v.distinct_free.0
        (λ a. ground (arith, v.apart a))
  create_from-IsValid [] (some a) now proc usecs periodic active n f v =
      add-IsValid _ active [] (add_usecs-IsNormal now usecs n) v.sorted v.distinct tt f.0 refl
        (λ a. inr refl)
  create_from-IsValid [] none now proc usecs periodic active n f v = v

  -- From valid timers, at a normal time and with an address from `malloc` that is not in use, or NULL,
  -- `tmr_create` leaves valid timers.
  pub tmr_create-IsValid :
      (fresh : Option ℕ) (now : Timeval) (proc : P) (usecs : ℕ) (periodic : Bool) (s : Timers P)
      → IsNormal now
      → IsFresh fresh s
      → IsValid s
      → IsValid (tmr_create fresh now proc usecs periodic s).1
  unfolding tmr_create
  tmr_create-IsValid fresh now proc usecs periodic s n f v =
      create_from-IsValid s.free fresh now proc usecs periodic s.active n f v

  -- What an operation that may be undefined leaves is valid.
  abbrev pub AllValid : Option (Timers P) → Type 0
  AllValid none = Unit
  AllValid (some s) = IsValid s

  -- Where `tmr_cancel` is defined, it leaves valid timers valid.
  pub tmr_cancel-IsValid : (a : ℕ) (s : Timers P) → IsValid s → AllValid (tmr_cancel a s)
  unfolding tmr_cancel
  tmr_cancel-IsValid a s v = elim (Option-cases (find a s.active)) [
    | inl e ↦ rw (e, AllValid) tt
    | inr (t, e) ↦
        rw (e, AllValid)
          (record {
            sorted = list_remove-Chain 0 a s.active v.sorted;
            distinct = list_remove-Distinct a s.active v.distinct;
            distinct_free = (ground (arith, v.apart a, find_addr a s.active t), v.distinct_free);
            apart = λ b.
                unfold find in
                ground (
                  arith,
                  v.apart b,
                  find_addr a s.active t,
                  find-list_remove b a s.active v.distinct,
                );
          })
  ]

  list_resort-IsValid :
      (a : ℕ) (new : Timer P → Timeval) (s : Timers P)
      → ((t : Timer P) → IsNormal t.time → IsNormal (new t))
      → IsValid s
      → AllValid (list_resort a new s)
  unfolding list_resort
  list_resort-IsValid a new s n v = elim (Option-cases (find a s.active)) [
    | inl e ↦ rw (e, AllValid) tt
    | inr (t, e) ↦
        rw (e, AllValid)
          (add-IsValid (record t { time = new t }) (list_remove a s.active) s.free
            (n t (Chain-find 0 a s.active t v.sorted e).1) (list_remove-Chain 0 a s.active v.sorted)
            (list_remove-Distinct a s.active v.distinct) v.distinct_free
            (ground (arith, find_addr a s.active t, find-list_remove t.addr a s.active v.distinct))
            (ground (arith, v.apart t.addr, find_addr a s.active t))
            (λ b. ground (arith, v.apart b, find-list_remove b a s.active v.distinct)))
  ]

  -- Where `tmr_reset` is defined, it leaves valid timers valid, at a normal time.
  pub tmr_reset-IsValid :
      (now : Timeval) (a : ℕ) (s : Timers P)
      → IsNormal now
      → IsValid s
      → AllValid (tmr_reset now a s)
  unfolding tmr_reset
  tmr_reset-IsValid now a s n v =
      list_resort-IsValid a _ s (λ t _. add_usecs-IsNormal now t.usecs n) v

  pub after_call-IsValid : (a : ℕ) (s : Timers P) → IsValid s → AllValid (after_call a s)
  unfolding after_call
  after_call-IsValid a s v = elim (Option-cases (deref a s)) [
    | inl e ↦ rw (e, AllValid) tt
    | inr (t, e) ↦
        rw (e, AllValid)
          (ground (
            arith,
            list_resort-IsValid a (λ u. add_usecs u.time u.usecs) s
                (λ u h. add_usecs-IsNormal u.time u.usecs h) v,
            tmr_cancel-IsValid a s v,
          ))
  ]
