-- ===== src/Alarms/Owned.antt =====
-- The pointers of a test and the active timers belong together.
use mathlib.Core.Option.{some-injective, none-ne-some}
use wifitesttool.Alarms.{Proc, test_proc, stats_proc, reporter_proc, omit_proc, Alarms}
use wifitesttool.Base.{
  ℕ, ◌≡◌, refl, sym, ap, subst, ◌∙◌, Bool, true, false, Option, none, some, arith, ◌==◌,
  if◌then◌else◌, Option-cases, inl, inr,
}
use wifitesttool.Timer.{
  Timer, Timers, Timeval, find, tmr_create, tmr_cancel, tmr_reset, after_call, deref,
}
use wifitesttool.Timer.Time.{IsNormal}
use wifitesttool.Timer.Valid.{
  IsValid, IsFresh, AllValid, tmr_create-IsValid, tmr_reset-IsValid, tmr_cancel-IsValid,
  after_call-IsValid,
}
use wifitesttool.Timer.Refines.{tmr_create-fresh}
use wifitesttool.Timer.Effects.{
  IsCreated, tmr_create-IsCreated, after_call-at, tmr_reset-at, tmr_cancel-find,
}

abbrev pub label : Option (Timer Proc) → Option (Proc × Bool)
label none = none
label (some t) = some (t.proc, t.periodic)

-- What is known of the timer at `a`, if it is active: its callback, and whether it is periodic.
abbrev pub kind_at : ℕ → Timers Proc → Option (Proc × Bool)
kind_at a s = label (find a s.active)

abbrev pub pointer : Alarms → Proc → Option ℕ
pointer c test_proc = c.timer
pointer c stats_proc = c.stats_timer
pointer c reporter_proc = c.reporter_timer
pointer c omit_proc = c.omit_timer

abbrev pub is_periodic : Proc → Bool
is_periodic stats_proc = true
is_periodic reporter_proc = true
is_periodic _ = false

abbrev pub same : Proc → Proc → Bool
same test_proc test_proc = true
same stats_proc stats_proc = true
same reporter_proc reporter_proc = true
same omit_proc omit_proc = true
same _ _ = false

pub same_refl : (p : Proc) → same p p ≡ true
same_refl p = ground arith

pub same-eq : (p q : Proc) → same p q ≡ true → p ≡ q
same-eq p q h = ground arith

-- `h` tells where the timer with each callback is, if there is one: the timers are valid, each is active and
-- periodic or not as it should be, and no other timer is active.
pub record IsOwned (s : Timers Proc) (h : Proc → Option ℕ) : Type 0 where
  pub valid : IsValid s
  pub held : (p : Proc) (a : ℕ) → h p ≡ some a → kind_at a s ≡ some (p, is_periodic p)
  pub known : (a : ℕ) (p : Proc) (b : Bool) → kind_at a s ≡ some (p, b) → h p ≡ some a

-- With another pointer for `p`.
abbrev pub put : Proc → Option ℕ → (Proc → Option ℕ) → Proc → Option ℕ
put p o h q = if same p q then o else h q

pub IsOwned-cong :
    (s : Timers Proc) (h k : Proc → Option ℕ) → ((p : Proc) → h p ≡ k p) → IsOwned s h → IsOwned s k
IsOwned-cong s h k e o = record {
  valid = o.valid;
  held = λ p a x. o.held p a (e p ∙ x);
  known = λ a p b x. sym (e p) ∙ o.known a p b x;
}

-- Timers with the same kinds.
pub IsOwned-kinds :
    (s s' : Timers Proc) (h : Proc → Option ℕ)
    → IsValid s'
    → ((a : ℕ) → kind_at a s' ≡ kind_at a s)
    → IsOwned s h
    → IsOwned s' h
IsOwned-kinds s s' h v e o = record {
  valid = v;
  held = λ p a x. e a ∙ o.held p a x;
  known = λ a p b x. o.known a p b (sym (e a) ∙ x);
}

proc_of : Proc → Option (Proc × Bool) → Proc
proc_of p none = p
proc_of p (some (q, b)) = q

-- A pointer names one timer only, and a timer has one callback.
pub owner :
    (s : Timers Proc) (h : Proc → Option ℕ) (p q : Proc) (a : ℕ)
    → IsOwned s h
    → h p ≡ some a
    → h q ≡ some a
    → p ≡ q
unfolding proc_of
owner s h p q a o e f = ap (proc_of p) (sym (o.held p a e) ∙ o.held q a f)

-- A new timer.
pub IsOwned-added :
    (s s' : Timers Proc) (h : Proc → Option ℕ) (p : Proc) (a : ℕ)
    → IsOwned s h
    → h p ≡ none
    → IsValid s'
    → kind_at a s ≡ none
    → ((b : ℕ) → kind_at b s' ≡ (if a == b then some (p, is_periodic p) else kind_at b s))
    → IsOwned s' (put p (some a) h)
IsOwned-added s s' h p a o e v free k = record {
  valid = v;
  held = λ q b x. grind (arith, k b, o.held q b, same-eq p q, free, e);
  known = λ b q c x. grind (arith, k b, o.known b q c, same-eq p q, same_refl p, free, e);
}

-- A timer less.
pub IsOwned-removed :
    (s s' : Timers Proc) (h : Proc → Option ℕ) (p : Proc) (a : ℕ)
    → IsOwned s h
    → h p ≡ some a
    → IsValid s'
    → ((b : ℕ) → kind_at b s' ≡ (if a == b then none else kind_at b s))
    → IsOwned s' (put p none h)
IsOwned-removed s s' h p a o e v k = record {
  valid = v;
  held = λ q b x. grind (arith, k b, o.held q b, same-eq p q, owner s h p q a o e);
  known = λ b q c x. grind (arith, k b, o.known b q c, same-eq p q, same_refl p);
}

kind_at-some :
    (a : ℕ) (s : Timers Proc) (p : Proc) (b : Bool)
    → kind_at a s ≡ some (p, b)
    → (t : Timer Proc) × (find a s.active ≡ some t) × (t.proc ≡ p) × (t.periodic ≡ b)
kind_at-some a s p b h = elim (Option-cases (find a s.active)) [
  | inl e ↦ absurd (none-ne-some (p, b) (ap label (sym e) ∙ h))
  | inr (t, e) ↦
      let f = some-injective (t.proc, t.periodic) (p, b) (ap label (sym e) ∙ h) in
      (t, e, ap (λ x. x.0) f, ap (λ x. x.1) f)
]

label-if :
    (c : Bool) (o x : Option (Timer Proc))
    → label (if c then o else x) ≡ (if c then label o else label x)
label-if true o x = refl
label-if false o x = refl

created-with :
    (now : Timeval) (p : Proc) (usecs : ℕ) (s : Timers Proc) (h : Proc → Option ℕ)
    (r : Option ℕ × Timers Proc)
    → IsOwned s h
    → h p ≡ none
    → ((a : ℕ) → r.0 ≡ some a → find a s.active ≡ none)
    → IsValid r.1
    → IsCreated now p usecs (is_periodic p) s r
    → IsOwned r.1 (put p r.0 h)
created-with now p usecs s h (none, s') o e f v c =
    IsOwned-cong s' h (put p none h) (λ q. grind (arith, same-eq p q, e))
      (subst (λ x. IsOwned x h) (sym c.1) o)
created-with now p usecs s h (some a, s') o e f v (t, ep, eu, eb, et, k) =
    IsOwned-added s s' h p a o e v (ap label (f a refl)) (λ b.
      ap label (k b)
      ∙ label-if (a == b) (some t) (find b s.active)
      ∙ ap (λ x. if a == b then some x else kind_at b s)
          (ap (λ x. (x, t.periodic)) ep ∙ ap (λ x. (p, x)) eb))

-- tmr_create for a callback that has no timer.
pub created-IsOwned :
    (malloc : Timers Proc → Option ℕ) (now : Timeval) (p : Proc) (usecs : ℕ) (s : Timers Proc)
    (h : Proc → Option ℕ)
    → ((x : Timers Proc) → IsFresh (malloc x) x)
    → IsNormal now
    → IsOwned s h
    → h p ≡ none
    → (let r = tmr_create (malloc s) now p usecs (is_periodic p) s in IsOwned r.1 (put p r.0 h))
created-IsOwned malloc now p usecs s h fresh n o e =
    let r = tmr_create (malloc s) now p usecs (is_periodic p) s in
    created-with now p usecs s h r o e
      (λ a. tmr_create-fresh (malloc s) now p usecs (is_periodic p) s a (fresh s) o.valid)
      (tmr_create-IsValid (malloc s) now p usecs (is_periodic p) s n (fresh s) o.valid)
      (tmr_create-IsCreated (malloc s) now p usecs (is_periodic p) s n (fresh s) o.valid)

pub cancelled-IsOwned :
    (a : ℕ) (s : Timers Proc) (h : Proc → Option ℕ) (p : Proc)
    → IsOwned s h
    → h p ≡ some a
    → (s' : Timers Proc) × (tmr_cancel a s ≡ some s') × IsOwned s' (put p none h)
cancelled-IsOwned a s h p o e =
    let (t, f, _, _) = kind_at-some a s p (is_periodic p) (o.held p a e) in
    let (s', g, _, k) = tmr_cancel-find a s t o.valid f in
    (
      s',
      g,
      IsOwned-removed s s' h p a o e (subst AllValid g (tmr_cancel-IsValid a s o.valid))
          (λ b. ap label (k b) ∙ label-if (a == b) none (find b s.active)),
    )

reset-kinds :
    (a : ℕ) (t u : Timer Proc) (s s' : Timers Proc)
    → find a s.active ≡ some t
    → label (some u) ≡ label (some t)
    → ((b : ℕ) → find b s'.active ≡ (if a == b then some u else find b s.active))
    → (b : ℕ) → kind_at b s' ≡ kind_at b s
reset-kinds a t u s s' e l k b = grind (arith, k b)

pub reset-IsOwned :
    (now : Timeval) (a : ℕ) (s : Timers Proc) (h : Proc → Option ℕ) (p : Proc)
    → IsNormal now
    → IsOwned s h
    → h p ≡ some a
    → (s' : Timers Proc) × (tmr_reset now a s ≡ some s') × IsOwned s' h
reset-IsOwned now a s h p n o e =
    let (t, f, _, _) = kind_at-some a s p (is_periodic p) (o.held p a e) in
    let (s', g, k) = tmr_reset-at now a s t o.valid f in
    (
      s',
      g,
      IsOwned-kinds s s' h (subst AllValid g (tmr_reset-IsValid now a s n o.valid))
          (reset-kinds a t _ s s' f refl k) o,
    )

after_call_once :
    (a : ℕ) (s : Timers Proc) (t : Timer Proc)
    → find a s.active ≡ some t
    → t.periodic ≡ false
    → after_call a s ≡ tmr_cancel a s
unfolding after_call deref
after_call_once a s t e p = ground arith

-- After the call of a periodic timer.
pub rescheduled-IsOwned :
    (a : ℕ) (s : Timers Proc) (h : Proc → Option ℕ) (p : Proc)
    → is_periodic p ≡ true
    → IsOwned s h
    → h p ≡ some a
    → (s' : Timers Proc) × (after_call a s ≡ some s') × IsOwned s' h
rescheduled-IsOwned a s h p periodic o e =
    let (t, f, _, g) = kind_at-some a s p (is_periodic p) (o.held p a e) in
    let (s', k, w) = after_call-at a s t o.valid f (g ∙ periodic) in
    (
      s',
      k,
      IsOwned-kinds s s' h (subst AllValid k (after_call-IsValid a s o.valid))
          (reset-kinds a t _ s s' f refl w) o,
    )

-- After the call of another one, which has cleared its pointer.
pub ended-IsOwned :
    (a : ℕ) (s : Timers Proc) (h : Proc → Option ℕ) (p : Proc)
    → is_periodic p ≡ false
    → IsOwned s h
    → h p ≡ some a
    → (s' : Timers Proc) × (after_call a s ≡ some s') × IsOwned s' (put p none h)
ended-IsOwned a s h p once o e =
    let (t, f, _, g) = kind_at-some a s p (is_periodic p) (o.held p a e) in
    let (s', k, w) = cancelled-IsOwned a s h p o e in
    (s', after_call_once a s t f (g ∙ once) ∙ k, w)
