-- ===== src/Timer/Run/Work.antt =====
-- How much work an active list is to `tmr_run`: each turn of its loop leaves less of it.
use wifitesttool.Base.{
  ℕ, ◌+◌, ◌-◌, ◌<◌, ◌≡◌, refl, true, false, some, List, [], ◌∷◌, arith, if◌then◌else◌,
}
use wifitesttool.Timer.{Timer, Timeval, earlier, add_usecs, list_add, list_remove, find}
use wifitesttool.Timer.Time.{to_usecs, IsNormal, add_usecs_lem, earlier-false}

module _ {P : Type 0} where
  -- A timer that is due counts one, and the microseconds that it is late.
  abbrev pub weight : Timeval → Timer P → ℕ
  weight now t = if earlier now t.time then 0 else 1 + to_usecs now - to_usecs t.time

  unfoldable pub work : Timeval → List (Timer P) → ℕ
  work now [] = 0
  work now (x ∷ xs) = weight now x + work now xs

  -- A periodic timer has a period that is not 0.
  abbrev pub Ticks : Timer P → Type 0
  Ticks t = t.periodic ≡ true → 0 < t.usecs

  abbrev pub AllTick : List (Timer P) → Type 0
  AllTick [] = Unit
  AllTick (x ∷ xs) = Ticks x × AllTick xs

  pub work-list_add :
      (now : Timeval) (t : Timer P) (xs : List (Timer P))
      → work now (list_add t xs) ≡ weight now t + work now xs
  unfolding work list_add
  work-list_add now t [] = refl
  work-list_add now t (x ∷ xs) = ground (arith, work-list_add now t xs)

  pub work-list_remove :
      (now : Timeval) (a : ℕ) (xs : List (Timer P)) (t : Timer P)
      → find a xs ≡ some t
      → work now (list_remove a xs) + weight now t ≡ work now xs
  unfolding work list_remove find
  work-list_remove now a [] t e = cc
  work-list_remove now a (x ∷ xs) t e = ground (arith, work-list_remove now a xs t)

  pub AllTick-list_add :
      (t : Timer P) (xs : List (Timer P)) → Ticks t → AllTick xs → AllTick (list_add t xs)
  unfolding list_add
  AllTick-list_add t [] h k = (h, tt)
  AllTick-list_add t (x ∷ xs) h k = ground (arith, AllTick-list_add t xs h k.1)

  pub AllTick-list_remove : (a : ℕ) (xs : List (Timer P)) → AllTick xs → AllTick (list_remove a xs)
  unfolding list_remove
  AllTick-list_remove a [] k = tt
  AllTick-list_remove a (x ∷ xs) k = ground (arith, AllTick-list_remove a xs k.1)

  pub AllTick-find :
      (a : ℕ) (xs : List (Timer P)) (t : Timer P) → AllTick xs → find a xs ≡ some t → Ticks t
  unfolding find
  AllTick-find a [] t k e = cc
  AllTick-find a (x ∷ xs) t k e = ground (arith, AllTick-find a xs t k.1)

  -- A due timer has work in it, and less once it is put off by a positive period.
  pub weight_due :
      (now : Timeval) (t : Timer P)
      → IsNormal now
      → IsNormal t.time
      → earlier now t.time ≡ false
      → 0 < weight now t
  weight_due now t n nt h = ground (arith, earlier-false now t.time n nt)

  pub weight-add_usecs :
      (now : Timeval) (t : Timer P)
      → IsNormal now
      → IsNormal t.time
      → earlier now t.time ≡ false
      → 0 < t.usecs
      → weight now (record t { time = add_usecs t.time t.usecs }) < weight now t
  weight-add_usecs now t n nt h k =
      ground (arith, earlier-false now t.time n nt, add_usecs_lem t.time t.usecs nt)
