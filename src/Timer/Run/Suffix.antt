-- ===== src/Timer/Run/Suffix.antt =====
-- The part of the active list that the walk of `tmr_run` has still to see.
use wifitesttool.Base.{
  ℕ, ◌≤◌, ◌≡◌, ◌≢◌, refl, Option, none, some, List, [], ◌∷◌, arith, ◌==◌, if◌then◌else◌, is_some,
  Option-cases, Bool-cases, inl, inr, true,
}
use wifitesttool.Timer.{Timer, earlier, list_add, list_remove, find, head_addr, next_of}
use wifitesttool.Timer.Time.{to_usecs, IsNormal}
use wifitesttool.Timer.Order.{Chain, Distinct, Chain-find}

module _ {P : Type 0} where
  unfoldable pub suffix : Option ℕ → List (Timer P) → List (Timer P)
  suffix none xs = []
  suffix (some a) [] = []
  suffix (some a) (x ∷ xs) = if x.addr == a then x ∷ xs else suffix (some a) xs

  pub suffix-head_addr : (xs : List (Timer P)) → suffix (head_addr xs) xs ≡ xs
  unfolding suffix
  suffix-head_addr [] = refl
  suffix-head_addr (x ∷ xs) = ground arith

  find-head_addr_absent :
      (x : Timer P) (xs : List (Timer P))
      → find x.addr xs ≡ none
      → suffix (head_addr xs) (x ∷ xs) ≡ xs
  unfolding suffix find
  find-head_addr_absent x [] h = refl
  find-head_addr_absent x (y ∷ xs) h = ground arith

  -- A pointer to the next timer is the address of a timer in the list.
  pub next_of-find :
      (a c : ℕ) (xs : List (Timer P)) → next_of a xs ≡ some c → is_some (find c xs) ≡ true
  unfolding find next_of
  next_of-find a c [] h = cc
  next_of-find a c (x ∷ []) h = ground arith
  next_of-find a c (x ∷ y ∷ xs) h = ground (arith, next_of-find a c (y ∷ xs))

  -- In a list with distinct addresses it is not the timer itself.
  pub next_of-ne : (a c : ℕ) (xs : List (Timer P)) → Distinct xs → next_of a xs ≡ some c → c ≢ a
  unfolding find next_of
  next_of-ne a c [] d h = cc
  next_of-ne a c (x ∷ []) d h = ground arith
  next_of-ne a c (x ∷ y ∷ xs) d h = ground (arith, next_of-ne a c (y ∷ xs))

  suffix-next_of_absent :
      (a : ℕ) (x : Timer P) (xs : List (Timer P))
      → find x.addr xs ≡ none
      → suffix (next_of a xs) (x ∷ xs) ≡ suffix (next_of a xs) xs
  suffix-next_of_absent a x xs h = elim (Option-cases (next_of a xs)) [
    | inl e ↦ rw e (unfold suffix in refl)
    | inr (c, e) ↦ rw e (unfold suffix in ground (arith, next_of-find a c xs))
  ]

  suffix_cons :
      (a : ℕ) (x : Timer P) (xs : List (Timer P))
      → suffix (some a) (x ∷ xs) ≡ (if x.addr == a then x ∷ xs else suffix (some a) xs)
  unfolding suffix
  suffix_cons a x xs = refl

  -- The walk goes from `a` on to what stands behind it.
  pub find-suffix :
      (a b : ℕ) (xs : List (Timer P)) (t : Timer P)
      → Distinct xs
      → find a xs ≡ some t
      → find b (suffix (some a) xs) ≡ (if a == b then some t else find b (suffix (next_of a xs) xs))
  unfolding find next_of
  find-suffix a b [] t d e = cc
  find-suffix a b (x ∷ xs) t d e = elim (Bool-cases (x.addr == a)) [
    | inl h ↦ rw (suffix_cons a x xs, h, find-head_addr_absent x xs d.0) (ground arith)
    | inr h ↦
        rw (suffix_cons a x xs, h, suffix-next_of_absent a x xs d.0)
          (find-suffix a b xs t d.1 (ground arith))
  ]

  find-list_remove_ne :
      (a b : ℕ) (xs : List (Timer P)) → b ≢ a → find b (list_remove a xs) ≡ find b xs
  unfolding find list_remove
  find-list_remove_ne a b [] h = refl
  find-list_remove_ne a b (x ∷ xs) h = ground (arith, find-list_remove_ne a b xs)

  find-list_add_ne :
      (b : ℕ) (t : Timer P) (xs : List (Timer P)) → b ≢ t.addr → find b (list_add t xs) ≡ find b xs
  unfolding find list_add
  find-list_add_ne b t [] h = ground arith
  find-list_add_ne b t (x ∷ xs) h = ground (arith, find-list_add_ne b t xs)

  pub find-suffix-list_remove :
      (a b c : ℕ) (xs : List (Timer P))
      → b ≢ a
      → c ≢ a
      → find b (suffix (some c) (list_remove a xs)) ≡ find b (suffix (some c) xs)
  unfolding suffix find list_remove
  find-suffix-list_remove a b c [] h k = refl
  find-suffix-list_remove a b c (x ∷ xs) h k =
      ground (arith, find-suffix-list_remove a b c xs, find-list_remove_ne a b xs)

  pub find-suffix-list_add :
      (b c : ℕ) (t : Timer P) (xs : List (Timer P))
      → b ≢ t.addr
      → c ≢ t.addr
      → find b (suffix (some c) (list_add t xs)) ≡ find b (suffix (some c) xs)
  unfolding suffix find list_add
  find-suffix-list_add b c t [] h k = ground arith
  find-suffix-list_add b c t (x ∷ xs) h k = elim (Bool-cases (earlier t.time x.time)) [
    | inl e ↦ rw e (ground arith)
    | inr e ↦ rw e (ground (arith, find-suffix-list_add b c t xs h k, find-list_add_ne b t xs h))
  ]

  -- What the walk has still to see is no earlier than the timer at which it stands.
  pub suffix-le :
      (m a b : ℕ) (xs : List (Timer P)) (t u : Timer P)
      → Chain m xs
      → find a xs ≡ some t
      → find b (suffix (some a) xs) ≡ some u
      → to_usecs t.time ≤ to_usecs u.time
  suffix-le m a b [] t u c e h = unfold find in cc
  suffix-le m a b (x ∷ xs) t u c e h = elim (Bool-cases (x.addr == a)) [
    | inl p ↦ unfold suffix find in ground (arith, Chain-find (to_usecs x.time) b xs u c.2)
    | inr p ↦
        suffix-le (to_usecs x.time) a b xs t u c.2 (unfold find in ground arith)
          (unfold suffix in ground arith)
  ]

  -- It has a normal time.
  pub suffix-IsNormal :
      (m a b : ℕ) (xs : List (Timer P)) (u : Timer P)
      → Chain m xs
      → find b (suffix (some a) xs) ≡ some u
      → (m ≤ to_usecs u.time) × IsNormal u.time
  suffix-IsNormal m a b [] u c h = unfold suffix find in cc
  suffix-IsNormal m a b (x ∷ xs) u c h = elim (Bool-cases (x.addr == a)) [
    | inl p ↦ Chain-find m b (x ∷ xs) u c (rw (suffix_cons a x xs, p) at h)
    | inr p ↦ omega (
      arith,
      suffix-IsNormal (to_usecs x.time) a b xs u c.2 (rw (suffix_cons a x xs, p) at h),
      c.1,
    )
  ]

  -- A pointer that shows a timer of the list, or `NULL`.
  abbrev pub IsIn : Option ℕ → List (Timer P) → Type 0
  IsIn none xs = Unit
  IsIn (some a) xs = is_some (find a xs) ≡ true

  pub head_find : (xs : List (Timer P)) → IsIn (head_addr xs) xs
  unfolding find
  head_find [] = tt
  head_find (x ∷ xs) = ground arith
