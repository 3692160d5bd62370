-- ===== src/Timer/Order.antt =====
-- The order of the active list, and what the list routines do to a lookup by address.
use wifitesttool.Base.{ℕ, ◌≤◌, ◌≡◌, refl, none, some, List, [], ◌∷◌, arith, ◌==◌, if◌then◌else◌}
use wifitesttool.Timer.{Timer, list_add, list_remove, find}
use wifitesttool.Timer.Time.{to_usecs, IsNormal, earlier_iff, earlier-false}

module _ {P : Type 0} where
  -- The times are normal, none is below `m`, and each is at most the next one.
  abbrev pub Chain : ℕ → List (Timer P) → Type 0
  Chain m [] = Unit
  Chain m (x ∷ xs) = IsNormal x.time × (m ≤ to_usecs x.time) × Chain (to_usecs x.time) xs

  abbrev pub IsSorted : List (Timer P) → Type 0
  IsSorted = Chain 0

  -- No two timers share an address.
  abbrev pub Distinct : List (Timer P) → Type 0
  Distinct [] = Unit
  Distinct (x ∷ xs) = (find x.addr xs ≡ none) × Distinct xs

  pub Chain-mono : (m n : ℕ) (xs : List (Timer P)) → m ≤ n → Chain n xs → Chain m xs
  Chain-mono m n [] h c = tt
  Chain-mono m n (x ∷ xs) h c = (c.0, omega arith, c.2)

  pub list_add-Chain :
      (m : ℕ) (t : Timer P) (xs : List (Timer P))
      → IsNormal t.time
      → m ≤ to_usecs t.time
      → Chain m xs
      → Chain m (list_add t xs)
  unfolding list_add
  list_add-Chain m t [] n h c = (n, h, tt)
  list_add-Chain m t (x ∷ xs) n h c = ground (
    arith,
    earlier_iff t.time x.time n c.0,
    earlier-false t.time x.time n c.0,
    list_add-Chain (to_usecs x.time) t xs,
  )

  pub list_remove-Chain : (m a : ℕ) (xs : List (Timer P)) → Chain m xs → Chain m (list_remove a xs)
  unfolding list_remove
  list_remove-Chain m a [] c = tt
  list_remove-Chain m a (x ∷ xs) c =
      ground
        (arith, Chain-mono m (to_usecs x.time) xs c.1, list_remove-Chain (to_usecs x.time) a xs)

  -- Every timer of a chain is at or above its bound, and has a normal time.
  pub Chain-find :
      (m a : ℕ) (xs : List (Timer P)) (t : Timer P)
      → Chain m xs
      → find a xs ≡ some t
      → (m ≤ to_usecs t.time) × IsNormal t.time
  unfolding find
  Chain-find m a [] t c e = cc
  Chain-find m a (x ∷ xs) t c e = ground (arith, Chain-find (to_usecs x.time) a xs t)

  pub find_addr : (a : ℕ) (xs : List (Timer P)) (t : Timer P) → find a xs ≡ some t → t.addr ≡ a
  unfolding find
  find_addr a [] t e = cc
  find_addr a (x ∷ xs) t e = ground (arith, find_addr a xs t)

  pub find-list_add :
      (a : ℕ) (t : Timer P) (xs : List (Timer P))
      → find t.addr xs ≡ none
      → find a (list_add t xs) ≡ (if t.addr == a then some t else find a xs)
  unfolding find list_add
  find-list_add a t [] h = refl
  find-list_add a t (x ∷ xs) h = ground (arith, find-list_add a t xs)

  pub find-list_remove :
      (a b : ℕ) (xs : List (Timer P))
      → Distinct xs
      → find a (list_remove b xs) ≡ (if b == a then none else find a xs)
  unfolding find list_remove
  find-list_remove a b [] d = ground arith
  find-list_remove a b (x ∷ xs) d = ground (arith, find-list_remove a b xs)

  pub list_add-Distinct :
      (t : Timer P) (xs : List (Timer P))
      → find t.addr xs ≡ none
      → Distinct xs
      → Distinct (list_add t xs)
  unfolding find list_add
  list_add-Distinct t [] h d = (refl, tt)
  list_add-Distinct t (x ∷ xs) h d =
      ground (arith, list_add-Distinct t xs, find-list_add x.addr t xs)

  pub list_remove-Distinct :
      (b : ℕ) (xs : List (Timer P)) → Distinct xs → Distinct (list_remove b xs)
  unfolding list_remove
  list_remove-Distinct b [] d = tt
  list_remove-Distinct b (x ∷ xs) d =
      ground (arith, list_remove-Distinct b xs, find-list_remove x.addr b xs)
