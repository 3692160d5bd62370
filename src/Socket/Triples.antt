-- ===== src/Socket/Triples.antt =====
-- Pre- and postconditions for the functions on sockets, and what each call does to what is open.
use wifitesttool.Base.{
  ℕ, suc, ◌≡◌, List, ◌∷◌, arith, Bool, true, false, Option, none, some, if◌then◌else◌, ap,
}
use wifitesttool.Net.{Errno}
use wifitesttool.Error.{Ierror}
use wifitesttool.Socket.{
  Os, Exit, returns, minus_one, M, and_then, pure, ◌>>=◌, ◌>>◌, skip, when, call, open_call,
  getaddrinfo, get_errno, set_errno, set_i_errno, freeaddrinfo, close, remove, fail, or_leave,
  lookup_or, in_progress, require, check, check_lookup, connect_or, connect_socket, answered,
  opened, looked_up, closed, Answer, value, fails,
}

abbrev pub Post : {A : Type 0} → (A → Os → Type 0) → (Os → Type 0) → Exit A × Os → Type 0
Post R X (returns a, o) = R a o
Post R X (minus_one, o) = X o

-- From a state with `P`, `m` returns a value with `R`, or leaves with `X`.
pub record Triple {A : Type 0} (P : Os → Type 0) (m : M A) (R : A → Os → Type 0) (X : Os → Type 0)
    : Type 0 where
  pub run : (o : Os) → P o → Post R X (m o)

-- The open descriptors, and how many lists are not freed.
abbrev pub Has : List ℕ → ℕ → Os → Type 0
Has ss n o = (o.sockets ≡ ss) × (o.infos ≡ n)

abbrev pub Never : Os → Type 0
Never o = ⊥

-- A cleanup, which always returns.
abbrev pub Cleans : (Os → Type 0) → M (Unit {0}) → (Os → Type 0) → Type 0
Cleans P c Q = Triple P c (λ _. Q) Never

bind-Post :
    {A B : Type 0} (R : A → Os → Type 0) (S : B → Os → Type 0) (X : Os → Type 0) (k : A → M B)
    (r : Exit A × Os)
    → ((a : A) → Triple (R a) (k a) S X)
    → Post R X r
    → Post S X (and_then r k)
bind-Post R S X k (returns a, o) t h = (t a).run o h
bind-Post R S X k (minus_one, o) t h = h

pub bind :
    {A B : Type 0} {P : Os → Type 0} {R : A → Os → Type 0} {S : B → Os → Type 0} {X : Os → Type 0}
    {m : M A} {k : A → M B}
    → Triple P m R X
    → ((a : A) → Triple (R a) (k a) S X)
    → Triple P (m >>= k) S X
bind {R} {S} {X} {m} {k} t u = record { run = λ o h. bind-Post R S X k (m o) u (t.run o h) }

pub return_T :
    {A : Type 0} {X : Os → Type 0} (R : A → Os → Type 0) (a : A) → Triple (R a) (pure a) R X
return_T R a = record { run = λ o h. h }

module _ {P : Os → Type 0} where
  pub pure_T : {A : Type 0} {X : Os → Type 0} (a : A) → Triple P (pure a) (λ _. P) X
  pure_T a = record { run = λ o h. h }

  pub when_T :
      {X : Os → Type 0} {m : M (Unit {0})} (b : Bool)
      → Triple P m (λ _. P) X
      → Triple P (when b m) (λ _. P) X
  when_T true t = t
  when_T false t = pure_T tt

-- A cleanup may stand where leaving is allowed.
widen-Post :
    (Q X : Os → Type 0) (r : Exit (Unit {0}) × Os) → Post (λ _. Q) Never r → Post (λ _. Q) X r
widen-Post Q X (returns a, o) h = h
widen-Post Q X (minus_one, o) h = absurd h

pub widen : {P Q X : Os → Type 0} {c : M (Unit {0})} → Cleans P c Q → Triple P c (λ _. Q) X
widen {Q} {X} {c} t = record { run = λ o h. widen-Post Q X (c o) (t.run o h) }

pub free_T : {ss : List ℕ} {n : ℕ} → Cleans (Has ss (suc n)) freeaddrinfo (Has ss n)
unfolding freeaddrinfo
free_T = record { run = λ o h. (h.0, ground arith) }

remove_head : (s : ℕ) (ss xs : List ℕ) → xs ≡ s ∷ ss → remove s xs ≡ ss
unfolding remove
remove_head s ss xs h = rw h (ground arith)

pub close_T : {s : ℕ} {ss : List ℕ} {n : ℕ} → Cleans (Has (s ∷ ss) n) (close s) (Has ss n)
unfolding close
close_T {s} {ss} {n} = record { run = λ o h. go o h (o.script o.calls) }
  where
    go : (o : Os) → Has (s ∷ ss) n o → (a : Answer) → Post (λ _. Has ss n) Never (closed s o a)
    go o h (value k) = (remove_head s ss o.sockets h.0, h.1)
    go o h (fails e) = (remove_head s ss o.sockets h.0, h.1)

-- A cleanup, and then `return -1`.
leave-Post :
    {A : Type 0} (R : A → Os → Type 0) (X : Os → Type 0) (r : Exit (Unit {0}) × Os)
    → Post (λ _. X) Never r
    → Post R X (and_then r (λ _. fail))
leave-Post R X (returns a, o) h = h
leave-Post R X (minus_one, o) h = absurd h

pub leave_T :
    {A : Type 0} {P X : Os → Type 0} {R : A → Os → Type 0} {c : M (Unit {0})}
    → Cleans P c X
    → Triple P (c >> fail) R X
leave_T {X} {R} {c} t = record { run = λ o h. leave-Post R X (c o) (t.run o h) }

abbrev IsOpened : List ℕ → ℕ → Option ℕ → Os → Type 0
IsOpened ss n none = Has ss n
IsOpened ss n (some s) = Has (s ∷ ss) n

abbrev IsFound : List ℕ → ℕ → Bool → Os → Type 0
IsFound ss n true = Has ss (suc n)
IsFound ss n false = Has ss n

module _ {ss : List ℕ} {n : ℕ} {X : Os → Type 0} where
  call_T : Triple (Has ss n) call (λ _. Has ss n) X
  unfolding call
  call_T = record { run = λ o h. go o h (o.script o.calls) }
    where
      go : (o : Os) → Has ss n o → (a : Answer) → Post (λ _. Has ss n) X (answered o a)
      go o h (value k) = h
      go o h (fails e) = h

  open_call_T : Triple (Has ss n) open_call (IsOpened ss n) X
  unfolding open_call
  open_call_T = record { run = λ o h. go o h (o.script o.calls) }
    where
      go : (o : Os) → Has ss n o → (a : Answer) → Post (IsOpened ss n) X (opened o a)
      go o h (value k) = (ap (◌∷◌ k) h.0, h.1)
      go o h (fails e) = h

  getaddrinfo_T : Triple (Has ss n) getaddrinfo (IsFound ss n) X
  unfolding getaddrinfo
  getaddrinfo_T = record { run = λ o h. go o h (o.script o.calls) }
    where
      go : (o : Os) → Has ss n o → (a : Answer) → Post (IsFound ss n) X (looked_up o a)
      go o h (value k) = (h.0, ap suc h.1)
      go o h (fails e) = h

  module _ {c : M (Unit {0})} (t : Cleans (Has ss n) c X) where
    or_leave_T : (r : Option ℕ) → Triple (Has ss n) (or_leave r c) (λ _. Has ss n) X
    or_leave_T (some k) = pure_T k
    or_leave_T none = leave_T t

    -- setsockopt, bind, listen, or a message, that must succeed.
    pub check_T : Triple (Has ss n) (check call c) (λ _. Has ss n) X
    check_T = bind call_T λ r. bind (or_leave_T r) λ k. pure_T tt

    or_leave_open_T :
        (r : Option ℕ) → Triple (IsOpened ss n r) (or_leave r c) (λ s. Has (s ∷ ss) n) X
    or_leave_open_T (some k) = return_T (λ s. Has (s ∷ ss) n) k
    or_leave_open_T none = leave_T t

    -- `socket` or `accept`, that must succeed.
    pub open_T : Triple (Has ss n) (require open_call c) (λ s. Has (s ∷ ss) n) X
    open_T = bind open_call_T or_leave_open_T

    lookup_or_T : (b : Bool) → Triple (IsFound ss n b) (lookup_or b c) (λ _. Has ss (suc n)) X
    lookup_or_T true = pure_T tt
    lookup_or_T false = leave_T t

    pub check_lookup_T : Triple (Has ss n) (check_lookup c) (λ _. Has ss (suc n)) X
    check_lookup_T = bind getaddrinfo_T lookup_or_T

    refused_T : (b : Bool) → Triple (Has ss n) (if b then skip else c >> fail) (λ _. Has ss n) X
    refused_T true = pure_T tt
    refused_T false = leave_T t

    connect_or_T : (r : Option ℕ) → Triple (Has ss n) (connect_or r c) (λ _. Has ss n) X
    connect_or_T (some k) = pure_T tt
    connect_or_T none = record { run = λ o h. (refused_T (in_progress o.errno)).run o h }

    -- `connect`, that must succeed or be in progress.
    pub connect_T : Triple (Has ss n) (connect_socket c) (λ _. Has ss n) X
    connect_T = bind call_T connect_or_T

module _ {P : Os → Type 0} where
  pub get_errno_T : {X : Os → Type 0} → Triple P get_errno (λ _. P) X
  get_errno_T = record { run = λ o h. h }

module _ {ss : List ℕ} {n : ℕ} where
  pub set_errno_T :
      {X : Os → Type 0} (e : Errno) → Triple (Has ss n) (set_errno e) (λ _. Has ss n) X
  set_errno_T e = record { run = λ o h. h }

  pub set_i_errno_T :
      {X : Os → Type 0} (e : Ierror) → Triple (Has ss n) (set_i_errno e) (λ _. Has ss n) X
  set_i_errno_T e = record { run = λ o h. h }

relax-Post :
    {A : Type 0} (R : A → Os → Type 0) (X Y : Os → Type 0) (r : Exit A × Os)
    → ((o : Os) → X o → Y o)
    → Post R X r
    → Post R Y r
relax-Post R X Y (returns a, o) f h = h
relax-Post R X Y (minus_one, o) f h = f o h

-- A weaker claim of what is left by `return -1`.
pub relax :
    {A : Type 0} {P : Os → Type 0} {R : A → Os → Type 0} {X : Os → Type 0} {m : M A}
    (Y : Os → Type 0)
    → ((o : Os) → X o → Y o)
    → Triple P m R X
    → Triple P m R Y
relax {R} {X} {m} Y f t = record { run = λ o h. relax-Post R X Y (m o) f (t.run o h) }
