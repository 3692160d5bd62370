-- ===== src/Control/Schedules.antt =====
-- Both sides of a control connection, with what is under way between them, and the orders in which they
-- can take their turns: a side never takes back what the other could do, so all orders come to the same end.
use mathlib.Core.Option.{map as option_map, map-eq-some_iff, some-injective, none-ne-some}
use wifitesttool.Base.{
  ℕ, suc, ◌+◌, ◌≡◌, refl, sym, ap, subst, ◌∙◌, if◌then◌else◌, Bool, true, false, Option, none, some,
  List, [], ◌∷◌, ◌++◌, arith, inl, inr, ◌⊎◌,
}
use wifitesttool.Control.{Action, Message, Process, ret, act, put, get, End}

-- What the calls and the writes of a side give.
pub record Outcomes : Type 0 where
  pub calls : Action → Bool
  pub writes : Message → Bool

pub record Turn : Type 0 where
  pub process : Process End
  pub inbox : List Message
  pub sent : Option Message

-- A message that is sent stands last.
abbrev pub deliver : Option Message → List Message → List Message
deliver none to = to
deliver (some m) to = to ++ m ∷ []

-- One step of a side; `none` where it has ended, or waits for a message and there is none.
abbrev pub turn : Outcomes → Process End → List Message → Option Turn
turn o (ret e) inbox = none
turn o (act a k) inbox = some (record { process = k (o.calls a); inbox = inbox; sent = none })
turn o (put m k) inbox =
    some (record {
      process = k (o.writes m);
      inbox = inbox;
      sent = if o.writes m then some m else none;
    })
turn o (get k) [] = none
turn o (get k) (m ∷ inbox) = some (record { process = k m; inbox = inbox; sent = none })

-- What is left of both sides to run, and the messages under way.
pub record Session : Type 0 where
  pub client : Process End
  pub server : Process End
  pub to_client : List Message
  pub to_server : List Message

abbrev pub client_after : Session → Turn → Session
client_after s t = record s {
  client = t.process;
  to_client = t.inbox;
  to_server = deliver t.sent s.to_server;
}

abbrev pub server_after : Session → Turn → Session
server_after s t = record s {
  server = t.process;
  to_server = t.inbox;
  to_client = deliver t.sent s.to_client;
}

abbrev with_more : Option Message → Turn → Turn
with_more more t = record t { inbox = deliver more t.inbox }

module _ (oc os : Outcomes) where
  -- A step of the client where the Boolean is `true`, and of the server where it is `false`.
  unfoldable pub step : Bool → Session → Option Session
  step true s = option_map (client_after s) (turn oc s.client s.to_client)
  step false s = option_map (server_after s) (turn os s.server s.to_server)

  -- `n` steps, in any order.
  pub data Run : ℕ → Session → Session → Type 0 where
    stop : {s : Session} → Run 0 s s
    then_ :
        {n : ℕ} {s s' s'' : Session} (who : Bool)
        → step who s ≡ some s'
        → Run n s' s''
        → Run (suc n) s s''

-- More messages behind those that are there do not change a step.
turn-more :
    (o : Outcomes) (p : Process End) (inbox : List Message) (more : Option Message) (t : Turn)
    → turn o p inbox ≡ some t
    → turn o p (deliver more inbox) ≡ some (with_more more t)
turn-more o p inbox none t h = h
turn-more o (ret e) inbox (some x) t h = absurd (none-ne-some t h)
turn-more o (act a k) inbox (some x) t h = ap (option_map (with_more (some x))) h
turn-more o (put m k) inbox (some x) t h = ap (option_map (with_more (some x))) h
turn-more o (get k) [] (some x) t h = absurd (none-ne-some t h)
turn-more o (get k) (m ∷ inbox) (some x) t h = ap (option_map (with_more (some x))) h

module _ (oc os : Outcomes) where
  -- What both sides can do they can do in either order, and come to the same session.
  diamond_here :
      (s : Session) (t u : Turn)
      → turn oc s.client s.to_client ≡ some t
      → turn os s.server s.to_server ≡ some u
      → (d : Session) × (step oc os false (client_after s t) ≡ some d)
        × (step oc os true (server_after s u) ≡ some d)
  unfolding step
  diamond_here s t u h k = (
    server_after (client_after s t) (with_more t.sent u),
    ap (option_map (server_after (client_after s t)))
        (turn-more os s.server s.to_server t.sent u k),
    ap (option_map (client_after (server_after s u)))
        (turn-more oc s.client s.to_client u.sent t h),
  )

  diamond :
      (s a b : Session)
      → step oc os true s ≡ some a
      → step oc os false s ≡ some b
      → (d : Session) × (step oc os false a ≡ some d) × (step oc os true b ≡ some d)
  unfolding step
  diamond s a b h k =
      let (t, ht, at) = (map-eq-some_iff (client_after s) (turn oc s.client s.to_client)).0 h in
      let (u, hu, bu) = (map-eq-some_iff (server_after s) (turn os s.server s.to_server)).0 k in
      let (d, p, q) = diamond_here s t u ht hu in
      (
        d,
        subst (λ x. step oc os false x ≡ some d) at p,
        subst (λ x. step oc os true x ≡ some d) bu q,
      )

  -- The same, whichever side is named first.
  diamond_any :
      (who other : Bool) (s a b : Session)
      → step oc os who s ≡ some a
      → step oc os other s ≡ some b
      → (a ≡ b) ⊎ ((d : Session) × (step oc os other a ≡ some d) × (step oc os who b ≡ some d))
  diamond_any true true s a b h k = inl (some-injective a b (sym h ∙ k))
  diamond_any false false s a b h k = inl (some-injective a b (sym h ∙ k))
  diamond_any true false s a b h k = inr (diamond s a b h k)
  diamond_any false true s a b h k = inr (let (d, p, q) = diamond s b a k h in (d, q, p))

  -- Neither side can take another step.
  abbrev pub IsFinal : Session → Type 0
  IsFinal s = (who : Bool) → step oc os who s ≡ none

  -- A step that a session can take brings it one step nearer to the end of any of its runs.
  one_step :
      {n : ℕ} {s f : Session} (s' : Session) (who : Bool)
      → Run oc os n s f
      → IsFinal f
      → step oc os who s ≡ some s'
      → (m : ℕ) × (n ≡ suc m) × Run oc os m s' f
  one_step s' who stop z h = absurd (none-ne-some s' (sym (z who) ∙ h))
  one_step {n} {s} {f} s' who (then_ {n = k} {s' = t} other e r) z h =
      elim (diamond_any other who s t s' e h) [
        | inl same ↦ (k, refl, subst (λ x. Run oc os k x f) same r)
        | inr (d, p, q) ↦
            let (m, em, rm) = one_step d who r z p in
            (k, refl, subst (λ x. Run oc os x s' f) (sym em) (then_ other q rm))
      ]

  -- So every run goes on to the end of any other, and takes no more steps than that.
  pub all_runs :
      {n k : ℕ} {s s' f : Session}
      → Run oc os n s f
      → IsFinal f
      → Run oc os k s s'
      → (m : ℕ) × (n ≡ k + m) × Run oc os m s' f
  all_runs {n} r z stop = (n, omega arith, r)
  all_runs {n = n} {f = f} r z (then_ {s' = t} who e rest) =
      let (l, el, rl) =
        all_runs {n = (one_step t who r z e).0} {f = f} (one_step t who r z e).2 z rest in
      let em = (one_step t who r z e).1 in (l, omega (arith, em, el), rl)
