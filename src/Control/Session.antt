-- ===== src/Control/Session.antt =====
-- A test over the control connection, where every call succeeds and every write is done.
use mathlib.Core.Option.{some-injective, bind, bind-eq-some_iff}
use wifitesttool.Base.{
  ℕ, zero, suc, ◌+◌, ◌≡◌, refl, sym, ap, subst, ◌∙◌, Bool, true, false, if◌then◌else◌, Option, some,
  List, [], ◌∷◌, ◌++◌, arith, ◌==◌,
}
use wifitesttool.Base.Int.{pos, pos_part}
use wifitesttool.Control.{
  State, initial, create_streams, Message, stream_connection, Action, Process, Peer, End, Failure,
  Next, check,
}
use wifitesttool.Control.Client.{create_streams_loop}
use wifitesttool.Control.Schedules.{Outcomes, Session, Run, stop, then_, step}
use wifitesttool.Control.Server.{
  server_loop, on_message, accept_stream_of, if_all_streams, all_streams, is_count,
}
use wifitesttool.Error.{Ierror}
use wifitesttool.Test.{Test}

abbrev pub all_well : Outcomes
all_well = record { calls = λ a. true; writes = λ m. true }

abbrev pub session : Process End → Process End → List Message → List Message → Session
session c v to_c to_v = record { client = c; server = v; to_client = to_c; to_server = to_v }

-- A run in a number of steps.
abbrev pub Leads : Session → Session → Type 0
Leads s s' = (n : ℕ) × Run all_well all_well n s s'

pub Leads-trans : (s t u : Session) → Leads s t → Leads t u → Leads s u
Leads-trans s t u (n, stop) k = k
Leads-trans s t u (n, then_ {n = m} {s' = s'} who e r) k =
    let (l, q) = Leads-trans s' t u (m, r) k in (suc l, then_ who e q)

-- A run in a given order.
module _ (oc os : Outcomes) where
  unfoldable pub in_order : List Bool → Session → Option Session
  unfolding step bind
  in_order [] s = some s
  in_order (who ∷ order) s = bind (step oc os who s) (in_order order)

  pub in_order-Run :
      (order : List Bool) (s s' : Session) → in_order order s ≡ some s' → (n : ℕ) × Run oc os n s s'
  unfolding in_order
  in_order-Run [] s s' h = subst (λ x. (n : ℕ) × Run oc os n s x) (some-injective s s' h) (0, stop)
  in_order-Run (who ∷ order) s s' h =
      let (t, e, k) = (bind-eq-some_iff (step oc os who s) (in_order order)).0 h in
      let (n, r) = in_order-Run order t s' k in (suc n, then_ who e r)

unfoldable pub steps : List Bool → Session → Option Session
unfolding in_order
steps = in_order all_well all_well

pub steps-Leads : (order : List Bool) (s s' : Session) → steps order s ≡ some s' → Leads s s'
unfolding steps
steps-Leads = in_order-Run all_well all_well

-- A call that a process makes in one of two branches, which else are the same.
module _ (b : Bool) (fail : Failure) (a : Action) (e : Ierror) (p : Peer) (k : Next)
    (other : Process End) (tc ts : List Message) where
  pub either_client :
      Leads
        (session (if b then k p else check fail a e p k) other tc ts)
        (session (k p) other tc ts)
  unfolding steps
  either_client =
      elim b
        as (λ x.
          Leads (session (if x then k p else check fail a e p k) other tc ts)
            (session (k p) other tc ts)) [
              | true ↦ (0, stop)
              | false ↦
                  steps-Leads (true ∷ []) (session (check fail a e p k) other tc ts)
                    (session (k p) other tc ts) refl
            ]

  pub either_server :
      Leads
        (session other (if b then k p else check fail a e p k) tc ts)
        (session other (k p) tc ts)
  unfolding steps
  either_server =
      elim b
        as (λ x.
          Leads (session other (if x then k p else check fail a e p k) tc ts)
            (session other (k p) tc ts)) [
              | true ↦ (0, stop)
              | false ↦
                  steps-Leads (false ∷ []) (session other (check fail a e p k) tc ts)
                    (session other (k p) tc ts) refl
            ]

  pub other_server :
      Leads
        (session other (if b then check fail a e p k else k p) tc ts)
        (session other (k p) tc ts)
  unfolding steps
  other_server =
      elim b
        as (λ x.
          Leads (session other (if x then check fail a e p k else k p) tc ts)
            (session other (k p) tc ts)) [
              | false ↦ (0, stop)
              | true ↦
                  steps-Leads (false ∷ []) (session other (check fail a e p k) tc ts)
                    (session other (k p) tc ts) refl
            ]

abbrev pub peer : Test → State → ℕ → Peer
peer t s n = record { test = t; state = s; connected = true; streams = n }

-- A side before the test, without a control connection.
abbrev pub fresh_peer : Test → Peer
fresh_peer t = record { test = t; state = initial; connected = false; streams = 0 }

abbrev pub connections : ℕ → List Message
connections zero = []
connections (suc n) = stream_connection ∷ connections n

-- The turns of the server's loop for a test with `n` streams: one for each, and one to see that it is done
-- after the connection, the end of the test and the client's last message.
abbrev pub turns_for : ℕ → ℕ → ℕ
turns_for zero j = suc (suc (suc j))
turns_for (suc n) j = suc (turns_for n j)

abbrev pub times : ℕ → Bool → List Bool
times zero who = []
times (suc n) who = who ∷ times n who

abbrev pub feed : ℕ → List Message → List Message
feed zero q = q
feed (suc n) q = feed n (q ++ stream_connection ∷ [])

-- The client opens its streams, whatever the server does.
pub opens :
    (n l : ℕ) (t : Test) (m : ℕ) (k : Next) (v : Process End) (q : List Message)
    → m + n ≡ l
    → Leads
        (session (create_streams_loop n (peer t create_streams m) k) v [] q)
        (session (k (peer t create_streams l)) v [] (feed n q))
unfolding create_streams_loop steps
opens zero l t m k v q e =
    subst
      (λ x.
        Leads (session (k (peer t create_streams m)) v [] q)
          (session (k (peer t create_streams x)) v [] q))
      (omega (arith, e)) (0, stop)
opens (suc n) l t m k v q e =
    Leads-trans _ _ _
      (steps-Leads (times 3 true)
        (session (create_streams_loop (suc n) (peer t create_streams m) k) v [] q)
        (session (create_streams_loop n (peer t create_streams (suc m)) k) v []
          (q ++ stream_connection ∷ []))
        refl)
      (opens n l t (suc m) k v (q ++ stream_connection ∷ []) (omega (arith, e)))

-- What the client has put there are the connections.
snoc-connections : (n : ℕ) → connections n ++ stream_connection ∷ [] ≡ connections (suc n)
snoc-connections zero = refl
snoc-connections (suc n) = ap (λ q. stream_connection ∷ q) (snoc-connections n)

pub feed-connections : (n m l : ℕ) → m + n ≡ l → feed n (connections m) ≡ connections l
feed-connections zero m l e = ap connections (omega (arith, e))
feed-connections (suc n) m l e =
    ap (feed n) (snoc-connections m) ∙ feed-connections n (suc m) l (omega (arith, e))

pub missing :
    (r : Test) (m : ℕ) (k : Next)
    → is_count m r.num_streams ≡ false
    → if_all_streams (peer r create_streams m) k ≡ k (peer r create_streams m)
missing r m k e =
    ap (λ b. if b then all_streams (peer r create_streams m) k else k (peer r create_streams m)) e

complete :
    (r : Test) (m : ℕ) (k : Next)
    → r.num_streams ≡ pos (pos_part r.num_streams)
    → m ≡ pos_part r.num_streams
    → if_all_streams (peer r create_streams m) k
      ≡ all_streams (peer r create_streams (pos_part r.num_streams)) k
complete r m k c e =
    let f : (m == pos_part r.num_streams) ≡ true = grind arith in
    let h : is_count m r.num_streams ≡ true = ap (is_count m) c ∙ f in
    ap (λ b. if b then all_streams (peer r create_streams m) k else k (peer r create_streams m)) h
    ∙ ap (λ x. all_streams (peer r create_streams x) k) e

module _ (receive : Test → Test → Test) (listen_error : Ierror) (listen_errno : ℕ) where
  -- The server takes them in turn, until they are as many as the test wants.
  pub accepts :
      (n m j : ℕ) (r : Test) (c : Process End) (tc : List Message)
      → r.num_streams ≡ pos (pos_part r.num_streams)
      → m + n ≡ pos_part r.num_streams
      → Leads
          (session c
            (if_all_streams
              (peer r create_streams m)
              (server_loop receive listen_error listen_errno (turns_for n j)))
            tc
            (connections n))
          (session c
            (all_streams
              (peer r create_streams (pos_part r.num_streams))
              (server_loop receive listen_error listen_errno (turns_for 0 j)))
            tc
            [])
  unfolding server_loop on_message accept_stream_of steps
  accepts zero m j r c tc a e =
      subst
        (λ v. Leads (session c v tc []) (
          session c
            (all_streams (peer r create_streams (pos_part r.num_streams))
              (server_loop receive listen_error listen_errno (turns_for 0 j)))
            tc []))
        (sym (complete r m _ a (omega (arith, e)))) (0, stop)
  accepts (suc n) m j r c tc a e =
      let f : (m == pos_part r.num_streams) ≡ false = grind arith in
      subst
        (λ v. Leads (session c v tc (connections (suc n))) (
          session c
            (all_streams (peer r create_streams (pos_part r.num_streams))
              (server_loop receive listen_error listen_errno (turns_for 0 j)))
            tc []))
        (sym (missing r m _ (ap (is_count m) a ∙ f)))
        (Leads-trans _ _ _
          (steps-Leads (times 4 false)
            (session c
              (server_loop receive listen_error listen_errno (turns_for (suc n) j)
                (peer r create_streams m))
              tc (connections (suc n)))
            (session c
              (if_all_streams (peer r create_streams (suc m))
                (server_loop receive listen_error listen_errno (turns_for n j)))
              tc (connections n))
            refl)
          (accepts n (suc m) j r c tc a (omega (arith, e))))
