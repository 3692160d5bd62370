-- ===== src/Socket/Opened.antt =====
-- What the functions of iperf_udp.c and iperf_tcp.c leave open that accept a stream, or that dial or
-- listen by a function of net.c.
use wifitesttool.Base.{ℕ, List, ◌∷◌, ◌≡◌, refl, Bool, true, false, not}
use wifitesttool.Error.{
  Ierror, iestreamlisten, iestreamconnect, iestreamaccept, iestreamwrite, iestreamread,
  ierecvcookie, iesendmessage,
}
use wifitesttool.Socket.{
  Os, Exit, returns, minus_one, M, netdial, set_i_errno, fail, close, when, call, check, ◌>>◌,
}
use wifitesttool.Socket.Streams.{
  Wanted, or_fail, failed, tcp_accept, udp_listen, udp_accept, udp_connect,
}
use wifitesttool.Socket.Triples.{
  Post, Triple, Has, Cleans, bind, return_T, pure_T, widen, leave_T, close_T, check_T, open_T,
  relax, set_i_errno_T,
}
use wifitesttool.Socket.Leaks.{IsClean, OneLeft, left_none, left_one, netannounce_T, netdial_T}

failed_T :
    {A : Type 0} {R : A → Os → Type 0} {X : Os → Type 0} (c : M (Unit {0})) (r : Exit A × Os)
    → Triple X (c >> fail {A = A}) R X
    → Post R X r
    → Post R X (failed r c)
failed_T c (returns a, o) t h = h
failed_T c (minus_one, o) t h = t.run o h

or_fail_T :
    {A : Type 0} {P : Os → Type 0} {R : A → Os → Type 0} {X : Os → Type 0} {m : M A}
    {c : M (Unit {0})}
    → Triple P m R X
    → Cleans X c X
    → Triple P (or_fail m c) R X
or_fail_T {m} {c} t u = record { run = λ o h. failed_T c (m o) (leave_T u) (t.run o h) }

-- Listening for UDP streams leaks nothing, whatever the answers of the system are.
pub udp_listen-IsClean : (t : Wanted) (o : Os) → IsClean o (udp_listen t o)
unfolding udp_listen
udp_listen-IsClean t o =
    (or_fail_T (netannounce_T t.domain false o.sockets o.infos) (set_i_errno_T iestreamlisten)).run
      o (refl, refl)

module _ {s : ℕ} {ss : List ℕ} {n : ℕ} where
  -- A check that leaves the socket open.
  pub check_one_T :
      (e : Ierror)
      → Triple (Has (s ∷ ss) n) (check call (set_i_errno e)) (λ _. Has (s ∷ ss) n) (OneLeft ss n)
  check_one_T e = relax (OneLeft ss n) (left_one s ss n) (check_T (set_i_errno_T e))

udp_accept_T :
    (t : Wanted) (ss : List ℕ) (n : ℕ)
    → Triple (Has ss n) (udp_accept t) (λ l. Has (l ∷ ss) n) (OneLeft ss n)
unfolding udp_accept
udp_accept_T t ss n =
    bind (relax (OneLeft ss n) (left_none ss n) (check_T (set_i_errno_T iestreamaccept))) λ _.
      bind (relax (OneLeft ss n) (left_none ss n) (check_T (set_i_errno_T iestreamaccept))) λ _.
        bind
          (relax (OneLeft ss n) (left_none ss n)
            (or_fail_T (netannounce_T t.domain false ss n) (set_i_errno_T iestreamlisten)))
          λ l. bind (check_one_T iestreamwrite) λ _. return_T (λ l. Has (l ∷ ss) n) l

udp_dialled_T :
    (ss : List ℕ) (n : ℕ)
    → Triple
        (Has ss n)
        (or_fail (netdial false) (set_i_errno iestreamconnect))
        (λ s. Has (s ∷ ss) n)
        (OneLeft ss n)
udp_dialled_T ss n =
    relax (OneLeft ss n) (left_none ss n)
      (or_fail_T (netdial_T ss n) (set_i_errno_T iestreamconnect))

udp_connect_T :
    (t : Wanted) (ss : List ℕ) (n : ℕ)
    → t.bind_address ≡ false
    → Triple (Has ss n) (udp_connect t) (λ s. Has (s ∷ ss) n) (OneLeft ss n)
unfolding udp_connect
udp_connect_T t ss n e =
    rw (e, udp_connect)
      (bind (udp_dialled_T ss n) λ s.
        bind (check_one_T iestreamwrite)
          λ _. bind (check_one_T iestreamread) λ _. return_T (λ s. Has (s ∷ ss) n) s)

-- The accepted socket stays open exactly if its cookie is the one of the test.
abbrev pub Kept : Bool → List ℕ → ℕ → ℕ → Os → Type 0
Kept true ss n s = Has (s ∷ ss) n
Kept false ss n s = Has ss n

pub tell_T :
    (b : Bool) (s : ℕ) (ss : List ℕ) (n : ℕ)
    → Triple
        (Has (s ∷ ss) n)
        (when (not b) (do check call (set_i_errno iesendmessage); close s))
        (λ _. Kept b ss n s)
        (OneLeft ss n)
tell_T true s ss n = pure_T tt
tell_T false s ss n = bind (check_one_T iesendmessage) λ _. widen close_T

tcp_accept_T :
    (t : Wanted) (ss : List ℕ) (n : ℕ)
    → Triple (Has ss n) (tcp_accept t) (Kept t.cookie_matches ss n) (OneLeft ss n)
unfolding tcp_accept
tcp_accept_T t ss n =
    bind (relax (OneLeft ss n) (left_none ss n) (open_T (set_i_errno_T iestreamconnect))) λ s.
      bind (check_one_T ierecvcookie)
        λ _. bind (tell_T t.cookie_matches s ss n) λ _. return_T (Kept t.cookie_matches ss n) s

-- Accepting a UDP stream, whatever the answers of the system are: where it succeeds, one new listener is
-- open and is the next one, and a failure leaves at most one new socket open; no list of addresses is
-- left unfreed.
pub udp_accept-OneLeft :
    (t : Wanted) (o : Os)
    → Post (λ l. Has (l ∷ o.sockets) o.infos) (OneLeft o.sockets o.infos) (udp_accept t o)
udp_accept-OneLeft t o = (udp_accept_T t o.sockets o.infos).run o (refl, refl)

-- Connecting a UDP stream without a local address, whatever the answers of the system are: where it
-- succeeds, the socket that it returns is new, and a failure leaves at most one new socket open; no list
-- of addresses is left unfreed.
pub udp_connect-OneLeft :
    (t : Wanted) (o : Os)
    → t.bind_address ≡ false
    → Post (λ s. Has (s ∷ o.sockets) o.infos) (OneLeft o.sockets o.infos) (udp_connect t o)
udp_connect-OneLeft t o e = (udp_connect_T t o.sockets o.infos e).run o (refl, refl)

-- Accepting a TCP stream, whatever the answers of the system are: where it returns a socket, that is open
-- exactly if the cookie is the one of the test, and closed again if not; a failure leaves at most one new
-- socket open.
pub tcp_accept-Kept :
    (t : Wanted) (o : Os)
    → Post (Kept t.cookie_matches o.sockets o.infos) (OneLeft o.sockets o.infos) (tcp_accept t o)
tcp_accept-Kept t o = (tcp_accept_T t o.sockets o.infos).run o (refl, refl)
