-- ===== src/Socket/Listening.antt =====
-- iperf_server_listen of iperf_jni/jni/iperf/src/iperf_server_api.c, and iperf_sctp_listen and iperf_sctp_accept of
-- iperf_sctp.c.
use wifitesttool.Base.{
  ℕ, zero, suc, ◌≡◌, refl, Bool, true, false, not, ◌&&◌, Option, none, some, List, ◌∷◌,
  if◌then◌else◌, arith, ◌⊎◌, inl, inr, ap, ◌∙◌,
}
use wifitesttool.Net.{Errno, eafnosupport}
use wifitesttool.Error.{
  iestreamlisten, iestreamconnect, ierecvcookie, iesendmessage, iereuseaddr, ieprotocol, ielisten,
}
use wifitesttool.Socket.{
  Os, Exit, returns, minus_one, M, pure, ◌>>=◌, ◌>>◌, when, set_i_errno, call, open_call,
  freeaddrinfo, close, check, require, check_lookup, Domain, af_inet, may_be_v6, netannounce,
}
use wifitesttool.Socket.Streams.{Wanted}
use wifitesttool.Socket.Triples.{
  Post, Triple, Has, bind, return_T, when_T, widen, free_T, close_T, check_T, open_T,
  check_lookup_T, relax, set_i_errno_T,
}
use wifitesttool.Socket.Leaks.{IsClean, OneLeft, left_none, netannounce-IsClean}
use wifitesttool.Socket.Opened.{Kept, check_one_T, tell_T}

abbrev pub is_unsupported : Errno → Bool
is_unsupported eafnosupport = true
is_unsupported _ = false

abbrev pub listened :
    Domain → Exit ℕ × Os → Option (Exit ℕ × Domain × Os) → Option (Exit ℕ × Domain × Os)
listened d (returns s, o) rest = some (returns s, d, o)
listened d (minus_one, o) rest =
    if is_unsupported o.errno && may_be_v6 d
    then rest
    else some (minus_one, d, record o { i_errno = ielisten })

-- The result, with the domain that the test has then. Each turn of `goto retry` uses fuel.
unfoldable pub iperf_server_listen : ℕ → Domain → Os → Option (Exit ℕ × Domain × Os)
iperf_server_listen zero d o = none
iperf_server_listen (suc k) d o =
    let r = netannounce d true o in
    let rest = iperf_server_listen k af_inet r.1 in listened d r rest

unfoldable pub sctp_listen : Wanted → M ℕ
sctp_listen t = do
  close t.listener
  check_lookup (set_i_errno iestreamlisten)
  s ← require open_call (freeaddrinfo >> set_i_errno iestreamlisten)
  when (may_be_v6 t.domain) (check call (close s >> freeaddrinfo >> set_i_errno ieprotocol))
  check call (close s >> freeaddrinfo >> set_i_errno iereuseaddr)
  check call (close s >> freeaddrinfo >> set_i_errno iestreamlisten)
  freeaddrinfo
  check call (set_i_errno iestreamlisten)
  pure s

unfoldable pub sctp_accept : Wanted → M ℕ
sctp_accept t = do
  s ← require open_call (set_i_errno iestreamconnect)
  check call (set_i_errno ierecvcookie)
  when (not t.cookie_matches) (do check call (set_i_errno iesendmessage); close s)
  pure s

undo_T :
    {s : ℕ} {ss : List ℕ} {n : ℕ} (e : _)
    → Triple
        (Has (s ∷ ss) (suc n))
        (check call (close s >> freeaddrinfo >> set_i_errno e))
        (λ _. Has (s ∷ ss) (suc n))
        (OneLeft ss n)
undo_T {s} {ss} {n} e =
    relax (OneLeft ss n) (left_none ss n)
      (check_T (bind (bind close_T λ _. free_T) λ _. set_i_errno_T e))

sctp_listen_T :
    (t : Wanted) (ss : List ℕ) (n : ℕ)
    → Triple (Has (t.listener ∷ ss) n) (sctp_listen t) (λ s. Has (s ∷ ss) n) (OneLeft ss n)
unfolding sctp_listen
sctp_listen_T t ss n = bind (widen close_T) λ _.
    bind (relax (OneLeft ss n) (left_none ss n) (check_lookup_T (set_i_errno_T iestreamlisten)))
      λ _.
        bind
          (relax (OneLeft ss n) (left_none ss n)
            (open_T (bind free_T λ _. set_i_errno_T iestreamlisten)))
          λ s. bind (when_T (may_be_v6 t.domain) (undo_T ieprotocol)) λ _.
            bind (undo_T iereuseaddr) λ _. bind (undo_T iestreamlisten) λ _.
              bind (widen free_T)
                λ _. bind (check_one_T iestreamlisten) λ _. return_T (λ s. Has (s ∷ ss) n) s

-- Where the listener is the latest open descriptor, iperf_sctp_listen returns the one listener that is then open in
-- place of it. If it fails, every list of addresses is freed, and the open sockets are those besides the old
-- listener and at most one more, whatever the answers of the system are.
pub sctp_listen-OneLeft :
    (t : Wanted) (ss : List ℕ) (o : Os)
    → o.sockets ≡ t.listener ∷ ss
    → Post (λ s. Has (s ∷ ss) o.infos) (OneLeft ss o.infos) (sctp_listen t o)
sctp_listen-OneLeft t ss o e = (sctp_listen_T t ss o.infos).run o (e, refl)

sctp_accept_T :
    (t : Wanted) (ss : List ℕ) (n : ℕ)
    → Triple (Has ss n) (sctp_accept t) (Kept t.cookie_matches ss n) (OneLeft ss n)
unfolding sctp_accept
sctp_accept_T t ss n =
    bind (relax (OneLeft ss n) (left_none ss n) (open_T (set_i_errno_T iestreamconnect))) λ s.
      bind (check_one_T ierecvcookie)
        λ _. bind (tell_T t.cookie_matches s ss n) λ _. return_T (Kept t.cookie_matches ss n) s

-- Accepting an SCTP stream, whatever the answers of the system are: where it succeeds, the new socket is open
-- exactly if its cookie is that of the test, and a failure leaves at most one new socket open.
pub sctp_accept-Kept :
    (t : Wanted) (o : Os)
    → Post (Kept t.cookie_matches o.sockets o.infos) (OneLeft o.sockets o.infos) (sctp_accept t o)
sctp_accept-Kept t o = (sctp_accept_T t o.sockets o.infos).run o (refl, refl)

-- It has ended in at most so many turns.
abbrev pub HasEnded : Os → Domain → Option (Exit ℕ × Domain × Os) → Type 0
HasEnded o d none = ⊥
HasEnded o d (some (r, d', o')) = IsClean o (r, o') × ((d' ≡ d) ⊎ (d' ≡ af_inet))

second_true : (a b : Bool) → a && b ≡ true → b ≡ true
second_true a b h = ground arith

-- From a state with the same sockets and lists.
IsClean-moved :
    (o o' : Os) (r : Exit ℕ) (o'' : Os)
    → Has o.sockets o.infos o'
    → IsClean o' (r, o'')
    → IsClean o (r, o'')
IsClean-moved o o' (returns s) o'' h c = (c.0 ∙ ap (λ x. s ∷ x) (h.0), c.1 ∙ h.1)
IsClean-moved o o' minus_one o'' h c = (c.0 ∙ h.0, c.1 ∙ h.1)

HasEnded-retried :
    (o o' : Os) (d : Domain) (x : Option (Exit ℕ × Domain × Os))
    → Has o.sockets o.infos o'
    → HasEnded o' af_inet x
    → HasEnded o d x
HasEnded-retried o o' d none h e = e
HasEnded-retried o o' d (some (r, d', o'')) h e =
    (IsClean-moved o o' r o'' h e.0, inr (elim e.1 [ inl f ↦ f | inr f ↦ f ]))

HasEnded-if :
    (o : Os) (d : Domain) (b : Bool) (x y : Option (Exit ℕ × Domain × Os))
    → (b ≡ true → HasEnded o d x)
    → HasEnded o d y
    → HasEnded o d (if b then x else y)
HasEnded-if o d true x y h k = h refl
HasEnded-if o d false x y h k = k

-- An attempt that is followed by another only where that one has ended.
HasEnded-listened :
    (o : Os) (d : Domain) (r : Exit ℕ × Os) (rest : Option (Exit ℕ × Domain × Os))
    → IsClean o r
    → (may_be_v6 d ≡ true → HasEnded r.1 af_inet rest)
    → HasEnded o d (listened d r rest)
HasEnded-listened o d (returns s, o') rest c h = (c, inl refl)
HasEnded-listened o d (minus_one, o') rest c h =
    HasEnded-if o d (is_unsupported o'.errno && may_be_v6 d) rest
      (some (minus_one, d, record o' { i_errno = ielisten }))
      (λ e.
        HasEnded-retried o o' d rest c (h (second_true (is_unsupported o'.errno) (may_be_v6 d) e)))
      (c, inl refl)

-- iperf_server_listen ends in two turns at most, whatever the answers of the system are. If it fails, the
-- sockets and lists of addresses are those before it, and otherwise the socket that it returns is new; the
-- domain of the test is as it was, or AF_INET.
pub iperf_server_listen-HasEnded :
    (k : ℕ) (d : Domain) (o : Os) → HasEnded o d (iperf_server_listen (suc (suc k)) d o)
unfolding iperf_server_listen
iperf_server_listen-HasEnded k d o =
    let o' = (netannounce d true o).1 in
    HasEnded-listened o d (netannounce d true o) (iperf_server_listen (suc k) af_inet o')
      (netannounce-IsClean d true o)
      (λ _.
        HasEnded-listened o' af_inet (netannounce af_inet true o')
          (iperf_server_listen k af_inet (netannounce af_inet true o').1)
          (netannounce-IsClean af_inet true o') (λ e. absurd (grind (arith, e))))
