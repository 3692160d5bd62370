-- ===== src/Socket/Leaks.antt =====
-- What the functions leave open.
use wifitesttool.Base.{
  ℕ, suc, ◌≡◌, refl, List, ◌∷◌, ◌⊎◌, inl, inr, Bool, true, false, if◌then◌else◌,
}
use wifitesttool.Net.{Errno}
use wifitesttool.Error.{
  Ierror, iestreamlisten, iestreamconnect, iesetnodelay, iesetmss, iesetbuf, iesetflow,
  iesetcongestion, iereuseaddr, iev6only, iesendcookie,
}
use wifitesttool.Socket.{
  Os, Exit, minus_one, Domain, netannounce, netdial, M, may_be_v6, ◌>>◌, close, freeaddrinfo, when,
  set_i_errno, check, check_lookup, call, fails, value,
}
use wifitesttool.Socket.Streams.{
  Wanted, is_set, undo, undo_both, undo_socket, connect_options, set_flowlabel, tcp_connect,
  listen_options, listen_anew, has_options, tcp_listen,
}
use wifitesttool.Socket.Triples.{
  Triple, Has, Post, Cleans, bind, return_T, pure_T, when_T, widen, leave_T, free_T, close_T,
  check_T, open_T, check_lookup_T, connect_T, relax, get_errno_T, set_errno_T, set_i_errno_T,
}

-- After a failure the same sockets are open and the same lists are not freed, and a success has
-- opened the result only.
abbrev pub IsClean : Os → Exit ℕ × Os → Type 0
IsClean o = Post (λ s. Has (s ∷ o.sockets) o.infos) (Has o.sockets o.infos)

abbrev CleanTriple : M ℕ → Type 0
CleanTriple m = (ss : List ℕ) (n : ℕ) → Triple (Has ss n) m (λ s. Has (s ∷ ss) n) (Has ss n)

module _ {s : ℕ} {ss : List ℕ} {n : ℕ} where
  close_free_T : Cleans (Has (s ∷ ss) (suc n)) (close s >> freeaddrinfo) (Has ss n)
  close_free_T = bind close_T λ _. free_T

pub netannounce_T :
    (domain : Domain) (is_stream : Bool) → CleanTriple (netannounce domain is_stream)
unfolding netannounce
netannounce_T domain is_stream ss n = bind (check_lookup_T (pure_T tt)) λ _.
    bind (open_T free_T) λ s. bind (check_T close_free_T) λ _.
      bind (when_T (may_be_v6 domain) (check_T close_free_T)) λ _. bind (check_T close_free_T) λ _.
        bind (widen free_T)
          λ _. bind (when_T is_stream (check_T close_T)) λ _. return_T (λ s. Has (s ∷ ss) n) s

-- An option that cannot be set leaves what was there before the socket and the list of addresses.
abbrev KeepsSocket : ℕ → List ℕ → ℕ → M (Unit {0}) → Type 0
KeepsSocket s ss n m = Triple (Has (s ∷ ss) (suc n)) m (λ _. Has (s ∷ ss) (suc n)) (Has ss n)

if_T :
    {A : Type 0} {P X : Os → Type 0} {R : A → Os → Type 0} {m k : M A} (b : Bool)
    → Triple P m R X
    → Triple P k R X
    → Triple P (if b then m else k) R X
if_T true t u = t
if_T false t u = u

module _ {s : ℕ} {ss : List ℕ} {n : ℕ} where
  undo_T : (e : Ierror) → Cleans (Has (s ∷ ss) (suc n)) (undo s e) (Has ss n)
  unfolding undo
  undo_T e =
      bind get_errno_T
        λ saved. bind close_T λ _. bind free_T λ _. bind (set_errno_T saved) λ _. set_i_errno_T e

  undo_both_T : (e : Ierror) → Cleans (Has (s ∷ ss) (suc (suc n))) (undo_both s e) (Has ss n)
  unfolding undo_both
  undo_both_T e = bind get_errno_T λ saved.
      bind close_T
        λ _. bind free_T λ _. bind free_T λ _. bind (set_errno_T saved) λ _. set_i_errno_T e

  undo_socket_T : (e : Ierror) → Cleans (Has (s ∷ ss) n) (undo_socket s e) (Has ss n)
  unfolding undo_socket
  undo_socket_T e =
      bind get_errno_T λ saved. bind close_T λ _. bind (set_errno_T saved) λ _. set_i_errno_T e

  close_free_set_T :
      (e : Ierror)
      → Cleans (Has (s ∷ ss) (suc n)) (close s >> freeaddrinfo >> set_i_errno e) (Has ss n)
  close_free_set_T e = bind close_free_T λ _. set_i_errno_T e

  connect_options_T : (t : Wanted) → KeepsSocket s ss n (connect_options t s)
  unfolding connect_options
  connect_options_T t = bind (when_T t.no_delay (check_T (undo_T iesetnodelay))) λ _.
      bind (when_T (is_set t.mss) (check_T (undo_T iesetmss))) λ _.
        when_T (is_set t.socket_bufsize)
          (bind (check_T (undo_T iesetbuf)) λ _. check_T (undo_T iesetbuf))

  set_flowlabel_T : (t : Wanted) → KeepsSocket s ss n (set_flowlabel t s)
  unfolding set_flowlabel
  set_flowlabel_T t =
      if_T t.server_is_v6 (bind (check_T (undo_T iesetflow)) λ _. check_T (undo_T iesetflow))
        (leave_T (undo_T iesetflow))

  listen_options_T : (t : Wanted) → KeepsSocket s ss n (listen_options t s)
  unfolding listen_options
  listen_options_T t = bind (connect_options_T t) λ _.
      bind (when_T t.congestion (check_T (close_free_set_T iesetcongestion))) λ _.
        bind (check_T (undo_T iereuseaddr))
          λ _. when_T (may_be_v6 t.domain) (check_T (undo_T iev6only))

-- One list of addresses more, where there is a local address.
abbrev plus : Bool → ℕ → ℕ
plus true n = suc n
plus false n = n

module _ {ss : List ℕ} {n : ℕ} where
  lookup_local_T :
      {X : Os → Type 0} {c : M (Unit {0})} (b : Bool)
      → Cleans (Has ss n) c X
      → Triple (Has ss n) (when b (check_lookup c)) (λ _. Has ss (plus b n)) X
  lookup_local_T true t = check_lookup_T t
  lookup_local_T false t = pure_T tt

  free_local_T : (b : Bool) → Cleans (Has ss (plus b n)) (when b freeaddrinfo) (Has ss n)
  free_local_T true = free_T
  free_local_T false = pure_T tt

  free_both_T :
      (b : Bool) → Cleans (Has ss (suc (plus b n))) (when b freeaddrinfo >> freeaddrinfo) (Has ss n)
  free_both_T true = bind free_T λ _. free_T
  free_both_T false = bind (pure_T tt) λ _. free_T

  bind_local_T :
      {s : ℕ} {X : Os → Type 0} {c : M (Unit {0})} (b : Bool)
      → Cleans (Has (s ∷ ss) (suc (suc n))) c X
      → Triple
          (Has (s ∷ ss) (suc (plus b n)))
          (when b (check call c >> freeaddrinfo))
          (λ _. Has (s ∷ ss) (suc n))
          X
  bind_local_T true t = bind (check_T t) λ _. widen free_T
  bind_local_T false t = pure_T tt

tcp_connect_T : (t : Wanted) → CleanTriple (tcp_connect t)
unfolding tcp_connect
tcp_connect_T t ss n =
    let b = t.bind_address in
    bind (lookup_local_T b (set_i_errno_T iestreamconnect)) λ _.
      bind (check_lookup_T (bind (free_local_T b) λ _. set_i_errno_T iestreamconnect)) λ _.
        bind (open_T (bind (free_both_T b) λ _. set_i_errno_T iestreamconnect)) λ s.
          bind (bind_local_T b (undo_both_T iestreamconnect)) λ _. bind (connect_options_T t) λ _.
            bind (when_T (is_set t.flowlabel) (set_flowlabel_T t)) λ _.
              bind (when_T t.congestion (check_T (close_free_set_T iesetcongestion))) λ _.
                bind (connect_T (undo_T iestreamconnect)) λ _. bind (widen free_T) λ _.
                  bind (check_T (undo_socket_T iesendcookie)) λ _. return_T (λ s. Has (s ∷ ss) n) s

-- What may be left open by a failure: nothing, or one socket.
abbrev pub OneLeft : List ℕ → ℕ → Os → Type 0
OneLeft ss n o = (o.infos ≡ n) × ((o.sockets ≡ ss) ⊎ ((s : ℕ) × (o.sockets ≡ s ∷ ss)))

pub left_none : (ss : List ℕ) (n : ℕ) (o : Os) → Has ss n o → OneLeft ss n o
left_none ss n o h = (h.1, inl h.0)

pub left_one : (s : ℕ) (ss : List ℕ) (n : ℕ) (o : Os) → Has (s ∷ ss) n o → OneLeft ss n o
left_one s ss n o h = (h.1, inr (s, h.0))

listen_anew_T :
    (t : Wanted) (ss : List ℕ) (n : ℕ)
    → Triple (Has (t.listener ∷ ss) n) (listen_anew t) (λ s. Has (s ∷ ss) n) (OneLeft ss n)
unfolding listen_anew
listen_anew_T t ss n =
    let none_left =
      λ (A : Type 0) (P : Os → Type 0) (R : A → Os → Type 0) (m : M A)
          (u : Triple P m R (Has ss n)).
        relax (OneLeft ss n) (left_none ss n) u in
    bind (widen close_T) λ _.
      bind (none_left _ _ _ _ (check_lookup_T (set_i_errno_T iestreamlisten))) λ _.
        bind (none_left _ _ _ _ (open_T (bind free_T λ _. set_i_errno_T iestreamlisten))) λ s.
          bind (none_left _ _ _ _ (listen_options_T t)) λ _.
            bind (none_left _ _ _ _ (check_T (undo_T iestreamlisten))) λ _. bind (widen free_T) λ _.
              bind (relax (OneLeft ss n) (left_one s ss n) (check_T (set_i_errno_T iestreamlisten)))
                λ _. return_T (λ s. Has (s ∷ ss) n) s

tcp_listen_T :
    (t : Wanted) (ss : List ℕ) (n : ℕ)
    → Triple (Has (t.listener ∷ ss) n) (tcp_listen t) (λ s. Has (s ∷ ss) n) (OneLeft ss n)
unfolding tcp_listen
tcp_listen_T t ss n =
    if_T (has_options t) (listen_anew_T t ss n) (return_T (λ s. Has (s ∷ ss) n) t.listener)

pub netdial_T : CleanTriple (netdial false)
unfolding netdial
netdial_T ss n = bind (pure_T tt) λ _. bind (check_lookup_T (pure_T tt)) λ _.
    bind (open_T (bind (pure_T tt) λ _. free_T)) λ s. bind (pure_T tt) λ _.
      bind (connect_T close_free_T) λ _. bind (widen free_T) λ _. return_T (λ s. Has (s ∷ ss) n) s

-- `netannounce` leaks nothing, whatever the answers of the system are: if it fails, the sockets and
-- lists of addresses are those before it, and otherwise the socket that it returns is new.
pub netannounce-IsClean :
    (domain : Domain) (is_stream : Bool) (o : Os) → IsClean o (netannounce domain is_stream o)
netannounce-IsClean domain is_stream o =
    (netannounce_T domain is_stream o.sockets o.infos).run o (refl, refl)

-- `iperf_tcp_connect` leaks nothing, whatever the answers of the system and the wanted options are: if
-- it fails, the sockets and lists of addresses are those before it, and otherwise the socket that it
-- returns is new.
pub tcp_connect-IsClean : (t : Wanted) (o : Os) → IsClean o (tcp_connect t o)
tcp_connect-IsClean t o = (tcp_connect_T t o.sockets o.infos).run o (refl, refl)

-- Where the listener is the latest open descriptor, `iperf_tcp_listen` returns the one listener that is
-- then open in place of it. If it fails, every list of addresses is freed, and the open sockets are those besides the old
-- listener and at most one more.
pub tcp_listen-OneLeft :
    (t : Wanted) (ss : List ℕ) (o : Os)
    → o.sockets ≡ t.listener ∷ ss
    → Post (λ s. Has (s ∷ ss) o.infos) (OneLeft ss o.infos) (tcp_listen t o)
tcp_listen-OneLeft t ss o e = (tcp_listen_T t ss o.infos).run o (e, refl)

-- `netdial` without a local address leaks nothing, whatever the answers of the system are.
pub netdial-IsClean : (o : Os) → IsClean o (netdial false o)
netdial-IsClean o = (netdial_T o.sockets o.infos).run o (refl, refl)

-- With a local address that is found and a server that is not, `netdial` fails and leaves the list of
-- the local addresses unfreed.
pub netdial_leak :
    (o : Os) (v : ℕ) (e : Errno)
    → o.script o.calls ≡ value v
    → o.script (suc o.calls) ≡ fails e
    → ((netdial true o).0 ≡ minus_one)
      × ((netdial true o).1.sockets ≡ o.sockets)
      × ((netdial true o).1.infos ≡ suc o.infos)
unfolding netdial
netdial_leak o v e h k = rw (h, k) (refl, refl, refl)
