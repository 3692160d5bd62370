-- ===== src/Socket/Streams.antt =====
-- How iperf_tcp.c, iperf_udp.c and iperf_sctp.c open the sockets of the streams.
use wifitesttool.Base.{ℕ, Bool, false, not, ◌||◌, ◌==◌, if◌then◌else◌}
use wifitesttool.Error.{
  Ierror, iestreamlisten, iestreamconnect, iestreamaccept, iestreamwrite, iestreamread,
  iesetnodelay, iesetmss, iesetbuf, iesetflow, iesetcongestion, iereuseaddr, iev6only, iesendcookie,
  ierecvcookie, iesendmessage, iesetsctpdisablefrag,
}
use wifitesttool.Socket.{
  Os, Exit, returns, minus_one, M, pure, ◌>>=◌, ◌>>◌, when, fail, set_errno, get_errno, set_i_errno,
  call, open_call, freeaddrinfo, close, check, require, check_lookup, connect_socket, Domain,
  may_be_v6, netdial, netannounce,
}

-- What the functions read of `struct iperf_test` and its settings. `server_is_v6` is the family of
-- the address that was found, and `cookie_matches` what `strcmp` says of the cookie received.
pub record Wanted : Type 0 where
  pub bind_address : Bool
  pub no_delay : Bool
  pub mss : ℕ
  pub socket_bufsize : ℕ
  pub flowlabel : ℕ
  pub congestion : Bool
  pub domain : Domain
  pub listener : ℕ
  pub prot_listener : ℕ
  pub server_is_v6 : Bool
  pub cookie_matches : Bool

abbrev pub is_set : ℕ → Bool
is_set n = not (n == 0)

-- `saved_errno = errno; close(s); freeaddrinfo(…); errno = saved_errno; i_errno = e;`
unfoldable pub undo : ℕ → Ierror → M (Unit {0})
undo s e = do saved ← get_errno; close s; freeaddrinfo; set_errno saved; set_i_errno e

-- The same with both lists of addresses.
unfoldable pub undo_both : ℕ → Ierror → M (Unit {0})
undo_both s e = do
  saved ← get_errno
  close s
  freeaddrinfo
  freeaddrinfo
  set_errno saved
  set_i_errno e

unfoldable pub undo_socket : ℕ → Ierror → M (Unit {0})
undo_socket s e = do saved ← get_errno; close s; set_errno saved; set_i_errno e

-- The options of the new socket, up to the flow label.
unfoldable pub connect_options : Wanted → ℕ → M (Unit {0})
connect_options t s = do
  when t.no_delay (check call (undo s iesetnodelay))
  when (is_set t.mss) (check call (undo s iesetmss))
  when (is_set t.socket_bufsize) (do check call (undo s iesetbuf); check call (undo s iesetbuf))

-- The flow label, which an IPv6 address must take.
unfoldable pub set_flowlabel : Wanted → ℕ → M (Unit {0})
set_flowlabel t s =
    if t.server_is_v6
    then (do check call (undo s iesetflow); check call (undo s iesetflow))
    else undo s iesetflow >> fail

unfoldable pub tcp_connect : Wanted → M ℕ
tcp_connect t = do
  when t.bind_address (check_lookup (set_i_errno iestreamconnect))
  check_lookup (when t.bind_address freeaddrinfo >> set_i_errno iestreamconnect)
  s ←
      require open_call
        (when t.bind_address freeaddrinfo >> freeaddrinfo >> set_i_errno iestreamconnect)
  when t.bind_address (do check call (undo_both s iestreamconnect); freeaddrinfo)
  connect_options t s
  when (is_set t.flowlabel) (set_flowlabel t s)
  when t.congestion (check call (close s >> freeaddrinfo >> set_i_errno iesetcongestion))
  connect_socket (undo s iestreamconnect)
  freeaddrinfo
  check call (undo_socket s iesendcookie)
  pure s

unfoldable pub has_options : Wanted → Bool
has_options t = t.no_delay || (is_set t.mss || is_set t.socket_bufsize)

-- The options of the new listener, from TCP_NODELAY to IPV6_V6ONLY.
unfoldable pub listen_options : Wanted → ℕ → M (Unit {0})
listen_options t s = do
  connect_options t s
  when t.congestion (check call (close s >> freeaddrinfo >> set_i_errno iesetcongestion))
  check call (undo s iereuseaddr)
  when (may_be_v6 t.domain) (check call (undo s iev6only))

-- The body of the `if` of `iperf_tcp_listen`: the listener is closed and made anew.
unfoldable pub listen_anew : Wanted → M ℕ
listen_anew t = do
  close t.listener
  check_lookup (set_i_errno iestreamlisten)
  s ← require open_call (freeaddrinfo >> set_i_errno iestreamlisten)
  listen_options t s
  check call (undo s iestreamlisten)
  freeaddrinfo
  check call (set_i_errno iestreamlisten)
  pure s

-- The result is the new `test->listener`; on failure the field is left as it was.
unfoldable pub tcp_listen : Wanted → M ℕ
tcp_listen t = if has_options t then listen_anew t else pure t.listener

-- A connection with another cookie is told so and closed, and its descriptor is returned all the
-- same.
unfoldable pub tcp_accept : Wanted → M ℕ
tcp_accept t = do
  s ← require open_call (set_i_errno iestreamconnect)
  check call (set_i_errno ierecvcookie)
  when (not t.cookie_matches) (do check call (set_i_errno iesendmessage); close s)
  pure s

abbrev pub failed : {A : Type 0} → Exit A × Os → M (Unit {0}) → Exit A × Os
failed (returns a, o) c = (returns a, o)
failed (minus_one, o) c = (c >> fail) o

-- `if ((s = m) < 0) { c; return -1; }`
abbrev pub or_fail : {A : Type 0} → M A → M (Unit {0}) → M A
or_fail m c o = failed (m o) c

unfoldable pub udp_listen : Wanted → M ℕ
udp_listen t = or_fail (netannounce t.domain false) (set_i_errno iestreamlisten)

-- The old listener becomes the stream, and the result is the new `test->prot_listener`.
unfoldable pub udp_accept : Wanted → M ℕ
udp_accept t = do
  check call (set_i_errno iestreamaccept)
  check call (set_i_errno iestreamaccept)
  l ← or_fail (netannounce t.domain false) (set_i_errno iestreamlisten)
  check call (set_i_errno iestreamwrite)
  pure l

-- `iperf_udp_connect`: dial, tell the server, and wait for its answer.
unfoldable pub udp_connect : Wanted → M ℕ
udp_connect t = do
  s ← or_fail (netdial t.bind_address) (set_i_errno iestreamconnect)
  check call (set_i_errno iestreamwrite)
  check call (set_i_errno iestreamread)
  pure s

-- `iperf_sctp_connect`: the list of addresses is freed again where the last option fails.
unfoldable pub sctp_connect : Wanted → M ℕ
sctp_connect t = do
  when t.bind_address (check_lookup (set_i_errno iestreamconnect))
  check_lookup (when t.bind_address freeaddrinfo >> set_i_errno iestreamconnect)
  s ←
      require open_call
        (when t.bind_address freeaddrinfo >> freeaddrinfo >> set_i_errno iestreamconnect)
  connect_socket (close s >> freeaddrinfo >> set_i_errno iestreamconnect)
  freeaddrinfo
  check call (close s >> set_i_errno iesendcookie)
  check call (close s >> freeaddrinfo >> set_i_errno iesetsctpdisablefrag)
  pure s
