-- ===== src/Examples/Sockets.antt =====
-- Systems whose calls succeed up to one of them.
use wifitesttool.Base.{ℕ, refl, true, false, [], ◌∷◌, ltb, if◌then◌else◌}
use wifitesttool.Net.{eagain}
use wifitesttool.Error.{ienone}
use wifitesttool.Socket.{Answer, value, fails, Os, af_inet6}
use wifitesttool.Socket.Triples.{Post, Has}
use wifitesttool.Socket.Streams.{Wanted, tcp_connect, tcp_listen, tcp_accept, udp_connect}
use wifitesttool.Socket.Opened.{Kept, udp_connect-OneLeft, tcp_accept-Kept}
use wifitesttool.Socket.Listening.{
  HasEnded, iperf_server_listen, sctp_listen, sctp_accept, sctp_listen-OneLeft, sctp_accept-Kept,
  iperf_server_listen-HasEnded,
}
use wifitesttool.Socket.Leaks.{IsClean, OneLeft, tcp_connect-IsClean, tcp_listen-OneLeft}

-- The first `n` calls succeed, with the descriptor 7, and all others fail.
abbrev succeed : ℕ → ℕ → Answer
succeed n i = if ltb i n then value 7 else fails eagain

abbrev os : ℕ → Os
os n = record {
  script = succeed n;
  calls = 0;
  errno = eagain;
  i_errno = ienone;
  sockets = 5 ∷ [];
  infos = 0;
}

abbrev wanted : Wanted
wanted = record {
  bind_address = true;
  no_delay = true;
  mss = 1400;
  socket_bufsize = 0;
  flowlabel = 9;
  congestion = true;
  domain = af_inet6;
  listener = 5;
  prot_listener = 6;
  server_is_v6 = true;
  cookie_matches = true;
}

tcp_connect_example : IsClean (os 6) (tcp_connect wanted (os 6))
tcp_connect_example = tcp_connect-IsClean wanted (os 6)

tcp_listen_example : Post (λ s. Has (s ∷ []) 0) (OneLeft [] 0) (tcp_listen wanted (os 4))
tcp_listen_example = tcp_listen-OneLeft wanted [] (os 4) refl

abbrev no_local : Wanted
no_local = record wanted { bind_address = false }

udp_connect_example :
    Post (λ s. Has (s ∷ 5 ∷ []) 0) (OneLeft (5 ∷ []) 0) (udp_connect no_local (os 3))
udp_connect_example = udp_connect-OneLeft no_local (os 3) refl

tcp_accept_example : Post (Kept true (5 ∷ []) 0) (OneLeft (5 ∷ []) 0) (tcp_accept wanted (os 2))
tcp_accept_example = tcp_accept-Kept wanted (os 2)

sctp_listen_example : Post (λ s. Has (s ∷ []) 0) (OneLeft [] 0) (sctp_listen wanted (os 4))
sctp_listen_example = sctp_listen-OneLeft wanted [] (os 4) refl

sctp_accept_example : Post (Kept true (5 ∷ []) 0) (OneLeft (5 ∷ []) 0) (sctp_accept wanted (os 2))
sctp_accept_example = sctp_accept-Kept wanted (os 2)

iperf_server_listen_example : HasEnded (os 3) af_inet6 (iperf_server_listen 2 af_inet6 (os 3))
iperf_server_listen_example = iperf_server_listen-HasEnded 0 af_inet6 (os 3)
