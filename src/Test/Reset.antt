-- ===== src/Test/Reset.antt =====
-- What `iperf_reset_test` brings back to the defaults, between two tests of a server.
use wifitesttool.Base.{◌≡◌, refl, Bool}
use wifitesttool.Test.{
  Test, Settings, server, iperf_set_test_role, iperf_new_test, iperf_defaults, iperf_reset_test,
}

-- The two tests agree in the parameters that a client can send, but for the four settings below.
pub record Agree (t u : Test) : Type 0 where
  pub protocol : t.protocol ≡ u.protocol
  pub omit : t.omit ≡ u.omit
  pub duration : t.duration ≡ u.duration
  pub server_affinity : t.server_affinity ≡ u.server_affinity
  pub num_streams : t.num_streams ≡ u.num_streams
  pub no_delay : t.no_delay ≡ u.no_delay
  pub reverse : t.reverse ≡ u.reverse
  pub title : t.title ≡ u.title
  pub congestion : t.congestion ≡ u.congestion
  pub socket_bufsize : t.settings.socket_bufsize ≡ u.settings.socket_bufsize
  pub blksize : t.settings.blksize ≡ u.settings.blksize
  pub rate : t.settings.rate ≡ u.settings.rate
  pub burst : t.settings.burst ≡ u.settings.burst
  pub mss : t.settings.mss ≡ u.settings.mss

-- The number of bytes and of blocks, the type of service and the flow label.
pub record SameLeftovers (s u : Settings) : Type 0 where
  pub bytes : s.bytes ≡ u.bytes
  pub blocks : s.blocks ≡ u.blocks
  pub tos : s.tos ≡ u.tos
  pub flowlabel : s.flowlabel ≡ u.flowlabel

-- Any reset test has the protocol, duration, omitted time, server's affinity, number of streams, `no_delay`,
-- `reverse`, title, congestion control, buffer and block sizes, rate, burst and MSS of a new server test with the
-- defaults, and its role, `sender` and `sender_has_retransmits`; but it keeps the bytes, blocks, type of
-- service and flow label of the test before.
pub iperf_reset_test-Agree :
    (h : Bool) (t : Test)
    → let fresh = iperf_set_test_role h server (iperf_defaults h iperf_new_test) in
      let again = iperf_reset_test h t in
      Agree again fresh
      × (again.role ≡ fresh.role)
      × (again.sender ≡ fresh.sender)
      × (again.sender_has_retransmits ≡ fresh.sender_has_retransmits)
      × SameLeftovers again.settings t.settings
unfolding iperf_reset_test iperf_defaults iperf_set_test_role
iperf_reset_test-Agree h t = (
  record {
    protocol = refl;
    omit = refl;
    duration = refl;
    server_affinity = refl;
    num_streams = refl;
    no_delay = refl;
    reverse = refl;
    title = refl;
    congestion = refl;
    socket_bufsize = refl;
    blksize = refl;
    rate = refl;
    burst = refl;
    mss = refl;
  },
  refl,
  refl,
  refl,
  record { bytes = refl; blocks = refl; tos = refl; flowlabel = refl },
)
