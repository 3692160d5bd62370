-- ===== src/Test.antt =====
-- `struct iperf_test` and `struct iperf_settings` of iperf_jni/jni/iperf/src/iperf.h, and the
-- functions of iperf_api.c that set it up: iperf_defaults, iperf_reset_test, the role, the direction
-- and the protocol.
pub mod Direction
pub mod Reset
use wifitesttool.Base.{
  ℕ, ◌*◌, Bool, true, false, not, ◌&&◌, Option, none, some, List, [], ◌∷◌, if◌then◌else◌,
}
use wifitesttool.Base.Int.{ℤ, pos, negsuc}
use wifitesttool.Socket.{Domain, af_unspec}

-- A C string, by its characters.
abbrev pub Text : Type 0
Text = List ℕ

pub data Role : Type 0 where
  no_role client server : Role

-- Ptcp, Pudp and Psctp: `protocol->id`.
pub data Protocol : Type 0 where
  ptcp pudp psctp : Protocol

abbrev pub is_ptcp : Protocol → Bool
is_ptcp ptcp = true
is_ptcp _ = false

abbrev pub is_pudp : Protocol → Bool
is_pudp pudp = true
is_pudp _ = false

pub record Settings : Type 0 where
  pub domain : Domain
  pub socket_bufsize : ℤ
  pub blksize : ℤ
  pub rate : ℕ
  pub burst : ℤ
  pub mss : ℤ
  pub tos : ℤ
  pub flowlabel : ℤ
  pub bytes : ℕ
  pub blocks : ℤ
  pub unit_format : ℕ

-- The fields that the options, the parameters and the control connection use. The intervals, which
-- are doubles of seconds, are whole microseconds.
pub record Test : Type 0 where
  pub role : Role
  pub sender : Bool
  pub sender_has_retransmits : ℤ
  pub protocol : Protocol
  pub state : ℤ
  pub server_hostname : Option Text
  pub bind_address : Option Text
  pub server_port : ℤ
  pub omit : ℤ
  pub duration : ℤ
  pub diskfile_name : Option Text
  pub affinity : ℤ
  pub server_affinity : ℤ
  pub title : Option Text
  pub congestion : Option Text
  pub pidfile : Option Text
  pub ctrl_sck : ℤ
  pub prot_listener : ℤ
  pub daemon : Bool
  pub no_delay : Bool
  pub reverse : Bool
  pub verbose : Bool
  pub json_output : Bool
  pub zerocopy : Bool
  pub debug : Bool
  pub multisend : ℤ
  pub stats_interval : ℤ
  pub reporter_interval : ℤ
  pub done : Bool
  pub num_streams : ℤ
  pub bytes_sent : ℕ
  pub blocks_sent : ℤ
  pub settings : Settings

abbrev pub default_tcp_blksize : ℕ
default_tcp_blksize = 128 * 1024

abbrev pub default_udp_blksize : ℕ
default_udp_blksize = 8192

abbrev pub default_sctp_blksize : ℕ
default_sctp_blksize = 64 * 1024

abbrev pub minus1 : ℤ
minus1 = negsuc 0

-- What a build provides: `has_tcpinfo_retransmits`.
abbrev pub retransmits_of : Bool → Test → ℤ
retransmits_of has_tcpinfo t =
    if t.sender && (is_ptcp t.protocol && has_tcpinfo) then pos 1 else pos 0

abbrev sender_of : Role → Bool → Bool
sender_of client sender = true
sender_of server sender = false
sender_of no_role sender = sender

unfoldable pub default_settings : Settings → Settings
default_settings s = record s {
  domain = af_unspec;
  unit_format = b'a';
  socket_bufsize = pos 0;
  blksize = pos default_tcp_blksize;
  rate = 0;
  burst = pos 0;
  mss = pos 0;
  bytes = 0;
  blocks = pos 0;
}

unfoldable pub reset_settings : Settings → Settings
reset_settings s = record s {
  socket_bufsize = pos 0;
  blksize = pos default_tcp_blksize;
  rate = 0;
  burst = pos 0;
  mss = pos 0;
}

-- The setters, over `has_tcpinfo_retransmits()`.
module _ (has_tcpinfo : Bool) where
  unfoldable pub check_sender_has_retransmits : Test → Test
  check_sender_has_retransmits t = record t {
    sender_has_retransmits = retransmits_of has_tcpinfo t;
  }

  unfoldable pub iperf_set_test_role : Role → Test → Test
  unfolding check_sender_has_retransmits
  iperf_set_test_role role t =
      let s = sender_of role t.sender in
      check_sender_has_retransmits
        (record t { role = role; sender = if t.reverse then not s else s })

  unfoldable pub iperf_set_test_reverse : Bool → Test → Test
  unfolding check_sender_has_retransmits
  iperf_set_test_reverse reverse t =
      check_sender_has_retransmits
        (record t { reverse = reverse; sender = if reverse then not t.sender else t.sender })

  -- All three protocols are in the list once `iperf_defaults` has run.
  unfoldable pub set_protocol : Protocol → Test → Test
  unfolding check_sender_has_retransmits
  set_protocol p t = check_sender_has_retransmits (record t { protocol = p })

  -- `iperf_defaults`, where its three calls of `malloc` succeed.
  unfoldable pub iperf_defaults : Test → Test
  unfolding default_settings set_protocol
  iperf_defaults t = set_protocol ptcp (record t {
    omit = pos 0;
    duration = pos 10;
    diskfile_name = none;
    affinity = minus1;
    server_affinity = minus1;
    title = none;
    congestion = none;
    server_port = pos 5201;
    ctrl_sck = minus1;
    prot_listener = minus1;
    stats_interval = pos 1000000;
    reporter_interval = pos 1000000;
    num_streams = pos 1;
    settings = default_settings t.settings;
    multisend = pos 10;
  })

  -- `iperf_reset_test`, in the order of its assignments.
  unfoldable pub iperf_reset_test : Test → Test
  unfolding reset_settings set_protocol
  iperf_reset_test t =
      let t1 = record t {
        done = false;
        role = server;
        sender = false;
        sender_has_retransmits = pos 0;
      } in
      record (set_protocol ptcp t1) {
        omit = pos 0;
        duration = pos 10;
        server_affinity = minus1;
        state = pos 0;
        title = none;
        server_hostname = none;
        bind_address = none;
        congestion = none;
        ctrl_sck = minus1;
        prot_listener = minus1;
        bytes_sent = 0;
        blocks_sent = pos 0;
        reverse = false;
        no_delay = false;
        num_streams = pos 1;
        settings = reset_settings t.settings;
        multisend = pos 10;
      }

-- What `memset` to zero leaves.
abbrev pub zero_settings : Settings
zero_settings = record {
  domain = af_unspec;
  socket_bufsize = pos 0;
  blksize = pos 0;
  rate = 0;
  burst = pos 0;
  mss = pos 0;
  tos = pos 0;
  flowlabel = pos 0;
  bytes = 0;
  blocks = pos 0;
  unit_format = 0;
}

-- `iperf_new_test`, where its two calls of `malloc` succeed.
abbrev pub iperf_new_test : Test
iperf_new_test = record {
  role = no_role;
  sender = false;
  sender_has_retransmits = pos 0;
  protocol = ptcp;
  state = pos 0;
  server_hostname = none;
  bind_address = none;
  server_port = pos 0;
  omit = pos 0;
  duration = pos 0;
  diskfile_name = none;
  affinity = pos 0;
  server_affinity = pos 0;
  title = none;
  congestion = none;
  pidfile = none;
  ctrl_sck = pos 0;
  prot_listener = pos 0;
  daemon = false;
  no_delay = false;
  reverse = false;
  verbose = false;
  json_output = false;
  zerocopy = false;
  debug = false;
  multisend = pos 0;
  stats_interval = pos 0;
  reporter_interval = pos 0;
  done = false;
  num_streams = pos 0;
  bytes_sent = 0;
  blocks_sent = pos 0;
  settings = zero_settings;
}
