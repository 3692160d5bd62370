-- ===== src/Options.antt =====
-- `iperf_parse_arguments` of iperf_jni/jni/iperf/src/iperf_api.c, over what getopt_long returns: one
-- option after another, with the numbers that atoi, strtol, atof and the functions of units.c make of
-- their arguments (an interval is a number of microseconds). Built on linux, where affinity, SCTP,
-- flow labels, congestion control and sendfile are there.
pub mod Limits
pub mod Given
pub mod Accepted
use wifitesttool.Base.{
  ℕ, ◌*◌, Bool, true, false, not, ◌&&◌, ◌||◌, Option, none, some, List, [], ◌∷◌, ◌==◌,
  if◌then◌else◌,
}
use wifitesttool.Base.Int.{ℤ, pos, ltb_ℤ}
use wifitesttool.Error.{
  Ierror, ieservclient, ienorole, ieserveronly, ieclientonly, ieduration, ienumstreams, ieblocksize,
  iebufsize, ieinterval, iemss, ieomit, ieburst, ieendconditions, iesetflow, ieaffinity,
}
use wifitesttool.Socket.{af_inet, af_inet6}
use wifitesttool.Test.{
  Text, Role, no_role, client, server, Protocol, ptcp, pudp, psctp, is_pudp, Test,
  default_tcp_blksize, default_udp_blksize, default_sctp_blksize, iperf_set_test_role,
  iperf_set_test_reverse, set_protocol,
}

pub data Flag : Type 0 where
  port : ℤ → Flag
  format : ℕ → Flag
  interval : ℤ → Flag
  daemon verbose json version : Flag
  server_opt : Flag
  client_opt : Text → Flag
  udp sctp : Flag
  bandwidth : Option ℤ → ℕ → Flag  -- the burst behind a slash, and the rate
  time : ℤ → Flag
  bytes : ℕ → Flag
  blockcount : ℤ → Flag
  len : ℤ → Flag
  parallel : ℤ → Flag
  reverse : Flag
  window : ℤ → Flag
  bind : Text → Flag
  set_mss : ℤ → Flag
  no_delay version4 version6 : Flag
  tos : ℤ → Flag
  flowlabel : ℤ → Flag
  zerocopy : Flag
  omit : ℤ → Flag
  file : Text → Flag
  affinity : ℤ → Option ℤ → Flag  -- and the server's, behind a comma
  title : Text → Flag
  congestion : Text → Flag
  debug : Flag
  pidfile : Text → Flag
  help : Flag

-- The test, and the local variables of the function.
pub record Parse : Type 0 where
  pub test : Test
  pub blksize : ℤ
  pub server_flag : Bool
  pub client_flag : Bool
  pub rate_flag : Bool
  pub duration_flag : Bool

-- `return 0` with the state; `return -1` with `i_errno`; or `exit`.
pub data Parsed : Type 0 where
  parsed : Parse → Parsed
  bad : Ierror → Parsed
  exits : Parsed

abbrev pub lt : ℤ → ℤ → Bool
lt = ltb_ℤ

abbrev pub is_zero : ℤ → Bool
is_zero (pos n) = n == 0
is_zero _ = false

abbrev pub max_time : ℤ
max_time = pos 3600

abbrev pub max_streams : ℤ
max_streams = pos 128

abbrev pub max_tcp_buffer : ℤ
max_tcp_buffer = pos (512 * (1024 * 1024))

abbrev pub max_mss : ℤ
max_mss = pos (9 * 1024)

abbrev pub max_burst : ℤ
max_burst = pos 1000

abbrev pub max_blocksize : ℤ
max_blocksize = pos (1024 * 1024)

abbrev pub min_interval : ℤ
min_interval = pos 100000

abbrev pub max_interval : ℤ
max_interval = pos 60000000

-- For an option that only a client may have.
abbrev pub for_client : Test → Parse → Parsed
for_client t p = parsed (record p { test = t; client_flag = true })

abbrev pub with_test : Test → Parse → Parsed
with_test t p = parsed (record p { test = t })

abbrev pub unless : Bool → Ierror → Parsed → Parsed
unless true e r = bad e
unless false e r = r

module _ (h : Bool) where
  unfoldable pub set_client : Text → Role → Parse → Parsed
  set_client host server p = bad ieservclient
  set_client host _ p =
      with_test (record (iperf_set_test_role h client p.test) { server_hostname = some host }) p

  unfoldable pub set_server : Role → Parse → Parsed
  set_server client p = bad ieservclient
  set_server _ p = with_test (iperf_set_test_role h server p.test) p

-- `-b`: the burst first, if there is a slash, and then the rate.
unfoldable pub set_bandwidth : Option ℤ → ℕ → Parse → Parsed
set_bandwidth none rate p =
    for_client (record p.test { settings = record p.test.settings { rate = rate } })
      (record p { rate_flag = true })
set_bandwidth (some burst) rate p = unless (not (lt (pos 0) burst) || lt max_burst burst) ieburst (
    for_client (record p.test { settings = record p.test.settings { burst = burst; rate = rate } })
      (record p { rate_flag = true }))

unfoldable pub set_affinity : ℤ → Option ℤ → Parse → Parsed
set_affinity a none p =
    unless (lt a (pos 0) || lt (pos 1024) a) ieaffinity
      (with_test (record p.test { affinity = a }) p)
set_affinity a (some b) p = unless (lt a (pos 0) || lt (pos 1024) a) ieaffinity (
    unless (lt b (pos 0) || lt (pos 1024) b) ieaffinity
      (for_client (record p.test { affinity = a; server_affinity = b }) p))

module _ (h : Bool) where
  -- The `switch` on one option.
  unfoldable pub parse_flag : Flag → Parse → Parsed
  unfolding set_client set_server set_bandwidth set_affinity
  parse_flag (port n) p = with_test (record p.test { server_port = n }) p
  parse_flag (format c) p =
      with_test (record p.test { settings = record p.test.settings { unit_format = c } }) p
  parse_flag (interval i) p =
      unless ((lt i min_interval || lt max_interval i) && not (is_zero i)) ieinterval
        (with_test (record p.test { stats_interval = i; reporter_interval = i }) p)
  parse_flag daemon p =
      parsed (record p { test = record p.test { daemon = true }; server_flag = true })
  parse_flag verbose p = with_test (record p.test { verbose = true }) p
  parse_flag json p = with_test (record p.test { json_output = true }) p
  parse_flag version p = exits
  parse_flag server_opt p = set_server h p.test.role p
  parse_flag (client_opt host) p = set_client h host p.test.role p
  parse_flag udp p = for_client (set_protocol h pudp p.test) p
  parse_flag sctp p = for_client (set_protocol h psctp p.test) p
  parse_flag (bandwidth burst rate) p = set_bandwidth burst rate p
  parse_flag (time n) p =
      unless (lt max_time n) ieduration
        (for_client (record p.test { duration = n }) (record p { duration_flag = true }))
  parse_flag (bytes n) p =
      for_client (record p.test { settings = record p.test.settings { bytes = n } }) p
  parse_flag (blockcount n) p =
      for_client (record p.test { settings = record p.test.settings { blocks = n } }) p
  parse_flag (len n) p = parsed (record p { blksize = n; client_flag = true })
  parse_flag (parallel n) p =
      unless (lt max_streams n) ienumstreams (for_client (record p.test { num_streams = n }) p)
  parse_flag reverse p = for_client (iperf_set_test_reverse h true p.test) p
  parse_flag (window n) p =
      unless (lt max_tcp_buffer n) iebufsize
        (for_client (record p.test { settings = record p.test.settings { socket_bufsize = n } }) p)
  parse_flag (bind a) p = with_test (record p.test { bind_address = some a }) p
  parse_flag (set_mss n) p =
      unless (lt max_mss n) iemss
        (for_client (record p.test { settings = record p.test.settings { mss = n } }) p)
  parse_flag no_delay p = for_client (record p.test { no_delay = true }) p
  parse_flag version4 p =
      with_test (record p.test { settings = record p.test.settings { domain = af_inet } }) p
  parse_flag version6 p =
      with_test (record p.test { settings = record p.test.settings { domain = af_inet6 } }) p
  parse_flag (tos n) p =
      for_client (record p.test { settings = record p.test.settings { tos = n } }) p
  parse_flag (flowlabel n) p =
      unless (lt n (pos 1) || lt (pos 0xfffff) n) iesetflow
        (for_client (record p.test { settings = record p.test.settings { flowlabel = n } }) p)
  parse_flag zerocopy p = for_client (record p.test { zerocopy = true }) p
  parse_flag (omit n) p =
      unless (lt n (pos 0) || lt (pos 60) n) ieomit (for_client (record p.test { omit = n }) p)
  parse_flag (file f) p = with_test (record p.test { diskfile_name = some f }) p
  parse_flag (affinity a b) p = set_affinity a b p
  parse_flag (title s) p = for_client (record p.test { title = some s }) p
  parse_flag (congestion s) p = for_client (record p.test { congestion = some s }) p
  parse_flag debug p = with_test (record p.test { debug = true }) p
  parse_flag (pidfile s) p =
      parsed (record p { test = record p.test { pidfile = some s }; server_flag = true })
  parse_flag help p = exits

  abbrev pub and_then : Parsed → (Parse → Parsed) → Parsed
  and_then (parsed p) k = k p
  and_then (bad e) k = bad e
  and_then exits k = exits

  unfoldable pub parse_flags : List Flag → Parse → Parsed
  parse_flags [] p = parsed p
  parse_flags (f ∷ fs) p = and_then (parse_flag f p) (parse_flags fs)

-- The block size that the protocol gives, where `-l` gave none.
default_blksize : Protocol → ℕ
default_blksize pudp = default_udp_blksize
default_blksize psctp = default_sctp_blksize
default_blksize ptcp = default_tcp_blksize

-- The checks that the options go with the role.
unfoldable pub role_error : Role → Parse → Option Ierror
role_error client p = if p.server_flag then some ieserveronly else none
role_error server p = if p.client_flag then some ieclientonly else none
role_error no_role p = none

unfoldable pub set_blksize : Parse → Parse
unfolding default_blksize
set_blksize p =
    let b = if is_zero p.blksize then pos (default_blksize p.test.protocol) else p.blksize in
    record p { blksize = b }

-- The block size, the default rate, and no duration where bytes or blocks end the test.
unfoldable pub settle : Parse → Parse
settle p =
    let rate =
      if p.rate_flag
      then p.test.settings.rate
      else if is_pudp p.test.protocol
      then 1024 * 1024
      else 0 in
    let limited = not (p.test.settings.bytes == 0) || not (is_zero p.test.settings.blocks) in
    record p {
      test = record p.test {
        settings = record p.test.settings { blksize = p.blksize; rate = rate };
        duration = if limited && not p.duration_flag then pos 0 else p.test.duration;
      };
    }

unfoldable pub end_conditions : Parse → Bool
end_conditions p =
    let by_bytes = not (p.test.settings.bytes == 0) in
    let by_blocks = not (is_zero p.test.settings.blocks) in
    (p.duration_flag && by_bytes) || ((p.duration_flag && by_blocks) || (by_bytes && by_blocks))

abbrev pub has_role : Role → Bool
has_role no_role = false
has_role _ = true

unfoldable pub finish_settled : Parse → Parsed
unfolding end_conditions
finish_settled p =
    unless (end_conditions p) ieendconditions
      (unless (not (has_role p.test.role)) ienorole (parsed p))

unfoldable pub finish_blksize : Parse → Parsed
unfolding settle finish_settled
finish_blksize p =
    unless (lt p.blksize (pos 1) || lt max_blocksize p.blksize) ieblocksize
      (finish_settled (settle p))

unfoldable pub finish_role : Option Ierror → Parse → Parsed
unfolding set_blksize finish_blksize
finish_role (some e) p = bad e
finish_role none p = finish_blksize (set_blksize p)

-- What stands behind the loop.
unfoldable pub finish : Parse → Parsed
unfolding role_error finish_role
finish p = finish_role (role_error p.test.role p) p

abbrev pub start : Test → Parse
start t = record {
  test = t;
  blksize = pos 0;
  server_flag = false;
  client_flag = false;
  rate_flag = false;
  duration_flag = false;
}

unfoldable pub iperf_parse_arguments : Bool → List Flag → Test → Parsed
unfolding parse_flags finish
iperf_parse_arguments h flags t = and_then h (parse_flags h flags (start t)) finish
