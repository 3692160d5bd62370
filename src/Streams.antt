-- ===== src/Streams.antt =====
-- `struct iperf_stream`, its results and its intervals (iperf_jni/jni/iperf/src/iperf.h), and the functions
-- on them in iperf_api.c, iperf_tcp.c and iperf_sctp.c. Jitter and CPU times, which are doubles, and what
-- TCP_INFO tells are left out; a count of bytes or packets is a plain number.
pub mod Ids
pub mod Life
pub mod Returned
use wifitesttool.Base.{
  ℕ, zero, suc, ◌+◌, ◌-◌, ◌*◌, ◌≤◌, ◌≡◌, Bool, true, false, not, ◌&&◌, ◌||◌, Option, none, some,
  List, [], ◌∷◌, ◌++◌, map, ◌==◌, ltb, leb, if◌then◌else◌, length,
}
use wifitesttool.Base.Int.{ℤ, pos, negsuc, pos_part, ◌+ℤ◌}
use wifitesttool.Net.{Arrival, Room, ReadResult, WriteResult, nread, nwrite, nsendfile}
use wifitesttool.Test.{Test, is_pudp, is_ptcp, Protocol}
use wifitesttool.Timer.{Timeval, million}
use wifitesttool.Timer.Time.{to_usecs}

-- `struct iperf_interval_results`.
pub record Interval : Type 0 where
  pub bytes_transferred : ℕ
  pub start_time : Timeval
  pub end_time : Timeval
  pub omitted : Bool
  pub interval_packet_count : ℤ
  pub interval_outoforder_packets : ℤ
  pub interval_cnt_error : ℤ
  pub packet_count : ℕ
  pub outoforder_packets : ℕ
  pub cnt_error : ℕ

-- `struct iperf_stream` with its `struct iperf_stream_result`. The intervals stand in order, the
-- latest last.
pub record Stream : Type 0 where
  pub id : ℕ
  pub socket : ℕ
  pub green_light : Bool
  pub packet_count : ℕ
  pub omitted_packet_count : ℕ
  pub outoforder_packets : ℕ
  pub cnt_error : ℕ
  pub bytes_received : ℕ
  pub bytes_sent : ℕ
  pub bytes_received_this_interval : ℕ
  pub bytes_sent_this_interval : ℕ
  pub stream_retrans : ℤ
  pub start_time : Timeval
  pub end_time : Timeval
  pub intervals : List Interval

-- `timeval_diff`, in microseconds.
unfoldable pub timeval_diff : Timeval → Timeval → ℕ
timeval_diff a b = (to_usecs a - to_usecs b) + (to_usecs b - to_usecs a)

-- The head gets the id 1, and `i` starts at 2 and grows by 1 for each stream that is there.
abbrev pub next_id : List Stream → ℕ
next_id [] = 1
next_id (x ∷ xs) = 2 + length (x ∷ xs)

unfoldable pub iperf_add_stream : Stream → List Stream → List Stream
iperf_add_stream sp streams = streams ++ (record sp { id = next_id streams }) ∷ []

-- What the send and receive functions share: on success both counters grow by the result.
abbrev pub note_received : ℤ → Stream → Stream
note_received (negsuc n) sp = sp
note_received (pos n) sp = record sp {
  bytes_received = sp.bytes_received + n;
  bytes_received_this_interval = sp.bytes_received_this_interval + n;
}

abbrev pub note_sent : ℤ → Stream → Stream
note_sent (negsuc n) sp = sp
note_sent (pos n) sp = record sp {
  bytes_sent = sp.bytes_sent + n;
  bytes_sent_this_interval = sp.bytes_sent_this_interval + n;
}

abbrev pub read_by : Stream → Option ReadResult → Option (ℤ × Stream × List Arrival)
read_by sp none = none
read_by sp (some r) = some (r.ret, note_received r.ret sp, r.rest)

abbrev pub written_by : Stream → Option WriteResult → Option (ℤ × Stream × List Room)
written_by sp none = none
written_by sp (some r) = some (r.ret, note_sent r.ret sp, r.rest)

-- `none` while the call blocks. The second argument is the block size.
unfoldable pub iperf_tcp_recv : Stream → ℕ → List Arrival → Option (ℤ × Stream × List Arrival)
iperf_tcp_recv sp size more = read_by sp (nread size more)

unfoldable pub iperf_tcp_send : Bool → Stream → List ℕ → List Room → Option (ℤ × Stream × List Room)
iperf_tcp_send zerocopy sp buffer more =
    written_by sp (if zerocopy then nsendfile buffer more else nwrite buffer more)

unfoldable pub iperf_sctp_recv : Stream → ℕ → List Arrival → Option (ℤ × Stream × List Arrival)
iperf_sctp_recv sp size more = read_by sp (nread size more)

unfoldable pub iperf_sctp_send : Stream → List ℕ → List Room → Option (ℤ × Stream × List Room)
iperf_sctp_send sp buffer more = written_by sp (nwrite buffer more)

-- The part of a test that changes while it runs, with its streams.
pub record Running : Type 0 where
  pub test : Test
  pub omitting : Bool
  pub streams : List Stream
  pub write_set : List ℕ  -- the sockets of `test->write_set`

-- `iperf_reset_stats`, for one stream.
abbrev pub reset_stream : Timeval → Stream → Stream
reset_stream now sp = record sp {
  omitted_packet_count = sp.packet_count;
  outoforder_packets = 0;
  cnt_error = 0;
  bytes_sent = 0;
  bytes_received = 0;
  bytes_sent_this_interval = 0;
  bytes_received_this_interval = 0;
  stream_retrans = pos 0;
  start_time = now;
}

unfoldable pub iperf_reset_stats : Timeval → Running → Running
iperf_reset_stats now r = record r {
  test = record r.test { bytes_sent = 0; blocks_sent = pos 0 };
  streams = map (reset_stream now) r.streams;
}

-- `TAILQ_LAST`.
abbrev pub last : List Interval → Option Interval
last [] = none
last (x ∷ []) = some x
last (x ∷ y ∷ xs) = last (y ∷ xs)

abbrev pub difference : ℕ → ℕ → ℤ
difference a b = if leb b a then pos (a - b) else negsuc (b - a - 1)

-- What a TCP test leaves of the counts of packets is not determined, and 0 here.
abbrev count_since : Bool → ℕ → ℕ → ℤ
count_since true now before = pos 0
count_since false now before = difference now before

abbrev start_of : Option Interval → Stream → Timeval
start_of none sp = sp.start_time
start_of (some i) sp = sp.end_time

abbrev packets_before : Option Interval → ℕ
packets_before none = 0
packets_before (some i) = i.packet_count

abbrev outoforder_before : Option Interval → ℕ
outoforder_before none = 0
outoforder_before (some i) = i.outoforder_packets

abbrev errors_before : Option Interval → ℕ
errors_before none = 0
errors_before (some i) = i.cnt_error

-- The new interval of iperf_stats_callback, for one stream at the time `now`.
abbrev pub new_interval : Test → Bool → Timeval → Stream → Interval
new_interval t omitting now sp =
    let tcp = is_ptcp t.protocol in
    let irp = last sp.intervals in
    record {
      bytes_transferred =
          if t.sender then sp.bytes_sent_this_interval else sp.bytes_received_this_interval;
      start_time = start_of irp sp;
      end_time = now;
      omitted = omitting;
      interval_packet_count = count_since tcp sp.packet_count (packets_before irp);
      interval_outoforder_packets = count_since tcp sp.outoforder_packets (outoforder_before irp);
      interval_cnt_error = count_since tcp sp.cnt_error (errors_before irp);
      packet_count = if tcp then 0 else sp.packet_count;
      outoforder_packets = if tcp then 0 else sp.outoforder_packets;
      cnt_error = if tcp then 0 else sp.cnt_error;
    }

-- `add_to_interval_list`, where `malloc` succeeds.
abbrev pub add_to_interval_list : Interval → Stream → Stream
add_to_interval_list i sp = record sp { intervals = sp.intervals ++ i ∷ [] }

abbrev pub stats_stream : Test → Bool → Timeval → Stream → Stream
stats_stream t omitting now sp = record (add_to_interval_list (new_interval t omitting now sp) sp) {
  end_time = now;
  bytes_sent_this_interval = 0;
  bytes_received_this_interval = 0;
}

unfoldable pub iperf_stats_callback : Timeval → Running → Running
iperf_stats_callback now r = record r {
  streams = map (stats_stream r.test r.omitting now) r.streams;
}

-- `client_omit_timer_proc` and `server_omit_timer_proc`, but for the timers that they reset.
unfoldable pub omit_timer_proc : Timeval → Running → Running
unfolding iperf_reset_stats
omit_timer_proc now r = iperf_reset_stats now (record r { omitting = false })
