-- ===== src/Report.antt =====
-- The reports of iperf_jni/jni/iperf/src/iperf_api.c: iperf_reporter_callback, iperf_print_intermediate,
-- print_interval_results and iperf_print_results. A line is its numbers, in JSON or in text. Bandwidths,
-- percentages, jitter and CPU times, which are doubles, and headings, retransmissions in an interval, the
-- congestion window and the line for a file are left out. Where a null pointer is followed there is no
-- report.
pub mod Final
pub mod Counts
pub mod Sums
pub mod Summary
pub mod Exchanged
use wifitesttool.Base.{
  ℕ, ◌+◌, Bool, true, false, not, ◌&&◌, ◌||◌, Option, none, some, List, [], ◌∷◌, ◌++◌, ltb,
  if◌then◌else◌,
}
use wifitesttool.Base.Int.{ℤ, pos, ◌+ℤ◌, ltb_ℤ}
use wifitesttool.Control.{State, test_running, stream_running, display_results}
use wifitesttool.Params.{nonzero}
use wifitesttool.Streams.{Interval, Stream, timeval_diff, last, difference}
use wifitesttool.Test.{Test, Protocol, is_ptcp, ptcp, psctp, pudp, client, Role}

pub data Kind : Type 0 where
  interval interval_sum sent received datagrams datagrams_sum sum_sent sum_received : Kind
  counted_datagrams out_of_order : Kind

-- The numbers of a line, those that it has.
pub record Line : Type 0 where
  pub kind : Kind
  pub in_json : Bool
  pub socket : Option ℕ
  pub start : ℕ
  pub end : ℕ
  pub bytes : ℕ
  pub retransmits : Option ℤ
  pub packets : Option ℤ
  pub lost : Option ℤ
  pub omitted : Bool

-- `test->protocol->id == Ptcp || test->protocol->id == Psctp`
abbrev pub is_stream_protocol : Protocol → Bool
is_stream_protocol pudp = false
is_stream_protocol _ = true

abbrev pub counts_retransmits : Test → Bool
counts_retransmits t = t.sender && nonzero t.sender_has_retransmits

-- The line for the interval `i` of a stream.
abbrev pub interval_line : Test → Stream → Interval → Bool → Line
interval_line t sp i json = record {
  kind = interval;
  in_json = json;
  socket = some sp.socket;
  start = timeval_diff sp.start_time i.start_time;
  end = timeval_diff sp.start_time i.end_time;
  bytes = i.bytes_transferred;
  retransmits = none;
  packets = if is_stream_protocol t.protocol then none else some i.interval_packet_count;
  lost = if is_stream_protocol t.protocol || t.sender then none else some i.interval_cnt_error;
  omitted = i.omitted;
}

-- With retransmissions, the text is printed after the JSON object too: only the call before it stands under
-- the `else`.
unfoldable pub print_interval_results : Test → Stream → Interval → List Line
print_interval_results t sp i =
    if t.json_output && is_stream_protocol t.protocol && counts_retransmits t
    then interval_line t sp i true ∷ interval_line t sp i false ∷ []
    else interval_line t sp i t.json_output ∷ []

pub record Totals : Type 0 where
  pub bytes : ℕ
  pub packets : ℤ
  pub lost : ℤ

abbrev pub add_interval : Test → Interval → Totals → Totals
add_interval t i s = record {
  bytes = s.bytes + i.bytes_transferred;
  packets = if is_ptcp t.protocol then s.packets else s.packets +ℤ i.interval_packet_count;
  lost = if is_ptcp t.protocol then s.lost else s.lost +ℤ i.interval_cnt_error;
}

-- The lines of the streams, and the sums; no sums if a stream has no interval, where it returns.
unfoldable pub print_streams : Test → List Stream → Totals → List Line × Option Totals
unfolding print_interval_results
print_streams t [] s = ([], some s)
print_streams t (sp ∷ sps) s = elim (last sp.intervals) [
  | none ↦ ([], none)
  | some i ↦
      let rest = print_streams t sps (add_interval t i s) in
      (print_interval_results t sp i ++ rest.0, rest.1)
]

-- With the times of the first stream. With retransmissions it tells whether the first stream's interval is
-- omitted, and else whether the test is omitting.
abbrev pub interval_sum_line : Test → Bool → Totals → Stream → Interval → Line
interval_sum_line t omitting s sp i = record {
  kind = interval_sum;
  in_json = t.json_output;
  socket = none;
  start = timeval_diff sp.start_time i.start_time;
  end = timeval_diff sp.start_time i.end_time;
  bytes = s.bytes;
  retransmits = none;
  packets = if is_stream_protocol t.protocol then none else some s.packets;
  lost = if is_stream_protocol t.protocol || t.sender then none else some s.lost;
  omitted = if is_stream_protocol t.protocol && counts_retransmits t then i.omitted else omitting;
}

abbrev pub interval_sum_of : Test → Bool → Totals → List Stream → Option (List Line)
interval_sum_of t omitting s [] = none
interval_sum_of t omitting s (sp ∷ sps) = elim (last sp.intervals) [
  | none ↦ none
  | some i ↦ some (interval_sum_line t omitting s sp i ∷ [])
]

abbrev pub append_to : List Line → Option (List Line) → Option (List Line)
append_to ls none = none
append_to ls (some ms) = some (ls ++ ms)

abbrev pub has_several : Test → Bool
has_several t = ltb_ℤ (pos 1) t.num_streams

abbrev pub with_sum : Test → Bool → List Stream → List Line → Option Totals → Option (List Line)
with_sum t omitting sps ls none = some ls
with_sum t omitting sps ls (some s) =
    if has_several t then append_to ls (interval_sum_of t omitting s sps) else some ls

unfoldable pub iperf_print_intermediate : Test → Bool → List Stream → Option (List Line)
unfolding print_streams
iperf_print_intermediate t omitting sps =
    let (ls, sums) = print_streams t sps (record { bytes = 0; packets = pos 0; lost = pos 0 }) in
    with_sum t omitting sps ls sums
