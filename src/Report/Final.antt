-- ===== src/Report/Final.antt =====
-- The summary at the end, iperf_print_results, and the choice of the reports, iperf_reporter_callback, of
-- iperf_jni/jni/iperf/src/iperf_api.c.
use wifitesttool.Base.{
  ℕ, ◌+◌, Bool, true, false, not, ◌&&◌, Option, none, some, List, [], ◌∷◌, ◌++◌, ltb, if◌then◌else◌,
}
use wifitesttool.Base.Int.{ℤ, pos, ◌+ℤ◌}
use wifitesttool.Control.{State, test_running, stream_running, display_results}
use wifitesttool.Params.{nonzero}
use wifitesttool.Report.{
  Line, sent, received, datagrams, datagrams_sum, sum_sent, sum_received, counted_datagrams,
  out_of_order, Kind, is_stream_protocol, has_several, append_to, iperf_print_intermediate,
}
use wifitesttool.Streams.{Stream, timeval_diff, difference}
use wifitesttool.Test.{Test, client, Role}

abbrev pub is_client : Role → Bool
is_client client = true
is_client _ = false

-- A line from the start of the test to `end_time`.
abbrev pub final_line : Kind → Bool → Option ℕ → ℕ → ℕ → Option ℤ → Option ℤ → Option ℤ → Line
final_line kind json socket end_time bytes retransmits packets lost = record {
  kind = kind;
  in_json = json;
  socket = socket;
  start = 0;
  end = end_time;
  bytes = bytes;
  retransmits = retransmits;
  packets = packets;
  lost = lost;
  omitted = false;
}

-- Datagrams after the omitted ones.
abbrev pub packets_of : Stream → ℤ
packets_of sp = difference sp.packet_count sp.omitted_packet_count

abbrev pub if_given : Bool → ℤ → Option ℤ
if_given true n = some n
if_given false n = none

-- A line of text after the one for datagrams. The last one means to tell the datagrams out of order, but
-- it is given `cnt_error`.
abbrev pub text_lines : Test → ℕ → Stream → List Line
text_lines t end_time sp =
    (if not t.json_output && is_client t.role
      then final_line counted_datagrams false (some sp.socket) end_time 0 none
          (some (packets_of sp)) none
        ∷ []
      else [])
    ++ (if not t.json_output && ltb 0 sp.outoforder_packets
        then final_line out_of_order false none end_time 0 none none (some (pos sp.cnt_error)) ∷ []
        else [])

abbrev pub stream_lines : Test → ℕ → Stream → List Line
stream_lines t end_time sp =
    if is_stream_protocol t.protocol
    then (final_line sent t.json_output (some sp.socket) end_time sp.bytes_sent
          (if_given (nonzero t.sender_has_retransmits) sp.stream_retrans) none none
        ∷ final_line received t.json_output (some sp.socket) end_time sp.bytes_received none none
            none
        ∷ [])
    else (final_line datagrams t.json_output (some sp.socket) end_time sp.bytes_sent none
          (some (packets_of sp)) (some (pos sp.cnt_error))
        ∷ text_lines t end_time sp)

pub record FinalTotals : Type 0 where
  pub total_sent : ℕ
  pub total_received : ℕ
  pub total_retransmits : ℤ
  pub total_packets : ℤ
  pub lost_packets : ℤ

abbrev pub add_stream : Test → Stream → FinalTotals → FinalTotals
add_stream t sp s = record {
  total_sent = s.total_sent + sp.bytes_sent;
  total_received = s.total_received + sp.bytes_received;
  total_retransmits =
      if is_stream_protocol t.protocol && nonzero t.sender_has_retransmits
      then s.total_retransmits +ℤ sp.stream_retrans
      else s.total_retransmits;
  total_packets =
      if is_stream_protocol t.protocol then s.total_packets else s.total_packets +ℤ packets_of sp;
  lost_packets =
      if is_stream_protocol t.protocol then s.lost_packets else s.lost_packets +ℤ pos sp.cnt_error;
}

unfoldable pub final_streams : Test → ℕ → List Stream → FinalTotals → List Line × FinalTotals
final_streams t end_time [] s = ([], s)
final_streams t end_time (sp ∷ sps) s =
    let rest = final_streams t end_time sps (add_stream t sp s) in
    (stream_lines t end_time sp ++ rest.0, rest.1)

abbrev pub final_sums : Test → ℕ → FinalTotals → List Line
final_sums t end_time s =
    if is_stream_protocol t.protocol
    then (final_line sum_sent t.json_output none end_time s.total_sent
          (if_given (nonzero t.sender_has_retransmits) s.total_retransmits) none none
        ∷ final_line sum_received t.json_output none end_time s.total_received none none none
        ∷ [])
    else final_line datagrams_sum t.json_output none end_time s.total_sent none
        (some s.total_packets) (some s.lost_packets)
      ∷ []

abbrev pub no_totals : FinalTotals
no_totals = record {
  total_sent = 0;
  total_received = 0;
  total_retransmits = pos 0;
  total_packets = pos 0;
  lost_packets = pos 0;
}

-- `sp->result` of the first stream is read first, so there is no report without streams.
unfoldable pub iperf_print_results : Test → List Stream → Option (List Line)
unfolding final_streams
iperf_print_results t [] = none
iperf_print_results t (sp ∷ sps) =
    let end_time = timeval_diff sp.start_time sp.end_time in
    let (ls, s) = final_streams t end_time (sp ∷ sps) no_totals in
    some (ls ++ (if has_several t then final_sums t end_time s else []))

abbrev pub then_results : Test → List Stream → Option (List Line) → Option (List Line)
then_results t sps none = none
then_results t sps (some ls) = append_to ls (iperf_print_results t sps)

unfoldable pub iperf_reporter_callback : State → Test → Bool → List Stream → Option (List Line)
unfolding iperf_print_intermediate iperf_print_results
iperf_reporter_callback test_running t omitting sps = iperf_print_intermediate t omitting sps
iperf_reporter_callback stream_running t omitting sps = iperf_print_intermediate t omitting sps
iperf_reporter_callback display_results t omitting sps =
    then_results t sps (iperf_print_intermediate t omitting sps)
iperf_reporter_callback _ t omitting sps = some []
