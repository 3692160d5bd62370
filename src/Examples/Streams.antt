-- ===== src/Examples/Streams.antt =====
-- A UDP stream whose second datagram is lost, and the ids of three streams.
use wifitesttool.Base.{true, false, ℕ, ◌≡◌, refl, ◌+◌, List, [], ◌∷◌, some, arith}
use wifitesttool.Base.Int.{pos}
use wifitesttool.Examples.Runs.{at, blank}
use wifitesttool.Net.{got}
use wifitesttool.Error.{ok}
use wifitesttool.Results.{send_results, get_results}
use wifitesttool.Results.Exchange.{exchanged, informed, get_results-exchanged}
use wifitesttool.Streams.{Stream, note_received}
use wifitesttool.Streams.Ids.{ids, add_all, iperf_add_stream-ids}
use wifitesttool.Test.{Test, iperf_new_test}
use wifitesttool.Udp.{count_packet, put_header, iperf_udp_recv, filled}
use wifitesttool.Udp.Accounts.{
  count_packets, IsRising, end, more, AreCounts, AreInts, no_more, int_and, count_packets-sum,
  count_packets-lost,
}
use wifitesttool.Udp.RoundTrip.{iperf_udp_recv-put_header}

iperf_add_stream-ids_example : ids (add_all (blank ∷ blank ∷ blank ∷ []) []) ≡ 1 ∷ 3 ∷ 4 ∷ []
iperf_add_stream-ids_example = iperf_add_stream-ids (blank ∷ blank ∷ blank ∷ [])

blank-AreCounts : AreCounts blank
blank-AreCounts = record {
  packet_count = omega arith;
  outoforder_packets = omega arith;
  cnt_error = omega arith;
}

four_ints : AreInts (1 ∷ 3 ∷ 2 ∷ 3 ∷ [])
four_ints =
    int_and (omega arith)
      (int_and (omega arith) (int_and (omega arith) (int_and (omega arith) no_more)))

count_packets-sum_example :
    (count_packets (1 ∷ 3 ∷ 2 ∷ 3 ∷ []) blank).cnt_error + 4 + 0 + 0
    ≡ 0
      + (count_packets (1 ∷ 3 ∷ 2 ∷ 3 ∷ []) blank).packet_count
      + (count_packets (1 ∷ 3 ∷ 2 ∷ 3 ∷ []) blank).outoforder_packets
count_packets-sum_example =
    count_packets-sum (1 ∷ 3 ∷ 2 ∷ 3 ∷ []) blank blank-AreCounts four_ints (omega arith)

one_lost : IsRising 0 (1 ∷ 3 ∷ [])
one_lost = more (omega arith) (omega arith) (more (omega arith) (omega arith) end)

count_packets-lost_example :
    ((count_packets (1 ∷ 3 ∷ []) blank).cnt_error + 2 + 0
      ≡ 0 + (count_packets (1 ∷ 3 ∷ []) blank).packet_count)
    × ((count_packets (1 ∷ 3 ∷ []) blank).outoforder_packets ≡ 0)
count_packets-lost_example =
    count_packets-lost (1 ∷ 3 ∷ []) blank (omega arith) (omega arith) one_lost

test-lost : (count_packets (1 ∷ 3 ∷ []) blank).cnt_error ≡ 1
unfolding count_packets count_packet
test-lost = refl

abbrev block : List ℕ
block = 0 ∷ 0 ∷ 0 ∷ 0 ∷ 0 ∷ 0 ∷ 0 ∷ 0 ∷ 0 ∷ 0 ∷ 0 ∷ 0 ∷ 7 ∷ []

iperf_udp_recv-put_header_example :
    iperf_udp_recv blank 13 block (got (put_header (at 9) 300 block) ∷ [])
    ≡ some (
      pos 13,
      count_packet 300 (note_received (pos 13) blank),
      filled (put_header (at 9) 300 block) block,
      [],
    )
iperf_udp_recv-put_header_example =
    iperf_udp_recv-put_header (at 9) 300 block block blank [] (omega arith) (omega arith)

abbrev pub sending_test : Test
sending_test = record iperf_new_test { sender = true }

abbrev pub sent_streams : List Stream
sent_streams =
    record blank { id = 1; bytes_sent = 40 } ∷ record blank { id = 3; bytes_sent = 20 } ∷ []

abbrev pub received_streams : List Stream
received_streams =
    record blank { id = 1; bytes_received = 40 } ∷ record blank { id = 3; bytes_received = 20 } ∷ []

get_results-exchanged_example :
    get_results iperf_new_test received_streams (send_results sending_test sent_streams) ≡ (
      ok,
      informed iperf_new_test sending_test,
      exchanged false sending_test received_streams sent_streams,
    )
get_results-exchanged_example =
    get_results-exchanged iperf_new_test sending_test received_streams sent_streams refl
      (refl, (refl, tt), (refl, tt, tt))
