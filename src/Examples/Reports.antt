-- ===== src/Examples/Reports.antt =====
-- The reports of a test with two streams.
use wifitesttool.Base.{
  ◌≡◌, refl, ◌&&◌, true, false, List, [], ◌∷◌, Option, none, ℕ, some, if◌then◌else◌,
}
use wifitesttool.Base.Int.{pos}
use wifitesttool.Examples.Runs.{at, blank}
use wifitesttool.Examples.Streams.{sending_test, sent_streams, received_streams}
use wifitesttool.Report.{
  Line, has_several, iperf_print_intermediate, print_streams, print_interval_results,
}
use wifitesttool.Report.Final.{iperf_print_results}
use wifitesttool.Report.Counts.{count_of, is_interval_sum}
use wifitesttool.Report.Sums.{bytes_of, is_interval, all_measured, iperf_print_intermediate-sums}
use wifitesttool.Report.Summary.{column, sent_by, received_by, all_sent, all_received}
use wifitesttool.Report.Exchanged.{iperf_print_results-exchanged}
use wifitesttool.Results.{send_results, get_results}
use wifitesttool.Streams.{Stream}
use wifitesttool.Test.{Test, iperf_new_test}

abbrev two_streams : Test
two_streams = record sending_test { num_streams = pos 2; json_output = true }

abbrev measured : Stream
measured = record blank {
  intervals =
      record {
        bytes_transferred = 40;
        start_time = at 0;
        end_time = at 1;
        omitted = false;
        interval_packet_count = pos 0;
        interval_outoforder_packets = pos 0;
        interval_cnt_error = pos 0;
        packet_count = 0;
        outoforder_packets = 0;
        cnt_error = 0;
      }
      ∷ [];
}

iperf_print_intermediate-sums_example :
    (ls : List Line) × (iperf_print_intermediate two_streams false (measured ∷ measured ∷ [])
      ≡ some ls)
    × (count_of is_interval_sum ls
        ≡ (if has_several two_streams && all_measured (measured ∷ measured ∷ []) then 1 else 0))
    × (bytes_of is_interval_sum true ls ≡ (
        if has_several two_streams && all_measured (measured ∷ measured ∷ [])
        then bytes_of is_interval true ls
        else 0))
iperf_print_intermediate-sums_example =
    iperf_print_intermediate-sums two_streams false measured (measured ∷ [])

bytes_told : Option (List Line) → ℕ
bytes_told none = 0
bytes_told (some ls) = bytes_of is_interval_sum true ls

-- The sum of two times 40 bytes.
test-interval_sum :
    bytes_told (iperf_print_intermediate two_streams false (measured ∷ measured ∷ [])) ≡ 80
unfolding bytes_told iperf_print_intermediate bytes_of print_streams print_interval_results
test-interval_sum = refl

iperf_print_results-exchanged_example :
    (ls ms : List Line) × ((let r =
          get_results sending_test sent_streams (send_results iperf_new_test received_streams) in
        iperf_print_results r.1 r.2)
      ≡ some ls)
    × ((let r =
            get_results iperf_new_test received_streams (send_results sending_test sent_streams) in
          iperf_print_results r.1 r.2)
        ≡ some ms)
    × (column sending_test sent_by ls ≡ all_sent sent_streams)
    × (column iperf_new_test sent_by ms ≡ all_sent sent_streams)
    × (column sending_test received_by ls ≡ all_received received_streams)
    × (column iperf_new_test received_by ms ≡ all_received received_streams)
iperf_print_results-exchanged_example =
    iperf_print_results-exchanged sending_test iperf_new_test
      (record blank { id = 1; bytes_sent = 40 }) (record blank { id = 1; bytes_received = 40 })
      (record blank { id = 3; bytes_sent = 20 } ∷ [])
      (record blank { id = 3; bytes_received = 20 } ∷ []) refl refl refl refl
      (refl, (refl, tt), (refl, tt, tt))
