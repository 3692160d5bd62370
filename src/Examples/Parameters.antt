-- ===== src/Examples/Parameters.antt =====
-- A client of a UDP download sends its parameters to a server with the defaults.
use wifitesttool.Base.{ℕ, zero, suc, ◌≡◌, refl, true, some, List, [], ◌∷◌, ◌++◌, length, arith}
use mathlib.Core.List.{append-nil}
use wifitesttool.Base.Int.{pos}
use wifitesttool.Error.{ok}
use wifitesttool.Examples.Objects.{objects}
use wifitesttool.Net.{Arrival, got, Room, wrote, htonl_bytes}
use wifitesttool.Net.Framing.{frame}
use wifitesttool.Net.Reading.{stream}
use wifitesttool.Net.Writing.{Takes}
use wifitesttool.Params.{send_parameters, get_parameters, add_entries}
use wifitesttool.Params.Received.{Received, IsSendable}
use wifitesttool.Params.RoundTrip.{message, get_parameters-Received}
use wifitesttool.Test.{
  Test, client, server, pudp, iperf_new_test, iperf_defaults, iperf_set_test_role,
  iperf_set_test_reverse, set_protocol,
}

abbrev downloader : Test
downloader =
    record (set_protocol true pudp (
      iperf_set_test_reverse true true
        (iperf_set_test_role true client (iperf_defaults true iperf_new_test)))) {
          num_streams = pos 3;
          title = some (b't' ∷ []);
        }

abbrev fresh : Test
fresh = iperf_set_test_role true server (iperf_defaults true iperf_new_test)

downloader-IsSendable : IsSendable downloader
unfolding iperf_set_test_role iperf_set_test_reverse iperf_defaults set_protocol
downloader-IsSendable = record {
  omit = (omega arith, omega arith);
  server_affinity = (omega arith, omega arith);
  duration = (omega arith, omega arith);
  bytes = (omega arith, omega arith);
  blocks = (omega arith, omega arith);
  mss = (omega arith, omega arith);
  num_streams = (omega arith, omega arith);
  socket_bufsize = (omega arith, omega arith);
  blksize = (omega arith, omega arith);
  rate = (omega arith, omega arith);
  burst = (omega arith, omega arith);
  tos = (omega arith, omega arith);
  flowlabel = (omega arith, omega arith);
}

abbrev rooms : ℕ → List Room
rooms zero = []
rooms (suc n) = wrote 100 ∷ rooms n

rooms-Takes : (n : ℕ) → Takes (rooms n)
rooms-Takes zero = tt
rooms-Takes (suc n) = (omega arith, rooms-Takes n)

abbrev sent : List ℕ
sent = message objects downloader []

length-sent : length sent ≡ 54
unfolding iperf_set_test_role iperf_set_test_reverse iperf_defaults set_protocol add_entries
length-sent = refl

get_parameters_example :
    (left : List Room) × (rest : List Arrival) × (s' : Test) × (send_parameters objects downloader
        (rooms 400)
      ≡ some (ok, frame sent, left))
    × (get_parameters objects true (λ n. true) fresh (got (frame sent ++ 16 ∷ []) ∷ [])
        ≡ some (some (ok, s'), rest))
    × Received downloader fresh s'
    × (stream rest ≡ 16 ∷ [])
unfolding htonl_bytes
get_parameters_example =
    get_parameters-Received objects true (λ n. true) downloader fresh [] (rooms 400) (16 ∷ [])
      (got (frame sent ++ 16 ∷ []) ∷ []) refl downloader-IsSendable (rooms-Takes 400)
      (omega (arith, length-sent)) (omega (arith, length-sent)) refl (omega arith, tt)
      (append-nil _)
