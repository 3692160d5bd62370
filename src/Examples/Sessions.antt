-- ===== src/Examples/Sessions.antt =====
-- A client asks for two streams, and has sent its cookie.
use wifitesttool.Base.{ℕ, refl, Bool, true, none, some}
use wifitesttool.Base.Int.{pos}
use wifitesttool.Control.{ret, Next, out_of_turns}
use wifitesttool.Control.Client.{iperf_run_client}
use wifitesttool.Control.Refused.{cannot_listen, greeting, refusal, every_run-refusal}
use wifitesttool.Control.Schedules.{Session, Run, stop, then_, step}
use wifitesttool.Control.Session.{all_well}
use wifitesttool.Control.Whole.{start, finish, every_run-finish}
use wifitesttool.Error.{iestreamlisten}
use wifitesttool.Params.Received.{Received}
use wifitesttool.Test.{Test, iperf_new_test}

abbrev two_streams : Test
two_streams = record iperf_new_test { num_streams = pos 2 }

-- The server takes what the client says.
abbrev take_all : Test → Test → Test
take_all c s = c

two_streams-Received : Received two_streams two_streams (take_all two_streams two_streams)
two_streams-Received = record {
  protocol = refl;
  omit = refl;
  server_affinity = refl;
  duration = refl;
  num_streams = refl;
  no_delay = refl;
  reverse = refl;
  sender = refl;
  bytes = refl;
  blocks = refl;
  mss = refl;
  socket_bufsize = refl;
  blksize = refl;
  rate = refl;
  burst = refl;
  tos = refl;
  flowlabel = refl;
  title = refl;
  congestion = refl;
}

abbrev first : Session
first = start take_all iestreamlisten 0 two_streams two_streams 0 0

abbrev stepped : Bool → Session → Session
stepped who s = elim (step all_well all_well who s) [ none ↦ s | some t ↦ t ]

greeted : Run all_well all_well 2 first (stepped true (stepped true first))
unfolding step iperf_run_client
greeted = then_ true refl (then_ true refl stop)

every_run-finish_example :
    (m : ℕ) × Run all_well all_well m
      (stepped true (stepped true first))
      (finish take_all iestreamlisten 0 two_streams two_streams 0 0 two_streams-Received 1 refl)
unfolding step
every_run-finish_example =
    every_run-finish take_all iestreamlisten 0 two_streams two_streams 0 0 two_streams-Received 1
      refl 2 (stepped true (stepped true first)) greeted

abbrev done_here : Next
done_here p = ret out_of_turns

every_run-refusal_example :
    (m : ℕ) × Run all_well cannot_listen m
      (greeting take_all iestreamlisten 98 two_streams two_streams 0 done_here)
      (refusal take_all iestreamlisten 98 two_streams two_streams 0 done_here)
every_run-refusal_example =
    every_run-refusal take_all iestreamlisten 98 two_streams two_streams 0 done_here 0
      (greeting take_all iestreamlisten 98 two_streams two_streams 0 done_here) stop
