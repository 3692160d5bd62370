-- ===== src/Examples/Runs.antt =====
-- A TCP sender with one stream and a rate, which omits its first block.
use wifitesttool.Base.{arith, subst, ℕ, ◌≡◌, refl, true, false, Option, none, some, [], ◌∷◌}
use wifitesttool.Base.Int.{ℤ, pos}
use wifitesttool.Net.{nwrite, wrote}
use wifitesttool.Sending.{iperf_check_throttle, iperf_send}
use wifitesttool.Sending.Balance.{IsAccounted}
use wifitesttool.Sending.Pace.{PacedAt, iperf_send-IsPaced}
use wifitesttool.Sending.Rate.{IsPaced, SendsUpTo}
use wifitesttool.Sending.Protocols.{Wire, tcp}
use wifitesttool.Sending.Steps.{Step, sends, reports, omit_ends, here, next, Reach-IsAccounted}
use wifitesttool.Sending.Accounts.{total}
use wifitesttool.Streams.{
  iperf_tcp_send, note_sent, timeval_diff, Stream, Running, iperf_add_stream, iperf_stats_callback,
  omit_timer_proc,
}
use wifitesttool.Test.{Test, iperf_new_test}
use wifitesttool.Timer.{Timeval}

abbrev pub at : ℕ → Timeval
at s = record { sec = s; usec = 0 }

abbrev pub blank : Stream
blank = record {
  id = 0;
  socket = 7;
  green_light = true;
  packet_count = 0;
  omitted_packet_count = 0;
  outoforder_packets = 0;
  cnt_error = 0;
  bytes_received = 0;
  bytes_sent = 0;
  bytes_received_this_interval = 0;
  bytes_sent_this_interval = 0;
  stream_retrans = pos 0;
  start_time = at 1;
  end_time = at 0;
  intervals = [];
}

abbrev paced : Test
paced = record iperf_new_test {
  sender = true;
  settings = record iperf_new_test.settings { rate = 100; burst = pos 0 };
}

abbrev beginning : Running
beginning = record {
  test = paced;
  omitting = true;
  streams = iperf_add_stream blank [];
  write_set = [];
}

abbrev full : Wire
full = record { arrivals = []; rooms = wrote 2 ∷ wrote 2 ∷ [] }

abbrev clock : Wire → Timeval × Wire
clock w = (at 2, w)

abbrev after : Running × Wire → Option (ℤ × Running × Wire) → Running × Wire
after s none = s
after s (some (n, r, w)) = (r, w)

abbrev send_once : Running × Wire → Running × Wire
send_once s = after s (iperf_send (tcp false (97 ∷ 98 ∷ []) 4).send clock none (at 2) s.0 s.1)

abbrev one : Running × Wire
one = send_once (beginning, full)

abbrev two : Running × Wire
two = (iperf_stats_callback (at 2) one.0, one.1)

abbrev three : Running × Wire
three = (omit_timer_proc (at 3) two.0, two.1)

abbrev four : Running × Wire
four = send_once three

beginning-IsAccounted : IsAccounted beginning
unfolding iperf_add_stream total
beginning-IsAccounted = record { counted = refl; balanced = (refl, tt) }

first_send : Step (tcp false (97 ∷ 98 ∷ []) 4) clock (beginning, full) one
unfolding tcp iperf_send iperf_tcp_send iperf_add_stream nwrite
first_send = sends none (at 2) beginning one.0 full one.1 (pos 0) refl refl

second_send : Step (tcp false (97 ∷ 98 ∷ []) 4) clock three four
unfolding tcp iperf_send iperf_tcp_send iperf_add_stream omit_timer_proc iperf_stats_callback nwrite
    iperf_check_throttle timeval_diff
second_send = sends none (at 2) three.0 four.0 three.1 four.1 (pos 0) refl refl

test-bytes : four.0.test.bytes_sent ≡ 2
unfolding tcp iperf_send iperf_tcp_send iperf_add_stream omit_timer_proc iperf_stats_callback nwrite
    iperf_check_throttle timeval_diff
test-bytes = refl

Reach-IsAccounted_example : IsAccounted (iperf_stats_callback (at 4) four.0)
unfolding tcp iperf_send iperf_tcp_send iperf_add_stream omit_timer_proc iperf_stats_callback nwrite
    iperf_check_throttle timeval_diff
Reach-IsAccounted_example =
    Reach-IsAccounted (tcp false (97 ∷ 98 ∷ []) 4) clock
      (next
        (next
          (next (next (next here first_send) (reports (at 2) one.0 one.1))
            (omit_ends (at 3) two.0 two.1 refl))
          second_send)
        (reports (at 4) four.0 four.1))
      beginning-IsAccounted

-- A socket that always takes two bytes.
abbrev steady : Stream → Wire → Option (ℤ × Stream × Wire)
steady sp w = some (pos 2, note_sent (pos 2) sp, w)

abbrev SentTwo : Stream → Option (ℤ × Stream × Wire) → Type 0
SentTwo sp none = Unit
SentTwo sp (some (n, sp', w)) = SendsUpTo 2 n sp sp'

steady-SendsUpTo :
    (sp sp' : Stream) (w w' : Wire) (n : ℤ) → steady sp w ≡ some (n, sp', w') → SendsUpTo 2 n sp sp'
steady-SendsUpTo sp sp' w w' n e =
    subst (SentTwo sp) e
      (record { moved = refl; at_most = omega arith; same_start = refl; same_light = refl })

beginning-IsPaced : IsPaced 100 2 (at 1) (record blank { id = 1 })
unfolding timeval_diff
beginning-IsPaced = record {
  started = omega arith;
  bounded = omega arith;
  green = λ e. omega arith;
}

iperf_send-IsPaced_example : PacedAt 2 (at 2) (iperf_send steady clock none (at 0) beginning full)
unfolding iperf_add_stream
iperf_send-IsPaced_example =
    iperf_send-IsPaced 2 steady steady-SendsUpTo clock none (at 1) (at 0) beginning full refl refl
      (omega arith) (beginning-IsPaced, tt)
