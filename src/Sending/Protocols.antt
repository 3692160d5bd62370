-- ===== src/Sending/Protocols.antt =====
-- The send and receive functions of a protocol, which `struct protocol` of iperf_jni/jni/iperf/src/iperf.h
-- holds (`send` and `recv`), and those of TCP and SCTP.
use wifitesttool.Base.{
  ℕ, ◌≡◌, refl, Bool, true, false, Option, none, some, List, if◌then◌else◌, subst, arith,
}
use wifitesttool.Base.Int.{ℤ, pos, negsuc}
use wifitesttool.Net.{Arrival, Room, ReadResult, WriteResult, nread, nwrite, nsendfile}
use wifitesttool.Sending.Accounts.{Counted}
use wifitesttool.Streams.{
  Stream, note_received, note_sent, written_by, read_by, iperf_tcp_recv, iperf_tcp_send,
  iperf_sctp_recv, iperf_sctp_send,
}

-- With what they count.
pub record Transfer (W : Type 0) : Type 0 where
  pub send : Stream → W → Option (ℤ × Stream × W)
  pub recv : Stream → W → Option (ℤ × Stream × W)
  pub send-Counted :
      (sp sp' : Stream) (w w' : W) (n : ℤ) → send sp w ≡ some (n, sp', w') → Counted true n sp sp'
  pub recv-Counted :
      (sp sp' : Stream) (w w' : W) (n : ℤ) → recv sp w ≡ some (n, sp', w') → Counted false n sp sp'

-- What the sockets take and give, one call after the other.
pub record Wire : Type 0 where
  pub arrivals : List Arrival
  pub rooms : List Room

note_sent-Counted : (n : ℤ) (sp : Stream) → Counted true n sp (note_sent n sp)
note_sent-Counted (pos n) sp = record {
  moved = refl;
  moved_now = refl;
  other_way = refl;
  intervals = refl;
}
note_sent-Counted (negsuc n) sp = ground arith

note_received-Counted : (n : ℤ) (sp : Stream) → Counted false n sp (note_received n sp)
note_received-Counted (pos n) sp = record {
  moved = refl;
  moved_now = refl;
  other_way = refl;
  intervals = refl;
}
note_received-Counted (negsuc n) sp = ground arith

abbrev pub put_rooms : Wire → Option (ℤ × Stream × List Room) → Option (ℤ × Stream × Wire)
put_rooms w none = none
put_rooms w (some (n, sp, rooms)) = some (n, sp, record w { rooms = rooms })

abbrev pub put_arrivals : Wire → Option (ℤ × Stream × List Arrival) → Option (ℤ × Stream × Wire)
put_arrivals w none = none
put_arrivals w (some (n, sp, arrivals)) = some (n, sp, record w { arrivals = arrivals })

-- Each of the functions gives the result of a call on the socket, and notes it.
abbrev pub NotedSent : Stream → Option (ℤ × Stream × Wire) → Type 0
NotedSent sp none = Unit
NotedSent sp (some (n, sp', w)) = Counted true n sp sp'

abbrev pub NotedReceived : Stream → Option (ℤ × Stream × Wire) → Type 0
NotedReceived sp none = Unit
NotedReceived sp (some (n, sp', w)) = Counted false n sp sp'

pub written_by-NotedSent :
    (w : Wire) (sp : Stream) (r : Option WriteResult) → NotedSent sp (put_rooms w (written_by sp r))
written_by-NotedSent w sp none = tt
written_by-NotedSent w sp (some r) = note_sent-Counted r.ret sp

pub read_by-NotedReceived :
    (w : Wire) (sp : Stream) (r : Option ReadResult)
    → NotedReceived sp (put_arrivals w (read_by sp r))
read_by-NotedReceived w sp none = tt
read_by-NotedReceived w sp (some r) = note_received-Counted r.ret sp

-- `iperf_tcp_send` and `iperf_tcp_recv` with the block `buffer` of the size `size`.
unfoldable pub tcp : Bool → List ℕ → ℕ → Transfer Wire
unfolding iperf_tcp_send iperf_tcp_recv
tcp zerocopy buffer size = record {
  send = λ sp w. put_rooms w (iperf_tcp_send zerocopy sp buffer w.rooms);
  recv = λ sp w. put_arrivals w (iperf_tcp_recv sp size w.arrivals);
  send-Counted = λ sp sp' w w' n e. subst (NotedSent sp) e (
      written_by-NotedSent w sp
        (if zerocopy then nsendfile buffer w.rooms else nwrite buffer w.rooms));
  recv-Counted = λ sp sp' w w' n e.
      subst (NotedReceived sp) e (read_by-NotedReceived w sp (nread size w.arrivals));
}

unfoldable pub sctp : List ℕ → ℕ → Transfer Wire
unfolding iperf_sctp_send iperf_sctp_recv
sctp buffer size = record {
  send = λ sp w. put_rooms w (iperf_sctp_send sp buffer w.rooms);
  recv = λ sp w. put_arrivals w (iperf_sctp_recv sp size w.arrivals);
  send-Counted =
      λ sp sp' w w' n e. subst (NotedSent sp) e (written_by-NotedSent w sp (nwrite buffer w.rooms));
  recv-Counted = λ sp sp' w w' n e.
      subst (NotedReceived sp) e (read_by-NotedReceived w sp (nread size w.arrivals));
}
