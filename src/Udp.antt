-- ===== src/Udp.antt =====
-- UDP streams: iperf_udp_send and iperf_udp_recv of iperf_jni/jni/iperf/src/iperf_udp.c. Each datagram starts
-- with the time at which it is sent and its number, in 12 bytes. Jitter, which is a double, is left out.
pub mod Accounts
pub mod RoundTrip
use wifitesttool.Base.{
  ℕ, ◌+◌, ◌-◌, ◌%◌, ◌^◌, Bool, true, false, Option, none, some, List, [], ◌∷◌, ◌++◌, take, drop,
  length, ltb, leb, if◌then◌else◌,
}
use wifitesttool.Base.Int.{ℤ, pos, negsuc}
use wifitesttool.Net.{
  Arrival, Room, ReadResult, WriteResult, nread, nwrite, htonl_bytes, ntohl_bytes,
}
use wifitesttool.Streams.{Stream, note_received, note_sent}
use wifitesttool.Timer.{Timeval}

-- `int` and `uint32_t` arithmetic: `packet_count`, `cnt_error` and `outoforder_packets` are the 32 bits of an
-- int, so that 2 ^ 31 and more stand for the negative ones. Where INT_MAX + 1 is undefined in C it wraps around.
abbrev word : ℕ
word = 2 ^ 32

abbrev add32 : ℕ → ℕ → ℕ
add32 a b = (a + b) % word

abbrev sub32 : ℕ → ℕ → ℕ
sub32 a b = (a + word - b) % word

-- The numbers of lost and late datagrams, after one with the number `pcount`. The comparisons are those of
-- `uint32_t`.
unfoldable pub count_packet : ℕ → Stream → Stream
count_packet pcount sp =
    let next = add32 sp.packet_count 1 in
    if leb next pcount
    then record sp {
      cnt_error =
          if ltb next pcount
          then add32 sp.cnt_error (sub32 (sub32 pcount 1) sp.packet_count)
          else sp.cnt_error;
      packet_count = pcount;
    }
    else record sp { outoforder_packets = add32 sp.outoforder_packets 1 }

-- The number in a datagram, at the start of `sp->buffer`.
abbrev pub pcount_of : List ℕ → ℕ
pcount_of buffer = ntohl_bytes (take 4 (drop 8 buffer))

-- What has arrived stands over what was in the buffer.
abbrev pub filled : List ℕ → List ℕ → List ℕ
filled buf buffer = buf ++ drop (length buf) buffer

abbrev pub udp_read_by :
    Stream → List ℕ → Option ReadResult → Option (ℤ × Stream × List ℕ × List Arrival)
udp_read_by sp buffer none = none
udp_read_by sp buffer (some r) = elim r.ret [
  | negsuc n ↦ some (negsuc n, sp, filled r.buf buffer, r.rest)
  | pos n ↦
      let buffer' = filled r.buf buffer in
      some (pos n, count_packet (pcount_of buffer') (note_received (pos n) sp), buffer', r.rest)
]

-- With `sp->buffer`; `none` while the call blocks.
unfoldable pub iperf_udp_recv :
    Stream → ℕ → List ℕ → List Arrival → Option (ℤ × Stream × List ℕ × List Arrival)
iperf_udp_recv sp size buffer more = udp_read_by sp buffer (nread size more)

-- The header, over the first 12 bytes of the buffer.
unfoldable pub put_header : Timeval → ℕ → List ℕ → List ℕ
put_header before pcount buffer =
    htonl_bytes before.sec ++ htonl_bytes before.usec ++ htonl_bytes pcount ++ drop 12 buffer

abbrev pub udp_written_by :
    Stream → List ℕ → Option WriteResult → Option (ℤ × Stream × List ℕ × List Room)
udp_written_by sp buffer none = none
udp_written_by sp buffer (some r) = some (r.ret, note_sent r.ret sp, buffer, r.rest)

abbrev pub next_packet : Stream → Stream
next_packet sp = record sp { packet_count = add32 sp.packet_count 1 }

-- At the time `before`, with a buffer of the size of a block.
unfoldable pub iperf_udp_send :
    Timeval → Stream → List ℕ → List Room → Option (ℤ × Stream × List ℕ × List Room)
iperf_udp_send before sp buffer more =
    let sp' = next_packet sp in
    let buffer' = put_header before sp'.packet_count buffer in
    udp_written_by sp' buffer' (nwrite buffer' more)
