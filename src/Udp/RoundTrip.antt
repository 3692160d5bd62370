-- ===== src/Udp/RoundTrip.antt =====
-- A datagram is read as it is written.
use wifitesttool.Base.{
  ℕ, ◌-◌, ◌^◌, ◌≤◌, ◌<◌, ◌≡◌, refl, ap, ◌∙◌, true, false, some, List, [], ◌∷◌, length, length-drop,
  leb, arith, ◌==◌, subst,
}
use wifitesttool.Base.Int.{pos}
use wifitesttool.Net.{Arrival, got, htonl_bytes, nread, nread_loop}
use wifitesttool.Net.Framing.{ntohl-htonl}
use wifitesttool.Streams.{Stream, note_received}
use wifitesttool.Timer.{Timeval}
use wifitesttool.Udp.{udp_read_by, count_packet, pcount_of, put_header, iperf_udp_recv, filled}

length-put_header :
    (before : Timeval) (p : ℕ) (buffer : List ℕ)
    → 12 ≤ length buffer
    → length (put_header before p buffer) ≡ length buffer
unfolding put_header htonl_bytes
length-put_header before p buffer h = omega (arith, length-drop 12 buffer)

-- Nothing is left to read.
last_read :
    (bs : List ℕ) (rest : List Arrival)
    → nread_loop (length bs) 0 bs rest
      ≡ some (record { ret = pos (length bs); buf = bs; rest = rest })
unfolding nread_loop
last_read bs [] = (let z : length bs - 0 ≡ length bs = omega arith in rw (z) refl)
last_read bs (a ∷ rest) = (let z : length bs - 0 ≡ length bs = omega arith in rw (z) refl)

-- A datagram that arrives whole fills the buffer by itself.
nread_whole :
    (bs : List ℕ) (rest : List Arrival)
    → 0 < length bs
    → nread (length bs) (got bs ∷ rest)
      ≡ some (record { ret = pos (length bs); buf = bs; rest = rest })
unfolding nread nread_loop
nread_whole bs rest h =
    let e : (length bs == 0) ≡ false = grind arith in
    let f : leb (length bs) (length bs) ≡ true = grind arith in
    let g : length bs - length bs ≡ 0 = omega arith in
    rw (e, nread_loop) (rw (e) (rw (f) (rw (g) (last_read bs rest))))

pcount_of-put_header :
    (before : Timeval) (p : ℕ) (buffer old : List ℕ)
    → p < 2 ^ 32
    → pcount_of (filled (put_header before p buffer) old) ≡ p
unfolding put_header htonl_bytes
pcount_of-put_header before p buffer old h = ntohl-htonl p h

-- A datagram of at least 12 bytes whose header has the number `p` below 2 ^ 31, and which arrives whole at a
-- receiver with the same block size, is received whole and counted under `p`.
pub iperf_udp_recv-put_header :
    (before : Timeval) (p : ℕ) (buffer old : List ℕ) (sp : Stream) (rest : List Arrival)
    → p < 2 ^ 31
    → 12 ≤ length buffer
    → iperf_udp_recv sp (length buffer) old (got (put_header before p buffer) ∷ rest)
      ≡ some (
        pos (length buffer),
        count_packet p (note_received (pos (length buffer)) sp),
        filled (put_header before p buffer) old,
        rest,
      )
unfolding iperf_udp_recv
iperf_udp_recv-put_header before p buffer old sp rest h k =
    let l = length-put_header before p buffer k in
    let e =
      subst
        (λ n.
          nread n (got (put_header before p buffer) ∷ rest)
          ≡ some (record { ret = pos n; buf = put_header before p buffer; rest = rest }))
        l (nread_whole (put_header before p buffer) rest (omega (arith, l, k))) in
    ap (udp_read_by sp old) e
    ∙ ap
        (λ n. some (
          pos (length buffer),
          count_packet n (note_received (pos (length buffer)) sp),
          filled (put_header before p buffer) old,
          rest,
        ))
        (pcount_of-put_header before p buffer old (omega (arith, h)))
