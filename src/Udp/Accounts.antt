-- ===== src/Udp/Accounts.antt =====
-- What the counts of a UDP stream say of the datagrams that it has received.
use wifitesttool.Base.{ℕ, ◌^◌, ◌≤◌, ◌+◌, ◌<◌, ◌≡◌, refl, sym, ◌∙◌, List, [], ◌∷◌, length, arith}
use wifitesttool.Streams.{Stream}
use wifitesttool.Udp.{count_packet}

-- Datagrams with these numbers, one after the other.
unfoldable pub count_packets : List ℕ → Stream → Stream
count_packets [] sp = sp
count_packets (p ∷ ps) sp = count_packets ps (count_packet p sp)

-- The counts are ints that are not negative, and no more datagrams are lost than were sent.
pub record AreCounts (sp : Stream) : Type 0 where
  pub packet_count : sp.packet_count < 2 ^ 31
  pub outoforder_packets : sp.outoforder_packets < 2 ^ 31
  pub cnt_error : sp.cnt_error ≤ sp.packet_count

-- Each number is an int.
pub data AreInts : List ℕ → Type 0 where
  no_more : AreInts []
  int_and : {p : ℕ} {ps : List ℕ} → p < 2 ^ 31 → AreInts ps → AreInts (p ∷ ps)

record Counts (sp sp' : Stream) : Type 0 where
  pub sums :
      sp'.cnt_error + 1 + sp.packet_count + sp.outoforder_packets
      ≡ sp.cnt_error + sp'.packet_count + sp'.outoforder_packets
  pub late : sp'.outoforder_packets ≤ sp.outoforder_packets + 1
  pub packets : sp'.packet_count < 2 ^ 31
  pub errors : sp'.cnt_error ≤ sp'.packet_count

count_one :
    (p : ℕ) (sp : Stream)
    → AreCounts sp
    → p < 2 ^ 31
    → sp.outoforder_packets + 1 < 2 ^ 31
    → Counts sp (count_packet p sp)
unfolding count_packet
count_one p sp h b o =
    let c = h.packet_count in
    let l = h.cnt_error in
    record {
      sums = grind (arith, c, l);
      late = grind (arith, c, l);
      packets = grind (arith, c, l);
      errors = grind (arith, c, l);
    }

-- After a datagram that does not come late.
record Above (p : ℕ) (sp sp' : Stream) : Type 0 where
  pub packet_count : sp'.packet_count ≡ p
  pub errors : sp'.cnt_error ≤ sp'.packet_count
  pub sums : sp'.cnt_error + 1 + sp.packet_count ≡ sp.cnt_error + p
  pub in_order : sp'.outoforder_packets ≡ sp.outoforder_packets

count-Above :
    (p : ℕ) (sp : Stream)
    → sp.packet_count < 2 ^ 31
    → sp.cnt_error ≤ sp.packet_count
    → sp.packet_count < p
    → p < 2 ^ 31
    → Above p sp (count_packet p sp)
unfolding count_packet
count-Above p sp c l h b = record {
  packet_count = grind (arith, c, l);
  errors = grind (arith, c, l);
  sums = grind (arith, c, l);
  in_order = grind (arith, c, l);
}

AreCounts-one :
    (p : ℕ) (sp : Stream)
    → AreCounts sp
    → p < 2 ^ 31
    → sp.outoforder_packets + 1 < 2 ^ 31
    → AreCounts (count_packet p sp)
AreCounts-one p sp h b o =
    let c = count_one p sp h b o in
    record {
      packet_count = c.packets;
      outoforder_packets = omega (arith, c.late, o);
      cnt_error = c.errors;
    }

-- Where the numbers of the datagrams and the counts of the stream fit into an int, also with one more out of order
-- for each datagram, and no more are lost so far than the highest number: whatever datagrams arrive, in whatever
-- order and however often, the lost ones and those received are as many as the highest number and the late ones, as
-- both sums grow alike.
pub count_packets-sum :
    (ps : List ℕ) (sp : Stream)
    → AreCounts sp
    → AreInts ps
    → sp.outoforder_packets + length ps < 2 ^ 31
    → (count_packets ps sp).cnt_error + length ps + sp.packet_count + sp.outoforder_packets
      ≡ sp.cnt_error + (count_packets ps sp).packet_count + (count_packets ps sp).outoforder_packets
unfolding count_packets
count_packets-sum [] sp h b o = omega arith
count_packets-sum (p ∷ ps) sp h (int_and a b) o =
    let o' : sp.outoforder_packets + 1 < 2 ^ 31 = omega (arith, o) in
    let c = count_one p sp h a o' in
    omega (
      arith,
      c.sums,
      count_packets-sum ps (count_packet p sp) (AreCounts-one p sp h a o') b
          (omega (arith, c.late, o)),
    )

-- Each number is above the one before it, the first above `n`, and they are ints.
pub data IsRising : ℕ → List ℕ → Type 0 where
  end : {n : ℕ} → IsRising n []
  more : {n p : ℕ} {ps : List ℕ} → n < p → p < 2 ^ 31 → IsRising p ps → IsRising n (p ∷ ps)

rising_counts :
    (ps : List ℕ) (sp : Stream) (n : ℕ)
    → n ≡ sp.packet_count
    → sp.packet_count < 2 ^ 31
    → sp.cnt_error ≤ sp.packet_count
    → IsRising n ps
    → ((count_packets ps sp).cnt_error + length ps + sp.packet_count
        ≡ sp.cnt_error + (count_packets ps sp).packet_count)
      × ((count_packets ps sp).outoforder_packets ≡ sp.outoforder_packets)
unfolding count_packets
rising_counts [] sp n e c l end = (omega arith, refl)
rising_counts (p ∷ ps) sp n e c l (more h b r) =
    let a = count-Above p sp c l (omega (arith, e, h)) b in
    let (f, g) =
      rising_counts ps (count_packet p sp) p (sym a.packet_count) (omega (arith, a.packet_count, b))
        (omega (arith, a.packet_count, a.errors)) r in
    (omega (arith, f, a.sums, a.packet_count), g ∙ a.in_order)

-- Where the numbers are ints, and the lost datagrams so far not more than the number so far: if datagrams are lost
-- but none comes late or twice, the count of errors grows by the numbers that are left out, and no datagram counts
-- as out of order.
pub count_packets-lost :
    (ps : List ℕ) (sp : Stream)
    → sp.packet_count < 2 ^ 31
    → sp.cnt_error ≤ sp.packet_count
    → IsRising sp.packet_count ps
    → ((count_packets ps sp).cnt_error + length ps + sp.packet_count
        ≡ sp.cnt_error + (count_packets ps sp).packet_count)
      × ((count_packets ps sp).outoforder_packets ≡ sp.outoforder_packets)
count_packets-lost ps sp c l r = rising_counts ps sp sp.packet_count refl c l r
