-- ===== src/Report/Exchanged.antt =====
-- The summaries of the two sides of a test, once each has the results of the other.
use wifitesttool.Base.{
  ℕ, ◌≡◌, refl, true, false, not, some, List, [], ◌∷◌, ap, subst, sym, ◌∙◌, arith, ◌==◌,
}
use wifitesttool.Report.{Line, is_stream_protocol}
use wifitesttool.Report.Final.{iperf_print_results}
use wifitesttool.Report.Summary.{
  is_in, Column, sent_by, received_by, column, all_sent, all_received, iperf_print_results-column,
  iperf_print_results-some,
}
use wifitesttool.Report.Sums.{bytes_of}
use wifitesttool.Results.{send_results, get_results}
use wifitesttool.Results.Exchange.{
  Differ, Match, exchanged, informed, learned, get_results-exchanged,
}
use wifitesttool.Streams.{Stream}
use wifitesttool.Test.{Test}

-- Once exchanged, the sender's streams have their own bytes sent and the partner's bytes received.
exchanged-sender :
    (u : Test) (xs bs : List Stream)
    → Match xs bs
    → (all_sent (exchanged true u xs bs) ≡ all_sent xs)
      × (all_received (exchanged true u xs bs) ≡ all_received bs)
unfolding all_sent all_received
exchanged-sender u [] [] m = (refl, refl)
exchanged-sender u [] (b ∷ bs) m = absurd m
exchanged-sender u (a ∷ xs) [] m = absurd m
exchanged-sender u (a ∷ xs) (b ∷ bs) m =
    let (e, f) = exchanged-sender u xs bs m.2 in (omega (arith, e), omega (arith, f))

exchanged-receiver :
    (u : Test) (xs bs : List Stream)
    → Match xs bs
    → (all_sent (exchanged false u xs bs) ≡ all_sent bs)
      × (all_received (exchanged false u xs bs) ≡ all_received xs)
unfolding all_sent all_received
exchanged-receiver u [] [] m = (refl, refl)
exchanged-receiver u [] (b ∷ bs) m = absurd m
exchanged-receiver u (a ∷ xs) [] m = absurd m
exchanged-receiver u (a ∷ xs) (b ∷ bs) m =
    let (e, f) = exchanged-receiver u xs bs m.2 in (omega (arith, e), omega (arith, f))

informed-protocol : (t u : Test) → (informed t u).protocol ≡ t.protocol
informed-protocol t u = ground arith

-- The bytes that a summary tells of the streams.
summary_bytes :
    (t : Test) (sps : List Stream) (ls : List Line)
    → is_stream_protocol t.protocol ≡ true
    → iperf_print_results t sps ≡ some ls
    → (column t sent_by ls ≡ all_sent sps) × (column t received_by ls ≡ all_received sps)
summary_bytes t sps ls p h =
    let of : (c : Column) → _ = λ c. iperf_print_results-column t sps ls c h in
    (grind (arith, of sent_by, p), grind (arith, of received_by, p))

informed-column :
    (t u : Test) (c : Column) (ls : List Line) → column (informed t u) c ls ≡ column t c ls
informed-column t u c ls = ap (λ json. bytes_of (is_in c) json ls) (ground arith)

one_side :
    (t u : Test) (xs bs : List Stream) (ls : List Line)
    → u.sender ≡ not t.sender
    → is_stream_protocol t.protocol ≡ true
    → Match xs bs
    → (let r = get_results t xs (send_results u bs) in iperf_print_results r.1 r.2) ≡ some ls
    → (column t sent_by ls ≡ all_sent (exchanged t.sender u xs bs))
      × (column t received_by ls ≡ all_received (exchanged t.sender u xs bs))
one_side t u xs bs ls d p m h =
    let sps = exchanged t.sender u xs bs in
    let (e, f) =
      summary_bytes (informed t u) sps ls (ap is_stream_protocol (informed-protocol t u) ∙ p)
        (ap (λ r. iperf_print_results r.1 r.2) (sym (get_results-exchanged t u xs bs d m)) ∙ h) in
    (sym (informed-column t u sent_by ls) ∙ e, sym (informed-column t u received_by ls) ∙ f)

Differ-along : (k : ℕ) (xs bs : List Stream) → Match xs bs → Differ k bs → Differ k xs
Differ-along k [] [] m d = d
Differ-along k [] (b ∷ bs) m d = absurd m
Differ-along k (a ∷ xs) [] m d = absurd m
Differ-along k (a ∷ xs) (b ∷ bs) m d =
    (subst (λ x. (k == x) ≡ false) (sym (m.0)) d.0, Differ-along k xs bs m.2 d.1)

Match-sym : (xs bs : List Stream) → Match xs bs → Match bs xs
Match-sym [] [] m = m
Match-sym [] (b ∷ bs) m = absurd m
Match-sym (a ∷ xs) [] m = absurd m
Match-sym (a ∷ xs) (b ∷ bs) m = (
  sym (m.0),
  subst (λ k. Differ k xs) (m.0) (Differ-along a.id xs bs m.2 m.1),
  Match-sym xs bs m.2,
)

one_summary :
    (t u : Test) (x b : Stream) (xs bs : List Stream)
    → u.sender ≡ not t.sender
    → Match (x ∷ xs) (b ∷ bs)
    → (ls : List Line) × ((let r = get_results t (x ∷ xs) (send_results u (b ∷ bs)) in
          iperf_print_results r.1 r.2)
        ≡ some ls)
one_summary t u x b xs bs d m =
    let (ls, h) =
      iperf_print_results-some (informed t u) (learned t.sender u x b)
        (exchanged t.sender u xs bs) in
    (
      ls,
      ap (λ r. iperf_print_results r.1 r.2) (get_results-exchanged t u (x ∷ xs) (b ∷ bs) d m) ∙ h,
    )

-- Where a sender `t` and a receiver `u` of TCP or SCTP, with the same streams by their ids, one at least,
-- exchange their results, both have a summary, and both summaries tell the bytes that `t` has sent and the bytes
-- that `u` has received.
pub iperf_print_results-exchanged :
    (t u : Test) (x b : Stream) (xs bs : List Stream)
    → t.sender ≡ true
    → u.sender ≡ false
    → is_stream_protocol t.protocol ≡ true
    → is_stream_protocol u.protocol ≡ true
    → Match (x ∷ xs) (b ∷ bs)
    → (ls ms : List Line) × ((let r = get_results t (x ∷ xs) (send_results u (b ∷ bs)) in
          iperf_print_results r.1 r.2)
        ≡ some ls)
      × ((let r = get_results u (b ∷ bs) (send_results t (x ∷ xs)) in iperf_print_results r.1 r.2)
          ≡ some ms)
      × (column t sent_by ls ≡ all_sent (x ∷ xs))
      × (column u sent_by ms ≡ all_sent (x ∷ xs))
      × (column t received_by ls ≡ all_received (b ∷ bs))
      × (column u received_by ms ≡ all_received (b ∷ bs))
iperf_print_results-exchanged t u x b xs bs a c p q m =
    let m' = Match-sym (x ∷ xs) (b ∷ bs) m in
    let (ls, h) = one_summary t u x b xs bs (c ∙ ap not (sym a)) m in
    let (ms, k) = one_summary u t b x bs xs (a ∙ ap not (sym c)) m' in
    let (e, f) = one_side t u (x ∷ xs) (b ∷ bs) ls (c ∙ ap not (sym a)) p m h in
    let (e', f') = one_side u t (b ∷ bs) (x ∷ xs) ms (a ∙ ap not (sym c)) q m' k in
    let (g, i) = exchanged-sender u (x ∷ xs) (b ∷ bs) m in
    let (g', i') = exchanged-receiver t (b ∷ bs) (x ∷ xs) m' in
    let by_t = ap (λ s. exchanged s u (x ∷ xs) (b ∷ bs)) a in
    let by_u = ap (λ s. exchanged s t (b ∷ bs) (x ∷ xs)) c in
    (
      ls,
      ms,
      h,
      k,
      e ∙ ap all_sent by_t ∙ g,
      e' ∙ ap all_sent by_u ∙ g',
      f ∙ ap all_received by_t ∙ i,
      f' ∙ ap all_received by_u ∙ i',
    )
