-- ===== src/Report/Summary.antt =====
-- The bytes in the summary at the end of a test: those of its streams, and the sums those of the lines.
use mathlib.Core.Option.{some-injective, none-ne-some}
use wifitesttool.Base.{
  ℕ, ◌+◌, ◌≡◌, refl, Bool, true, false, not, some, List, [], ◌∷◌, ◌++◌, if◌then◌else◌, ap, sym, ◌∙◌,
  arith,
}
use wifitesttool.Report.{
  Kind, sent, received, datagrams, datagrams_sum, sum_sent, sum_received, Line, has_several,
  is_stream_protocol,
}
use wifitesttool.Report.Final.{
  FinalTotals, add_stream, stream_lines, final_streams, final_sums, no_totals, iperf_print_results,
}
use wifitesttool.Report.Sums.{bytes_of, bytes_of-append}
use wifitesttool.Streams.{Stream, timeval_diff}
use wifitesttool.Test.{Test}

-- The columns of a summary, by stream and in all.
pub data Column : Type 0 where
  sent_by received_by datagrams_by sent_in_all received_in_all datagrams_in_all : Column

abbrev pub is_in : Column → Kind → Bool
is_in sent_by sent = true
is_in received_by received = true
is_in datagrams_by datagrams = true
is_in sent_in_all sum_sent = true
is_in received_in_all sum_received = true
is_in datagrams_in_all datagrams_sum = true
is_in _ _ = false

-- The bytes in a column, in the format of the test.
abbrev pub column : Test → Column → List Line → ℕ
column t c ls = bytes_of (is_in c) t.json_output ls

unfoldable pub all_sent : List Stream → ℕ
all_sent [] = 0
all_sent (sp ∷ sps) = sp.bytes_sent + all_sent sps

unfoldable pub all_received : List Stream → ℕ
all_received [] = 0
all_received (sp ∷ sps) = sp.bytes_received + all_received sps

abbrev pub when : Bool → ℕ → ℕ
when b n = if b then n else 0

-- What a summary has in each column for `s` bytes sent and `r` bytes received.
abbrev pub by_stream : Test → ℕ → ℕ → Column → ℕ
by_stream t s r sent_by = when (is_stream_protocol t.protocol) s
by_stream t s r received_by = when (is_stream_protocol t.protocol) r
by_stream t s r datagrams_by = when (not (is_stream_protocol t.protocol)) s
by_stream t s r _ = 0

abbrev pub in_all : Test → ℕ → ℕ → Column → ℕ
in_all t s r sent_in_all = when (is_stream_protocol t.protocol) s
in_all t s r received_in_all = when (is_stream_protocol t.protocol) r
in_all t s r datagrams_in_all = when (not (is_stream_protocol t.protocol)) s
in_all t s r _ = 0

column-append :
    (t : Test) (c : Column) (ls ms : List Line) (m n : ℕ)
    → column t c ls ≡ m
    → column t c ms ≡ n
    → column t c (ls ++ ms) ≡ m + n
column-append t c ls ms m n g h = omega (arith, bytes_of-append (is_in c) t.json_output ls ms, g, h)

when-add : (b : Bool) (m n : ℕ) → when b m + when b n ≡ when b (m + n)
when-add true m n = refl
when-add false m n = refl

by_stream-add :
    (t : Test) (s r s' r' : ℕ) (c : Column)
    → by_stream t s r c + by_stream t s' r' c ≡ by_stream t (s + s') (r + r') c
by_stream-add t s r s' r' sent_by = when-add (is_stream_protocol t.protocol) s s'
by_stream-add t s r s' r' received_by = when-add (is_stream_protocol t.protocol) r r'
by_stream-add t s r s' r' datagrams_by = when-add (not (is_stream_protocol t.protocol)) s s'
by_stream-add t s r s' r' sent_in_all = refl
by_stream-add t s r s' r' received_in_all = refl
by_stream-add t s r s' r' datagrams_in_all = refl

by_stream-zero : (t : Test) (c : Column) → 0 ≡ by_stream t 0 0 c
by_stream-zero t c = ground arith

stream_lines-column :
    (t : Test) (n : ℕ) (sp : Stream) (c : Column)
    → column t c (stream_lines t n sp) ≡ by_stream t sp.bytes_sent sp.bytes_received c
unfolding bytes_of
stream_lines-column t n sp c = ground arith

final_sums-column :
    (t : Test) (n : ℕ) (s : FinalTotals) (c : Column)
    → column t c (final_sums t n s) ≡ in_all t s.total_sent s.total_received c
unfolding bytes_of
final_sums-column t n s c = ground arith

final_streams-column :
    (t : Test) (n : ℕ) (sps : List Stream) (s : FinalTotals) (c : Column)
    → column t c (final_streams t n sps s).0 ≡ by_stream t (all_sent sps) (all_received sps) c
unfolding final_streams bytes_of all_sent all_received
final_streams-column t n [] s c = by_stream-zero t c
final_streams-column t n (sp ∷ sps) s c =
    column-append t c (stream_lines t n sp) (final_streams t n sps (add_stream t sp s)).0
      (by_stream t sp.bytes_sent sp.bytes_received c)
      (by_stream t (all_sent sps) (all_received sps) c) (stream_lines-column t n sp c)
      (final_streams-column t n sps (add_stream t sp s) c)
    ∙ by_stream-add t sp.bytes_sent sp.bytes_received (all_sent sps) (all_received sps) c

-- The totals that go along.
final_streams-totals :
    (t : Test) (n : ℕ) (sps : List Stream) (s : FinalTotals)
    → ((final_streams t n sps s).1.total_sent ≡ s.total_sent + all_sent sps)
      × ((final_streams t n sps s).1.total_received ≡ s.total_received + all_received sps)
unfolding final_streams all_sent all_received
final_streams-totals t n [] s = (omega arith, omega arith)
final_streams-totals t n (sp ∷ sps) s =
    let (e, f) = final_streams-totals t n sps (add_stream t sp s) in
    (omega (arith, e), omega (arith, f))

sums_if-column :
    (t : Test) (n : ℕ) (several : Bool) (s : FinalTotals) (c : Column)
    → column t c (if several then final_sums t n s else [])
      ≡ when several (in_all t s.total_sent s.total_received c)
unfolding bytes_of
sums_if-column t n true s c = final_sums-column t n s c
sums_if-column t n false s c = refl

-- What a summary holds in each column.
pub iperf_print_results-column :
    (t : Test) (sps : List Stream) (ls : List Line) (c : Column)
    → iperf_print_results t sps ≡ some ls
    → column t c ls
      ≡ by_stream t (all_sent sps) (all_received sps) c
        + when (has_several t) (in_all t (all_sent sps) (all_received sps) c)
unfolding iperf_print_results
iperf_print_results-column t [] ls c h = absurd (none-ne-some ls h)
iperf_print_results-column t (sp ∷ sps) ls c h =
    let n = timeval_diff sp.start_time sp.end_time in
    let r = final_streams t n (sp ∷ sps) no_totals in
    let (e, f) = final_streams-totals t n (sp ∷ sps) no_totals in
    let sums = (if has_several t then final_sums t n r.1 else []) in
    ap (column t c) (sym (some-injective (r.0 ++ sums) ls h))
    ∙ column-append t c r.0 sums _ _ (final_streams-column t n (sp ∷ sps) no_totals c)
        (sums_if-column t n (has_several t) r.1 c)
    ∙ ap
        (λ x.
          by_stream t (all_sent (sp ∷ sps)) (all_received (sp ∷ sps)) c
          + when (has_several t) (in_all t x r.1.total_received c))
        (e ∙ omega arith)
    ∙ ap
        (λ x.
          by_stream t (all_sent (sp ∷ sps)) (all_received (sp ∷ sps)) c
          + when (has_several t) (in_all t (all_sent (sp ∷ sps)) x c))
        (f ∙ omega arith)

pub iperf_print_results-some :
    (t : Test) (sp : Stream) (sps : List Stream)
    → (ls : List Line) × (iperf_print_results t (sp ∷ sps) ≡ some ls)
unfolding iperf_print_results
iperf_print_results-some t sp sps = (_, refl)

-- The columns of the sums.
pub data Total : Type 0 where
  of_sent of_received of_datagrams : Total

abbrev is_total : Total → Kind → Bool
is_total of_sent = is_in sent_in_all
is_total of_received = is_in received_in_all
is_total of_datagrams = is_in datagrams_in_all

abbrev lines_of : Test → Total → ℕ
lines_of t of_datagrams = when (not (is_stream_protocol t.protocol)) 1
lines_of t _ = when (is_stream_protocol t.protocol) 1
