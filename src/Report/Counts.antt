-- ===== src/Report/Counts.antt =====
-- How many lines of a kind a report of iperf_jni/jni/iperf/src/iperf_api.c has, in either format.
use wifitesttool.Base.{
  ℕ, ◌+◌, ◌≡◌, refl, Bool, true, false, List, [], ◌∷◌, ◌++◌, if◌then◌else◌, Option-cases, inl, inr,
  ◌∙◌, arith,
}
use wifitesttool.Report.{
  Kind, interval_sum, Line, Totals, print_interval_results, add_interval, print_streams,
}
use wifitesttool.Streams.{Interval, Stream, last}
use wifitesttool.Test.{Test}

unfoldable pub count_of : (Kind → Bool) → List Line → ℕ
count_of is_kind [] = 0
count_of is_kind (l ∷ ls) = (if is_kind l.kind then 1 else 0) + count_of is_kind ls

pub count_of-append :
    (is_kind : Kind → Bool) (ls ms : List Line)
    → count_of is_kind (ls ++ ms) ≡ count_of is_kind ls + count_of is_kind ms
unfolding count_of
count_of-append is_kind [] ms = omega arith
count_of-append is_kind (l ∷ ls) ms = omega (arith, count_of-append is_kind ls ms)

abbrev pub is_interval_sum : Kind → Bool
is_interval_sum interval_sum = true
is_interval_sum _ = false

count_of-interval :
    (t : Test) (sp : Stream) (i : Interval)
    → count_of is_interval_sum (print_interval_results t sp i) ≡ 0
unfolding count_of print_interval_results
count_of-interval t sp i = ground arith

-- No sum stands among the lines of the streams.
pub count_of-print_streams :
    (t : Test) (sps : List Stream) (s : Totals)
    → count_of is_interval_sum (print_streams t sps s).0 ≡ 0
unfolding print_streams count_of
count_of-print_streams t [] s = refl
count_of-print_streams t (sp ∷ sps) s = elim (Option-cases (last sp.intervals)) [
  | inl e ↦ rw (e, print_streams) refl
  | inr (i, e) ↦
      let rest = print_streams t sps (add_interval t i s) in
      rw (e, print_streams)
        (count_of-append is_interval_sum (print_interval_results t sp i) rest.0
          ∙ omega
              (arith, count_of-interval t sp i, count_of-print_streams t sps (add_interval t i s)))
]
