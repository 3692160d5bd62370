-- ===== src/Report/Sums.antt =====
-- The lines of a report against each other: the bytes of a sum are those of the lines above it.
use mathlib.Core.Option.{some-injective, none-ne-some}
use wifitesttool.Base.{
  ℕ, ◌+◌, ◌≡◌, refl, Bool, true, false, not, ◌&&◌, Option, none, some, List, [], ◌∷◌, ◌++◌,
  if◌then◌else◌, is_some, Option-cases, Bool-cases, inl, inr, ap, subst, sym, ◌∙◌, arith,
}
use wifitesttool.Base.Int.{pos}
use wifitesttool.Report.{
  Kind, interval_sum_line, interval, Line, Totals, print_interval_results, add_interval,
  print_streams, interval_sum_of, append_to, with_sum, has_several, iperf_print_intermediate,
}
use wifitesttool.Report.Counts.{count_of, count_of-append, count_of-print_streams, is_interval_sum}
use wifitesttool.Streams.{Interval, Stream, last}
use wifitesttool.Test.{Test}

abbrev pub agree : Bool → Bool → Bool
agree true b = b
agree false b = not b

-- The bytes of the lines of a kind, those in JSON or those in text.
unfoldable pub bytes_of : (Kind → Bool) → Bool → List Line → ℕ
bytes_of is_kind json [] = 0
bytes_of is_kind json (l ∷ ls) =
    (if is_kind l.kind && agree l.in_json json then l.bytes else 0) + bytes_of is_kind json ls

pub bytes_of-append :
    (is_kind : Kind → Bool) (json : Bool) (ls ms : List Line)
    → bytes_of is_kind json (ls ++ ms) ≡ bytes_of is_kind json ls + bytes_of is_kind json ms
unfolding bytes_of
bytes_of-append is_kind json [] ms = omega arith
bytes_of-append is_kind json (l ∷ ls) ms = omega (arith, bytes_of-append is_kind json ls ms)

and-false : (n : ℕ) (b : Bool) → 0 ≡ (if b && false then n else 0)
and-false n true = refl
and-false n false = refl

abbrev pub is_interval : Kind → Bool
is_interval interval = true
is_interval _ = false

-- Each stream has an interval.
unfoldable pub all_measured : List Stream → Bool
all_measured [] = true
all_measured (sp ∷ sps) = is_some (last sp.intervals) && all_measured sps

interval_bytes :
    (t : Test) (sp : Stream) (i : Interval)
    → bytes_of is_interval t.json_output (print_interval_results t sp i) ≡ i.bytes_transferred
unfolding bytes_of print_interval_results
interval_bytes t sp i = ground arith

interval_no_sum :
    (t : Test) (sp : Stream) (i : Interval)
    → bytes_of is_interval_sum t.json_output (print_interval_results t sp i) ≡ 0
unfolding bytes_of print_interval_results
interval_no_sum t sp i = ground arith

-- The sums are given exactly where each stream has an interval, with the bytes of the lines and no sum among
-- them.
abbrev IsPrinted : Test → Bool → ℕ → List Line × Option Totals → Type 0
IsPrinted t measured s (ls, none) = measured ≡ false
IsPrinted t measured s (ls, some r) =
    (measured ≡ true) × (r.bytes ≡ s + bytes_of is_interval t.json_output ls)

IsPrinted-step :
    (t : Test) (measured : Bool) (s n : ℕ) (ls ms : List Line) (o : Option Totals)
    → bytes_of is_interval t.json_output ls ≡ n
    → IsPrinted t measured (s + n) (ms, o)
    → IsPrinted t measured s (ls ++ ms, o)
IsPrinted-step t measured s n ls ms none e p = p
IsPrinted-step t measured s n ls ms (some r) e p =
    (p.0, omega (arith, bytes_of-append is_interval t.json_output ls ms, p.1, e))

print_streams-IsPrinted :
    (t : Test) (sps : List Stream) (s : Totals)
    → IsPrinted t (all_measured sps) s.bytes (print_streams t sps s)
unfolding all_measured print_streams bytes_of
print_streams-IsPrinted t [] s = (refl, omega arith)
print_streams-IsPrinted t (sp ∷ sps) s = elim (Option-cases (last sp.intervals)) [
  | inl e ↦ rw (e, print_streams, all_measured) refl
  | inr (i, e) ↦
      let rest = print_streams t sps (add_interval t i s) in
      rw (e, print_streams, all_measured)
        (IsPrinted-step t (all_measured sps) s.bytes i.bytes_transferred
          (print_interval_results t sp i) rest.0 rest.1 (interval_bytes t sp i)
          (print_streams-IsPrinted t sps (add_interval t i s)))
]

print_streams_no_sum :
    (t : Test) (sps : List Stream) (s : Totals)
    → bytes_of is_interval_sum t.json_output (print_streams t sps s).0 ≡ 0
unfolding print_streams bytes_of
print_streams_no_sum t [] s = refl
print_streams_no_sum t (sp ∷ sps) s = elim (Option-cases (last sp.intervals)) [
  | inl e ↦ rw (e, print_streams) refl
  | inr (i, e) ↦
      let rest = print_streams t sps (add_interval t i s) in
      rw (e, print_streams)
        (bytes_of-append is_interval_sum t.json_output (print_interval_results t sp i) rest.0
          ∙ omega (arith, interval_no_sum t sp i, print_streams_no_sum t sps (add_interval t i s)))
]

no_interval :
    (t : Test) (omitting : Bool) (s : Totals) (sp : Stream) (sps : List Stream)
    → last sp.intervals ≡ none
    → interval_sum_of t omitting s (sp ∷ sps) ≡ none
no_interval t omitting s sp sps e = rw (e, interval_sum_of) refl

first_interval :
    (t : Test) (omitting : Bool) (s : Totals) (sp : Stream) (sps : List Stream) (i : Interval)
    → last sp.intervals ≡ some i
    → interval_sum_of t omitting s (sp ∷ sps) ≡ some (interval_sum_line t omitting s sp i ∷ [])
first_interval t omitting s sp sps i e = rw (e, interval_sum_of) refl

-- What stands in the line of the sum.
interval_sum_of_bytes :
    (t : Test) (omitting : Bool) (s : Totals) (sps : List Stream) (ms : List Line)
    → interval_sum_of t omitting s sps ≡ some ms
    → (bytes_of is_interval_sum t.json_output ms ≡ s.bytes)
      × (bytes_of is_interval t.json_output ms ≡ 0)
unfolding bytes_of
interval_sum_of_bytes t omitting s [] ms h = absurd (none-ne-some ms h)
interval_sum_of_bytes t omitting s (sp ∷ sps) ms h = elim (Option-cases (last sp.intervals)) [
  | inl e ↦ absurd (none-ne-some ms (sym (no_interval t omitting s sp sps e) ∙ h))
  | inr (i, e) ↦
      let f =
        some-injective (interval_sum_line t omitting s sp i ∷ []) ms
          (sym (first_interval t omitting s sp sps i e) ∙ h) in
      subst
        (λ ls.
          (bytes_of is_interval_sum t.json_output ls ≡ s.bytes)
          × (bytes_of is_interval t.json_output ls ≡ 0))
        f (ground arith)
]

abbrev IsSummed : Test → Bool → List Line → Type 0
IsSummed t measured ls =
    bytes_of is_interval_sum t.json_output ls
    ≡ (if has_several t && measured then bytes_of is_interval t.json_output ls else 0)

append_to-IsSummed :
    (t : Test) (ls : List Line) (n : ℕ) (o : Option (List Line)) (ms : List Line)
    → has_several t ≡ true
    → ((l : List Line)
        → o ≡ some l
        → (bytes_of is_interval_sum t.json_output l ≡ n)
          × (bytes_of is_interval t.json_output l ≡ 0))
    → n ≡ bytes_of is_interval t.json_output ls
    → bytes_of is_interval_sum t.json_output ls ≡ 0
    → append_to ls o ≡ some ms
    → IsSummed t true ms
append_to-IsSummed t ls n none ms e f g z h = absurd (none-ne-some ms h)
append_to-IsSummed t ls n (some l) ms e f g z h =
    let (a, b) = f l refl in
    subst (IsSummed t true) (some-injective (ls ++ l) ms h) (
      rw (e) (
        omega (
          arith,
          a,
          b,
          g,
          z,
          bytes_of-append is_interval_sum t.json_output ls l,
          bytes_of-append is_interval t.json_output ls l,
        )))

with_sum-IsSummed :
    (t : Test) (omitting : Bool) (sps : List Stream) (measured : Bool) (ls : List Line)
    (o : Option Totals) (ms : List Line)
    → IsPrinted t measured 0 (ls, o)
    → bytes_of is_interval_sum t.json_output ls ≡ 0
    → with_sum t omitting sps ls o ≡ some ms
    → IsSummed t measured ms
with_sum-IsSummed t omitting sps measured ls none ms p z h =
    subst (IsSummed t measured) (some-injective ls ms h)
      (rw (p) (rw (z) (and-false _ (has_several t))))
with_sum-IsSummed t omitting sps measured ls (some s) ms p z h = elim (Bool-cases (has_several t)) [
  | inl e ↦
      subst (λ b. IsSummed t b ms) (sym (p.0))
        (append_to-IsSummed t ls s.bytes (interval_sum_of t omitting s sps) ms e
          (interval_sum_of_bytes t omitting s sps) (omega (arith, p.1)) z
          (ap (λ b. if b then append_to ls (interval_sum_of t omitting s sps) else some ls) (sym e)
            ∙ h))
  | inr e ↦
      subst (IsSummed t measured)
        (some-injective ls ms (
          ap (λ b. if b then append_to ls (interval_sum_of t omitting s sps) else some ls) (sym e)
          ∙ h))
        (rw (e) z)
]

measured_first :
    (sp : Stream) (sps : List Stream)
    → all_measured (sp ∷ sps) ≡ true
    → (i : Interval) × (last sp.intervals ≡ some i)
unfolding all_measured
measured_first sp sps h = elim (Option-cases (last sp.intervals)) [
  | inl e ↦ absurd (grind (arith, h, e))
  | inr (i, e) ↦ (i, e)
]

count_of-sum :
    (t : Test) (omitting : Bool) (s : Totals) (sp : Stream) (i : Interval)
    → count_of is_interval_sum (interval_sum_line t omitting s sp i ∷ []) ≡ 1
unfolding count_of
count_of-sum t omitting s sp i = refl

-- One line for the sum, or none.
with_sum-some :
    (t : Test) (omitting : Bool) (sp : Stream) (sps : List Stream) (ls : List Line)
    (o : Option Totals)
    → IsPrinted t (all_measured (sp ∷ sps)) 0 (ls, o)
    → count_of is_interval_sum ls ≡ 0
    → (ms : List Line) × (with_sum t omitting (sp ∷ sps) ls o ≡ some ms)
      × (count_of is_interval_sum ms ≡ (if has_several t && all_measured (sp ∷ sps) then 1 else 0))
with_sum-some t omitting sp sps ls none p z = (ls, refl, rw (p) (z ∙ and-false 1 (has_several t)))
with_sum-some t omitting sp sps ls (some s) p z =
    let (i, e) = measured_first sp sps p.0 in
    let l = interval_sum_line t omitting s sp i ∷ [] in
    elim (Bool-cases (has_several t)) [
      | inl f ↦ (
        ls ++ l,
        rw (f) (ap (append_to ls) (first_interval t omitting s sp sps i e)),
        rw (f) (
            rw (p.0) (
              omega
                (arith, count_of-append is_interval_sum ls l, count_of-sum t omitting s sp i, z))),
      )
      | inr f ↦ (ls, rw (f) refl, rw (f) z)
    ]

-- A test with streams has a report of the interval. In either format it has one line in all for the sum where there are to
-- be several streams and each has an interval, and else none. The bytes of the sum in the format of the test are
-- those of the lines of the streams in that format.
pub iperf_print_intermediate-sums :
    (t : Test) (omitting : Bool) (sp : Stream) (sps : List Stream)
    → (ls : List Line) × (iperf_print_intermediate t omitting (sp ∷ sps) ≡ some ls)
      × (count_of is_interval_sum ls ≡ (if has_several t && all_measured (sp ∷ sps) then 1 else 0))
      × (bytes_of is_interval_sum t.json_output ls ≡ (
          if has_several t && all_measured (sp ∷ sps)
          then bytes_of is_interval t.json_output ls
          else 0))
unfolding iperf_print_intermediate
iperf_print_intermediate-sums t omitting sp sps =
    let start : Totals = record { bytes = 0; packets = pos 0; lost = pos 0 } in
    let r = print_streams t (sp ∷ sps) start in
    let p = print_streams-IsPrinted t (sp ∷ sps) start in
    let (ls, h, c) =
      with_sum-some t omitting sp sps r.0 r.1 p (count_of-print_streams t (sp ∷ sps) start) in
    (
      ls,
      h,
      c,
      with_sum-IsSummed t omitting (sp ∷ sps) (all_measured (sp ∷ sps)) r.0 r.1 ls p
          (print_streams_no_sum t (sp ∷ sps) start) h,
    )
