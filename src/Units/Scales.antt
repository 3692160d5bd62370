-- ===== src/Units/Scales.antt =====
-- The unit that unit_snprintf chooses.
use wifitesttool.Base.{
  ℕ, zero, suc, ◌*◌, ◌≤◌, ◌<◌, ◌≡◌, refl, Bool, true, false, not, ◌||◌, ◌&&◌, Option, none, some,
  leb, leb→le, if◌then◌else◌, ◌⊎◌, inl, inr, arith,
}
use wifitesttool.Units.{
  Fraction, is_format, adaptive, base_of, in_bits, conversion, Label, unit, kilo, mega, giga,
  isupper, label_at, divisor, Printed, printed, unit_snprintf,
}

-- `d`, times `base` so many times.
unfoldable raised : ℕ → ℕ → ℕ → ℕ
raised base d zero = d
raised base d (suc k) = raised base (d * base) k

record IsIndex (base n d left k : ℕ) : Type 0 where
  pub bounded : k ≤ left
  pub reached : (k ≡ 0) ⊎ (raised base d k ≤ n)
  pub below : (k ≡ left) ⊎ (n < raised base d (suc k))

IsIndex-step :
    (base n d left k : ℕ) (b : Bool)
    → leb (d * base) n ≡ b
    → IsIndex base n (d * base) left k
    → IsIndex base n d (suc left) (if b then suc k else 0)
unfolding raised
IsIndex-step base n d left k true e ih = record {
  bounded = omega (arith, ih.bounded);
  reached = inr (ground (arith, ih.reached, leb→le (d * base) n e));
  below = ground (arith, ih.below);
}
IsIndex-step base n d left k false e ih = record {
  bounded = omega arith;
  reached = inl refl;
  below = inr (ground arith);
}

adaptive-IsIndex : (base n d left : ℕ) → IsIndex base n d left (adaptive base n d left)
unfolding adaptive
adaptive-IsIndex base n d zero = record {
  bounded = omega arith;
  reached = inl refl;
  below = inl refl;
}
adaptive-IsIndex base n d (suc left) =
    IsIndex-step base n d left (adaptive base n (d * base) left) (leb (d * base) n) refl
      (adaptive-IsIndex base n (d * base) left)

-- Neither B, K, M nor G, in either case.
abbrev pub is_adaptive : ℕ → Bool
is_adaptive c = not (
    is_format b'B' b'b' c
    || is_format b'K' b'k' c
    || is_format b'M' b'm' c
    || is_format b'G' b'g' c)

-- The label that a format asks for.
abbrev pub names : Label → ℕ → Bool
names unit = is_format b'B' b'b'
names kilo = is_format b'K' b'k'
names mega = is_format b'M' b'm'
names giga = is_format b'G' b'g'

-- One of a label, in units of which each is `base` of the smaller ones, times `d`.
abbrev pub one_of : ℕ → ℕ → Label → ℕ
one_of base d unit = d
one_of base d kilo = d * base
one_of base d mega = d * base * base
one_of base d giga = d * base * base * base

-- What is printed is `n / d`, scaled to its label, in bytes or in bits. The label is the one that the format names,
-- or, with an adaptive format, one such that the number is below the next label, and not below 1 if there is a
-- smaller one.
abbrev pub IsScaled : ℕ → Bool → ℕ → ℕ → ℕ → Option Printed → Type 0
IsScaled base bytes format n d none =
    (is_adaptive format ≡ true) × (d * base * base * base * base ≤ n)
IsScaled base bytes format n d (some p) =
    (p.value.num ≡ n)
    × (p.value.den ≡ one_of base d p.label)
    × (p.bytes ≡ bytes)
    × ((names p.label format ≡ true)
        ⊎ ((is_adaptive format ≡ true)
            × (n < p.value.den * base)
            × ((p.label ≡ unit) ⊎ (p.value.den ≤ n))))

-- With the base and the kind that the code takes.
abbrev Fits : ℕ → ℕ → ℕ → Option Printed → Type 0
Fits format = IsScaled (base_of format) (isupper format) format

one_of-divisor : (base d : ℕ) (l : Label) → d * divisor base l ≡ one_of base d l
one_of-divisor base d unit = omega arith
one_of-divisor base d kilo = omega arith
one_of-divisor base d mega = omega arith
one_of-divisor base d giga = omega arith

fixed :
    (format n d : ℕ) (l : Label)
    → names l format ≡ true
    → Fits format n d (printed format n d (some l))
fixed format n d l f = (refl, one_of-divisor (base_of format) d l, refl, inl f)

scaled :
    (format n d k : ℕ)
    → is_adaptive format ≡ true
    → IsIndex (base_of format) n d 4 k
    → Fits format n d (printed format n d (label_at k))
unfolding raised
scaled format n d zero f i =
    (refl, one_of-divisor (base_of format) d unit, refl, inr (f, ground (arith, i.below), inl refl))
scaled format n d (suc zero) f i = (
  refl,
  one_of-divisor (base_of format) d kilo,
  refl,
  inr (f, ground (arith, i.below), inr ground (arith, i.reached)),
)
scaled format n d (suc (suc zero)) f i = (
  refl,
  one_of-divisor (base_of format) d mega,
  refl,
  inr (f, ground (arith, i.below), inr ground (arith, i.reached)),
)
scaled format n d (suc (suc (suc zero))) f i = (
  refl,
  one_of-divisor (base_of format) d giga,
  refl,
  inr (f, ground (arith, i.below), inr ground (arith, i.reached)),
)
scaled format n d (suc (suc (suc (suc zero)))) f i = (f, ground (arith, i.reached))
scaled format n d (suc (suc (suc (suc (suc k))))) f i = absurd (omega (arith, i.bounded))

-- The index, with the tests of the format as Booleans.
abbrev choose : Bool → Bool → Bool → Bool → ℕ → ℕ
choose b k m g a = if b then 0 else (if k then 1 else (if m then 2 else (if g then 3 else a)))

choose-Fits :
    (format n d a : ℕ) (b k m g : Bool)
    → is_format b'B' b'b' format ≡ b
    → is_format b'K' b'k' format ≡ k
    → is_format b'M' b'm' format ≡ m
    → is_format b'G' b'g' format ≡ g
    → (is_adaptive format ≡ true → Fits format n d (printed format n d (label_at a)))
    → Fits format n d (printed format n d (label_at (choose b k m g a)))
choose-Fits format n d a true k m g eb ek em eg h = fixed format n d unit eb
choose-Fits format n d a false true m g eb ek em eg h = fixed format n d kilo ek
choose-Fits format n d a false false true g eb ek em eg h = fixed format n d mega em
choose-Fits format n d a false false false true eb ek em eg h = fixed format n d giga eg
choose-Fits format n d a false false false false eb ek em eg h = h (ground arith)

conversion-Fits :
    (format n d : ℕ) → Fits format n d (printed format n d (label_at (conversion format n d)))
unfolding conversion
conversion-Fits format n d =
    choose-Fits format n d (adaptive (base_of format) n d 4) (is_format b'B' b'b' format)
      (is_format b'K' b'k' format) (is_format b'M' b'm' format) (is_format b'G' b'g' format) refl
      refl refl refl
      (λ f.
        scaled format n d (adaptive (base_of format) n d 4) f
          (adaptive-IsIndex (base_of format) n d 4))

in_bytes_or_bits :
    (b : Bool) (format n d : ℕ) (r : Option Printed)
    → IsScaled (if b then 1024 else 1000) b format (if b then n else n * 8) d r
    → if b then IsScaled 1024 true format n d r else IsScaled 1000 false format (n * 8) d r
in_bytes_or_bits true format n d r h = h
in_bytes_or_bits false format n d r h = h

-- For a capital letter as the format, a number is printed as it is, in bytes, with labels of which each is 1024
-- of the next smaller one; otherwise as 8 times as many bits, with labels of 1000. A format that names a
-- label (b, k, m or g in either case) takes it; any other takes the label for which the number is less than
-- 1024 (for bits 1000) and, if there is a smaller label, not less than 1. There is no such label, and the arrays of labels are
-- read beyond their end, only where the format is one of the others and the number is at least 1024 (for bits
-- 1000) times one of the largest label.
pub unit_snprintf-IsScaled :
    (x : Fraction) (format : ℕ)
    → if leb b'A' format && leb format b'Z'
      then IsScaled 1024 true format x.num x.den (unit_snprintf x format)
      else IsScaled 1000 false format (x.num * 8) x.den (unit_snprintf x format)
unfolding unit_snprintf
unit_snprintf-IsScaled x format =
    in_bytes_or_bits (isupper format) format x.num x.den (unit_snprintf x format)
      (conversion-Fits format (in_bits format x.num) x.den)
