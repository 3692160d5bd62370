-- ===== src/Units.antt =====
-- Numbers with units: unit_atof, unit_atoi and unit_snprintf of iperf_jni/jni/iperf/src/units.c. A `double` is an
-- exact fraction that is not negative, `n / d`. What sscanf finds is given.
pub mod Scales
use wifitesttool.Base.{
  ℕ, zero, suc, ◌+◌, ◌*◌, ◌/◌, Bool, true, false, ◌&&◌, ◌||◌, Option, none, some, ltb, leb, ◌==◌,
  if◌then◌else◌,
}

-- What `sscanf(s, "%lf%c", &n, &suffix)` stores; `suffix` is 0 where there is none.
pub data Scanned : Type 0 where
  unread : Scanned
  read : ℕ → ℕ → ℕ → Scanned

pub record Fraction : Type 0 where
  pub num : ℕ
  pub den : ℕ

abbrev pub kilo_unit : ℕ
kilo_unit = 1024

abbrev pub mega_unit : ℕ
mega_unit = 1024 * 1024

abbrev pub giga_unit : ℕ
giga_unit = 1024 * 1024 * 1024

-- `switch (suffix)`.
abbrev pub suffix_unit : ℕ → ℕ
suffix_unit c =
    if c == b'g' || c == b'G'
    then giga_unit
    else (if c == b'm' || c == b'M'
        then mega_unit
        else (if c == b'k' || c == b'K' then kilo_unit else 1))

-- `n` is not initialised where nothing is read.
unfoldable pub unit_atof : Scanned → Option Fraction
unit_atof unread = none
unit_atof (read n d c) = some (record { num = n * suffix_unit c; den = d })

abbrev pub truncated : Option Fraction → Option ℕ
truncated none = none
truncated (some x) = some (x.num / x.den)

unfoldable pub unit_atoi : Scanned → Option ℕ
unfolding unit_atof
unit_atoi s = truncated (unit_atof s)

-- `isupper`, of the letters.
abbrev pub isupper : ℕ → Bool
isupper c = leb b'A' c && leb c b'Z'

abbrev pub is_format : ℕ → ℕ → ℕ → Bool
is_format upper lower c = c == upper || c == lower

-- `while (tmpNum >= base && conv <= GIGA_CONV)`, where `left` counts the turns until `conv` is beyond
-- GIGA_CONV.
unfoldable pub adaptive : ℕ → ℕ → ℕ → ℕ → ℕ
adaptive base n d zero = 0
adaptive base n d (suc left) =
    let more = adaptive base n (d * base) left in if leb (d * base) n then suc more else 0

abbrev pub base_of : ℕ → ℕ
base_of format = if isupper format then 1024 else 1000

-- Bits for a small letter.
abbrev pub in_bits : ℕ → ℕ → ℕ
in_bits format n = if isupper format then n else n * 8

-- The index `conv`; an `n / d` is in bits already.
unfoldable pub conversion : ℕ → ℕ → ℕ → ℕ
unfolding adaptive
conversion format n d =
    if is_format b'B' b'b' format
    then 0
    else (if is_format b'K' b'k' format
        then 1
        else (if is_format b'M' b'm' format
            then 2
            else (if is_format b'G' b'g' format then 3 else adaptive (base_of format) n d 4)))

-- `conversion_bytes[conv]` and `conversion_bits[conv]` as divisors, and the label with that index; `none`
-- beyond the end of the arrays.
pub data Label : Type 0 where
  unit kilo mega giga : Label

abbrev pub label_at : ℕ → Option Label
label_at zero = some unit
label_at (suc zero) = some kilo
label_at (suc (suc zero)) = some mega
label_at (suc (suc (suc zero))) = some giga
label_at _ = none

abbrev pub divisor : ℕ → Label → ℕ
divisor base unit = 1
divisor base kilo = base
divisor base mega = base * base
divisor base giga = base * base * base

-- What is printed: a number with so many digits after the point, and a label in bits or bytes.
pub record Printed : Type 0 where
  pub value : Fraction
  pub digits : ℕ
  pub label : Label
  pub bytes : Bool

abbrev pub digits_of : ℕ → ℕ → ℕ
digits_of n d = if ltb (1000 * n) (9995 * d) then 2 else (if ltb (100 * n) (9995 * d) then 1 else 0)

abbrev pub printed : ℕ → ℕ → ℕ → Option Label → Option Printed
printed format n d none = none
printed format n d (some l) = some (record {
  value = record { num = n; den = d * divisor (base_of format) l };
  digits = digits_of n (d * divisor (base_of format) l);
  label = l;
  bytes = isupper format;
})

unfoldable pub unit_snprintf : Fraction → ℕ → Option Printed
unfolding conversion
unit_snprintf x format =
    let n = in_bits format x.num in printed format n x.den (label_at (conversion format n x.den))
