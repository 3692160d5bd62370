-- ===== src/Examples/Units.antt =====
-- Numbers with units, up to those that have none.
use wifitesttool.Base.{true, ◌≡◌, refl, none, some, ◌*◌}
use wifitesttool.Units.{Fraction, read, unit_atoi, unit_snprintf}
use wifitesttool.Units.Scales.{IsScaled, unit_snprintf-IsScaled}

abbrev kilobytes : Fraction
kilobytes = record { num = 3 * 1024; den = 1 }

unit_snprintf-IsScaled_example : IsScaled 1024 true b'A' (3 * 1024) 1 (unit_snprintf kilobytes b'A')
unit_snprintf-IsScaled_example = unit_snprintf-IsScaled kilobytes b'A'

-- A terabyte.
test-beyond : unit_snprintf (record { num = 1024 * 1024 * 1024 * 1024; den = 1 }) b'A' ≡ none
unfolding unit_snprintf
test-beyond = refl

-- "1.5M".
test-mega : unit_atoi (read 15 10 b'M') ≡ some 1572864
unfolding unit_atoi
test-mega = refl
