-- ===== src/Examples/Formats.antt =====
-- "ab: %d  c: %b" with 3 and true.
use wifitesttool.Base.{◌≡◌, refl, ℕ, true, false, List, [], ◌∷◌, arith}
use wifitesttool.Base.Int.{pos}
use wifitesttool.Printf.{Arg, int, bool, scanning, null, iperf_json_printf, scan}
use wifitesttool.Printf.Fields.{format_of, args_of, iperf_json_printf-format_of}

abbrev fields : List (List ℕ × Arg ℕ)
fields = (b'a' ∷ b'b' ∷ [], int (pos 3)) ∷ (b'c' ∷ [], bool true) ∷ []

iperf_json_printf-format_of_example :
    iperf_json_printf ℕ (format_of fields) (args_of fields)
    ≡ scanning (record { args = []; name = []; ended = false; percent = false; items = fields })
iperf_json_printf-format_of_example =
    iperf_json_printf-format_of fields
      (((refl, (refl, tt)), omega arith), (((refl, tt), omega arith), tt))

-- "a: %x".
test-unknown : iperf_json_printf ℕ (b'a' ∷ b':' ∷ b' ' ∷ b'%' ∷ b'x' ∷ []) (int (pos 3) ∷ []) ≡ null
unfolding iperf_json_printf scan
test-unknown = refl
