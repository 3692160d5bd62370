-- ===== src/Examples/Errors.antt =====
-- The text of an error with the one of errno.
use wifitesttool.Base.{ℕ, ◌+◌, ◌<◌, ◌≤◌, none, some, List, [], ◌∷◌, length, arith}
use wifitesttool.Error.{ielisten}
use wifitesttool.Error.Messages.{iperf_strerror, iperf_strerror-length}

abbrev in_use : List ℕ
in_use = b'i' ∷ b'n' ∷ b' ' ∷ b'u' ∷ b's' ∷ b'e' ∷ []

iperf_strerror_example :
    (0 < length (iperf_strerror ielisten none (some in_use)))
    × (length (iperf_strerror ielisten none (some in_use)) + 1 ≤ 256)
iperf_strerror_example =
    iperf_strerror-length ielisten none (some in_use) (omega arith) (omega arith)
