-- ===== src/Options/Accepted.antt =====
-- What iperf_parse_arguments has checked when it returns 0: iperf_jni/jni/iperf/src/iperf_api.c.
use wifitesttool.Base.{◌≡◌, Bool, true, false, not, none, List, ◌==◌}
use wifitesttool.Base.Int.{pos, ◌≤ℤ◌}
use wifitesttool.Test.{Role, no_role, client, server, Test}
use wifitesttool.Options.{
  Flag, Parse, Parsed, parsed, bad, exits, is_zero, max_blocksize, role_error, settle,
}
use wifitesttool.Options.Given.{is_for_server, is_for_client, is_time, is_any}
use wifitesttool.Options.Limits.{InLimits}

-- Which options the role allows.
pub data Fits (flags : List Flag) : Role → Type 0 where
  fits_client : is_any is_for_server flags ≡ false → Fits flags client
  fits_server : is_any is_for_client flags ≡ false → Fits flags server

-- At most one of `-t`, `-n` and `-k`.
pub data OneEnd : Bool → Bool → Bool → Type 0 where
  by_time : (d : Bool) → OneEnd d false false
  by_bytes : OneEnd false true false
  by_blocks : OneEnd false false true

pub record Accepted (flags : List Flag) (t : Test) : Type 0 where
  pub limits : InLimits t
  pub role_ok : Fits flags t.role
  pub end_ok :
      OneEnd (is_any is_time flags) (not (t.settings.bytes == 0)) (not (is_zero t.settings.blocks))
  pub blksize_ok : (pos 1 ≤ℤ t.settings.blksize) × (t.settings.blksize ≤ℤ max_blocksize)

-- The flags that the function keeps are those of the options.
record Kept (flags : List Flag) (p : Parse) : Type 0 where
  pub server_flag : p.server_flag ≡ is_any is_for_server flags
  pub client_flag : p.client_flag ≡ is_any is_for_client flags
  pub duration_flag : p.duration_flag ≡ is_any is_time flags

module _ (P : Parse → Type 0) where
  abbrev Every : Parsed → Type 0
  Every (parsed p) = P p
  Every (bad e) = Unit
  Every exits = Unit

-- The flags, which the check reads, stay as they are.
e_settled : (r : Role) (p : Parse) → role_error r p ≡ none → role_error r (settle p) ≡ none
unfolding role_error settle
e_settled client p e = e
e_settled server p e = e
e_settled no_role p e = e

-- Of the test that is left.
abbrev IsAccepted : List Flag → Parse → Type 0
IsAccepted flags p = Accepted flags p.test
