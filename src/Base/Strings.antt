-- ===== src/Base/Strings.antt =====
-- Texts as lists of characters, and names that differ only in case.
use Prim.Native.Char.{code}
use Prim.Native.String.{String}
use Prim.Native.Nat.{ℕ, ◌+◌}
use mathlib.Core.Bool.{Bool, true, false, ◌&&◌}
use mathlib.Core.List.{List, [], ◌∷◌}
use wifitesttool.Base.Tests.{◌==◌, leb, if◌then◌else◌}

abbrev pub codes : String → List ℕ
codes String.[] = []
codes (String.◌∷◌ c s) = code c ∷ codes s

abbrev pub to_lower : ℕ → ℕ
to_lower c = if leb b'A' c && leb c b'Z' then c + 32 else c

abbrev pub same_letters : List ℕ → List ℕ → Bool
same_letters [] [] = true
same_letters (x ∷ xs) (y ∷ ys) = to_lower x == to_lower y && same_letters xs ys
same_letters _ _ = false

abbrev pub same_name : String → String → Bool
same_name a b = same_letters (codes a) (codes b)
