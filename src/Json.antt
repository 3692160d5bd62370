-- ===== src/Json.antt =====
-- What iperf_jni/jni/iperf/src/iperf_api.c uses of the JSON library, as its header documents it:
-- objects with named items, and arrays of objects. Names of items are compared without their case.
use Prim.Native.String.{String}
use wifitesttool.Base.{ℕ, ◌^◌, ◌≤◌, ◌<◌, ◌≡◌, Option, none, some, List, if◌then◌else◌}
use wifitesttool.Base.Int.{ℤ, pos_part, neg_part}
use wifitesttool.Base.Strings.{same_name}

-- The range of `int64_t`.
abbrev pub IsInt64 : ℤ → Type 0
IsInt64 n = (pos_part n < 2 ^ 63) × (neg_part n ≤ 2 ^ 63)

-- `a` if there is one, or else `b`.
abbrev pub or_else {ℓ} : {A : Type ℓ} → Option A → Option A → Option A
or_else (some a) b = some a
or_else none b = b

pub record Json : Type 1 where
  pub Object : Type 0
  pub Item : Type 0
  pub create_object : Option Object  -- NULL if there is no memory
  pub create_true : Item
  pub create_int : ℤ → Item
  pub create_string : List ℕ → Item
  pub add_item : String → Item → Object → Object
  pub get_item : Object → String → Option Item
  pub valueint : Item → ℤ
  pub valuestring : Item → List ℕ
  pub print : Object → List ℕ
  pub parse : List ℕ → Option Object
  pub get_item-create : (j : Object) (k : String) → create_object ≡ some j → get_item j k ≡ none
  pub get_item-add :
      (j : Object) (k name : String) (i : Item)
      → get_item (add_item k i j) name
        ≡ or_else (get_item j name) (if same_name k name then some i else none)
  pub valueint-create : (n : ℤ) → IsInt64 n → valueint (create_int n) ≡ n
  pub valuestring-create : (s : List ℕ) → valuestring (create_string s) ≡ s
  pub parse-print :
      (j : Object)
      → (j' : Object) × (parse (print j) ≡ some j')
        × ((name : String) → get_item j' name ≡ get_item j name)
