-- ===== src/Examples/Objects.antt =====
-- A JSON library with the documented behaviour: an object is a list of named items, and its text is made
-- of numbers.
use Prim.Native.String.{String}
use wifitesttool.Base.{
  ℕ, zero, suc, ◌≡◌, refl, ◌∙◌, ap, Option, none, some, List, [], ◌∷◌, ◌++◌, if◌then◌else◌, arith,
}
use mathlib.Core.List.{append-nil, append_assoc}
use wifitesttool.Base.Int.{ℤ, pos, negsuc}
use wifitesttool.Base.Strings.{codes, same_letters, same_name}
use wifitesttool.Json.{Json, or_else}

pub data Value : Type 0 where
  yes_item : Value
  number : ℤ → Value
  letters : List ℕ → Value

abbrev pub Named : Type 0
Named = List ℕ × Value

abbrev pub get : List Named → String → Option Value
get [] name = none
get ((k, v) ∷ j) name = or_else (if same_letters k (codes name) then some v else none) (get j name)

abbrev pub number_of : Value → ℤ
number_of (number n) = n
number_of yes_item = pos 1
number_of (letters s) = pos 0

abbrev pub letters_of : Value → List ℕ
letters_of (letters s) = s
letters_of _ = []

-- Letters end with 0.
abbrev ended : List ℕ → List ℕ → List ℕ
ended [] r = 0 ∷ r
ended (c ∷ s) r = suc c ∷ ended s r

abbrev print_value : Value → List ℕ → List ℕ
print_value yes_item r = 0 ∷ r
print_value (number (pos n)) r = 1 ∷ n ∷ r
print_value (number (negsuc n)) r = 2 ∷ n ∷ r
print_value (letters s) r = 3 ∷ ended s r

abbrev pub print_object : List Named → List ℕ
print_object [] = []
print_object ((k, v) ∷ j) = ended k (print_value v (print_object j))

-- Where the parser stands: in a name, at a value, at a number or in letters.
pub data Place : Type 0 where
  in_name : List ℕ → Place
  at_value at_pos at_negsuc : List ℕ → Place
  in_letters : List ℕ → List ℕ → Place

abbrev pub parse_from : Place → List ℕ → List Named
parse_from p [] = []
parse_from (in_name k) (zero ∷ r) = parse_from (at_value k) r
parse_from (in_name k) (suc c ∷ r) = parse_from (in_name (k ++ c ∷ [])) r
parse_from (at_value k) (zero ∷ r) = (k, yes_item) ∷ parse_from (in_name []) r
parse_from (at_value k) (suc zero ∷ r) = parse_from (at_pos k) r
parse_from (at_value k) (suc (suc zero) ∷ r) = parse_from (at_negsuc k) r
parse_from (at_value k) (suc (suc (suc n)) ∷ r) = parse_from (in_letters k []) r
parse_from (at_pos k) (n ∷ r) = (k, number (pos n)) ∷ parse_from (in_name []) r
parse_from (at_negsuc k) (n ∷ r) = (k, number (negsuc n)) ∷ parse_from (in_name []) r
parse_from (in_letters k s) (zero ∷ r) = (k, letters s) ∷ parse_from (in_name []) r
parse_from (in_letters k s) (suc c ∷ r) = parse_from (in_letters k (s ++ c ∷ [])) r

parse_name :
    (k s r : List ℕ) → parse_from (in_name k) (ended s r) ≡ parse_from (at_value (k ++ s)) r
parse_name k [] r = rw (append-nil k)
parse_name k (c ∷ s) r = parse_name (k ++ c ∷ []) s r ∙ rw (append_assoc k (c ∷ []) s)

parse_letters :
    (k t s r : List ℕ)
    → parse_from (in_letters k t) (ended s r) ≡ (k, letters (t ++ s)) ∷ parse_from (in_name []) r
parse_letters k t [] r = rw (append-nil t)
parse_letters k t (c ∷ s) r = parse_letters k (t ++ c ∷ []) s r ∙ rw (append_assoc t (c ∷ []) s)

parse_value :
    (k : List ℕ) (v : Value) (r : List ℕ)
    → parse_from (at_value k) (print_value v r) ≡ (k, v) ∷ parse_from (in_name []) r
parse_value k yes_item r = refl
parse_value k (number (pos n)) r = refl
parse_value k (number (negsuc n)) r = refl
parse_value k (letters s) r = parse_letters k [] s r

pub parse-print_object : (j : List Named) → parse_from (in_name []) (print_object j) ≡ j
parse-print_object [] = refl
parse-print_object ((k, v) ∷ j) =
    parse_name [] k (print_value v (print_object j))
    ∙ parse_value k v (print_object j)
    ∙ ap (λ (l : List Named). (k, v) ∷ l) (parse-print_object j)

pub get-append :
    (j : List Named) (k name : String) (v : Value)
    → get (j ++ (codes k, v) ∷ []) name
      ≡ or_else (get j name) (if same_name k name then some v else none)
get-append [] k name v = ground arith
get-append ((x, y) ∷ j) k name v = ground (arith, get-append j k name v)

pub nothing_yet :
    (j : List Named) (k : String)
    → ◌≡◌ {A = Option (List Named)} (some []) (some j)
    → get j k ≡ none
nothing_yet [] k e = refl
nothing_yet (x ∷ j) k e = cc

abbrev pub objects : Json
objects = record {
  Object = List Named;
  Item = Value;
  create_object = some [];
  create_true = yes_item;
  create_int = number;
  create_string = letters;
  add_item = λ k v j. j ++ (codes k, v) ∷ [];
  get_item = get;
  valueint = number_of;
  valuestring = letters_of;
  print = print_object;
  parse = λ s. some (parse_from (in_name []) s);
  get_item-create = λ j k e. nothing_yet j k e;
  get_item-add = get-append;
  valueint-create = λ n v. refl;
  valuestring-create = λ s. refl;
  parse-print = λ j. (
    parse_from (in_name []) (print_object j),
    refl,
    λ name. ap (λ l. get l name) (parse-print_object j),
  );
}
