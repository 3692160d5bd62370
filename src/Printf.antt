-- ===== src/Printf.antt =====
-- iperf_json_printf of iperf_jni/jni/iperf/src/iperf_util.c, which makes a JSON object from a format such as
-- "foo: %b  bar: %d" and its arguments. The object is the list of its items, and memory for them is there; `F` is
-- `double`.
pub mod Fields
use wifitesttool.Base.{
  ℕ, Bool, true, false, Option, none, some, List, [], ◌∷◌, ◌++◌, ◌==◌, ltb, if◌then◌else◌, length,
}
use wifitesttool.Base.Int.{ℤ}

module _ (F : Type 0) where
  pub data Arg : Type 0 where
    bool : Bool → Arg
    int : ℤ → Arg
    float : F → Arg
    string : List ℕ → Arg

  -- In the middle of the format: the rest of the arguments, the characters of `name` before `np`, whether `*np` is
  -- '\0', whether `*cp` follows a '%', and the items so far.
  pub record Scan : Type 0 where
    pub args : List Arg
    pub name : List ℕ
    pub ended : Bool
    pub percent : Bool
    pub items : List (List ℕ × Arg)

  -- `undefined`: `name` overflows, a type has no name with an end before it, or an argument is missing or has another
  -- type.
  pub data Result : Type 0 where
    scanning : Scan → Result
    null : Result
    undefined : Result

  -- Whether `va_arg` with the type for the letter gives this argument.
  abbrev pub has_type : ℕ → Arg → Bool
  has_type c (bool b) = c == b'b'
  has_type c (int n) = c == b'd'
  has_type c (float x) = c == b'f'
  has_type c (string s) = c == b's'

  abbrev pub is_type : ℕ → Bool
  is_type c =
      if c == b'b'
      then true
      else (if c == b'd' then true else (if c == b'f' then true else c == b's'))

  abbrev pub take_arg : ℕ → List Arg → Scan → Result
  take_arg c [] s = undefined
  take_arg c (a ∷ args) s =
      if has_type c a
      then (if s.ended
          then scanning (record {
            args = args;
            name = [];
            ended = false;
            percent = false;
            items = s.items ++ (s.name, a) ∷ [];
          })
          else undefined)
      else undefined

  abbrev pub add_char : ℕ → Scan → Result
  add_char c s =
      if ltb (length s.name) 100
      then scanning (record s { name = s.name ++ c ∷ []; ended = false })
      else undefined

  abbrev pub end_name : Scan → Result
  end_name s = if ltb (length s.name) 100 then scanning (record s { ended = true }) else undefined

  -- `switch (*cp)`.
  abbrev pub scan_char : ℕ → Scan → Result
  scan_char c s =
      if s.percent
      then (if is_type c then take_arg c s.args s else null)
      else (if c == b' '
          then scanning s
          else (if c == b':'
              then end_name s
              else (if c == b'%' then scanning (record s { percent = true }) else add_char c s)))

  abbrev pub scan_step : ℕ → Result → Result
  scan_step c (scanning s) = scan_char c s
  scan_step c null = null
  scan_step c undefined = undefined

  unfoldable pub scan : List ℕ → Result → Result
  scan [] r = r
  scan (c ∷ cs) r = scan cs (scan_step c r)

  abbrev pub at_start : List Arg → Scan
  at_start args = record { args = args; name = []; ended = false; percent = false; items = [] }

  -- A '%' at the end is followed by '\0', which is no type.
  abbrev pub end_format : Result → Result
  end_format (scanning s) = if s.percent then null else scanning s
  end_format null = null
  end_format undefined = undefined

  unfoldable pub iperf_json_printf : List ℕ → List Arg → Result
  unfolding scan
  iperf_json_printf format args = end_format (scan format (scanning (at_start args)))
