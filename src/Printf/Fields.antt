-- ===== src/Printf/Fields.antt =====
-- Formats as the callers write them, with named fields, against the objects that they give.
use mathlib.Core.List.{append-nil, append_assoc}
use wifitesttool.Base.{
  ℕ, ◌+◌, ◌<◌, ◌≡◌, refl, sym, ap, ◌∙◌, Bool, true, false, not, ◌||◌, List, [], ◌∷◌, ◌++◌, length,
  length-append, All, arith, ◌==◌, lt→ltb,
}
use wifitesttool.Printf.{
  Arg, bool, int, float, string, Result, scanning, scan_step, scan, end_format, iperf_json_printf,
}

-- A character that is no blank, colon or percent sign.
abbrev pub is_plain : ℕ → Bool
is_plain c = not (c == b' ' || c == b':' || c == b'%')

-- A name that fits into `name`.
abbrev pub IsName : List ℕ → Type 0
IsName cs = All (λ c. is_plain c ≡ true) cs × (length cs < 100)

module _ {F : Type 0} where
  abbrev pub letter_of : Arg F → ℕ
  letter_of (bool b) = b'b'
  letter_of (int n) = b'd'
  letter_of (float x) = b'f'
  letter_of (string s) = b's'

  -- "name: %t".
  abbrev pub field_text : List ℕ × Arg F → List ℕ
  field_text (name, a) = name ++ b':' ∷ b' ' ∷ b'%' ∷ letter_of a ∷ []

  -- Two blanks before each field but the first.
  unfoldable pub more_text : List (List ℕ × Arg F) → List ℕ
  more_text [] = []
  more_text (f ∷ fs) = b' ' ∷ b' ' ∷ field_text f ++ more_text fs

  abbrev pub format_of : List (List ℕ × Arg F) → List ℕ
  format_of [] = []
  format_of (f ∷ fs) = field_text f ++ more_text fs

  abbrev pub args_of : List (List ℕ × Arg F) → List (Arg F)
  args_of [] = []
  args_of ((name, a) ∷ fs) = a ∷ args_of fs

  abbrev pub Named : List (List ℕ × Arg F) → Type 0
  Named fs = All (λ f. IsName f.0) fs

  -- Between two fields, or in a name.
  abbrev at : List (Arg F) → List ℕ → List (List ℕ × Arg F) → Result F
  at args name items =
      scanning (record { args = args; name = name; ended = false; percent = false; items = items })

  scan-append : (xs ys : List ℕ) (r : Result F) → scan F (xs ++ ys) r ≡ scan F ys (scan F xs r)
  unfolding scan
  scan-append [] ys r = refl
  scan-append (x ∷ xs) ys r = scan-append xs ys (scan_step F x r)

  plain-char :
      (c : ℕ) (args : List (Arg F)) (name : List ℕ) (items : List (List ℕ × Arg F))
      → is_plain c ≡ true
      → length name < 100
      → scan_step F c (at args name items) ≡ at args (name ++ c ∷ []) items
  plain-char c args name items p h = ground arith

  scan-name :
      (cs : List ℕ) (args : List (Arg F)) (name : List ℕ) (items : List (List ℕ × Arg F))
      → All (λ c. is_plain c ≡ true) cs
      → length name + length cs < 100
      → scan F cs (at args name items) ≡ at args (name ++ cs) items
  unfolding scan
  scan-name [] args name items p h = ap (λ n. at args n items) (sym (append-nil name))
  scan-name (c ∷ cs) args name items p h =
      ap (scan F cs) (plain-char c args name items p.0 (omega (arith, h)))
      ∙ scan-name cs args (name ++ c ∷ []) items p.1 (omega (arith, h, length-append name (c ∷ [])))
      ∙ ap (λ n. at args n items) (append_assoc name (c ∷ []) cs)

  scan-typed :
      (a : Arg F) (args : List (Arg F)) (name : List ℕ) (items : List (List ℕ × Arg F))
      → length name < 100
      → scan F (b':' ∷ b' ' ∷ b'%' ∷ letter_of a ∷ []) (at (a ∷ args) name items)
        ≡ at args [] (items ++ (name, a) ∷ [])
  unfolding scan
  scan-typed a args name items h = rw (lt→ltb (length name) 100 h) (ground arith)

  scan-field :
      (name : List ℕ) (a : Arg F) (args : List (Arg F)) (items : List (List ℕ × Arg F))
      → IsName name
      → scan F (field_text (name, a)) (at (a ∷ args) [] items)
        ≡ at args [] (items ++ (name, a) ∷ [])
  scan-field name a args items n =
      scan-append name (b':' ∷ b' ' ∷ b'%' ∷ letter_of a ∷ []) (at (a ∷ args) [] items)
      ∙ ap (scan F (b':' ∷ b' ' ∷ b'%' ∷ letter_of a ∷ []))
          (scan-name name (a ∷ args) [] items n.0 (omega (arith, n.1)))
      ∙ scan-typed a args name items n.1

  scan-more :
      (fs : List (List ℕ × Arg F)) (items : List (List ℕ × Arg F))
      → Named fs
      → scan F (more_text fs) (at (args_of fs) [] items) ≡ at [] [] (items ++ fs)
  unfolding scan more_text
  scan-more [] items n = ap (at [] []) (sym (append-nil items))
  scan-more ((name, a) ∷ fs) items n =
      scan-append (field_text (name, a)) (more_text fs) (at (a ∷ args_of fs) [] items)
      ∙ ap (scan F (more_text fs)) (scan-field name a (args_of fs) items n.0)
      ∙ scan-more fs (items ++ (name, a) ∷ []) n.1
      ∙ ap (at [] []) (append_assoc items ((name, a) ∷ []) fs)

  scan-format :
      (fs : List (List ℕ × Arg F))
      → Named fs
      → scan F (format_of fs) (at (args_of fs) [] []) ≡ at [] [] fs
  unfolding scan
  scan-format [] n = refl
  scan-format ((name, a) ∷ fs) n =
      scan-append (field_text (name, a)) (more_text fs) (at (a ∷ args_of fs) [] [])
      ∙ ap (scan F (more_text fs)) (scan-field name a (args_of fs) [] n.0)
      ∙ scan-more fs ((name, a) ∷ []) n.1

  -- A format of named fields "name: %t", with two blanks between them, whose names have neither blanks, colons nor
  -- percent signs and fewer than 100 characters, gives with arguments of these types the object with these fields in
  -- this order.
  pub iperf_json_printf-format_of :
      (fs : List (List ℕ × Arg F))
      → Named fs
      → iperf_json_printf F (format_of fs) (args_of fs)
        ≡ scanning (record { args = []; name = []; ended = false; percent = false; items = fs })
  unfolding iperf_json_printf
  iperf_json_printf-format_of fs n = ap (end_format F) (scan-format fs n)
