-- ===== src/Text/Lines.antt =====
-- Printed lines: a label, a value and the end of the line; and their reader.
use Prim.Native.Char.{code}
use Prim.Native.String.{String, [], ◌∷◌, ◌++◌}
use text.Mathlib.TextLemmas.{nil-append, cons-append}
use rapid_trader.Base.{
  ℕ, ◌^◌, ◌<◌, ◌≡◌, refl, Bool, true, false, Option, none, some, ◌>>=◌, ◌==◌, ==_refl, inl, inr,
  Bool-cases,
}
use rapid_trader.Text.{to_string}
use rapid_trader.Text.Decimal.{StartsNoDigit, read_number-to_string}
use rapid_trader.Text.Reading.{read_number, read_prefix}

pub read_prefix-append : (p s : String) → read_prefix p (p ++ s) ≡ some s
unfolding read_prefix
read_prefix-append [] s = rw nil-append refl
read_prefix-append (c ∷ p) s =
    rw (cons-append c p s, ==_refl (code c), read_prefix) (read_prefix-append p s)

-- `label + value + "\n"`
abbrev pub line : String → String → String
line label value = label ++ value ++ "\n"

-- A number, behind its label and in front of `stop`.
abbrev pub read_labelled : String → String → String → Option (ℕ × String)
read_labelled label stop s = do
  s' ← read_prefix label s
  (n, s'') ← read_number s'
  rest ← read_prefix stop s''
  some (n, rest)

pub read_labelled-append :
    (label stop : String) (n : ℕ) (rest : String)
    → n < 2 ^ 64
    → StartsNoDigit (stop ++ rest)
    → read_labelled label stop (label ++ to_string n ++ stop ++ rest) ≡ some (n, rest)
read_labelled-append label stop n rest fits ends =
    rw
      (
        read_prefix-append label (to_string n ++ stop ++ rest),
        read_number-to_string n (stop ++ rest) fits ends,
        read_prefix-append stop rest,
      )
      refl

-- The text before the end of the line, and the text behind it.
unfoldable pub read_line : String → Option (String × String)
read_line [] = none
read_line (c ∷ s) = elim (code c == 10) [
  | true ↦ some ([], s)
  | false ↦ do (l, rest) ← read_line s; some (c ∷ l, rest)
]

-- Whether a text has no end of a line.
abbrev pub is_line : String → Bool
is_line [] = true
is_line (c ∷ s) = elim (code c == 10) [ true ↦ false | false ↦ is_line s ]

pub read_line-append :
    (l rest : String) → is_line l ≡ true → read_line (l ++ "\n" ++ rest) ≡ some (l, rest)
unfolding read_line
read_line-append [] rest h = rw (nil-append, cons-append, nil-append) refl
read_line-append (c ∷ l) rest h = elim (Bool-cases (code c == 10)) [
  | inl e ↦ let no = rw (e, is_line) at h in cc
  | inr e ↦
      rw
        (
          cons-append c l ("\n" ++ rest),
          e,
          read_line,
          read_line-append l rest (rw (e, is_line) at h),
        )
        refl
]

-- Whether two texts are the same.
unfoldable pub same_text : String → String → Bool
same_text [] [] = true
same_text [] (d ∷ t) = false
same_text (c ∷ s) [] = false
same_text (c ∷ s) (d ∷ t) = elim (code c == code d) [ true ↦ same_text s t | false ↦ false ]
