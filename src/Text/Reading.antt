-- ===== src/Text/Reading.antt =====
-- A reader of printed numbers and lines, independent of the printer.
use Prim.Native.Nat.{◌*◌}
use Prim.Native.Char.{Char, code}
use Prim.Native.String.{String, [], ◌∷◌}
use rapid_trader.Base.{
  ℕ, ◌+◌, ◌-◌, Bool, true, false, ◌&&◌, Option, none, some, leb, ◌==◌, if◌then◌else◌,
}

abbrev pub is_digit : Char → Bool
is_digit c = leb 48 (code c) && leb (code c) 57

-- The number that the digits at the front of a text spell behind `n`, and the rest of the text.
unfoldable pub read_digits : ℕ → String → ℕ × String
read_digits n [] = (n, [])
read_digits n (c ∷ s) = elim (is_digit c) [
  | true ↦ read_digits (n * 10 + (code c - 48)) s
  | false ↦ (n, c ∷ s)
]

-- A number of at least one digit.
unfoldable pub read_number : String → Option (ℕ × String)
read_number [] = none
read_number (c ∷ s) = if is_digit c then some (read_digits 0 (c ∷ s)) else none

-- The rest of a text behind a prefix.
unfoldable pub read_prefix : String → String → Option String
read_prefix [] s = some s
read_prefix (p ∷ ps) [] = none
read_prefix (p ∷ ps) (c ∷ s) = elim (code p == code c) [ true ↦ read_prefix ps s | false ↦ none ]
