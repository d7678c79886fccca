-- ===== src/Text.antt =====
-- What the source uses of the standard library to print: `std::to_string` of an unsigned number of at
-- most 64 bits, and the concatenation of texts.
pub mod Decimal
pub mod Reading
pub mod Lines
use Prim.Native.Nat.{◌/◌}
use Prim.Native.Char.{Char, char}
use Prim.Native.String.{String, [], ◌∷◌}
use rapid_trader.Base.{ℕ, zero, suc, ◌%◌, Bool, true, false, ltb}

abbrev pub digit : ℕ → Char
digit zero = char 48 tt
digit (suc zero) = char 49 tt
digit (suc (suc zero)) = char 50 tt
digit (suc (suc (suc zero))) = char 51 tt
digit (suc (suc (suc (suc zero)))) = char 52 tt
digit (suc (suc (suc (suc (suc zero))))) = char 53 tt
digit (suc (suc (suc (suc (suc (suc zero)))))) = char 54 tt
digit (suc (suc (suc (suc (suc (suc (suc zero))))))) = char 55 tt
digit (suc (suc (suc (suc (suc (suc (suc (suc zero)))))))) = char 56 tt
digit _ = char 57 tt

-- The digits of `n`, in front of the text `out`.
unfoldable pub print_digits : ℕ → ℕ → String → String
print_digits zero n out = out
print_digits (suc fuel) n out = elim (ltb n 10) [
  | true ↦ digit n ∷ out
  | false ↦ print_digits fuel (n / 10) (digit (n % 10) ∷ out)
]

-- A number of 64 bits has at most twenty digits.
unfoldable pub to_string : ℕ → String
to_string n = print_digits 20 n []
