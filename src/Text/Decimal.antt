-- ===== src/Text/Decimal.antt =====
-- A printed number is read back.
use Prim.Native.Nat.{◌/◌, ◌*◌, ◌^◌}
use Prim.Native.Char.{code}
use Prim.Native.String.{String, [], ◌∷◌, ◌++◌}
use native.Mathlib.Nat.{pow-suc}
use text.Mathlib.TextLemmas.{nil-append, cons-append}
use rapid_trader.Base.{
  ℕ, zero, suc, ◌+◌, ◌%◌, ◌<◌, ◌≡◌, refl, ap, ◌∙◌, true, false, some, arith, ltb, inl, inr,
  Bool-cases,
}
use rapid_trader.Text.{digit, print_digits, to_string}
use rapid_trader.Text.Reading.{is_digit, read_digits, read_number}

-- A text that does not start with a digit.
abbrev pub StartsNoDigit : String → Type 0
StartsNoDigit [] = Unit
StartsNoDigit (c ∷ s) = is_digit c ≡ false

code-digit : (d : ℕ) → d < 10 → code (digit d) ≡ 48 + d
code-digit zero h = refl
code-digit (suc zero) h = refl
code-digit (suc (suc zero)) h = refl
code-digit (suc (suc (suc zero))) h = refl
code-digit (suc (suc (suc (suc zero)))) h = refl
code-digit (suc (suc (suc (suc (suc zero))))) h = refl
code-digit (suc (suc (suc (suc (suc (suc zero)))))) h = refl
code-digit (suc (suc (suc (suc (suc (suc (suc zero))))))) h = refl
code-digit (suc (suc (suc (suc (suc (suc (suc (suc zero)))))))) h = refl
code-digit (suc (suc (suc (suc (suc (suc (suc (suc (suc zero))))))))) h = refl
code-digit (suc (suc (suc (suc (suc (suc (suc (suc (suc (suc d)))))))))) h = absurd (omega arith)

is_digit-digit : (d : ℕ) → d < 10 → is_digit (digit d) ≡ true
is_digit-digit d h = ground (arith, code-digit d h)

read_digits-digit :
    (n d : ℕ) (out : String) → d < 10 → read_digits n (digit d ∷ out) ≡ read_digits (n * 10 + d) out
unfolding read_digits
read_digits-digit n d out h = ground (arith, is_digit-digit d h, code-digit d h)

read_digits-stop : (n : ℕ) (rest : String) → StartsNoDigit rest → read_digits n rest ≡ (n, rest)
unfolding read_digits
read_digits-stop n [] h = refl
read_digits-stop n (c ∷ s) h = rw (h, read_digits) refl

tenth_lt : (f n : ℕ) → n < 10 ^ suc f → n / 10 < 10 ^ f
tenth_lt f n h = let k = rw (pow-suc 10 f) at h in omega (arith, k)

read_digits-print_digits :
    (fuel n : ℕ) (out : String)
    → n < 10 ^ fuel
    → read_digits 0 (print_digits fuel n out) ≡ read_digits n out
unfolding print_digits
read_digits-print_digits zero n out h =
    ap (λ k. read_digits k out) (let z : 0 ≡ n = omega arith in z)
read_digits-print_digits (suc fuel) n out h = elim (Bool-cases (ltb n 10)) [
  | inl e ↦
      rw (e, print_digits)
        (read_digits-digit 0 n out (ground (arith, e))
          ∙ ap (λ k. read_digits k out) (let z : 0 * 10 + n ≡ n = omega arith in z))
  | inr e ↦
      rw (e, print_digits)
        (read_digits-print_digits fuel (n / 10) (digit (n % 10) ∷ out) (tenth_lt fuel n h)
          ∙ read_digits-digit (n / 10) (n % 10) out (omega arith)
          ∙ ap (λ k. read_digits k out) (let z : n / 10 * 10 + n % 10 ≡ n = omega arith in z))
]

print_digits-append :
    (fuel n : ℕ) (out rest : String)
    → print_digits fuel n out ++ rest ≡ print_digits fuel n (out ++ rest)
unfolding print_digits
print_digits-append zero n out rest = refl
print_digits-append (suc fuel) n out rest = elim (Bool-cases (ltb n 10)) [
  | inl e ↦ rw (e, print_digits, cons-append) refl
  | inr e ↦
      rw (e, print_digits)
        (print_digits-append fuel (n / 10) (digit (n % 10) ∷ out) rest
          ∙ ap (print_digits fuel (n / 10)) (cons-append (digit (n % 10)) out rest))
]

abbrev StartsDigit : String → Type 0
StartsDigit [] = ⊥
StartsDigit (c ∷ s) = is_digit c ≡ true

print_digits-StartsDigit :
    (fuel n : ℕ) (out : String) → StartsDigit out → StartsDigit (print_digits fuel n out)
unfolding print_digits
print_digits-StartsDigit zero n out h = h
print_digits-StartsDigit (suc fuel) n out h = elim (Bool-cases (ltb n 10)) [
  | inl e ↦ rw (e, print_digits) (is_digit-digit n (ground (arith, e)))
  | inr e ↦
      rw (e, print_digits)
        (print_digits-StartsDigit fuel (n / 10) (digit (n % 10) ∷ out)
          (is_digit-digit (n % 10) (omega arith)))
]

read_number-eq : (s : String) → StartsDigit s → read_number s ≡ some (read_digits 0 s)
unfolding read_number
read_number-eq [] h = absurd h
read_number-eq (c ∷ s) h = rw h refl

print_digits_first : (n : ℕ) (out : String) → StartsDigit (print_digits 20 n out)
unfolding print_digits
print_digits_first n out = elim (Bool-cases (ltb n 10)) [
  | inl e ↦ rw (e, print_digits) (is_digit-digit n (ground (arith, e)))
  | inr e ↦
      rw (e, print_digits)
        (print_digits-StartsDigit 19 (n / 10) (digit (n % 10) ∷ out)
          (is_digit-digit (n % 10) (omega arith)))
]

-- A number of 64 bits, printed in front of a text that starts with no digit.
pub read_number-to_string :
    (n : ℕ) (rest : String)
    → n < 2 ^ 64
    → StartsNoDigit rest
    → read_number (to_string n ++ rest) ≡ some (n, rest)
unfolding to_string
read_number-to_string n rest h stop =
    rw (print_digits-append 20 n [] rest, nil-append)
      (read_number-eq (print_digits 20 n rest) (print_digits_first n rest)
        ∙ ap some (read_digits-print_digits 20 n rest (omega arith) ∙ read_digits-stop n rest stop))
