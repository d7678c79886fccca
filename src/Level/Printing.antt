-- ===== src/Level/Printing.antt =====
-- src/matching/orderbook/level.cpp: `Level::toString`, and a reader of what it prints.
use Prim.Native.String.{String, [], ◌∷◌, ◌++◌}
use text.Mathlib.TextLemmas.{append_assoc, cons-append, nil-append}
use rapid_trader.Base.{ℕ, ◌^◌, ◌<◌, ◌≡◌, refl, sym, Option, none, some, ◌>>=◌}
use rapid_trader.Containers.{Containers}
use rapid_trader.Level.{Level}
use rapid_trader.Text.{to_string}
use rapid_trader.Text.Decimal.{StartsNoDigit}
use rapid_trader.Text.Lines.{read_labelled, read_labelled-append}
use rapid_trader.Text.Reading.{read_number, read_prefix}

-- The price and the volume of a printed level.
unfoldable pub read_level : String → Option ((ℕ × ℕ) × String)
read_level s = do
  (price, s') ← read_labelled "" " X " s
  (volume, rest) ← read_labelled "" "\n" s'
  some ((price, volume), rest)

pub read_level_not : (s : String) → StartsNoDigit s → read_level s ≡ none
unfolding read_level read_prefix read_number
read_level_not [] h = refl
read_level_not (c ∷ s) h = rw h refl

module _ ⦃C : Containers⦄ where
  unfoldable pub level_to_string : Level → String
  level_to_string l = to_string l.price ++ " X " ++ to_string l.volume ++ "\n"

  pub read_level-level_to_string :
      (l : Level) (rest : String)
      → l.price < 2 ^ 64
      → l.volume < 2 ^ 64
      → read_level (level_to_string l ++ rest) ≡ some ((l.price, l.volume), rest)
  unfolding read_level level_to_string
  read_level-level_to_string l rest hp hv =
      rw
        (
          append_assoc,
          append_assoc,
          append_assoc,
          sym (nil-append (to_string l.price ++ " X " ++ to_string l.volume ++ "\n" ++ rest)),
          read_labelled-append "" " X " l.price (to_string l.volume ++ "\n" ++ rest) hp
              (rw cons-append refl),
          sym (nil-append (to_string l.volume ++ "\n" ++ rest)),
          read_labelled-append "" "\n" l.volume rest hv (rw cons-append refl),
        )
        refl
