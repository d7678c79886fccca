-- ===== src/Level/Checked.antt =====
-- src/matching/orderbook/level.cpp in a build without `NDEBUG`: there each function that changes a
-- level ends with the macro `VALIDATE_LEVEL`, which asserts what `validateLevel` does. `deref` finds
-- the orders as they are when the function is called.
use rapid_trader.Base.{ℕ, Option, none, some, ◌>>=◌, if◌then◌else◌}
use rapid_trader.Containers.{Containers}
use rapid_trader.Level
use rapid_trader.Level.{Level, validate_level}
use rapid_trader.Order.{Order}

module _ ⦃C : Containers⦄ (deref : ℕ → Option Order) where
  -- `VALIDATE_LEVEL` on the level as the function leaves it.
  abbrev pub validated : Level → Option Level
  validated l = if validate_level deref l then some l else none

  abbrev pub add_order : Order → Level → Option Level
  add_order o l = do l' ← Level.add_order o l; validated l'

  abbrev pub pop_front : Level → Option Level
  pop_front l = do l' ← Level.pop_front deref l; validated l'

  abbrev pub pop_back : Level → Option Level
  pop_back l = do l' ← Level.pop_back deref l; validated l'

  abbrev pub delete_order : Order → Level → Option Level
  delete_order o l = validated (Level.delete_order o l)

  abbrev pub reduce_volume : ℕ → Level → Option Level
  reduce_volume amount l = do l' ← Level.reduce_volume amount l; validated l'
