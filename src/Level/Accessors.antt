-- ===== src/Level/Accessors.antt =====
-- include/matching/orderbook/level.h: the accessors of `Level`.
use rapid_trader.Base.{ℕ, Bool, List}
use rapid_trader.Containers.{Containers}
use rapid_trader.Level.{Level, LevelSide, level_is_ask, level_is_bid, refs}

module _ ⦃C : Containers⦄ where
  abbrev pub get_orders : Level → List ℕ
  get_orders l = refs l

  abbrev pub get_price : Level → ℕ
  get_price l = l.price

  abbrev pub get_volume : Level → ℕ
  get_volume l = l.volume

  abbrev pub get_side : Level → LevelSide
  get_side l = l.side

  abbrev pub get_symbol_id : Level → ℕ
  get_symbol_id l = l.symbol_id

  abbrev pub is_ask : Level → Bool
  is_ask l = level_is_ask l.side

  abbrev pub is_bid : Level → Bool
  is_bid l = level_is_bid l.side
