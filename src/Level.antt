-- ===== src/Level.antt =====
-- include/matching/orderbook/level.h and src/matching/orderbook/level.cpp: the orders of one
-- price, as references, with their total open quantity. `deref` finds the order that a reference
-- stands for. As in a build with `NDEBUG`, `VALIDATE_LEVEL` expands to nothing; Level/Checked.antt has
-- the functions of a build without it. A failed assertion and an access to an empty list are `none`.
pub mod Volume
pub mod Printing
pub mod Accessors
pub mod Checked
use rapid_trader.Base.{
  ℕ, ◌+◌, ◌≡◌, Bool, true, false, not, ◌&&◌, ◌||◌, Option, none, some, List, [], ◌∷◌, ◌==◌, leb,
  if◌then◌else◌, ◌>>=◌, ◌>>◌, guard, add64, sub64, length, head?, last?, is_nil,
}
use rapid_trader.Order.{
  Order, is_ask, is_bid, is_market, is_stop, is_stop_limit, is_trailing_stop,
  is_trailing_stop_limit,
}
use rapid_trader.Containers.{Containers}

pub data LevelSide : Type 0 where
  bid ask : LevelSide

abbrev pub level_is_ask : LevelSide → Bool
level_is_ask LevelSide.ask = true
level_is_ask LevelSide.bid = false

abbrev pub level_is_bid : LevelSide → Bool
level_is_bid LevelSide.bid = true
level_is_bid LevelSide.ask = false

pub record Level ⦃C : Containers⦄ : Type 0 where
  pub orders : C.RefList
  pub side : LevelSide
  pub symbol_id : ℕ
  pub volume : ℕ
  pub price : ℕ

module _ ⦃C : Containers⦄ where
  unfoldable pub new_level : ℕ → LevelSide → ℕ → Level
  new_level price_ side_ symbol_id_ = record {
    orders = C.no_refs;
    side = side_;
    symbol_id = symbol_id_;
    volume = 0;
    price = price_;
  }

  -- The references of a level, front first.
  abbrev pub refs : Level → List ℕ
  refs l = C.to_list l.orders

  abbrev pub level_empty : Level → Bool
  level_empty l = is_nil (refs l)

  abbrev pub size : Level → ℕ
  size l = length (refs l)

  abbrev pub front : Level → Option ℕ
  front l = head? (refs l)

  abbrev pub back : Level → Option ℕ
  back l = last? (refs l)

  abbrev pub side_fits : Order → LevelSide → Bool
  side_fits o s = if is_ask o then level_is_ask s else level_is_bid s

  unfoldable pub add_order : Order → Level → Option Level
  add_order o l = do
    guard (side_fits o l.side)
    guard (o.symbol_id == l.symbol_id)
    some (record l { volume = add64 l.volume o.open_quantity; orders = C.push_back o.id l.orders })

  unfoldable pub pop_front : (ℕ → Option Order) → Level → Option Level
  pop_front deref l = do
    r ← front l
    o ← deref r
    some (record l { volume = sub64 l.volume o.open_quantity; orders = C.pop_front l.orders })

  unfoldable pub pop_back : (ℕ → Option Order) → Level → Option Level
  pop_back deref l = do
    r ← back l
    o ← deref r
    some (record l { volume = sub64 l.volume o.open_quantity; orders = C.pop_back l.orders })

  unfoldable pub delete_order : Order → Level → Level
  delete_order o l = record l {
    volume = sub64 l.volume o.open_quantity;
    orders = C.unlink o.id l.orders;
  }

  unfoldable pub reduce_volume : ℕ → Level → Option Level
  reduce_volume amount l = do
    guard (leb amount l.volume)
    some (record l { volume = sub64 l.volume amount })

  -- The assertions of `validateLevel` on one order of the level.
  unfoldable pub order_fits : Level → Order → Bool
  order_fits l o =
      (if level_is_ask l.side then is_ask o else is_bid o)
      && (if is_stop o || is_stop_limit o || is_trailing_stop o || is_trailing_stop_limit o
          then o.stop_price == l.price
          else o.price == l.price)
      && not (is_market o)

  -- The loop of `validateLevel`: `none` if an assertion fails, and otherwise the sum of the open
  -- quantities in a `uint64_t`.
  unfoldable pub actual_volume : (ℕ → Option Order) → Level → ℕ → List ℕ → Option ℕ
  actual_volume deref l sum [] = some sum
  actual_volume deref l sum (r ∷ rs) = do
    o ← deref r
    guard (order_fits l o)
    actual_volume deref l (add64 sum o.open_quantity) rs

  unfoldable pub validate_level : (ℕ → Option Order) → Level → Bool
  unfolding actual_volume
  validate_level deref l = elim (actual_volume deref l 0 (refs l)) [
    | none ↦ false
    | some v ↦ v == l.volume
  ]
