-- ===== src/OrderBook/Storage.antt =====
-- src/matching/orderbook/map_orderbook.cpp: `deleteOrder` with its flag, and the three functions
-- that put an order into a level.
use rapid_trader.Base.{ℕ, Bool, Option, none, some, ◌>>=◌, if◌then◌else◌}
use rapid_trader.Containers.{Containers}
use rapid_trader.Event.{Event}
use rapid_trader.Level
use rapid_trader.Level.{Level, LevelSide, new_level, level_empty}
use rapid_trader.Order.{Order, OrderType, is_ask}
use rapid_trader.PriceMap.{emplace, erase}
use rapid_trader.OrderBook.{
  MapOrderBook, LevelMap, LevelIterator, levels, set_levels, level_at, write_level, find_order,
  write_order, notify_if,
}

-- The map of a level that has run empty, chosen by the deleted order's type and side.
abbrev pub map_of : OrderType → Bool → Option LevelMap
map_of OrderType.limit ask = some (if ask then LevelMap.ask else LevelMap.bid)
map_of OrderType.stop ask = some (if ask then LevelMap.stop_ask else LevelMap.stop_bid)
map_of OrderType.stop_limit ask = some (if ask then LevelMap.stop_ask else LevelMap.stop_bid)
map_of OrderType.trailing_stop ask =
    some (if ask then LevelMap.trailing_stop_ask else LevelMap.trailing_stop_bid)
map_of OrderType.trailing_stop_limit ask =
    some (if ask then LevelMap.trailing_stop_ask else LevelMap.trailing_stop_bid)
map_of OrderType.market ask = none

module _ ⦃C : Containers⦄ where
  -- `levels.erase(levels_it)`
  abbrev pub erase_level : Order → LevelIterator → MapOrderBook → Option MapOrderBook
  erase_level o it b = do
    m ← map_of o.type (is_ask o)
    some (set_levels m (erase it.key (levels m b)) b)

  unfoldable pub delete_order : ℕ → Bool → MapOrderBook → Option MapOrderBook
  delete_order order_id notification b = do
    w ← find_order order_id b
    let b₁ = notify_if notification (Event.order_deleted w.order) b
    l ← level_at w.level_it b₁
    let l' = Level.delete_order w.order l
    let b₂ = write_level w.level_it l' b₁
    b₃ ← if level_empty l' then erase_level w.order w.level_it b₂ else some b₂
    some (record b₃ { orders = C.erase order_id b₃.orders })

  abbrev pub side_of : Order → LevelSide
  side_of o = if is_ask o then LevelSide.ask else LevelSide.bid

  -- The steps that the insertions share: a level at the key, an entry for the order, and the
  -- order at the back of the level.
  unfoldable pub insert_at : LevelIterator → Order → MapOrderBook → Option MapOrderBook
  insert_at it o b = do
    let fresh = new_level it.key (side_of o) b.symbol_id
    let b₁ = set_levels it.map (emplace it.key fresh (levels it.map b)) b
    let b₂ = record b₁ { orders = C.emplace o.id (record { order = o; level_it = it }) b₁.orders }
    w ← find_order o.id b₂
    l ← level_at it b₂
    l' ← Level.add_order w.order l
    some (write_level it l' b₂)

  unfoldable pub insert_limit_order : Order → MapOrderBook → Option MapOrderBook
  insert_limit_order o b =
      let m = if is_ask o then LevelMap.ask else LevelMap.bid in
      insert_at (record { map = m; key = o.price }) o b

  unfoldable pub insert_stop_order : Order → MapOrderBook → Option MapOrderBook
  insert_stop_order o b =
      let m = if is_ask o then LevelMap.stop_ask else LevelMap.stop_bid in
      insert_at (record { map = m; key = o.stop_price }) o b

  unfoldable pub insert_trailing_stop_order : Order → MapOrderBook → Option MapOrderBook
  insert_trailing_stop_order o b = do
    let m = if is_ask o then LevelMap.trailing_stop_ask else LevelMap.trailing_stop_bid
    let it : LevelIterator = record { map = m; key = o.stop_price }
    b₁ ← insert_at it o b
    w ← find_order o.id b₁
    some (write_order o.id (record w { level_it = it }) b₁)
