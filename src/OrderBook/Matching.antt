-- ===== src/OrderBook/Matching.antt =====
-- src/matching/orderbook/map_orderbook.cpp: `match`, `executeOrders`, `canMatchOrder`,
-- `addLimitOrder` and `addMarketOrder`. The matching loop runs on fuel, one more than the
-- references on the other side, and `none` would be its end.
pub mod Trade
pub mod Round
pub mod Advance
pub mod Loop
pub mod Fok
pub mod Whole
pub mod Uncrossed
pub mod Limit
pub mod Market
pub mod Quotes
pub mod Taken
use rapid_trader.Base.{
  ℕ, zero, suc, ◌+◌, min, Bool, true, false, not, ◌&&◌, Option, none, some, ◌>>=◌, ◌>>◌, leb,
  if◌then◌else◌, add64, sub64, u64_max,
}
use rapid_trader.Containers.{Containers}
use rapid_trader.Event.{Event}
use rapid_trader.Level
use rapid_trader.Level.{Level, reduce_volume, front}
use rapid_trader.Order.{Order, is_ask, is_filled, is_fok, is_ioc, execute, set_price}
use rapid_trader.PriceMap.{begin, rbegin}
use rapid_trader.OrderBook.{
  MapOrderBook, LevelMap, LevelIterator, OrderWrapper, levels, level_at, write_level, find_order,
  write_order, notify, refs_count,
}
use rapid_trader.OrderBook.Storage.{delete_order, insert_limit_order}

-- Whether a level at `level_price` crosses an order.
abbrev pub crosses : Order → ℕ → Bool
crosses o level_price = if is_ask o then leb o.price level_price else leb level_price o.price

-- The map that an order is matched against.
abbrev pub opposite : Order → LevelMap
opposite o = if is_ask o then LevelMap.bid else LevelMap.ask

-- The loop of `canMatchOrder`. The iterator stays where it is; `none` is a loop that goes on.
unfoldable pub can_match_loop : ℕ → ℕ → ℕ → ℕ → Option Bool
can_match_loop zero level_volume required available = none
can_match_loop (suc fuel) level_volume required available =
    let needed = sub64 required available in
    let available' = add64 available (min level_volume needed) in
    elim (leb required available') [
      | true ↦ some true
      | false ↦ can_match_loop fuel level_volume required available'
    ]

module _ ⦃C : Containers⦄ where
  -- `bid_levels.rbegin()` for an ask order, `ask_levels.begin()` for a bid order.
  abbrev pub best_opposite : Order → MapOrderBook → Option (ℕ × Level)
  best_opposite o b = if is_ask o then rbegin b.bid_levels else begin b.ask_levels

  unfoldable pub execute_orders : Order → Order → ℕ → MapOrderBook → Order × Order × MapOrderBook
  execute_orders ask bid executing_price b =
      let matched = min ask.open_quantity bid.open_quantity in
      let bid' = execute executing_price matched bid in
      let ask' = execute executing_price matched ask in
      let b₁ = notify (Event.executed_order bid') b in
      let b₂ = notify (Event.executed_order ask') b₁ in
      (ask', bid', record b₂ { last_traded_price = executing_price })

  -- `executeOrders` with the incoming order on its side: the incoming order, the resting one.
  abbrev pub execute_against : Order → Order → MapOrderBook → Order × Order × MapOrderBook
  execute_against o resting b =
      if is_ask o
      then execute_orders o resting resting.price b
      else (let (ask', bid', b') = execute_orders resting o resting.price b in (bid', ask', b'))

  -- What a round does once the orders are executed: the resting order `r` is written back, its
  -- level `it` loses volume, and the order is deleted if it is filled.
  unfoldable pub settle :
      ℕ
      → OrderWrapper
      → LevelIterator
      → Order × Order × MapOrderBook
      → Option (Order × MapOrderBook)
  settle r w it (o', resting, b₁) = do
    let b₂ = write_order r (record w { order = resting }) b₁
    l ← level_at it b₂
    l' ← reduce_volume resting.last_executed_quantity l
    let b₃ = write_level it l' b₂
    b₄ ← if is_filled resting then delete_order resting.id true b₃ else some b₃
    some (o', b₄)

  -- One round of the loop of `match`, at the level `p` with the resting order `r` in front.
  unfoldable pub match_step : Order → ℕ → Level → MapOrderBook → Option (Order × MapOrderBook)
  match_step o p l b = do
    r ← front l
    w ← find_order r b
    settle r w (record { map = opposite o; key = p }) (execute_against o w.order b)

  unfoldable pub match_loop : ℕ → Order → MapOrderBook → Option (Order × MapOrderBook)
  match_loop zero o b = none
  match_loop (suc fuel) o b = elim (best_opposite o b) [
    | none ↦ some (o, b)
    | some (p, l) ↦ elim (crosses o p && not (is_filled o)) [
      | true ↦ do (o', b') ← match_step o p l b; match_loop fuel o' b'
      | false ↦ some (o, b)
    ]
  ]

  unfoldable pub can_match_order : Order → MapOrderBook → Option Bool
  unfolding can_match_loop
  can_match_order o b = elim (best_opposite o b) [
    | none ↦ some false
    | some (p, l) ↦
        if crosses o p
        then can_match_loop (suc o.open_quantity) l.volume o.open_quantity 0
        else some false
  ]

  unfoldable pub match : Order → MapOrderBook → Option (Order × MapOrderBook)
  match o b =
      let run = match_loop (suc (refs_count (levels (opposite o) b))) o b in
      if is_fok o then (do can ← can_match_order o b; if can then run else some (o, b)) else run

  unfoldable pub add_limit_order : Order → MapOrderBook → Option MapOrderBook
  add_limit_order o b = do
    (o', b') ← match o b
    if not (is_filled o') && not (is_ioc o') && not (is_fok o')
        then insert_limit_order o' b'
        else some (notify (Event.order_deleted o') b')

  unfoldable pub add_market_order : Order → MapOrderBook → Option MapOrderBook
  add_market_order o b = do
    (o', b') ← match (set_price (if is_ask o then 0 else u64_max) o) b
    some (notify (Event.order_deleted o') b')
