-- ===== src/OrderBook/Stops.antt =====
-- src/matching/orderbook/map_orderbook.cpp: stop and trailing stop orders. The activation loops
-- run on fuel, one more than the references in the stop levels, and `none` would be its end.
pub mod Activate
pub mod Reached
pub mod Swept
pub mod Filed
pub mod Added
pub mod Trailing
pub mod Rounds
use rapid_trader.Base.{
  ℕ, zero, suc, ◌+◌, Bool, true, false, ◌&&◌, ◌||◌, Option, none, some, List, [], ◌∷◌, ◌>>=◌, leb,
  ltb, if◌then◌else◌, add64, sub64, u64_max, is_nil,
}
use rapid_trader.Containers.{Containers}
use rapid_trader.Event.{Event}
use rapid_trader.Level
use rapid_trader.Level.{Level, LevelSide, new_level, front, size}
use rapid_trader.Order.{
  Order, OrderType, is_ask, is_bid, is_stop, is_trailing_stop, is_trailing_stop_limit, is_market,
  set_type, set_stop_price, set_trail_amount,
}
use rapid_trader.PriceMap.{get, put, emplace, begin, rbegin}
use rapid_trader.OrderBook.{
  MapOrderBook, LevelMap, LevelIterator, levels, find_order, deref, write_order, notify, refs_count,
  last_traded_price_ask, last_traded_price_bid,
}
use rapid_trader.OrderBook.Storage.{delete_order, insert_stop_order, insert_trailing_stop_order}
use rapid_trader.OrderBook.Matching.{add_limit_order, add_market_order}

-- The new stop price at a market price and a trail amount, for an ask and for a bid order.
abbrev pub trailing_ask : ℕ → ℕ → ℕ
trailing_ask market_price trail = if ltb trail market_price then sub64 market_price trail else 0

abbrev pub trailing_bid : ℕ → ℕ → ℕ
trailing_bid market_price trail =
    if ltb market_price (sub64 u64_max trail) then add64 market_price trail else u64_max

module _ ⦃C : Containers⦄ where
  -- The order with the new stop price; the price that the source returns is its stop price.
  unfoldable pub calculate_stop_price : MapOrderBook → Order → Order
  calculate_stop_price b o =
      if is_ask o
      then set_stop_price (trailing_ask (last_traded_price_bid b) o.trail_amount) o
      else set_stop_price (trailing_bid (last_traded_price_ask b) o.trail_amount) o

  -- The stop or trailing stop order as the order that it becomes.
  abbrev pub converted : Order → Order
  converted o = set_trail_amount 0 (
      set_stop_price 0 (
        set_type (if is_stop o || is_trailing_stop o then OrderType.market else OrderType.limit) o))

  -- What `addStopOrder` does once the stop price is known.
  unfoldable pub place_stop_order : Order → MapOrderBook → Option MapOrderBook
  place_stop_order o b =
      let market_price = if is_ask o then last_traded_price_bid b else last_traded_price_ask b in
      if (is_ask o && leb market_price o.stop_price) || (is_bid o && leb o.stop_price market_price)
      then (let o₁ = converted o in
          let b₁ = notify (Event.order_updated o₁) b in
          if is_market o₁ then add_market_order o₁ b₁ else add_limit_order o₁ b₁)
      else (if is_trailing_stop o || is_trailing_stop_limit o
          then insert_trailing_stop_order o b
          else insert_stop_order o b)

  unfoldable pub add_stop_order : Order → MapOrderBook → Option MapOrderBook
  add_stop_order o b =
      place_stop_order
        (if is_trailing_stop o || is_trailing_stop_limit o then calculate_stop_price b o else o) b

  unfoldable pub activate_stop_order : Order → MapOrderBook → Option MapOrderBook
  activate_stop_order o b = do
    b₁ ← delete_order o.id false b
    let o₁ = converted o
    let b₂ = notify (Event.order_updated o₁) b₁
    if is_stop o || is_trailing_stop o then add_market_order o₁ b₂ else add_limit_order o₁ b₂

  -- `rbegin()` of a map of ask levels, `begin()` of a map of bid levels; the test of the loops.
  abbrev pub next_stop : Bool → List (ℕ × Level) → Option (ℕ × Level)
  next_stop ask m = if ask then rbegin m else begin m

  abbrev pub reached : Bool → ℕ → ℕ → Bool
  reached ask last_price key = if ask then leb last_price key else leb key last_price

  -- One `while` loop of `activateBidStopOrders` and `activateAskStopOrders`, over one map. The
  -- market price is read before the loop.
  unfoldable pub activate_loop :
      ℕ → Bool → LevelMap → ℕ → Bool → MapOrderBook → Option (Bool × MapOrderBook)
  activate_loop zero ask m last_price activated b = none
  activate_loop (suc fuel) ask m last_price activated b = elim (next_stop ask (levels m b)) [
    | none ↦ some (activated, b)
    | some (p, l) ↦ elim (reached ask last_price p) [
      | false ↦ some (activated, b)
      | true ↦ do
        r ← front l
        o ← deref b r
        b' ← activate_stop_order o b
        activate_loop fuel ask m last_price true b'
    ]
  ]

  -- The references in the four maps of stop levels.
  abbrev pub stop_count : MapOrderBook → ℕ
  stop_count b =
      refs_count b.stop_ask_levels
      + refs_count b.stop_bid_levels
      + refs_count b.trailing_stop_ask_levels
      + refs_count b.trailing_stop_bid_levels

  unfoldable pub activate_bid_stop_orders : MapOrderBook → Option (Bool × MapOrderBook)
  activate_bid_stop_orders b = do
    (activated, b₁) ←
        activate_loop (suc (stop_count b)) false LevelMap.stop_bid (last_traded_price_ask b) false b
    activate_loop (suc (stop_count b)) false LevelMap.trailing_stop_bid (last_traded_price_ask b₁)
        activated b₁

  unfoldable pub activate_ask_stop_orders : MapOrderBook → Option (Bool × MapOrderBook)
  activate_ask_stop_orders b = do
    (activated, b₁) ←
        activate_loop (suc (stop_count b)) true LevelMap.stop_ask (last_traded_price_bid b) false b
    activate_loop (suc (stop_count b)) true LevelMap.trailing_stop_ask (last_traded_price_bid b₁)
        activated b₁

  -- The inner loop of the updates: each order of a level gets a new stop price and moves to the
  -- level of that price in the new map. `rounds` is the size of the level.
  unfoldable pub move_orders :
      ℕ
      → LevelMap
      → LevelSide
      → Level
      → List (ℕ × Level)
      → MapOrderBook
      → Option (List (ℕ × Level) × MapOrderBook)
  move_orders zero m side l new b = some (new, b)
  move_orders (suc rounds) m side l new b = do
    r ← front l
    w ← find_order r b
    let o = calculate_stop_price b w.order
    let key = o.stop_price
    let new₁ = emplace key (new_level key side b.symbol_id) new
    let it : LevelIterator = record { map = m; key = key }
    let b₁ = write_order r (record { order = o; level_it = it }) b
    l' ← Level.pop_front (deref b₁) l
    target ← get key new₁
    target' ← Level.add_order o target
    move_orders rounds m side l' (put key target' new₁) (notify (Event.order_updated o) b₁)

  -- The outer loop, over the levels of the old map.
  unfoldable pub move_levels :
      LevelMap
      → LevelSide
      → List (ℕ × Level)
      → List (ℕ × Level)
      → MapOrderBook
      → Option (List (ℕ × Level) × MapOrderBook)
  move_levels m side [] new b = some (new, b)
  move_levels m side ((p, l) ∷ old) new b = do
    (new', b') ← move_orders (size l) m side l new b
    move_levels m side old new' b'

  unfoldable pub update_bid_stop_orders : MapOrderBook → Option MapOrderBook
  update_bid_stop_orders b =
      if leb b.trailing_ask_price (last_traded_price_ask b) || is_nil b.trailing_stop_bid_levels
      then some (record b { trailing_ask_price = b.last_traded_price })
      else (do
        (new, b') ←
            move_levels LevelMap.trailing_stop_bid LevelSide.bid b.trailing_stop_bid_levels [] b
        some (record b' {
          trailing_stop_bid_levels = new;
          trailing_ask_price = b'.last_traded_price;
        }))

  unfoldable pub update_ask_stop_orders : MapOrderBook → Option MapOrderBook
  update_ask_stop_orders b =
      if leb (last_traded_price_bid b) b.trailing_bid_price || is_nil b.trailing_stop_ask_levels
      then some (record b { trailing_bid_price = b.last_traded_price })
      else (do
        (new, b') ←
            move_levels LevelMap.trailing_stop_ask LevelSide.ask b.trailing_stop_ask_levels [] b
        some (record b' {
          trailing_stop_ask_levels = new;
          trailing_bid_price = b'.last_traded_price;
        }))

  -- One round of the loop of `activateStopOrders`.
  unfoldable pub activate_round : MapOrderBook → Option (Bool × MapOrderBook)
  activate_round b = do
    (bids, b₁) ← activate_bid_stop_orders b
    b₂ ← update_ask_stop_orders b₁
    (asks, b₃) ← activate_ask_stop_orders b₂
    b₄ ← update_bid_stop_orders b₃
    some (asks || bids, b₄)

  unfoldable pub activate_rounds : ℕ → MapOrderBook → Option MapOrderBook
  activate_rounds zero b = none
  activate_rounds (suc fuel) b = do
    (activate, b') ← activate_round b
    elim activate [ true ↦ activate_rounds fuel b' | false ↦ some b' ]

  unfoldable pub activate_stop_orders : MapOrderBook → Option MapOrderBook
  activate_stop_orders b = activate_rounds (suc (stop_count b)) b
