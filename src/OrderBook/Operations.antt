-- ===== src/OrderBook/Operations.antt =====
-- src/matching/orderbook/map_orderbook.cpp: the public operations of the book. The overload of
-- `executeOrder` with no price has the name `execute_order_at_own_price`.
-- As in a build with `NDEBUG`, `VALIDATE_ORDERBOOK` expands to nothing; Operations/Checked.antt has the
-- operations of a build without it.
pub mod Reduction
pub mod Resting
pub mod Adding
pub mod Reachable
pub mod Checked
use rapid_trader.Base.{ℕ, min, true, Option, some, ◌>>=◌, if◌then◌else◌, sub64}
use rapid_trader.Containers.{Containers}
use rapid_trader.Event.{Event}
use rapid_trader.Level
use rapid_trader.Level.{Level}
use rapid_trader.Order.{Order, OrderType, is_filled, execute, set_quantity, set_order_id, set_price}
use rapid_trader.OrderBook.{MapOrderBook, level_at, write_level, find_order, write_order, notify}
use rapid_trader.OrderBook.Storage
use rapid_trader.OrderBook.Matching.{add_limit_order, add_market_order}
use rapid_trader.OrderBook.Stops.{add_stop_order, activate_stop_orders}

module _ ⦃C : Containers⦄ where
  abbrev pub add_by_type : OrderType → Order → MapOrderBook → Option MapOrderBook
  add_by_type OrderType.limit o b = add_limit_order o b
  add_by_type OrderType.market o b = add_market_order o b
  add_by_type OrderType.stop o b = add_stop_order o b
  add_by_type OrderType.stop_limit o b = add_stop_order o b
  add_by_type OrderType.trailing_stop o b = add_stop_order o b
  add_by_type OrderType.trailing_stop_limit o b = add_stop_order o b

  unfoldable pub add_order : Order → MapOrderBook → Option MapOrderBook
  add_order o b = do
    b₁ ← add_by_type o.type o (notify (Event.order_added o) b)
    activate_stop_orders b₁

  -- What the two overloads of `executeOrder` do once the price is known.
  unfoldable pub execute_resting : ℕ → ℕ → ℕ → MapOrderBook → Option MapOrderBook
  execute_resting order_id quantity price b = do
    w ← find_order order_id b
    let executing_quantity = min quantity w.order.open_quantity
    let o = execute price executing_quantity w.order
    let b₁ = write_order order_id (record w { order = o }) b
    let b₂ = notify (Event.executed_order o) (record b₁ { last_traded_price = price })
    l ← level_at w.level_it b₂
    l' ← Level.reduce_volume o.last_executed_quantity l
    let b₃ = write_level w.level_it l' b₂
    b₄ ← if is_filled o then Storage.delete_order order_id true b₃ else some b₃
    activate_stop_orders b₄

  unfoldable pub execute_order : ℕ → ℕ → ℕ → MapOrderBook → Option MapOrderBook
  execute_order order_id quantity price b = execute_resting order_id quantity price b

  unfoldable pub execute_order_at_own_price : ℕ → ℕ → MapOrderBook → Option MapOrderBook
  execute_order_at_own_price order_id quantity b = do
    w ← find_order order_id b
    execute_resting order_id quantity w.order.price b

  unfoldable pub cancel_order : ℕ → ℕ → MapOrderBook → Option MapOrderBook
  cancel_order order_id quantity b = do
    w ← find_order order_id b
    let pre_cancellation_quantity = w.order.open_quantity
    let o = set_quantity quantity w.order
    let b₁ = write_order order_id (record w { order = o }) b
    let b₂ = notify (Event.order_updated o) b₁
    l ← level_at w.level_it b₂
    l' ← Level.reduce_volume (sub64 pre_cancellation_quantity o.open_quantity) l
    let b₃ = write_level w.level_it l' b₂
    b₄ ← if is_filled o then Storage.delete_order order_id true b₃ else some b₃
    activate_stop_orders b₄

  unfoldable pub delete_order : ℕ → MapOrderBook → Option MapOrderBook
  delete_order order_id b = do b₁ ← Storage.delete_order order_id true b; activate_stop_orders b₁

  unfoldable pub replace_order : ℕ → ℕ → ℕ → MapOrderBook → Option MapOrderBook
  replace_order order_id new_order_id new_price b = do
    w ← find_order order_id b
    let new_order = set_price new_price (set_order_id new_order_id w.order)
    b₁ ← Storage.delete_order order_id true b
    b₂ ← add_order new_order b₁
    activate_stop_orders b₂
