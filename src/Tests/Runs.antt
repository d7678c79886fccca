-- ===== src/Tests/Runs.antt =====
-- Short runs of an order book.
use rapid_trader.Base.{none, ◌≡◌, refl, ℕ, Option, some, ◌>>=◌}
use mathlib.Core.Option
use rapid_trader.Containers.{Containers}
use rapid_trader.Containers.Assoc.{assoc}
use rapid_trader.Order.{
  Order, OrderType, OrderSide, OrderTimeInForce, new_order, execute, set_quantity,
}
use rapid_trader.Level.{
  new_level, add_order as push, pop_front, delete_order as unlink, reduce_volume,
}
use rapid_trader.PriceMap.{get, put, emplace, erase}
use rapid_trader.OrderBook.{new_book, best_bid, best_ask, get_order}
use rapid_trader.OrderBook.Storage
use rapid_trader.OrderBook.Storage.{
  insert_at, insert_limit_order, insert_stop_order, insert_trailing_stop_order,
}
use rapid_trader.OrderBook.Matching.{
  execute_orders, settle, match_step, match_loop, can_match_loop, can_match_order, match,
  add_limit_order, add_market_order,
}
use rapid_trader.OrderBook.Stops.{
  calculate_stop_price, place_stop_order, add_stop_order, activate_stop_order, activate_loop,
  activate_bid_stop_orders, activate_ask_stop_orders, move_orders, move_levels,
  update_bid_stop_orders, update_ask_stop_orders, activate_round, activate_rounds,
  activate_stop_orders,
}
use rapid_trader.OrderBook.Operations.{
  add_order, execute_resting, execute_order, execute_order_at_own_price, cancel_order, delete_order,
  replace_order,
}

instance abbrev pub lists : Containers
lists = assoc

abbrev pub limit : OrderSide → ℕ → ℕ → ℕ → Order
unfolding new_order
limit s id price quantity = new_order OrderType.limit s OrderTimeInForce.gtc 1 price 0 0 quantity id

abbrev pub fok : OrderSide → ℕ → ℕ → ℕ → Order
unfolding new_order
fok s id price quantity = new_order OrderType.limit s OrderTimeInForce.fok 1 price 0 0 quantity id

abbrev pub trailing : OrderSide → ℕ → ℕ → ℕ → Order
unfolding new_order
trailing s id trail quantity =
    new_order OrderType.trailing_stop s OrderTimeInForce.ioc 1 0 0 trail quantity id

-- Two asks, and a bid that takes the first and half of the second.
crossed : Option (ℕ × ℕ × ℕ × Option ℕ)
crossed = do
  b ← add_order (limit OrderSide.ask 1 100 10) (new_book 1)
  b ← add_order (limit OrderSide.ask 2 101 10) b
  b ← add_order (limit OrderSide.bid 3 101 15) b
  some (
    best_bid b,
    best_ask b,
    b.last_traded_price,
    Option.map (λ o. o.open_quantity) (get_order 2 b),
  )

crossed_result : crossed ≡ some (0, 101, 101, some 5)
unfolding crossed new_order execute set_quantity new_level push pop_front unlink reduce_volume get
    put emplace erase new_book best_bid best_ask get_order Storage.delete_order insert_at
    insert_limit_order insert_stop_order insert_trailing_stop_order execute_orders settle match_step
    match_loop can_match_loop can_match_order match add_limit_order add_market_order
    calculate_stop_price place_stop_order add_stop_order activate_stop_order activate_loop
    activate_bid_stop_orders activate_ask_stop_orders move_orders move_levels update_bid_stop_orders
    update_ask_stop_orders activate_round activate_rounds activate_stop_orders add_order
    execute_resting execute_order execute_order_at_own_price cancel_order delete_order replace_order
crossed_result = refl

-- A fill-or-kill bid for more than there is: the ask is gone.
fok_partial : Option (ℕ × Option ℕ × Option ℕ)
fok_partial = do
  b ← add_order (limit OrderSide.ask 1 100 10) (new_book 1)
  b ← add_order (fok OrderSide.bid 3 100 15) b
  some (
    b.last_traded_price,
    Option.map (λ o. o.open_quantity) (get_order 1 b),
    Option.map (λ o. o.open_quantity) (get_order 3 b),
  )

fok_partial_result : fok_partial ≡ some (100, none, none)
unfolding fok_partial new_order execute set_quantity new_level push pop_front unlink reduce_volume
    get put emplace erase new_book best_bid best_ask get_order Storage.delete_order insert_at
    insert_limit_order insert_stop_order insert_trailing_stop_order execute_orders settle match_step
    match_loop can_match_loop can_match_order match add_limit_order add_market_order
    calculate_stop_price place_stop_order add_stop_order activate_stop_order activate_loop
    activate_bid_stop_orders activate_ask_stop_orders move_orders move_levels update_bid_stop_orders
    update_ask_stop_orders activate_round activate_rounds activate_stop_orders add_order
    execute_resting execute_order execute_order_at_own_price cancel_order delete_order replace_order
fok_partial_result = refl

-- A trailing stop bid whose stop price rises.
trail_up : Option (Option ℕ × Option ℕ)
trail_up = do
  b ← add_order (limit OrderSide.ask 1 100 10) (new_book 1)
  b ← add_order (limit OrderSide.bid 2 100 10) b
  b ← add_order (trailing OrderSide.bid 3 10 10) b
  let first = Option.map (λ o. o.stop_price) (get_order 3 b)
  b ← add_order (limit OrderSide.ask 4 108 10) b
  b ← add_order (limit OrderSide.bid 5 108 10) b
  b ← add_order (limit OrderSide.ask 6 107 10) b
  b ← add_order (limit OrderSide.bid 7 107 10) b
  some (first, Option.map (λ o. o.stop_price) (get_order 3 b))

trail_up_result : trail_up ≡ some (some 110, some 117)
unfolding trail_up new_order execute set_quantity new_level push pop_front unlink reduce_volume get
    put emplace erase new_book best_bid best_ask get_order Storage.delete_order insert_at
    insert_limit_order insert_stop_order insert_trailing_stop_order execute_orders settle match_step
    match_loop can_match_loop can_match_order match add_limit_order add_market_order
    calculate_stop_price place_stop_order add_stop_order activate_stop_order activate_loop
    activate_bid_stop_orders activate_ask_stop_orders move_orders move_levels update_bid_stop_orders
    update_ask_stop_orders activate_round activate_rounds activate_stop_orders add_order
    execute_resting execute_order execute_order_at_own_price cancel_order delete_order replace_order
trail_up_result = refl
