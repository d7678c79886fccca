-- ===== src/Tests/Checks.antt =====
-- Runs in which a check of a build without `NDEBUG` fails.
use rapid_trader.Base.{none, ◌≡◌, refl, some}
use rapid_trader.Order.{Order, OrderSide, new_order, execute, set_quantity}
use rapid_trader.Level.{
  new_level, add_order as push, pop_front, delete_order as unlink, reduce_volume,
}
use rapid_trader.PriceMap.{get, put, emplace, erase}
use rapid_trader.OrderBook.{new_book, best_bid, best_ask, get_order}
use rapid_trader.OrderBook.Storage
use rapid_trader.OrderBook.Storage.{
  insert_at, insert_limit_order, insert_stop_order, insert_trailing_stop_order,
}
use rapid_trader.OrderBook.Matching.{
  execute_orders, settle, match_step, match_loop, can_match_loop, can_match_order, match,
  add_limit_order, add_market_order,
}
use rapid_trader.OrderBook.Stops.{
  calculate_stop_price, place_stop_order, add_stop_order, activate_stop_order, activate_loop,
  activate_bid_stop_orders, activate_ask_stop_orders, move_orders, move_levels,
  update_bid_stop_orders, update_ask_stop_orders, activate_round, activate_rounds,
  activate_stop_orders,
}
use rapid_trader.OrderBook.Operations.{
  add_order, execute_resting, execute_order, execute_order_at_own_price, cancel_order, delete_order,
  replace_order,
}
use rapid_trader.Order.Checked
use rapid_trader.Order.Checked.{changes-validated}
use rapid_trader.OrderBook.Operations.Checked as OperationsChecked
use rapid_trader.OrderBook.Validation.{validate_limit_orders, validate_order_book}
use rapid_trader.Order.{validate_order}
use rapid_trader.Base.{leb, ltb, min, if◌then◌else◌, arith, ◌+◌, ◌&&◌, u64_max}
use rapid_trader.Tests.Runs.{lists, limit}

abbrev ask_200 : Order
unfolding new_order
ask_200 = limit OrderSide.ask 1 350 200

-- An ask of 200 of which 150 are executed, and then 20 cancelled: `setQuantity` sets the quantity to
-- 20, below what is executed.
abbrev executed_150 : Order
unfolding new_order execute
executed_150 = execute 350 150 ask_200

changes-validated_example :
    (Checked.execute 350 20 executed_150
      ≡ (if leb (150 + 20) 200 then some (execute 350 20 executed_150) else none))
    × (Checked.set_quantity 20 executed_150 ≡ (
        if ltb 0 (min 20 50) && leb 150 (min 20 50) && leb 150 (min 20 50)
        then some (set_quantity 20 executed_150)
        else none))
unfolding validate_order new_order execute
changes-validated_example = changes-validated executed_150 350 20 refl (omega arith)

cancel_after_execution : Checked.set_quantity 20 executed_150 ≡ none
unfolding validate_order new_order execute set_quantity
cancel_after_execution = refl

-- An ask of 200 of which 20 are cancelled, which leaves the quantity 20 with 180 open, and then 100
-- executed.
execution_after_cancel : Checked.execute 350 100 (set_quantity 20 ask_200) ≡ none
unfolding validate_order new_order execute set_quantity
execution_after_cancel = refl

-- A bid at the greatest price, in an empty book.
extreme_bid : OperationsChecked.add_order (limit OrderSide.bid 1 u64_max 10) (new_book 1) ≡ none
unfolding new_order execute set_quantity new_level push pop_front unlink reduce_volume get put
    emplace erase new_book best_bid best_ask get_order Storage.delete_order insert_at
    insert_limit_order insert_stop_order insert_trailing_stop_order execute_orders settle match_step
    match_loop can_match_loop can_match_order match add_limit_order add_market_order
    calculate_stop_price place_stop_order add_stop_order activate_stop_order activate_loop
    activate_bid_stop_orders activate_ask_stop_orders move_orders move_levels update_bid_stop_orders
    update_ask_stop_orders activate_round activate_rounds activate_stop_orders add_order
    execute_resting execute_order execute_order_at_own_price cancel_order delete_order replace_order
    validate_order_book validate_limit_orders
extreme_bid = refl
