-- ===== src/Order/Checked.antt =====
-- include/matching/orderbook/order.h and src/matching/orderbook/order.cpp in a build without `NDEBUG`:
-- there the constructor and each function that changes an order end with the macro
-- `VALIDATE_ORDER`, which asserts what `validateOrder` does. A failed assertion is `none`.
use rapid_trader.Base.{
  ℕ, ◌+◌, ◌<◌, ◌≡◌, true, ◌&&◌, Option, none, some, if◌then◌else◌, arith, min, ltb, leb, u64_mod,
}
use rapid_trader.Order
use rapid_trader.Order.{Order, OrderType, OrderSide, OrderTimeInForce, validate_order}

-- `VALIDATE_ORDER` on the order as the function leaves it.
abbrev pub validated : Order → Option Order
validated o = if validate_order o then some o else none

abbrev pub new_order :
    OrderType → OrderSide → OrderTimeInForce → ℕ → ℕ → ℕ → ℕ → ℕ → ℕ → Option Order
new_order type side tif symbol_id price stop_price trail_amount quantity id =
    validated (Order.new_order type side tif symbol_id price stop_price trail_amount quantity id)

abbrev pub execute : ℕ → ℕ → Order → Option Order
execute price quantity o = validated (Order.execute price quantity o)

abbrev pub set_price : ℕ → Order → Option Order
set_price price o = validated (Order.set_price price o)

abbrev pub set_stop_price : ℕ → Order → Option Order
set_stop_price stop_price o = validated (Order.set_stop_price stop_price o)

abbrev pub set_trail_amount : ℕ → Order → Option Order
set_trail_amount trail_amount o = validated (Order.set_trail_amount trail_amount o)

abbrev pub set_quantity : ℕ → Order → Option Order
set_quantity quantity o = validated (Order.set_quantity quantity o)

abbrev pub set_order_id : ℕ → Order → Option Order
set_order_id id o = validated (Order.set_order_id id o)

abbrev pub set_type : OrderType → Order → Option Order
set_type action o = validated (Order.set_type action o)

-- In a build without `NDEBUG`, for an order that passes `validateOrder` and an execution whose
-- quantity added to what is executed fits 64 bits: `execute` returns exactly if the sum is at most the
-- order's `quantity`; and `setQuantity` returns exactly if the smaller one of its parameter and the
-- open quantity, which becomes the `quantity`, is positive and neither below the last executed nor
-- below the executed quantity. Otherwise both fail an assertion.
pub changes-validated :
    (o : Order) (price q : ℕ)
    → validate_order o ≡ true
    → o.executed_quantity + q < u64_mod
    → (execute price q o ≡ (
        if leb (o.executed_quantity + q) o.quantity then some (Order.execute price q o) else none))
      × (set_quantity q o ≡ (
          let new_quantity = min q o.open_quantity in
          if ltb 0 new_quantity
            && leb o.last_executed_quantity new_quantity
            && leb o.executed_quantity new_quantity
          then some (Order.set_quantity q o)
          else none))
unfolding validate_order Order.execute Order.set_quantity
changes-validated o price q valid fits = (ground (arith, valid, fits), ground (arith, valid))
