-- ===== src/Order/Accessors.antt =====
-- include/matching/orderbook/order.h: the accessors of `Order`.
use rapid_trader.Base.{ℕ}
use rapid_trader.Order.{Order, OrderType, OrderSide, OrderTimeInForce}

abbrev pub get_quantity : Order → ℕ
get_quantity o = o.quantity

abbrev pub get_executed_quantity : Order → ℕ
get_executed_quantity o = o.executed_quantity

abbrev pub get_open_quantity : Order → ℕ
get_open_quantity o = o.open_quantity

abbrev pub get_last_executed_quantity : Order → ℕ
get_last_executed_quantity o = o.last_executed_quantity

abbrev pub get_order_id : Order → ℕ
get_order_id o = o.id

abbrev pub get_price : Order → ℕ
get_price o = o.price

abbrev pub get_stop_price : Order → ℕ
get_stop_price o = o.stop_price

abbrev pub get_trail_amount : Order → ℕ
get_trail_amount o = o.trail_amount

abbrev pub get_side : Order → OrderSide
get_side o = o.side

abbrev pub get_type : Order → OrderType
get_type o = o.type

abbrev pub get_time_in_force : Order → OrderTimeInForce
get_time_in_force o = o.time_in_force

abbrev pub get_last_executed_price : Order → ℕ
get_last_executed_price o = o.last_executed_price

abbrev pub get_symbol_id : Order → ℕ
get_symbol_id o = o.symbol_id
