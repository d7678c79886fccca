-- ===== src/Order/Factories.antt =====
-- The static factories of `Order` (src/matching/orderbook/order.cpp). A failed assertion is `none`.
use rapid_trader.Base.{ℕ, not, Option, some, ltb, guard, ◌>>◌}
use rapid_trader.Order.{Order, OrderType, OrderSide, OrderTimeInForce, new_order, tif_is_gtc}

-- The assertions that every factory makes on the IDs and the quantity.
abbrev pub positive : ℕ → ℕ → ℕ → Option (Unit {0})
positive order_id symbol_id quantity = do
  guard (ltb 0 order_id)
  guard (ltb 0 symbol_id)
  guard (ltb 0 quantity)

abbrev pub not_gtc : OrderTimeInForce → Option (Unit {0})
not_gtc tif = guard (not (tif_is_gtc tif))

module _ (order_id symbol_id : ℕ) where
  unfoldable pub market_ask_order : ℕ → OrderTimeInForce → Option Order
  market_ask_order quantity tif = do
    not_gtc tif
    positive order_id symbol_id quantity
    some (new_order OrderType.market OrderSide.ask tif symbol_id 0 0 0 quantity order_id)

  unfoldable pub market_bid_order : ℕ → OrderTimeInForce → Option Order
  market_bid_order quantity tif = do
    not_gtc tif
    positive order_id symbol_id quantity
    some (new_order OrderType.market OrderSide.bid tif symbol_id 0 0 0 quantity order_id)

  unfoldable pub limit_ask_order : ℕ → ℕ → OrderTimeInForce → Option Order
  limit_ask_order price quantity tif = do
    positive order_id symbol_id quantity
    guard (ltb 0 price)
    some (new_order OrderType.limit OrderSide.ask tif symbol_id price 0 0 quantity order_id)

  unfoldable pub limit_bid_order : ℕ → ℕ → OrderTimeInForce → Option Order
  limit_bid_order price quantity tif = do
    positive order_id symbol_id quantity
    guard (ltb 0 price)
    some (new_order OrderType.limit OrderSide.bid tif symbol_id price 0 0 quantity order_id)

  unfoldable pub stop_ask_order : ℕ → ℕ → OrderTimeInForce → Option Order
  stop_ask_order stop_price quantity tif = do
    not_gtc tif
    positive order_id symbol_id quantity
    guard (ltb 0 stop_price)
    some (new_order OrderType.stop OrderSide.ask tif symbol_id 0 stop_price 0 quantity order_id)

  unfoldable pub stop_bid_order : ℕ → ℕ → OrderTimeInForce → Option Order
  stop_bid_order stop_price quantity tif = do
    not_gtc tif
    positive order_id symbol_id quantity
    guard (ltb 0 stop_price)
    some (new_order OrderType.stop OrderSide.bid tif symbol_id 0 stop_price 0 quantity order_id)

  unfoldable pub stop_limit_ask_order : ℕ → ℕ → ℕ → OrderTimeInForce → Option Order
  stop_limit_ask_order price stop_price quantity tif = do
    positive order_id symbol_id quantity
    guard (ltb 0 price)
    guard (ltb 0 stop_price)
    some (
        new_order OrderType.stop_limit OrderSide.ask tif symbol_id price stop_price 0 quantity
          order_id)

  unfoldable pub stop_limit_bid_order : ℕ → ℕ → ℕ → OrderTimeInForce → Option Order
  stop_limit_bid_order price stop_price quantity tif = do
    positive order_id symbol_id quantity
    guard (ltb 0 price)
    guard (ltb 0 stop_price)
    some (
        new_order OrderType.stop_limit OrderSide.bid tif symbol_id price stop_price 0 quantity
          order_id)

  unfoldable pub trailing_stop_ask_order : ℕ → ℕ → OrderTimeInForce → Option Order
  trailing_stop_ask_order trail_amount quantity tif = do
    not_gtc tif
    positive order_id symbol_id quantity
    guard (ltb 0 trail_amount)
    some (
        new_order OrderType.trailing_stop OrderSide.ask tif symbol_id 0 0 trail_amount quantity
          order_id)

  unfoldable pub trailing_stop_bid_order : ℕ → ℕ → OrderTimeInForce → Option Order
  trailing_stop_bid_order trail_amount quantity tif = do
    not_gtc tif
    positive order_id symbol_id quantity
    guard (ltb 0 trail_amount)
    some (
        new_order OrderType.trailing_stop OrderSide.bid tif symbol_id 0 0 trail_amount quantity
          order_id)

  unfoldable pub trailing_stop_limit_ask_order : ℕ → ℕ → ℕ → OrderTimeInForce → Option Order
  trailing_stop_limit_ask_order price trail_amount quantity tif = do
    positive order_id symbol_id quantity
    guard (ltb 0 price)
    guard (ltb 0 trail_amount)
    some (
        new_order OrderType.trailing_stop_limit OrderSide.ask tif symbol_id price 0 trail_amount
          quantity order_id)

  unfoldable pub trailing_stop_limit_bid_order : ℕ → ℕ → ℕ → OrderTimeInForce → Option Order
  trailing_stop_limit_bid_order price trail_amount quantity tif = do
    positive order_id symbol_id quantity
    guard (ltb 0 price)
    guard (ltb 0 trail_amount)
    some (
        new_order OrderType.trailing_stop_limit OrderSide.bid tif symbol_id price 0 trail_amount
          quantity order_id)
