-- ===== src/Order/Printing.antt =====
-- src/matching/orderbook/order.cpp: `Order::toString` and the names of the enumerations.
pub mod RoundTrip
use Prim.Native.String.{String, ◌++◌}
use rapid_trader.Order.{Order, OrderType, OrderSide, OrderTimeInForce}
use rapid_trader.Text.{to_string}
use rapid_trader.Text.Lines.{line}

abbrev pub type_to_string : OrderType → String
type_to_string OrderType.limit = "LIMIT"
type_to_string OrderType.market = "MARKET"
type_to_string OrderType.stop = "STOP"
type_to_string OrderType.stop_limit = "STOP LIMIT"
type_to_string OrderType.trailing_stop = "TRAILING STOP"
type_to_string OrderType.trailing_stop_limit = "TRAILING STOP LIMIT"

abbrev pub side_to_string : OrderSide → String
side_to_string OrderSide.ask = "ASK"
side_to_string OrderSide.bid = "BID"

abbrev pub time_in_force_to_string : OrderTimeInForce → String
time_in_force_to_string OrderTimeInForce.gtc = "GTC"
time_in_force_to_string OrderTimeInForce.fok = "FOK"
time_in_force_to_string OrderTimeInForce.ioc = "IOC"

unfoldable pub order_to_string : Order → String
order_to_string o =
    line "Symbol ID: " (to_string o.symbol_id)
    ++ line "Order ID: " (to_string o.id)
    ++ line "Type: " (type_to_string o.type)
    ++ line "Side: " (side_to_string o.side)
    ++ line "TOF: " (time_in_force_to_string o.time_in_force)
    ++ line "Price: " (to_string o.price)
    ++ line "Quantity: " (to_string o.quantity)
    ++ line "Open Quantity: " (to_string o.open_quantity)
