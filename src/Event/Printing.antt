-- ===== src/Event/Printing.antt =====
-- src/event_handler/event.cpp: the output operators of the events.
use Prim.Native.String.{String, ◌++◌}
use rapid_trader.Event.{Event}
use rapid_trader.Order.Printing.{order_to_string}
use rapid_trader.Text.{to_string}
use rapid_trader.Text.Lines.{line}

unfoldable pub event_to_string : Event → String
event_to_string (Event.symbol_added symbol_id name) =
    "ADDED SYMBOL\n" ++ line "Symbol Name: " name ++ line "Symbol ID: " (to_string symbol_id)
event_to_string (Event.symbol_deleted symbol_id name) =
    "DELETED SYMBOL\n" ++ line "Symbol Name: " name ++ line "Symbol ID: " (to_string symbol_id)
event_to_string (Event.order_added order) = "ADDED ORDER\n" ++ order_to_string order
event_to_string (Event.executed_order order) = "EXECUTED ORDER\n" ++ order_to_string order
event_to_string (Event.order_deleted order) = "DELETED ORDER\n" ++ order_to_string order
event_to_string (Event.order_updated order) = "UPDATED ORDER\n" ++ order_to_string order
