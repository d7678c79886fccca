-- ===== src/Event.antt =====
-- include/event_handler/event.h and include/event_handler/event_handler.h: what an event handler
-- is told. A handler is client code: a book keeps the calls that it made, the latest first.
pub mod Printing
use Prim.Native.String.{String}
use rapid_trader.Base.{ℕ}
use rapid_trader.Order.{Order}

pub data Event : Type 0 where
  symbol_added : ℕ → String → Event
  symbol_deleted : ℕ → String → Event
  order_added : Order → Event
  order_deleted : Order → Event
  executed_order : Order → Event
  order_updated : Order → Event
