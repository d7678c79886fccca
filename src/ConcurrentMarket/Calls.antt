-- ===== src/ConcurrentMarket/Calls.antt =====
-- src/matching/market/concurrent_market.cpp: the tasks that `ConcurrentMarket` gives to its thread
-- pool. A task holds a pointer to one of the handlers, which is the handler's index here, and calls
-- one operation of it.
use Prim.Native.String.{String}
use rapid_trader.Base.{ℕ, Option, some, ◌>>=◌}
use rapid_trader.BookHandler
use rapid_trader.BookHandler.{OrderBookHandler}
use rapid_trader.Concurrent.ThreadPool.{update}
use rapid_trader.Concurrent.ThreadPool.System.{Tasks}
use rapid_trader.Containers.{Containers}
use rapid_trader.Order.{Order}

-- The task of `deleteSymbol` reads the name through the iterator `it` when it runs; `none` is an
-- iterator that `erase` has made invalid. The task of `toString` changes nothing.
pub data Call : Type 0 where
  add_order_book : ℕ → String → Call
  delete_order_book : ℕ → Option String → Call
  add_order : Order → Call
  delete_order : ℕ → ℕ → Call
  cancel_order : ℕ → ℕ → ℕ → Call
  replace_order execute_order : ℕ → ℕ → ℕ → ℕ → Call
  execute_order_at_own_price : ℕ → ℕ → ℕ → Call
  to_string : Call

pub record Task : Type 0 where
  pub orderbook_handler : ℕ
  pub call : Call

module _ ⦃C : Containers⦄ where
  abbrev pub run_call : Call → OrderBookHandler → Option OrderBookHandler
  run_call (Call.add_order_book symbol_id name) h = BookHandler.add_order_book symbol_id name h
  run_call (Call.delete_order_book symbol_id it) h = do
    name ← it
    BookHandler.delete_order_book symbol_id name h
  run_call (Call.add_order o) h = BookHandler.add_order o h
  run_call (Call.delete_order symbol_id order_id) h = BookHandler.delete_order symbol_id order_id h
  run_call (Call.cancel_order symbol_id order_id cancelled_quantity) h =
      BookHandler.cancel_order symbol_id order_id cancelled_quantity h
  run_call (Call.replace_order symbol_id order_id new_order_id new_price) h =
      BookHandler.replace_order symbol_id order_id new_order_id new_price h
  run_call (Call.execute_order symbol_id order_id quantity price) h =
      BookHandler.execute_order symbol_id order_id quantity price h
  run_call (Call.execute_order_at_own_price symbol_id order_id quantity) h =
      BookHandler.execute_order_at_own_price symbol_id order_id quantity h
  run_call Call.to_string h = some h

  unfoldable pub run_task : Task → (ℕ → OrderBookHandler) → Option (ℕ → OrderBookHandler)
  run_task task orderbook_handlers = do
    h ← run_call task.call (orderbook_handlers task.orderbook_handler)
    some (update orderbook_handlers task.orderbook_handler h)

  instance abbrev pub market_tasks : Tasks Task (ℕ → OrderBookHandler)
  market_tasks = record { run = run_task }
