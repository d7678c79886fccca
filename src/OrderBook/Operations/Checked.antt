-- ===== src/OrderBook/Operations/Checked.antt =====
-- src/matching/orderbook/map_orderbook.cpp in a build without `NDEBUG`: there each public operation
-- ends with the macro `VALIDATE_ORDERBOOK`, which asserts what `validateOrderBook` does. The checks
-- within an operation, of orders and levels, stand with those (Order/Checked, Level/Checked); here an
-- operation runs as it does with `NDEBUG` up to its last statement.
use rapid_trader.Base.{ℕ, Option, none, some, ◌>>=◌, if◌then◌else◌}
use rapid_trader.Containers.{Containers}
use rapid_trader.Order.{Order}
use rapid_trader.OrderBook.{MapOrderBook}
use rapid_trader.OrderBook.Operations
use rapid_trader.OrderBook.Validation.{validate_order_book}

module _ ⦃C : Containers⦄ where
  -- `VALIDATE_ORDERBOOK` on the book as the operation leaves it.
  abbrev pub validated : MapOrderBook → Option MapOrderBook
  validated b = if validate_order_book b then some b else none

  abbrev pub add_order : Order → MapOrderBook → Option MapOrderBook
  add_order o b = do b' ← Operations.add_order o b; validated b'

  abbrev pub execute_order : ℕ → ℕ → ℕ → MapOrderBook → Option MapOrderBook
  execute_order r quantity price b = do
    b' ← Operations.execute_order r quantity price b
    validated b'

  abbrev pub execute_order_at_own_price : ℕ → ℕ → MapOrderBook → Option MapOrderBook
  execute_order_at_own_price r quantity b = do
    b' ← Operations.execute_order_at_own_price r quantity b
    validated b'

  abbrev pub cancel_order : ℕ → ℕ → MapOrderBook → Option MapOrderBook
  cancel_order r quantity b = do b' ← Operations.cancel_order r quantity b; validated b'

  abbrev pub delete_order : ℕ → MapOrderBook → Option MapOrderBook
  delete_order r b = do b' ← Operations.delete_order r b; validated b'

  abbrev pub replace_order : ℕ → ℕ → ℕ → MapOrderBook → Option MapOrderBook
  replace_order r new_order_id new_price b = do
    b' ← Operations.replace_order r new_order_id new_price b
    validated b'
