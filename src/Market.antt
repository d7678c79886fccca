-- ===== src/Market.antt =====
-- include/matching/market/market.h and src/matching/market/market.cpp: `Market`, and the symbols that
-- it keeps (include/matching/orderbook/symbol.h, src/matching/orderbook/symbol.cpp).
pub mod Symbols
pub mod Printing
pub mod Reachable
pub mod Calls
use Prim.Native.String.{String}
use rapid_trader.Base.{ℕ, Bool, Option, some, ◌>>=◌}
use rapid_trader.BookHandler
use rapid_trader.BookHandler.{
  OrderBookHandler, new_handler, is_some, add_order_book, delete_order_book,
}
use rapid_trader.Containers.{Containers}
use rapid_trader.Order.{Order}

pub record Symbol : Type 0 where
  pub id : ℕ
  pub name : String

pub record Market ⦃C : Containers⦄ : Type 0 where
  pub orderbook_handler : OrderBookHandler
  pub id_to_symbol : C.Map Symbol

module _ ⦃C : Containers⦄ where
  abbrev pub new_market : Market
  new_market = record { orderbook_handler = new_handler; id_to_symbol = C.empty_map }

  abbrev pub find_symbol : ℕ → Market → Option Symbol
  find_symbol symbol_id k = C.find symbol_id k.id_to_symbol

  unfoldable pub add_symbol : ℕ → String → Market → Option Market
  add_symbol symbol_id symbol_name k = do
    let symbol : Symbol = record { id = symbol_id; name = symbol_name }
    h ← add_order_book symbol_id symbol_name k.orderbook_handler
    some
        (record { orderbook_handler = h; id_to_symbol = C.emplace symbol_id symbol k.id_to_symbol })

  unfoldable pub delete_symbol : ℕ → Market → Option Market
  delete_symbol symbol_id k = do
    symbol ← find_symbol symbol_id k
    h ← delete_order_book symbol_id symbol.name k.orderbook_handler
    some (record { orderbook_handler = h; id_to_symbol = C.erase symbol_id k.id_to_symbol })

  unfoldable pub has_symbol : ℕ → Market → Bool
  has_symbol symbol_id k = is_some (find_symbol symbol_id k)

  -- An operation of the handler.
  abbrev pub handle : (OrderBookHandler → Option OrderBookHandler) → Market → Option Market
  handle run k = do h ← run k.orderbook_handler; some (record k { orderbook_handler = h })

  unfoldable pub add_order : Order → Market → Option Market
  add_order o k = handle (BookHandler.add_order o) k

  unfoldable pub delete_order : ℕ → ℕ → Market → Option Market
  delete_order symbol_id order_id k = handle (BookHandler.delete_order symbol_id order_id) k

  unfoldable pub cancel_order : ℕ → ℕ → ℕ → Market → Option Market
  cancel_order symbol_id order_id cancelled_quantity k =
      handle (BookHandler.cancel_order symbol_id order_id cancelled_quantity) k

  unfoldable pub replace_order : ℕ → ℕ → ℕ → ℕ → Market → Option Market
  replace_order symbol_id order_id new_order_id new_price k =
      handle (BookHandler.replace_order symbol_id order_id new_order_id new_price) k

  unfoldable pub execute_order : ℕ → ℕ → ℕ → ℕ → Market → Option Market
  execute_order symbol_id order_id quantity price k =
      handle (BookHandler.execute_order symbol_id order_id quantity price) k

  unfoldable pub execute_order_at_own_price : ℕ → ℕ → ℕ → Market → Option Market
  execute_order_at_own_price symbol_id order_id quantity k =
      handle (BookHandler.execute_order_at_own_price symbol_id order_id quantity) k
