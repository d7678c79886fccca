-- ===== src/OrderBook/Interface.antt =====
-- include/matching/orderbook/orderbook.h: the interface `OrderBook`, and `MapOrderBook` as its
-- implementation. `dumpBook` writes to a file and is left out.
use Prim.Native.String.{String}
use rapid_trader.Base.{ℕ, Bool, Option}
use rapid_trader.Containers.{Containers}
use rapid_trader.Order.{Order}
use rapid_trader.OrderBook.{
  MapOrderBook, has_order, get_order, empty, get_symbol_id, best_bid, best_ask, last_traded_price,
}
use rapid_trader.OrderBook.Operations.{
  add_order, execute_order, execute_order_at_own_price, delete_order, cancel_order, replace_order,
}
use rapid_trader.OrderBook.Printing.{book_to_string}

-- The operations on a book of the type `B`.
pub record OrderBook (B : Type 0) : Type 0 where
  pub add_order : Order → B → Option B
  pub execute_order : ℕ → ℕ → ℕ → B → Option B
  pub execute_order_at_own_price : ℕ → ℕ → B → Option B
  pub delete_order : ℕ → B → Option B
  pub cancel_order : ℕ → ℕ → B → Option B
  pub replace_order : ℕ → ℕ → ℕ → B → Option B
  pub has_order : ℕ → B → Bool
  pub get_order : ℕ → B → Option Order
  pub empty : B → Bool
  pub get_symbol_id : B → ℕ
  pub best_bid : B → ℕ
  pub best_ask : B → ℕ
  pub last_traded_price : B → ℕ
  pub to_string : B → String

instance abbrev pub map_order_book : ⦃C : Containers⦄ → OrderBook MapOrderBook
map_order_book = record {
  add_order = add_order;
  execute_order = execute_order;
  execute_order_at_own_price = execute_order_at_own_price;
  delete_order = delete_order;
  cancel_order = cancel_order;
  replace_order = replace_order;
  has_order = has_order;
  get_order = get_order;
  empty = empty;
  get_symbol_id = get_symbol_id;
  best_bid = best_bid;
  best_ask = best_ask;
  last_traded_price = last_traded_price;
  to_string = book_to_string;
}
