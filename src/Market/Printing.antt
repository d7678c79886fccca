-- ===== src/Market/Printing.antt =====
-- The output of markets and symbols: `toString` of `OrderBookHandler` and `Market`
-- (src/matching/market/market.cpp) and the output operator of `Symbol`
-- (src/matching/orderbook/symbol.cpp). The order in which the hash map of the books is walked is a
-- parameter.
use Prim.Native.String.{String, ◌++◌}
use rapid_trader.Base.{ℕ, List, [], ◌∷◌}
use rapid_trader.BookHandler.{OrderBookHandler}
use rapid_trader.Containers.{Containers}
use rapid_trader.Market.{Market, Symbol}
use rapid_trader.OrderBook.{MapOrderBook}
use rapid_trader.OrderBook.Printing.{book_to_string}
use rapid_trader.Text.{to_string}

unfoldable pub symbol_to_string : Symbol → String
symbol_to_string symbol =
    "Symbol Name: " ++ symbol.name ++ "Symbol ID: " ++ to_string symbol.id ++ "\n"

module _ ⦃C : Containers⦄ (entries : C.Map MapOrderBook → List (ℕ × MapOrderBook)) where
  abbrev pub books_to_string : List (ℕ × MapOrderBook) → String
  books_to_string [] = ""
  books_to_string ((symbol_id, book) ∷ books) =
      (book_to_string book ++ "\n") ++ books_to_string books

  unfoldable pub handler_to_string : OrderBookHandler → String
  handler_to_string h = books_to_string (entries h.id_to_book)

  unfoldable pub market_to_string : Market → String
  market_to_string k = handler_to_string k.orderbook_handler
