-- ===== src/OrderBook/Printing.antt =====
-- src/matching/orderbook/map_orderbook.cpp: `MapOrderBook::toString`.
pub mod RoundTrip
use Prim.Native.String.{String, ◌++◌}
use rapid_trader.Base.{ℕ, List, [], ◌∷◌}
use rapid_trader.Containers.{Containers}
use rapid_trader.Level.{Level}
use rapid_trader.Level.Printing.{level_to_string}
use rapid_trader.OrderBook.{MapOrderBook}
use rapid_trader.Text.{to_string}
use rapid_trader.Text.Lines.{line}

module _ ⦃C : Containers⦄ where
  -- One of the loops over the levels of a map.
  abbrev pub levels_to_string : List (ℕ × Level) → String
  levels_to_string [] = ""
  levels_to_string ((price, level) ∷ levels) = level_to_string level ++ levels_to_string levels

  unfoldable pub book_to_string : MapOrderBook → String
  book_to_string b =
      line "SYMBOL ID : " (to_string b.symbol_id)
      ++ line "LAST TRADED PRICE: " (to_string b.last_traded_price)
      ++ "BID ORDERS\n"
      ++ levels_to_string b.bid_levels
      ++ "ASK ORDERS\n"
      ++ levels_to_string b.ask_levels
      ++ "BID STOP ORDERS\n"
      ++ levels_to_string b.stop_bid_levels
      ++ "ASK STOP ORDERS\n"
      ++ levels_to_string b.stop_ask_levels
      ++ "BID TRAILING STOP ORDERS\n"
      ++ levels_to_string b.trailing_stop_bid_levels
      ++ "ASK TRAILING STOP ORDERS\n"
      ++ levels_to_string b.trailing_stop_ask_levels
