-- ===== src/Tests/Printing.antt =====
-- Printing at concrete inputs.
use rapid_trader.Base.{◌≡◌, refl, some, arith}
use rapid_trader.Order.{Order, OrderType, OrderSide, OrderTimeInForce}
use rapid_trader.Order.Printing.{order_to_string}
use rapid_trader.Order.Printing.RoundTrip.{read_order, printed, IsWords, read_order-order_to_string}
use rapid_trader.OrderBook.Printing.{book_to_string}
use rapid_trader.OrderBook.Printing.RoundTrip.{
  read_book, printed_book, IsPrintableBook, read_book-book_to_string,
}
use rapid_trader.Tests.Books.{two_asks}
use rapid_trader.Tests.Runs.{lists}
use rapid_trader.Text.{to_string, print_digits}

seven_hundred : (to_string 700 ≡ "700") × (to_string 0 ≡ "0")
unfolding to_string print_digits
seven_hundred = (refl, refl)

-- What is left of a limit order for 15.
abbrev resting : Order
resting = record {
  type = OrderType.limit;
  side = OrderSide.ask;
  time_in_force = OrderTimeInForce.gtc;
  symbol_id = 1;
  price = 100;
  stop_price = 0;
  trail_amount = 0;
  last_executed_price = 100;
  id = 7;
  quantity = 15;
  executed_quantity = 5;
  open_quantity = 10;
  last_executed_quantity = 5;
}

resting-prints :
    order_to_string resting
    ≡ "Symbol ID: 1\nOrder ID: 7\nType: LIMIT\nSide: ASK\nTOF: GTC\nPrice: 100\nQuantity: 15\nOpen Quantity: 10\n"
unfolding order_to_string to_string print_digits
resting-prints = refl

resting-IsWords : IsWords resting
resting-IsWords = record {
  symbol_id = omega arith;
  id = omega arith;
  price = omega arith;
  quantity = omega arith;
  open_quantity = omega arith;
}

read_order-order_to_string_example :
    read_order (order_to_string resting) ≡ some (printed resting, "")
read_order-order_to_string_example = read_order-order_to_string resting resting-IsWords

two_asks-IsPrintable : IsPrintableBook 5 two_asks
two_asks-IsPrintable = record {
  symbol_id = omega arith;
  last_traded_price = omega arith;
  bids = omega arith;
  asks = omega arith;
  stop_bids = omega arith;
  stop_asks = omega arith;
  trailing_stop_bids = omega arith;
  trailing_stop_asks = omega arith;
}

read_book-book_to_string_example :
    read_book 5 (book_to_string two_asks) ≡ some (printed_book two_asks, "")
read_book-book_to_string_example = read_book-book_to_string 5 two_asks two_asks-IsPrintable
