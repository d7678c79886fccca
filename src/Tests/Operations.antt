-- ===== src/Tests/Operations.antt =====
-- The theorems on the operations of the book at concrete inputs.
use rapid_trader.Base.{ℕ, leb, is_nil, ◌||◌, if◌then◌else◌, [], ◌∷◌, ◌≡◌, refl, some, arith, min}
use rapid_trader.BookHandler
use rapid_trader.Event.{Event}
use rapid_trader.Market
use rapid_trader.Market.{Market, new_market}
use rapid_trader.Market.Calls.{OrderCall, Handed, by_market-Handed}
use rapid_trader.Market.Reachable.{IsOrderly, MarketStep, MarketReach, MarketReach-IsOrderly}
use rapid_trader.Level
use rapid_trader.Level.{new_level}
use rapid_trader.Order.{new_order, execute, set_quantity}
use rapid_trader.PriceMap.{get, put, emplace}
use rapid_trader.OrderBook.{MapOrderBook, find_order, last_traded_price_ask, LevelMap, new_book}
use rapid_trader.OrderBook.Storage.{insert_at, insert_limit_order}
use rapid_trader.OrderBook.Invariant.Insertion.{wrapper}
use rapid_trader.OrderBook.Invariant.Deleted.{Deleted}
use rapid_trader.OrderBook.Matching.{match, match_loop, add_limit_order}
use rapid_trader.OrderBook.Matching.Uncrossed.{ask_at}
use rapid_trader.OrderBook.Operations
use rapid_trader.OrderBook.Operations.Reachable.{BookReach, BookStep, BookReach-IsAtRest}
use rapid_trader.OrderBook.Operations.Resting.{
  Operated, execute_order-Operated, cancel_order-Operated, delete_order-IsSound,
}
use rapid_trader.OrderBook.Stops.{
  activate_loop, activate_bid_stop_orders, activate_ask_stop_orders, update_bid_stop_orders,
  update_ask_stop_orders, activate_round, activate_rounds, activate_stop_orders,
}
use rapid_trader.OrderBook.Stops.Activate.{IsSound}
use rapid_trader.OrderBook.Stops.Rounds.{Rested, activate_stop_orders-IsSound}
use rapid_trader.OrderBook.Stops.Trailing.Moving.{refiled}
use rapid_trader.OrderBook.Stops.Trailing.Updated.{Updated, update_bid_stop_orders-Updated}
use rapid_trader.Tests.Runs.{lists}
use rapid_trader.Tests.Books.{
  trailed, trailed-IsSound, stop_bid_100, stop_it, one_stop, one_stop-IsSound, ask_100, one_ask,
  two_asks, two_asks-IsLinked, two_asks-IsLive, two_asks-IsUncrossed,
}

two_asks-IsSound : IsSound two_asks
two_asks-IsSound = record {
  linked = two_asks-IsLinked;
  live = two_asks-IsLive;
  uncrossed = two_asks-IsUncrossed;
}

-- The book after its first order.
abbrev asked : MapOrderBook
asked = record one_ask { events = Event.order_added ask_100 ∷ []; trailing_ask_price = 0 }

ask_100_added : Operations.add_order ask_100 (new_book 1) ≡ some asked
unfolding new_order new_level get put emplace new_book insert_at insert_limit_order match_loop match
    Level.add_order add_limit_order activate_loop activate_bid_stop_orders activate_ask_stop_orders
    update_bid_stop_orders update_ask_stop_orders activate_round activate_rounds
    activate_stop_orders Operations.add_order
ask_100_added = refl

asked-BookReach : BookReach 1 asked
unfolding new_order new_book
asked-BookReach = BookReach.operated BookReach.opened (
    BookStep.added ask_100
      (record { symbol = refl; free = refl; unfilled = refl; room = omega arith }) ask_100_added)

BookReach-IsAtRest_example : IsSound asked × Rested asked
BookReach-IsAtRest_example = BookReach-IsAtRest 1 asked asked-BookReach

activate_stop_orders-IsSound_example :
    (b' : MapOrderBook) × (activate_stop_orders one_stop ≡ some b')
    × IsSound b'
    × Rested b'
    × (b'.symbol_id ≡ one_stop.symbol_id)
activate_stop_orders-IsSound_example = activate_stop_orders-IsSound one_stop one_stop-IsSound

execute_order-Operated_example :
    (b' : MapOrderBook) × (Operations.execute_order 1 4 99 two_asks ≡ some b')
    × Operated 1
        (min 4 10)
        (record { order = execute 99 (min 4 10) ask_100; level_it = ask_at 100 })
        99
        two_asks
        b'
unfolding new_order
execute_order-Operated_example =
    execute_order-Operated two_asks 1 4 99 (wrapper (ask_at 100) ask_100) two_asks-IsSound refl

cancel_order-Operated_example :
    (b' : MapOrderBook) × (Operations.cancel_order 1 10 two_asks ≡ some b')
    × Operated 1 10
        (record { order = set_quantity 10 ask_100; level_it = ask_at 100 })
        0
        two_asks
        b'
unfolding new_order
cancel_order-Operated_example =
    cancel_order-Operated two_asks 1 10 (wrapper (ask_at 100) ask_100) two_asks-IsSound refl
      (omega arith)

delete_order-IsSound_example :
    (b₁ : MapOrderBook) × (b' : MapOrderBook) × Deleted 1 (wrapper stop_it stop_bid_100) one_stop b₁
    × (activate_stop_orders b₁ ≡ some b')
    × (Operations.delete_order 1 one_stop ≡ some b')
    × IsSound b'
    × Rested b'
unfolding new_order
delete_order-IsSound_example =
    delete_order-IsSound one_stop 1 (wrapper stop_it stop_bid_100) one_stop-IsSound refl

update_bid_stop_orders-Updated_example :
    (b' : MapOrderBook) × (update_bid_stop_orders trailed ≡ some b')
    × Updated LevelMap.trailing_stop_bid trailed b'
    × (b'.trailing_ask_price ≡ trailed.last_traded_price)
    × ((j : ℕ)
        → find_order j b' ≡ (
            if leb trailed.trailing_ask_price (last_traded_price_ask trailed)
              || is_nil trailed.trailing_stop_bid_levels
            then find_order j trailed
            else refiled LevelMap.trailing_stop_bid trailed (find_order j trailed)))
update_bid_stop_orders-Updated_example = update_bid_stop_orders-Updated trailed trailed-IsSound

-- A market of one symbol, before and after an order.
abbrev listed_market : Market
listed_market = record {
  orderbook_handler = record {
    id_to_book = (1, new_book 1) ∷ [];
    handled = Event.symbol_added 1 "RTR" ∷ [];
  };
  id_to_symbol = (1, record { id = 1; name = "RTR" }) ∷ [];
}

abbrev asked_market : Market
unfolding new_order
asked_market = record listed_market {
  orderbook_handler = record {
    id_to_book =
        (1, record asked { events = Event.order_added ask_100 ∷ Event.symbol_added 1 "RTR" ∷ [] })
        ∷ [];
    handled = Event.order_added ask_100 ∷ Event.symbol_added 1 "RTR" ∷ [];
  };
}

symbol_listed : Market.add_symbol 1 "RTR" new_market ≡ some listed_market
unfolding Market.add_symbol BookHandler.add_order_book
symbol_listed = refl

ask_100_sent : Market.add_order ask_100 listed_market ≡ some asked_market
unfolding Market.add_order BookHandler.add_order BookHandler.on_book new_order new_level get put
    emplace new_book insert_at insert_limit_order match_loop match Level.add_order add_limit_order
    activate_loop activate_bid_stop_orders activate_ask_stop_orders update_bid_stop_orders
    update_ask_stop_orders activate_round activate_rounds activate_stop_orders Operations.add_order
ask_100_sent = refl

asked_market-MarketReach : MarketReach asked_market
unfolding Market.has_symbol new_order new_book
asked_market-MarketReach =
    MarketReach.stepped
      (MarketReach.stepped MarketReach.opened (MarketStep.symbol_added 1 "RTR" refl symbol_listed))
      (MarketStep.added ask_100 (new_book 1) refl
        (record { symbol = refl; free = refl; unfilled = refl; room = omega arith }) ask_100_sent)

MarketReach-IsOrderly_example : IsOrderly asked_market
MarketReach-IsOrderly_example = MarketReach-IsOrderly asked_market asked_market-MarketReach

ask_100_added_after :
    Operations.add_order ask_100 (record (new_book 1) { events = Event.symbol_added 1 "RTR" ∷ [] })
    ≡ some (record asked { events = Event.order_added ask_100 ∷ Event.symbol_added 1 "RTR" ∷ [] })
unfolding new_order new_level get put emplace new_book insert_at insert_limit_order match_loop match
    Level.add_order add_limit_order activate_loop activate_bid_stop_orders activate_ask_stop_orders
    update_bid_stop_orders update_ask_stop_orders activate_round activate_rounds
    activate_stop_orders Operations.add_order
ask_100_added_after = refl

by_market-Handed_example :
    (k' : Market) × (Market.add_order ask_100 listed_market ≡ some k')
    × Handed 1
        (record asked { events = Event.order_added ask_100 ∷ Event.symbol_added 1 "RTR" ∷ [] })
        listed_market
        k'
unfolding new_order
by_market-Handed_example =
    by_market-Handed (OrderCall.add ask_100) listed_market (new_book 1)
      (record asked { events = Event.order_added ask_100 ∷ Event.symbol_added 1 "RTR" ∷ [] }) refl
      refl ask_100_added_after
