-- ===== src/Tests/Witnesses.antt =====
-- Each theorem at a concrete input.
use rapid_trader.Base.{[], ◌∷◌, Bool, ℕ, ◌≡◌, refl, true, false, some, arith, ◌<◌}
use rapid_trader.Level.{validate_level}
use rapid_trader.Order.{
  Order, OrderSide, OrderTimeInForce, new_order, is_filled, set_quantity, execute,
}
use rapid_trader.Order.Execution.{IsBalanced, execute-IsBalanced, set_quantity_too_much}
use rapid_trader.Order.Factories.{limit_bid_order}
use rapid_trader.Order.Validity.{IsMade, IsNew, IsMade-IsNew}
use rapid_trader.PriceMap.{get}
use rapid_trader.OrderBook.{MapOrderBook, new_book, deref, best_bid, best_ask}
use rapid_trader.OrderBook.Storage.{insert_at, delete_order}
use rapid_trader.OrderBook.Invariant.Insertion.{wrapper}
use rapid_trader.OrderBook.Invariant.Deleted.{Deleted, delete_order-Deleted}
use rapid_trader.OrderBook.Invariant.Placed.{Inserted, insert_at-Inserted}
use rapid_trader.OrderBook.Invariant.Fresh.{new_book-IsLinked}
use rapid_trader.OrderBook.Invariant.Valid.{validate_level-IsLinked}
use rapid_trader.OrderBook.Matching.{
  match_step, match, can_match_order, add_limit_order, add_market_order,
}
use rapid_trader.OrderBook.Matching.Advance.{Advance, match_step-Advance}
use rapid_trader.OrderBook.Matching.Loop.{Matched}
use rapid_trader.OrderBook.Matching.Fok.{can_match_order-crosses}
use rapid_trader.OrderBook.Matching.Whole.{match-Matched, match_fok_partial}
use rapid_trader.OrderBook.Matching.Limit.{Accepts, Limited, add_limit_order-Limited}
use rapid_trader.OrderBook.Matching.Market.{Marketed, add_market_order-Marketed}
use rapid_trader.OrderBook.Matching.Quotes.{Quotes, best-Quotes}
use rapid_trader.OrderBook.Matching.Uncrossed.{ask_at}
use rapid_trader.OrderBook.{LevelMap, last_traded_price_ask, last_traded_price_bid}
use rapid_trader.OrderBook.Stops.{activate_bid_stop_orders, activate_ask_stop_orders}
use rapid_trader.OrderBook.Stops.Swept.{
  Swept, activate_bid_stop_orders-Swept, activate_ask_stop_orders-Swept,
}
use rapid_trader.Market.{Market, new_market, add_symbol, delete_symbol, has_symbol}
use rapid_trader.Market.Symbols.{
  IsPaired, Listed, Delisted, add_symbol-Listed, delete_symbol-Delisted,
}
use rapid_trader.OrderBook.Validation.{validate_order_book}
use rapid_trader.OrderBook.Validation.Holds.{IsSettled, validate_order_book-IsSettled}
use rapid_trader.Order.{OrderType}
use rapid_trader.OrderBook.Matching.Taken.{Taken}
use rapid_trader.Event.{Event}
use rapid_trader.Tests.Runs.{lists, fok}
use rapid_trader.Tests.Books.{
  bid_15, fresh_handler, one_stop, one_stop-IsSound, ask_100, ask_level, two_asks, ask_100-IsFiled,
  two_asks-IsLinked, two_asks-IsLive, two_asks-IsUncrossed,
}

-- A fill-or-kill bid for more than the book holds.
abbrev fok_30 : Order
unfolding new_order
fok_30 = fok OrderSide.bid 3 100 30

bid_15-Accepts : Accepts bid_15 two_asks
unfolding new_order
bid_15-Accepts = record {
  linked = two_asks-IsLinked;
  live = two_asks-IsLive;
  uncrossed = two_asks-IsUncrossed;
  is_limit = refl;
  symbol = refl;
  free = refl;
  room = omega arith;
}

add_limit_order-Limited_example :
    (o' : Order) × (b' : MapOrderBook) × (add_limit_order bid_15 two_asks ≡ some b')
    × Limited bid_15 o' two_asks b'
add_limit_order-Limited_example = add_limit_order-Limited bid_15 two_asks bid_15-Accepts

match-Matched_example :
    (o' : Order) × (b' : MapOrderBook) × (match bid_15 two_asks ≡ some (o', b'))
    × Matched bid_15 o' two_asks b'
unfolding new_order
match-Matched_example =
    match-Matched bid_15 two_asks two_asks-IsLinked two_asks-IsLive (omega arith)

match_step-Advance_example :
    (o' : Order) × (b' : MapOrderBook) × (q : ℕ) × (match_step bid_15 100 (ask_level 1 100) two_asks
      ≡ some (o', b'))
    × Advance bid_15 o' two_asks b' 100 q
unfolding new_order
match_step-Advance_example =
    match_step-Advance two_asks bid_15 100 (ask_level 1 100) two_asks-IsLinked two_asks-IsLive refl
      refl (omega arith)

delete_order-Deleted_example :
    (b' : MapOrderBook) × (delete_order 1 true two_asks ≡ some b')
    × Deleted 1 (wrapper (ask_at 100) ask_100) two_asks b'
unfolding new_order
delete_order-Deleted_example =
    delete_order-Deleted two_asks 1 (wrapper (ask_at 100) ask_100) true two_asks-IsLinked refl

add_market_order-Marketed_example :
    (o' : Order) × (b' : MapOrderBook) × (add_market_order bid_15 two_asks ≡ some b')
    × Marketed bid_15 o' two_asks b'
unfolding new_order
add_market_order-Marketed_example =
    add_market_order-Marketed bid_15 two_asks two_asks-IsLinked two_asks-IsLive two_asks-IsUncrossed
      (omega arith)

insert_at-Inserted_example :
    (b' : MapOrderBook) × (insert_at (ask_at 100) ask_100 (new_book 1) ≡ some b')
    × Inserted (ask_at 100) ask_100 (new_book 1) b'
unfolding new_order new_book
insert_at-Inserted_example =
    insert_at-Inserted (new_book 1) (ask_at 100) ask_100 (new_book-IsLinked 1) ask_100-IsFiled
      (omega arith)

validate_level-IsLinked_example : validate_level (deref two_asks) (ask_level 2 101) ≡ true
unfolding get
validate_level-IsLinked_example =
    validate_level-IsLinked two_asks (ask_at 101) (ask_level 2 101) two_asks-IsLinked refl

match_fok_partial_example :
    (o' : Order) × (b' : MapOrderBook) × (match fok_30 two_asks ≡ some (o', b'))
    × (0 < o'.open_quantity)
    × (o'.open_quantity < 30)
unfolding new_order
match_fok_partial_example =
    match_fok_partial fok_30 two_asks 100 (ask_level 1 100) two_asks-IsLinked two_asks-IsLive refl
      refl refl (omega arith) (omega arith)

can_match_order-crosses_example : can_match_order fok_30 two_asks ≡ some true
unfolding new_order
can_match_order-crosses_example =
    can_match_order-crosses fok_30 two_asks two_asks-IsLinked two_asks-IsLive (omega arith)

best-Quotes_example : Quotes two_asks
best-Quotes_example = best-Quotes two_asks two_asks-IsLinked

IsMade-IsNew_example : IsNew 3 1 15 bid_15
unfolding new_order limit_bid_order
IsMade-IsNew_example =
    IsMade-IsNew 3 1 15 bid_15 (IsMade.limit_bid 101 OrderTimeInForce.gtc refl) (omega arith)

execute-IsBalanced_example : IsBalanced (execute 100 10 bid_15)
unfolding new_order
execute-IsBalanced_example =
    execute-IsBalanced 100 10
      (record { balanced = refl; last_fits = omega arith; fits = omega arith }) (omega arith)

set_quantity_too_much_example :
    (is_filled (set_quantity 11 ask_100) ≡ false) × (10 < (set_quantity 11 ask_100).open_quantity)
unfolding new_order
set_quantity_too_much_example = set_quantity_too_much ask_100 11 (omega arith) (omega arith)

activate_bid_stop_orders-Swept_example :
    (activated : Bool) × (b' : MapOrderBook) × (activate_bid_stop_orders one_stop
      ≡ some (activated, b'))
    × Swept false LevelMap.stop_bid LevelMap.trailing_stop_bid
        (last_traded_price_ask one_stop)
        activated
        one_stop
        b'
activate_bid_stop_orders-Swept_example = activate_bid_stop_orders-Swept one_stop one_stop-IsSound

activate_ask_stop_orders-Swept_example :
    (activated : Bool) × (b' : MapOrderBook) × (activate_ask_stop_orders one_stop
      ≡ some (activated, b'))
    × Swept true LevelMap.stop_ask LevelMap.trailing_stop_ask
        (last_traded_price_bid one_stop)
        activated
        one_stop
        b'
activate_ask_stop_orders-Swept_example = activate_ask_stop_orders-Swept one_stop one_stop-IsSound

add_symbol-Listed_example :
    (k' : Market) × (add_symbol 1 "RTR" new_market ≡ some k') × Listed 1 "RTR" new_market k'
unfolding has_symbol
add_symbol-Listed_example = add_symbol-Listed 1 "RTR" new_market (λ s. refl) refl

-- A market of one symbol.
abbrev one_symbol : Market
one_symbol = record {
  orderbook_handler = fresh_handler;
  id_to_symbol = (1, record { id = 1; name = "RTR" }) ∷ [];
}

one_symbol-IsPaired : IsPaired one_symbol
one_symbol-IsPaired s = ground arith

delete_symbol-Delisted_example :
    (k' : Market) × (delete_symbol 1 one_symbol ≡ some k') × Delisted 1 one_symbol k'
delete_symbol-Delisted_example =
    delete_symbol-Delisted 1 (record { id = 1; name = "RTR" }) one_symbol one_symbol-IsPaired refl

two_asks-IsSettled : IsSettled two_asks
two_asks-IsSettled = record {
  stop_asks = λ p l e. cc;
  stop_bids = λ p l e. cc;
  trailing_asks = λ p l e. cc;
  trailing_bids = λ p l e. cc;
}

validate_order_book-IsSettled_example : validate_order_book two_asks ≡ true
unfolding best_bid best_ask
validate_order_book-IsSettled_example =
    validate_order_book-IsSettled two_asks
      (record {
        linked = two_asks-IsLinked;
        live = two_asks-IsLive;
        uncrossed = two_asks-IsUncrossed;
      })
      two_asks-IsSettled (omega arith) (omega arith)

-- A stop ask, reached at once where nothing is traded yet.
abbrev stop_ask_90 : Order
unfolding new_order
stop_ask_90 = new_order OrderType.stop_limit OrderSide.ask OrderTimeInForce.gtc 1 90 90 0 10 5
