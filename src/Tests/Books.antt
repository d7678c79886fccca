-- ===== src/Tests/Books.antt =====
-- Books to try the theorems at, over association lists.
use rapid_trader.Base.{ℕ, ◌≡◌, refl, some, [], ◌∷◌, arith, u64_mod, u64_max, ◌<◌, ◌+◌}
use rapid_trader.BookHandler.{OrderBookHandler}
use rapid_trader.Event.{Event}
use rapid_trader.Level
use rapid_trader.Level.{Level, LevelSide, new_level}
use rapid_trader.Order.{Order, OrderType, OrderSide, OrderTimeInForce, new_order}
use rapid_trader.PriceMap.{get, put, emplace}
use rapid_trader.OrderBook.{MapOrderBook, LevelMap, LevelIterator, new_book}
use rapid_trader.OrderBook.Maps.{book_volume}
use rapid_trader.OrderBook.Storage.{insert_at}
use rapid_trader.OrderBook.Invariant.{IsLinked, IsLive, reprice-IsLinked}
use rapid_trader.OrderBook.Invariant.Insertion.{IsFiled, wrapper}
use rapid_trader.OrderBook.Invariant.Placed.{Inserted, insert_at-Inserted}
use rapid_trader.OrderBook.Invariant.Fresh.{new_book-IsLinked, new_book-IsLive}
use rapid_trader.OrderBook.Matching.Uncrossed.{IsUncrossed, ask_at}
use rapid_trader.OrderBook.Stops.Activate.{IsSound}
use rapid_trader.Tests.Runs.{lists, limit}

abbrev pub ask_100 : Order
unfolding new_order
ask_100 = limit OrderSide.ask 1 100 10

abbrev pub ask_101 : Order
unfolding new_order
ask_101 = limit OrderSide.ask 2 101 10

-- A bid that takes the first ask and half of the second.
abbrev pub bid_15 : Order
unfolding new_order
bid_15 = limit OrderSide.bid 3 101 15

-- A level of one ask.
abbrev pub ask_level : ℕ → ℕ → Level
ask_level r p = record {
  orders = r ∷ [];
  side = LevelSide.ask;
  symbol_id = 1;
  volume = 10;
  price = p;
}

abbrev pub one_ask : MapOrderBook
one_ask = record {
  orders = (1, wrapper (ask_at 100) ask_100) ∷ [];
  ask_levels = (100, ask_level 1 100) ∷ [];
  bid_levels = [];
  stop_ask_levels = [];
  stop_bid_levels = [];
  trailing_stop_ask_levels = [];
  trailing_stop_bid_levels = [];
  events = [];
  last_traded_price = 0;
  trailing_bid_price = 0;
  trailing_ask_price = u64_max;
  symbol_id = 1;
}

abbrev pub two_asks : MapOrderBook
two_asks = record one_ask {
  orders = (2, wrapper (ask_at 101) ask_101) ∷ (1, wrapper (ask_at 100) ask_100) ∷ [];
  ask_levels = (100, ask_level 1 100) ∷ (101, ask_level 2 101) ∷ [];
}

pub ask_100-IsFiled : IsFiled (ask_at 100) ask_100 (new_book 1)
unfolding new_book new_order
ask_100-IsFiled = record { free = refl; symbol = refl; own_map = refl; own_key = refl }

pub ask_101-IsFiled : IsFiled (ask_at 101) ask_101 one_ask
unfolding new_order
ask_101-IsFiled = record { free = refl; symbol = refl; own_map = refl; own_key = refl }

insert_ask_100 : insert_at (ask_at 100) ask_100 (new_book 1) ≡ some one_ask
unfolding new_order new_book insert_at Level.add_order new_level get put emplace
insert_ask_100 = refl

insert_ask_101 : insert_at (ask_at 101) ask_101 one_ask ≡ some two_asks
unfolding new_order insert_at Level.add_order new_level get put emplace
insert_ask_101 = refl

-- The insertion that computes `b''` does what insertions do.
inserted :
    (it : LevelIterator) (o : Order) (b b'' : MapOrderBook)
    → IsLinked b
    → IsFiled it o b
    → book_volume b + o.open_quantity < u64_mod
    → insert_at it o b ≡ some b''
    → Inserted it o b b''
inserted it o b b'' v f room run =
    let (b', run', i) = insert_at-Inserted b it o v f room in
    let same : b' ≡ b'' = ground (arith, run, run') in rw⁻¹ same i

Inserted-IsLive :
    (it : LevelIterator) (o : Order) (b b' : MapOrderBook)
    → IsLive b
    → 0 < o.open_quantity
    → Inserted it o b b'
    → IsLive b'
Inserted-IsLive it o b b' live pos i r w e = ground (arith, i.entries r, live r w, e, pos)

first : Inserted (ask_at 100) ask_100 (new_book 1) one_ask
unfolding new_book new_order
first =
    inserted (ask_at 100) ask_100 (new_book 1) one_ask (new_book-IsLinked 1) ask_100-IsFiled
      (omega arith) insert_ask_100

second : Inserted (ask_at 101) ask_101 one_ask two_asks
unfolding new_order
second =
    inserted (ask_at 101) ask_101 one_ask two_asks first.linked ask_101-IsFiled (omega arith)
      insert_ask_101

pub two_asks-IsLinked : IsLinked two_asks
two_asks-IsLinked = second.linked

pub two_asks-IsLive : IsLive two_asks
unfolding new_order
two_asks-IsLive =
    Inserted-IsLive (ask_at 101) ask_101 one_ask two_asks
      (Inserted-IsLive (ask_at 100) ask_100 (new_book 1) one_ask (new_book-IsLive 1) (omega arith)
        first)
      (omega arith) second

pub two_asks-IsUncrossed : IsUncrossed two_asks
unfolding get
two_asks-IsUncrossed p p' l l' a d = cc

-- A book of one stop bid, at 100.
abbrev pub stop_bid_100 : Order
unfolding new_order
stop_bid_100 = new_order OrderType.stop OrderSide.bid OrderTimeInForce.ioc 1 0 100 0 10 1

abbrev pub stop_it : LevelIterator
stop_it = record { map = LevelMap.stop_bid; key = 100 }

abbrev pub one_stop : MapOrderBook
one_stop = record one_ask {
  orders = (1, wrapper stop_it stop_bid_100) ∷ [];
  ask_levels = [];
  stop_bid_levels =
      (
        100,
        record { orders = 1 ∷ []; side = LevelSide.bid; symbol_id = 1; volume = 10; price = 100 },
      )
      ∷ [];
}

stop_bid_100-IsFiled : IsFiled stop_it stop_bid_100 (new_book 1)
unfolding new_book new_order
stop_bid_100-IsFiled = record { free = refl; symbol = refl; own_map = refl; own_key = refl }

insert_stop_bid_100 : insert_at stop_it stop_bid_100 (new_book 1) ≡ some one_stop
unfolding new_order new_book insert_at Level.add_order new_level get put emplace
insert_stop_bid_100 = refl

stopped : Inserted stop_it stop_bid_100 (new_book 1) one_stop
unfolding new_book new_order
stopped =
    inserted stop_it stop_bid_100 (new_book 1) one_stop (new_book-IsLinked 1) stop_bid_100-IsFiled
      (omega arith) insert_stop_bid_100

one_stop-IsUncrossed : IsUncrossed one_stop
unfolding get
one_stop-IsUncrossed p p' l l' a d = cc

pub one_stop-IsSound : IsSound one_stop
unfolding new_order
one_stop-IsSound = record {
  linked = stopped.linked;
  live =
      Inserted-IsLive stop_it stop_bid_100 (new_book 1) one_stop (new_book-IsLive 1) (omega arith)
        stopped;
  uncrossed = one_stop-IsUncrossed;
}

-- A book of one trailing stop bid, whose stop price follows the market price down.
abbrev pub trailing_bid_120 : Order
unfolding new_order
trailing_bid_120 =
    new_order OrderType.trailing_stop OrderSide.bid OrderTimeInForce.ioc 1 0 120 10 10 1

abbrev trailing_it : LevelIterator
trailing_it = record { map = LevelMap.trailing_stop_bid; key = 120 }

abbrev one_trailing : MapOrderBook
one_trailing = record one_ask {
  orders = (1, wrapper trailing_it trailing_bid_120) ∷ [];
  ask_levels = [];
  trailing_stop_bid_levels =
      (
        120,
        record { orders = 1 ∷ []; side = LevelSide.bid; symbol_id = 1; volume = 10; price = 120 },
      )
      ∷ [];
}

abbrev pub trailed : MapOrderBook
trailed = record one_trailing { last_traded_price = 100; trailing_ask_price = 110 }

trailing_bid_120-IsFiled : IsFiled trailing_it trailing_bid_120 (new_book 1)
unfolding new_book new_order
trailing_bid_120-IsFiled = record { free = refl; symbol = refl; own_map = refl; own_key = refl }

insert_trailing_bid_120 : insert_at trailing_it trailing_bid_120 (new_book 1) ≡ some one_trailing
unfolding new_order new_book insert_at Level.add_order new_level get put emplace
insert_trailing_bid_120 = refl

trailing_placed : Inserted trailing_it trailing_bid_120 (new_book 1) one_trailing
unfolding new_book new_order
trailing_placed =
    inserted trailing_it trailing_bid_120 (new_book 1) one_trailing (new_book-IsLinked 1)
      trailing_bid_120-IsFiled (omega arith) insert_trailing_bid_120

trailed-IsUncrossed : IsUncrossed trailed
unfolding get
trailed-IsUncrossed p p' l l' a d = cc

pub trailed-IsSound : IsSound trailed
unfolding new_order
trailed-IsSound = record {
  linked = reprice-IsLinked [] 100 0 110 trailing_placed.linked;
  live =
      Inserted-IsLive trailing_it trailing_bid_120 (new_book 1) one_trailing (new_book-IsLive 1)
        (omega arith) trailing_placed;
  uncrossed = trailed-IsUncrossed;
}

-- The handler of one symbol, before and after an order.
abbrev pub fresh_handler : OrderBookHandler
fresh_handler = record { id_to_book = (1, new_book 1) ∷ []; handled = [] }

abbrev pub asked_handler : OrderBookHandler
unfolding new_order
asked_handler = record {
  id_to_book =
      (1, record one_ask { events = Event.order_added ask_100 ∷ []; trailing_ask_price = 0 }) ∷ [];
  handled = Event.order_added ask_100 ∷ [];
}
