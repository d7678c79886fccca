-- ===== src/OrderBook.antt =====
-- include/matching/orderbook/map_orderbook.h: the state of `MapOrderBook` and its accessors.
-- The operations of src/matching/orderbook/map_orderbook.cpp stand in OrderBook/Storage.antt (deletion
-- and insertion), OrderBook/Matching.antt, OrderBook/Stops.antt and OrderBook/Operations.antt.
pub mod Storage
pub mod Matching
pub mod Stops
pub mod Operations
pub mod Validation
pub mod Maps
pub mod Linked
pub mod Invariant
pub mod Printing
pub mod Interface
use rapid_trader.Base.{
  ℕ, ◌+◌, Bool, not, Option, none, some, List, [], ◌∷◌, ◌==◌, if◌then◌else◌, u64_max,
}
use rapid_trader.Containers.{Containers}
use rapid_trader.Event.{Event}
use rapid_trader.Level
use rapid_trader.Level.{Level}
use rapid_trader.Order.{Order}
use rapid_trader.PriceMap.{get, put, erase, begin, rbegin}

-- The six maps from prices to levels.
pub data LevelMap : Type 0 where
  ask bid stop_ask stop_bid trailing_stop_ask trailing_stop_bid : LevelMap

-- `std::map<uint64_t, Level>::iterator`: the map that it belongs to, and a key.
pub record LevelIterator : Type 0 where
  pub map : LevelMap
  pub key : ℕ

pub record OrderWrapper : Type 0 where
  pub order : Order
  pub level_it : LevelIterator

-- The order that a reference stands for.
abbrev pub order_of : Option OrderWrapper → Option Order
order_of none = none
order_of (some w) = some w.order

abbrev pub is_found : Option OrderWrapper → Bool
is_found none = Bool.false
is_found (some w) = Bool.true

pub record MapOrderBook ⦃C : Containers⦄ : Type 0 where
  pub orders : C.Map OrderWrapper
  pub ask_levels : List (ℕ × Level)
  pub bid_levels : List (ℕ × Level)
  pub stop_ask_levels : List (ℕ × Level)
  pub stop_bid_levels : List (ℕ × Level)
  pub trailing_stop_ask_levels : List (ℕ × Level)
  pub trailing_stop_bid_levels : List (ℕ × Level)
  pub events : List Event
  pub last_traded_price : ℕ
  pub trailing_bid_price : ℕ
  pub trailing_ask_price : ℕ
  pub symbol_id : ℕ

module _ ⦃C : Containers⦄ where
  unfoldable pub new_book : ℕ → MapOrderBook
  new_book symbol_id_ = record {
    orders = C.empty_map;
    ask_levels = [];
    bid_levels = [];
    stop_ask_levels = [];
    stop_bid_levels = [];
    trailing_stop_ask_levels = [];
    trailing_stop_bid_levels = [];
    events = [];
    last_traded_price = 0;
    trailing_bid_price = 0;
    trailing_ask_price = u64_max;
    symbol_id = symbol_id_;
  }

  abbrev pub levels : LevelMap → MapOrderBook → List (ℕ × Level)
  levels m b = elim m [
    | LevelMap.ask ↦ b.ask_levels
    | LevelMap.bid ↦ b.bid_levels
    | LevelMap.stop_ask ↦ b.stop_ask_levels
    | LevelMap.stop_bid ↦ b.stop_bid_levels
    | LevelMap.trailing_stop_ask ↦ b.trailing_stop_ask_levels
    | LevelMap.trailing_stop_bid ↦ b.trailing_stop_bid_levels
  ]

  -- The book with another value of one of its six maps.
  abbrev pub set_levels : LevelMap → List (ℕ × Level) → MapOrderBook → MapOrderBook
  set_levels m new b = record b {
    ask_levels = elim m [ LevelMap.ask ↦ new | _ ↦ b.ask_levels ];
    bid_levels = elim m [ LevelMap.bid ↦ new | _ ↦ b.bid_levels ];
    stop_ask_levels = elim m [ LevelMap.stop_ask ↦ new | _ ↦ b.stop_ask_levels ];
    stop_bid_levels = elim m [ LevelMap.stop_bid ↦ new | _ ↦ b.stop_bid_levels ];
    trailing_stop_ask_levels = elim m [
      | LevelMap.trailing_stop_ask ↦ new
      | _ ↦ b.trailing_stop_ask_levels
    ];
    trailing_stop_bid_levels = elim m [
      | LevelMap.trailing_stop_bid ↦ new
      | _ ↦ b.trailing_stop_bid_levels
    ];
  }

  -- `it->second`, a read and a write through an iterator.
  abbrev pub level_at : LevelIterator → MapOrderBook → Option Level
  level_at it b = get it.key (levels it.map b)

  abbrev pub write_level : LevelIterator → Level → MapOrderBook → MapOrderBook
  write_level it l b = set_levels it.map (put it.key l (levels it.map b)) b

  abbrev pub find_order : ℕ → MapOrderBook → Option OrderWrapper
  find_order order_id b = C.find order_id b.orders

  abbrev pub deref : MapOrderBook → ℕ → Option Order
  deref b r = order_of (find_order r b)

  -- A write through a reference to the order with ID `r`.
  abbrev pub write_order : ℕ → OrderWrapper → MapOrderBook → MapOrderBook
  write_order r w b = record b { orders = C.assign r w b.orders }

  abbrev pub notify : Event → MapOrderBook → MapOrderBook
  notify e b = record b { events = e ∷ b.events }

  abbrev pub notify_if : Bool → Event → MapOrderBook → MapOrderBook
  notify_if notification e b = record b { events = if notification then e ∷ b.events else b.events }

  unfoldable pub has_order : ℕ → MapOrderBook → Bool
  has_order order_id b = is_found (find_order order_id b)

  unfoldable pub get_order : ℕ → MapOrderBook → Option Order
  get_order order_id b = deref b order_id

  unfoldable pub empty : MapOrderBook → Bool
  empty b = C.map_empty b.orders

  abbrev pub key_or : ℕ → Option (ℕ × Level) → ℕ
  key_or d none = d
  key_or d (some (p, l)) = p

  unfoldable pub best_bid : MapOrderBook → ℕ
  best_bid b = key_or 0 (rbegin b.bid_levels)

  unfoldable pub best_ask : MapOrderBook → ℕ
  best_ask b = key_or u64_max (begin b.ask_levels)

  abbrev pub get_symbol_id : MapOrderBook → ℕ
  get_symbol_id b = b.symbol_id

  abbrev pub last_traded_price : MapOrderBook → ℕ
  last_traded_price b = b.last_traded_price

  abbrev pub last_traded_price_ask : MapOrderBook → ℕ
  last_traded_price_ask b = if b.last_traded_price == 0 then u64_max else b.last_traded_price

  abbrev pub last_traded_price_bid : MapOrderBook → ℕ
  last_traded_price_bid b = b.last_traded_price

  -- A number of each level, summed over a map; how many references the levels hold.
  abbrev pub level_sum : (Level → ℕ) → List (ℕ × Level) → ℕ
  level_sum f [] = 0
  level_sum f ((p, l) ∷ m) = f l + level_sum f m

  abbrev pub refs_count : List (ℕ × Level) → ℕ
  refs_count = level_sum Level.size
