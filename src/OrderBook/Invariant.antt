-- ===== src/OrderBook/Invariant.antt =====
-- The invariant of a book, and the three steps that change where orders are: a quantity is taken
-- from a resting order, an order is deleted, an order is inserted.
pub mod Deletion
pub mod Removed
pub mod Deleted
pub mod Written
pub mod Insertion
pub mod Placed
pub mod Fresh
pub mod Valid
use rapid_trader.Base.{ℕ, ◌≡◌, ◌<◌, List, some, u64_mod}
use rapid_trader.Event.{Event}
use rapid_trader.Containers.{Containers}
use rapid_trader.OrderBook.{
  MapOrderBook, LevelMap, LevelIterator, OrderWrapper, find_order, level_at,
}
use rapid_trader.OrderBook.Maps.{IsAscending, book_volume}
use rapid_trader.OrderBook.Linked.{Linked}

module _ ⦃C : Containers⦄ where
  -- The maps are in order, orders and levels point to each other, and the volume of the whole book
  -- fits a machine word.
  pub record IsLinked (b : MapOrderBook) : Type 0 where
    pub ascending : IsAscending b
    pub linked : Linked (λ r. find_order r b) (λ it. level_at it b) b.symbol_id
    pub bounded : book_volume b < u64_mod

  -- No resting order is filled.
  abbrev pub IsLive : MapOrderBook → Type 0
  IsLive b = (r : ℕ) (w : OrderWrapper) → find_order r b ≡ some w → 0 < w.order.open_quantity

  -- Events and prices do not matter to it.
  pub reprice-IsLinked :
      {b : MapOrderBook} (es : List Event) (last bid ask : ℕ)
      → IsLinked b
      → IsLinked (record b {
        events = es;
        last_traded_price = last;
        trailing_bid_price = bid;
        trailing_ask_price = ask;
      })
  reprice-IsLinked es last bid ask v = record {
    ascending = v.ascending;
    linked = v.linked;
    bounded = v.bounded;
  }
