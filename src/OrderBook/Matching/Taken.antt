-- ===== src/OrderBook/Matching/Taken.antt =====
-- An order that is matched at once: what `addMarketOrder` or `addLimitOrder` makes of it.
use rapid_trader.Base.{◌≡◌, true, false}
use rapid_trader.Containers.{Containers}
use rapid_trader.Order.{Order, is_market}
use rapid_trader.OrderBook.{MapOrderBook}
use rapid_trader.OrderBook.Matching.Limit.{Limited}
use rapid_trader.OrderBook.Matching.Market.{Marketed}

-- The order `o` is matched in the book `b` as its type asks for, which makes `b'` of it.
pub data Taken ⦃C : Containers⦄ (o : Order) (b b' : MapOrderBook) : Type 0 where
  as_market : is_market o ≡ true → (o' : Order) → Marketed o o' b b' → Taken o b b'
  as_limit : is_market o ≡ false → (o' : Order) → Limited o o' b b' → Taken o b b'
