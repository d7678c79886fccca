-- ===== src/OrderBook/Validation.antt =====
-- src/matching/orderbook/map_orderbook.cpp: `validateOrderBook` and its three parts, as tests that are
-- true exactly when no assertion fails. The six loops over levels differ in three tests, of a
-- level's side, of its price and of its orders.
pub mod Holds
use rapid_trader.Base.{
  ℕ, Bool, true, false, not, ◌&&◌, ◌||◌, Option, none, some, List, [], ◌∷◌, ◌==◌, ltb,
}
use rapid_trader.Containers.{Containers}
use rapid_trader.Level.{Level, LevelSide, level_is_ask, level_is_bid, level_empty, refs}
use rapid_trader.Order.{
  Order, is_filled, is_limit, is_stop, is_stop_limit, is_trailing_stop, is_trailing_stop_limit,
}
use rapid_trader.OrderBook.{MapOrderBook, deref, best_bid, best_ask}

abbrev pub is_valid : (Order → Bool) → Option Order → Bool
is_valid order_ok none = false
is_valid order_ok (some o) = order_ok o

-- The inner loop, over the orders of a level.
abbrev pub validate_orders : (Order → Bool) → (ℕ → Option Order) → List ℕ → Bool
validate_orders order_ok find [] = true
validate_orders order_ok find (r ∷ rs) =
    is_valid order_ok (find r) && validate_orders order_ok find rs

abbrev pub limit_order_ok : Order → Bool
limit_order_ok o = not (is_filled o) && is_limit o

abbrev pub stop_order_ok : Order → Bool
stop_order_ok o = not (is_filled o) && (is_stop o || is_stop_limit o)

abbrev pub trailing_stop_order_ok : Order → Bool
trailing_stop_order_ok o = not (is_filled o) && (is_trailing_stop o || is_trailing_stop_limit o)

module _ ⦃C : Containers⦄ where
  module _ (side_ok : LevelSide → Bool) (price_ok : ℕ → Bool) (order_ok : Order → Bool)
      (find : ℕ → Option Order) where
    abbrev pub level_ok : ℕ → Level → Bool
    level_ok price l =
        not (level_empty l)
        && price_ok price
        && (l.price == price)
        && side_ok l.side
        && validate_orders order_ok find (refs l)

    abbrev pub validate_levels : List (ℕ × Level) → Bool
    validate_levels [] = true
    validate_levels ((price, l) ∷ m) = level_ok price l && validate_levels m

  unfoldable pub validate_limit_orders : MapOrderBook → Bool
  validate_limit_orders b =
      ltb (best_bid b) (best_ask b)
      && validate_levels level_is_ask (λ p. true) limit_order_ok (deref b) b.ask_levels
      && validate_levels level_is_bid (λ p. true) limit_order_ok (deref b) b.bid_levels

  unfoldable pub validate_stop_orders : MapOrderBook → Bool
  validate_stop_orders b =
      validate_levels level_is_ask (λ p. ltb p b.last_traded_price) stop_order_ok (deref b)
        b.stop_ask_levels
      && validate_levels level_is_bid (λ p. ltb b.last_traded_price p) stop_order_ok (deref b)
          b.stop_bid_levels

  unfoldable pub validate_trailing_stop_orders : MapOrderBook → Bool
  validate_trailing_stop_orders b =
      validate_levels level_is_ask (λ p. ltb p b.last_traded_price) trailing_stop_order_ok (deref b)
        b.trailing_stop_ask_levels
      && validate_levels level_is_bid (λ p. ltb b.last_traded_price p) trailing_stop_order_ok
          (deref b) b.trailing_stop_bid_levels

  unfoldable pub validate_order_book : MapOrderBook → Bool
  validate_order_book b =
      validate_limit_orders b && validate_stop_orders b && validate_trailing_stop_orders b
