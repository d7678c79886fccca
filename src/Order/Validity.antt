-- ===== src/Order/Validity.antt =====
-- An order from a factory passes `validateOrder` and is ready for the book.
use rapid_trader.Base.{ℕ, ◌≡◌, refl, true, false, some, arith, u64_mod, ◌<◌, ◌==◌}
use rapid_trader.Order.{
  Order, OrderType, OrderSide, OrderTimeInForce, new_order, validate_order, is_filled,
}
use rapid_trader.Order.Execution.{IsBalanced}
use rapid_trader.Order.Factories.{
  market_ask_order, market_bid_order, limit_ask_order, limit_bid_order, stop_ask_order,
  stop_bid_order, stop_limit_ask_order, stop_limit_bid_order, trailing_stop_ask_order,
  trailing_stop_bid_order, trailing_stop_limit_ask_order, trailing_stop_limit_bid_order,
}

-- What the book may expect of a new order with the ID, symbol and quantity that were asked for.
pub record IsNew (order_id symbol_id quantity : ℕ) (o : Order) : Type 0 where
  pub valid : validate_order o ≡ true
  pub unfilled : is_filled o ≡ false
  pub balanced : IsBalanced o
  pub own_id : o.id ≡ order_id
  pub own_symbol : o.symbol_id ≡ symbol_id
  pub whole : o.open_quantity ≡ quantity

-- A new order that passes the assertions.
new_order-IsNew :
    (t : OrderType) (side : OrderSide) (tif : OrderTimeInForce) (i s p p' a q : ℕ)
    → validate_order (new_order t side tif s p p' a q i) ≡ true
    → (q == 0) ≡ false
    → q < u64_mod
    → IsNew i s q (new_order t side tif s p p' a q i)
unfolding new_order validate_order
new_order-IsNew t side tif i s p p' a q valid pos fits = record {
  valid = valid;
  unfilled = pos;
  balanced = record { balanced = omega arith; last_fits = omega arith; fits = fits };
  own_id = refl;
  own_symbol = refl;
  whole = refl;
}

made-IsNew :
    (t : OrderType) (side : OrderSide) (tif : OrderTimeInForce) (i s p p' a q : ℕ) (o : Order)
    → (validate_order (new_order t side tif s p p' a q i) ≡ true)
      × ((q == 0) ≡ false)
      × (new_order t side tif s p p' a q i ≡ o)
    → q < u64_mod
    → IsNew i s q o
made-IsNew t side tif i s p p' a q o (valid, pos, e) fits =
    rw⁻¹ e (new_order-IsNew t side tif i s p p' a q valid pos fits)

-- The orders that one of the twelve factories makes.
pub data IsMade (i s q : ℕ) : Order → Type 0 where
  market_ask :
      {o : Order} (tif : OrderTimeInForce) → market_ask_order i s q tif ≡ some o → IsMade i s q o
  market_bid :
      {o : Order} (tif : OrderTimeInForce) → market_bid_order i s q tif ≡ some o → IsMade i s q o
  limit_ask :
      {o : Order} (price : ℕ) (tif : OrderTimeInForce)
      → limit_ask_order i s price q tif ≡ some o
      → IsMade i s q o
  limit_bid :
      {o : Order} (price : ℕ) (tif : OrderTimeInForce)
      → limit_bid_order i s price q tif ≡ some o
      → IsMade i s q o
  stop_ask :
      {o : Order} (stop_price : ℕ) (tif : OrderTimeInForce)
      → stop_ask_order i s stop_price q tif ≡ some o
      → IsMade i s q o
  stop_bid :
      {o : Order} (stop_price : ℕ) (tif : OrderTimeInForce)
      → stop_bid_order i s stop_price q tif ≡ some o
      → IsMade i s q o
  stop_limit_ask :
      {o : Order} (price stop_price : ℕ) (tif : OrderTimeInForce)
      → stop_limit_ask_order i s price stop_price q tif ≡ some o
      → IsMade i s q o
  stop_limit_bid :
      {o : Order} (price stop_price : ℕ) (tif : OrderTimeInForce)
      → stop_limit_bid_order i s price stop_price q tif ≡ some o
      → IsMade i s q o
  trailing_stop_ask :
      {o : Order} (trail : ℕ) (tif : OrderTimeInForce)
      → trailing_stop_ask_order i s trail q tif ≡ some o
      → IsMade i s q o
  trailing_stop_bid :
      {o : Order} (trail : ℕ) (tif : OrderTimeInForce)
      → trailing_stop_bid_order i s trail q tif ≡ some o
      → IsMade i s q o
  trailing_stop_limit_ask :
      {o : Order} (price trail : ℕ) (tif : OrderTimeInForce)
      → trailing_stop_limit_ask_order i s price trail q tif ≡ some o
      → IsMade i s q o
  trailing_stop_limit_bid :
      {o : Order} (price trail : ℕ) (tif : OrderTimeInForce)
      → trailing_stop_limit_bid_order i s price trail q tif ≡ some o
      → IsMade i s q o

-- A factory whose assertions hold, for a quantity that fits 64 bits, makes an order that passes
-- `validateOrder`, has the ID, the symbol and the quantity asked for, is not filled, and has its
-- quantities in balance.
pub IsMade-IsNew : (i s q : ℕ) (o : Order) → IsMade i s q o → q < u64_mod → IsNew i s q o
unfolding new_order validate_order market_ask_order market_bid_order limit_ask_order limit_bid_order
    stop_ask_order stop_bid_order stop_limit_ask_order stop_limit_bid_order trailing_stop_ask_order
    trailing_stop_bid_order trailing_stop_limit_ask_order trailing_stop_limit_bid_order
IsMade-IsNew i s q o (IsMade.market_ask tif e) fits =
    made-IsNew OrderType.market OrderSide.ask tif i s 0 0 0 q o (ground (arith, e)) fits
IsMade-IsNew i s q o (IsMade.market_bid tif e) fits =
    made-IsNew OrderType.market OrderSide.bid tif i s 0 0 0 q o (ground (arith, e)) fits
IsMade-IsNew i s q o (IsMade.limit_ask price tif e) fits =
    made-IsNew OrderType.limit OrderSide.ask tif i s price 0 0 q o (ground (arith, e)) fits
IsMade-IsNew i s q o (IsMade.limit_bid price tif e) fits =
    made-IsNew OrderType.limit OrderSide.bid tif i s price 0 0 q o (ground (arith, e)) fits
IsMade-IsNew i s q o (IsMade.stop_ask stop_price tif e) fits =
    made-IsNew OrderType.stop OrderSide.ask tif i s 0 stop_price 0 q o (ground (arith, e)) fits
IsMade-IsNew i s q o (IsMade.stop_bid stop_price tif e) fits =
    made-IsNew OrderType.stop OrderSide.bid tif i s 0 stop_price 0 q o (ground (arith, e)) fits
IsMade-IsNew i s q o (IsMade.stop_limit_ask price stop_price tif e) fits =
    made-IsNew OrderType.stop_limit OrderSide.ask tif i s price stop_price 0 q o (ground (arith, e))
      fits
IsMade-IsNew i s q o (IsMade.stop_limit_bid price stop_price tif e) fits =
    made-IsNew OrderType.stop_limit OrderSide.bid tif i s price stop_price 0 q o (ground (arith, e))
      fits
IsMade-IsNew i s q o (IsMade.trailing_stop_ask trail tif e) fits =
    made-IsNew OrderType.trailing_stop OrderSide.ask tif i s 0 0 trail q o (ground (arith, e)) fits
IsMade-IsNew i s q o (IsMade.trailing_stop_bid trail tif e) fits =
    made-IsNew OrderType.trailing_stop OrderSide.bid tif i s 0 0 trail q o (ground (arith, e)) fits
IsMade-IsNew i s q o (IsMade.trailing_stop_limit_ask price trail tif e) fits =
    made-IsNew OrderType.trailing_stop_limit OrderSide.ask tif i s price 0 trail q o
      (ground (arith, e)) fits
IsMade-IsNew i s q o (IsMade.trailing_stop_limit_bid price trail tif e) fits =
    made-IsNew OrderType.trailing_stop_limit OrderSide.bid tif i s price 0 trail q o
      (ground (arith, e)) fits
