-- ===== src/OrderBook/Stops/Added.antt =====
-- `addStopOrder` keeps a book sound, whether the order is matched at once or waits.
use rapid_trader.Base.{
  ℕ, ◌≡◌, refl, ◌∙◌, Bool, true, false, ◌||◌, ◌&&◌, some, if◌then◌else◌, leb, arith, inl, inr,
  Bool-cases,
}
use rapid_trader.Containers.{Containers}
use rapid_trader.Event.{Event}
use rapid_trader.Order.{
  Order, is_ask, is_bid, is_market, is_trailing_stop, is_trailing_stop_limit, set_stop_price,
}
use rapid_trader.OrderBook.{MapOrderBook, notify, last_traded_price_ask, last_traded_price_bid}
use rapid_trader.OrderBook.Storage.{insert_stop_order, insert_trailing_stop_order}
use rapid_trader.OrderBook.Invariant.{reprice-IsLinked}
use rapid_trader.OrderBook.Matching.{add_limit_order, add_market_order}
use rapid_trader.OrderBook.Matching.Limit.{add_limit_order-Limited}
use rapid_trader.OrderBook.Matching.Market.{add_market_order-Marketed}
use rapid_trader.OrderBook.Stops.{converted, calculate_stop_price, place_stop_order, add_stop_order}
use rapid_trader.OrderBook.Matching.Taken.{Taken}
use rapid_trader.OrderBook.Stops.Activate.{IsSound, as_limit_or_market}
use rapid_trader.OrderBook.Stops.Filed.{
  AcceptsStop, Waits, new_price, insert_stop_order-IsSound, insert_trailing_stop_order-IsSound,
}

module _ ⦃C : Containers⦄ where
  -- The test of `addStopOrder`.
  abbrev pub stop_reached : Order → MapOrderBook → Bool
  stop_reached o b =
      let market_price = if is_ask o then last_traded_price_bid b else last_traded_price_ask b in
      (is_ask o && leb market_price o.stop_price) || (is_bid o && leb o.stop_price market_price)

  abbrev told : Order → MapOrderBook → MapOrderBook
  told o b = notify (Event.order_updated (converted o)) b

  -- What becomes of a stop order: it is matched at once if the market price has reached its stop
  -- price, and else it waits.
  pub data StopAdded (o : Order) (b b' : MapOrderBook) : Type 0 where
    at_once :
        stop_reached o b ≡ true
        → Taken (as_limit_or_market o) (notify (Event.order_updated (as_limit_or_market o)) b) b'
        → StopAdded o b b'
    waits : stop_reached o b ≡ false → Waits o b b' → StopAdded o b b'

  module _ (o : Order) (b : MapOrderBook) where
    place_as_market :
        stop_reached o b ≡ true
        → is_market (converted o) ≡ true
        → place_stop_order o b ≡ add_market_order (converted o) (told o b)
    unfolding place_stop_order
    place_as_market e k = rw (e, k) refl

    place_as_limit :
        stop_reached o b ≡ true
        → is_market (converted o) ≡ false
        → place_stop_order o b ≡ add_limit_order (converted o) (told o b)
    unfolding place_stop_order
    place_as_limit e k = rw (e, k) refl

    place_as_trailing :
        stop_reached o b ≡ false
        → (is_trailing_stop o || is_trailing_stop_limit o) ≡ true
        → place_stop_order o b ≡ insert_trailing_stop_order o b
    unfolding place_stop_order
    place_as_trailing e k = rw (e, k) refl

    place_as_stop :
        stop_reached o b ≡ false
        → (is_trailing_stop o || is_trailing_stop_limit o) ≡ false
        → place_stop_order o b ≡ insert_stop_order o b
    unfolding place_stop_order
    place_as_stop e k = rw (e, k) refl

    place_stop_order-IsSound :
        AcceptsStop o b
        → (b' : MapOrderBook) × (place_stop_order o b ≡ some b') × StopAdded o b b' × IsSound b'
    place_stop_order-IsSound a = elim (Bool-cases (stop_reached o b)) [
      | inl e ↦ elim (Bool-cases (is_market (converted o))) [
        | inl k ↦
            let (o', b', run, m) =
              add_market_order-Marketed (converted o) (told o b)
                (reprice-IsLinked _ _ _ _ a.sound.linked) a.sound.live a.sound.uncrossed
                (omega (arith, a.room)) in
            (
              b',
              place_as_market e k ∙ run,
              StopAdded.at_once e (Taken.as_market k o' m),
              record { linked = m.linked; live = m.live; uncrossed = m.uncrossed },
            )
        | inr k ↦
            let (o', b', run, m) = add_limit_order-Limited (converted o) (told o b) (record {
              linked = reprice-IsLinked _ _ _ _ a.sound.linked;
              live = a.sound.live;
              uncrossed = a.sound.uncrossed;
              is_limit = ground (arith, k);
              symbol = a.symbol;
              free = a.free;
              room = a.room;
            }) in
            (
              b',
              place_as_limit e k ∙ run,
              StopAdded.at_once e (Taken.as_limit k o' m),
              record { linked = m.linked; live = m.live; uncrossed = m.uncrossed },
            )
      ]
      | inr e ↦ elim (Bool-cases (is_trailing_stop o || is_trailing_stop_limit o)) [
        | inl k ↦
            let (b', run, s, i) = insert_trailing_stop_order-IsSound o b a (ground (arith, k)) in
            (b', place_as_trailing e k ∙ run, StopAdded.waits e i, s)
        | inr k ↦
            let (b', run, s, i) =
              insert_stop_order-IsSound o b a (ground (arith, k, a.is_any_stop)) in
            (b', place_as_stop e k ∙ run, StopAdded.waits e i, s)
      ]
    ]

    priced : calculate_stop_price b o ≡ set_stop_price (new_price o b) o
    unfolding calculate_stop_price
    priced = elim (Bool-cases (is_ask o)) [ inl e ↦ rw e refl | inr e ↦ rw e refl ]

    priced-AcceptsStop : AcceptsStop o b → (q : ℕ) → AcceptsStop (set_stop_price q o) b
    priced-AcceptsStop a q = record {
      sound = a.sound;
      is_any_stop = a.is_any_stop;
      symbol = a.symbol;
      free = a.free;
      unfilled = a.unfilled;
      room = a.room;
    }

  -- The order with its stop price, which follows the market price for trailing stops.
  abbrev pub with_stop_price : Order → MapOrderBook → Order
  with_stop_price o b =
      if is_trailing_stop o || is_trailing_stop_limit o
      then record o { stop_price = new_price o b }
      else o

  pub add_stop_order-IsSound :
      (o : Order) (b : MapOrderBook)
      → AcceptsStop o b
      → (b' : MapOrderBook) × (add_stop_order o b ≡ some b')
        × StopAdded (with_stop_price o b) b b'
        × IsSound b'
  unfolding add_stop_order
  add_stop_order-IsSound o b a =
      elim (Bool-cases (is_trailing_stop o || is_trailing_stop_limit o)) [
        | inl k ↦
            let q = new_price o b in
            let (b', run, done, s) =
              place_stop_order-IsSound (set_stop_price q o) b (priced-AcceptsStop o b a q) in
            (b', rw (k, priced o b) run, rw k done, s)
        | inr k ↦
            let (b', run, done, s) = place_stop_order-IsSound o b a in (b', rw k run, rw k done, s)
      ]
