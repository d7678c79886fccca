-- ===== src/OrderBook/Stops/Filed.antt =====
-- `insertStopOrder` and `insertTrailingStopOrder` keep a book sound.
use rapid_trader.Base.{
  ℕ, ◌+◌, ◌≡◌, refl, sym, ap, ◌∙◌, subst, true, false, ◌||◌, none, some, if◌then◌else◌, arith,
  u64_mod, ◌<◌, ==_refl, ◌==◌,
}
use rapid_trader.Containers.{Containers}
use rapid_trader.Order.{
  Order, is_ask, is_filled, is_stop, is_stop_limit, is_trailing_stop, is_trailing_stop_limit,
}
use rapid_trader.OrderBook.{
  MapOrderBook, LevelMap, LevelIterator, OrderWrapper, find_order, level_at, write_order,
  last_traded_price_ask, last_traded_price_bid,
}
use rapid_trader.OrderBook.Maps.{book_volume, same_it}
use rapid_trader.OrderBook.Storage.{insert_at, insert_stop_order, insert_trailing_stop_order}
use rapid_trader.OrderBook.Linked.{Linked}
use rapid_trader.OrderBook.Invariant.Insertion.{IsFiled, wrapper}
use rapid_trader.OrderBook.Invariant.Placed.{Inserted, insert_at-Inserted}
use rapid_trader.OrderBook.Matching.Uncrossed.{ask_at, bid_at}
use rapid_trader.OrderBook.Matching.Limit.{is_limit_map}
use rapid_trader.OrderBook.Stops.{trailing_ask, trailing_bid}
use rapid_trader.OrderBook.Stops.Activate.{IsSound}

module _ ⦃C : Containers⦄ where
  -- An order inserted into a stop level leaves a sound book sound.
  pub stored-IsSound :
      {it : LevelIterator} {o : Order} {b b' : MapOrderBook}
      → IsSound b
      → is_limit_map it.map ≡ false
      → is_filled o ≡ false
      → Inserted it o b b'
      → IsSound b'
  stored-IsSound {it} {o} {b} {b'} s stop left i = record {
    linked = i.linked;
    live = λ r w e. ground (arith, i.entries r, s.live r w, e, left);
    uncrossed = λ p p' l l' a d.
        s.uncrossed p p' l l' (ground (arith, i.elsewhere (ask_at p), a, stop))
          (ground (arith, i.elsewhere (bid_at p'), d, stop));
  }

  -- A write of what an entry holds already changes nothing.
  find-rewritten :
      (r : ℕ) (w : OrderWrapper) (b : MapOrderBook)
      → find_order r b ≡ some w
      → (j : ℕ) → find_order j b ≡ find_order j (write_order r w b)
  find-rewritten r w b e j = ground (arith, C.find-assign j r w b.orders, e)

  rewritten-IsSound :
      (r : ℕ) (w : OrderWrapper) (b : MapOrderBook)
      → IsSound b
      → find_order r b ≡ some w
      → IsSound (write_order r w b)
  rewritten-IsSound r w b s e = record {
    linked = record {
      ascending = s.linked.ascending;
      linked =
          subst (λ f. Linked f (λ it. level_at it b) b.symbol_id)
            (λ i j. find-rewritten r w b e j i) s.linked.linked;
      bounded = s.linked.bounded;
    };
    live = λ j x h. s.live j x (find-rewritten r w b e j ∙ h);
    uncrossed = s.uncrossed;
  }

  -- The stop price that the market price gives a trailing stop order.
  abbrev pub new_price : Order → MapOrderBook → ℕ
  new_price o b =
      if is_ask o
      then trailing_ask (last_traded_price_bid b) o.trail_amount
      else trailing_bid (last_traded_price_ask b) o.trail_amount

  -- The level of a stop order.
  abbrev pub stop_level : Order → LevelIterator
  stop_level o = record {
    map =
        if is_stop o || is_stop_limit o
        then (if is_ask o then LevelMap.stop_ask else LevelMap.stop_bid)
        else (if is_ask o then LevelMap.trailing_stop_ask else LevelMap.trailing_stop_bid);
    key = o.stop_price;
  }

  -- What a book needs to take a new stop order.
  pub record AcceptsStop (o : Order) (b : MapOrderBook) : Type 0 where
    pub sound : IsSound b
    pub is_any_stop :
        (is_stop o || is_stop_limit o || is_trailing_stop o || is_trailing_stop_limit o) ≡ true
    pub symbol : o.symbol_id ≡ b.symbol_id
    pub free : find_order o.id b ≡ none
    pub unfilled : is_filled o ≡ false
    pub room : book_volume b + o.open_quantity < u64_mod

  -- The order waits in its stop level, and nothing else has changed.
  pub record Waits (o : Order) (b b' : MapOrderBook) : Type 0 where
    pub entries :
        (j : ℕ)
        → find_order j b' ≡ (if o.id == j then some (wrapper (stop_level o) o) else find_order j b)
    pub elsewhere :
        (it : LevelIterator) → same_it (stop_level o) it ≡ false → level_at it b' ≡ level_at it b
    pub volume : book_volume b' ≡ book_volume b + o.open_quantity
    pub same_last : b'.last_traded_price ≡ b.last_traded_price

  inserted-Waits : {o : Order} {b b' : MapOrderBook} → Inserted (stop_level o) o b b' → Waits o b b'
  inserted-Waits i = record {
    entries = i.entries;
    elsewhere = i.elsewhere;
    volume = i.volume;
    same_last = i.same_last;
  }

  module _ {o : Order} {b : MapOrderBook} (a : AcceptsStop o b) where
    stop-IsFiled : IsFiled (stop_level o) o b
    stop-IsFiled = record {
      free = a.free;
      symbol = a.symbol;
      own_map = ground (arith, a.is_any_stop);
      own_key = ground (arith, a.is_any_stop);
    }

    stored :
        (b' : MapOrderBook) × (insert_at (stop_level o) o b ≡ some b') × IsSound b' × Waits o b b'
    stored =
        let (b', run, i) =
          insert_at-Inserted b (stop_level o) o a.sound.linked stop-IsFiled a.room in
        (b', run, stored-IsSound a.sound (ground arith) a.unfilled i, inserted-Waits i)

  -- `insertStopOrder` on a new stop or stop limit order returns, and leaves a sound book in
  -- which it waits.
  pub insert_stop_order-IsSound :
      (o : Order) (b : MapOrderBook)
      → AcceptsStop o b
      → (is_stop o || is_stop_limit o) ≡ true
      → (b' : MapOrderBook) × (insert_stop_order o b ≡ some b') × IsSound b' × Waits o b b'
  unfolding insert_stop_order
  insert_stop_order-IsSound o b a e =
      let (b', run, s, i) = stored a in (b', ap (λ it. insert_at it o b) (rw e refl) ∙ run, s, i)

  -- `insertTrailingStopOrder` on a new trailing stop or trailing stop limit order returns, and
  -- leaves a sound book in which it waits.
  pub insert_trailing_stop_order-IsSound :
      (o : Order) (b : MapOrderBook)
      → AcceptsStop o b
      → (is_stop o || is_stop_limit o) ≡ false
      → (b' : MapOrderBook) × (insert_trailing_stop_order o b ≡ some b') × IsSound b' × Waits o b b'
  unfolding insert_trailing_stop_order
  insert_trailing_stop_order-IsSound o b a e =
      let (b', run, s, i) = stored a in
      let found : find_order o.id b' ≡ some (wrapper (stop_level o) o) =
        i.entries o.id ∙ rw (==_refl o.id) refl in
      let it : LevelIterator = record {
        map = if is_ask o then LevelMap.trailing_stop_ask else LevelMap.trailing_stop_bid;
        key = o.stop_price;
      } in
      let same : it ≡ stop_level o = rw e refl in
      let inserted : insert_at it o b ≡ some b' = ap (λ i. insert_at i o b) same ∙ run in
      (
        write_order o.id (wrapper (stop_level o) o) b',
        rw (inserted, found) (ap (λ i. some (write_order o.id (wrapper i o) b')) same),
        rewritten-IsSound o.id (wrapper (stop_level o) o) b' s found,
        record {
          entries = λ j. sym (find-rewritten o.id _ b' found j) ∙ i.entries j;
          elsewhere = i.elsewhere;
          volume = i.volume;
          same_last = i.same_last;
        },
      )
