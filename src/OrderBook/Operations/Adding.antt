-- ===== src/OrderBook/Operations/Adding.antt =====
-- `addOrder` and `replaceOrder` on a sound book.
use rapid_trader.Base.{
  ℕ, ◌+◌, ◌≡◌, ◌<◌, refl, sym, ◌∙◌, true, false, ◌||◌, none, some, ◌∷◌, ◌==◌, arith, u64_mod,
}
use rapid_trader.Containers.{Containers}
use rapid_trader.Event.{Event}
use rapid_trader.Order.{
  Order, OrderType, is_filled, is_limit, is_market, is_stop, is_stop_limit, is_trailing_stop,
  is_trailing_stop_limit, set_order_id, set_price,
}
use rapid_trader.OrderBook.{MapOrderBook, OrderWrapper, find_order, notify}
use rapid_trader.OrderBook.Maps.{book_volume}
use rapid_trader.OrderBook.Invariant.Deleted.{Deleted, delete_order-Deleted}
use rapid_trader.OrderBook.Matching.Limit.{add_limit_order-Limited}
use rapid_trader.OrderBook.Matching.Market.{add_market_order-Marketed}
use rapid_trader.OrderBook.Operations.{add_by_type, add_order, replace_order}
use rapid_trader.OrderBook.Operations.Resting.{reprice-IsSound}
use rapid_trader.OrderBook.Stops.{add_stop_order, activate_stop_orders}
use rapid_trader.OrderBook.Stops.Activate.{IsSound}
use rapid_trader.OrderBook.Stops.Added.{StopAdded, with_stop_price, add_stop_order-IsSound}
use rapid_trader.OrderBook.Matching.Taken.{Taken}
use rapid_trader.OrderBook.Stops.Filed.{AcceptsStop}
use rapid_trader.OrderBook.Stops.Rounds.{Rested, activate_stop_orders-IsSound}
use rapid_trader.OrderBook.Stops.Trailing.Cleared.{Deleted-IsSound}

module _ ⦃C : Containers⦄ where
  -- What a book needs to take a new order.
  pub record AcceptsOrder (o : Order) (b : MapOrderBook) : Type 0 where
    pub sound : IsSound b
    pub symbol : o.symbol_id ≡ b.symbol_id
    pub free : find_order o.id b ≡ none
    pub unfilled : is_filled o ≡ false
    pub room : book_volume b + o.open_quantity < u64_mod

  -- What becomes of a new order: it is matched at once, or it is a stop order and added as such.
  pub data NewlyAdded (o : Order) (b b' : MapOrderBook) : Type 0 where
    taken : (is_limit o || is_market o) ≡ true → Taken o b b' → NewlyAdded o b b'
    stop :
        (is_stop o || is_stop_limit o || is_trailing_stop o || is_trailing_stop_limit o) ≡ true
        → StopAdded (with_stop_price o b) b b'
        → NewlyAdded o b b'

  -- What `addOrder` makes of a book: the order is told and added, then stop orders are activated.
  pub record Added (o : Order) (b b' : MapOrderBook) : Type 0 where
    pub with_order : MapOrderBook
    pub newly_added : NewlyAdded o (notify (Event.order_added o) b) with_order
    pub activated : activate_stop_orders with_order ≡ some b'
    pub sound : IsSound b'
    pub rested : Rested b'

  module _ (o : Order) (b : MapOrderBook) (a : AcceptsOrder o b) where
    abbrev told : MapOrderBook
    told = notify (Event.order_added o) b

    told-IsSound : IsSound told
    told-IsSound = reprice-IsSound b (Event.order_added o ∷ b.events) b.last_traded_price a.sound

    told-AcceptsStop :
        (is_stop o || is_stop_limit o || is_trailing_stop o || is_trailing_stop_limit o) ≡ true
        → AcceptsStop o told
    told-AcceptsStop e = record {
      sound = told-IsSound;
      is_any_stop = e;
      symbol = a.symbol;
      free = a.free;
      unfilled = a.unfilled;
      room = a.room;
    }

    as_stop :
        (is_stop o || is_stop_limit o || is_trailing_stop o || is_trailing_stop_limit o) ≡ true
        → (b' : MapOrderBook) × (add_stop_order o told ≡ some b')
          × NewlyAdded o told b'
          × IsSound b'
    as_stop e =
        let (b', run, done, s) = add_stop_order-IsSound o told (told-AcceptsStop e) in
        (b', run, NewlyAdded.stop e done, s)

    added_by_type :
        (t : OrderType)
        → o.type ≡ t
        → (b' : MapOrderBook) × (add_by_type t o told ≡ some b') × NewlyAdded o told b' × IsSound b'
    added_by_type OrderType.limit e =
        let (o', b', run, m) = add_limit_order-Limited o told (record {
          linked = told-IsSound.linked;
          live = told-IsSound.live;
          uncrossed = told-IsSound.uncrossed;
          is_limit = e;
          symbol = a.symbol;
          free = a.free;
          room = a.room;
        }) in
        (
          b',
          run,
          NewlyAdded.taken (rw e refl) (Taken.as_limit (rw e refl) o' m),
          record { linked = m.linked; live = m.live; uncrossed = m.uncrossed },
        )
    added_by_type OrderType.market e =
        let (o', b', run, m) =
          add_market_order-Marketed o told told-IsSound.linked told-IsSound.live
            told-IsSound.uncrossed (let r = a.room in omega (arith, r)) in
        (
          b',
          run,
          NewlyAdded.taken (rw e refl) (Taken.as_market (rw e refl) o' m),
          record { linked = m.linked; live = m.live; uncrossed = m.uncrossed },
        )
    added_by_type OrderType.stop e = as_stop (rw e refl)
    added_by_type OrderType.stop_limit e = as_stop (rw e refl)
    added_by_type OrderType.trailing_stop e = as_stop (rw e refl)
    added_by_type OrderType.trailing_stop_limit e = as_stop (rw e refl)

  pub add_order-Added :
      (o : Order) (b : MapOrderBook)
      → AcceptsOrder o b
      → (b' : MapOrderBook) × (add_order o b ≡ some b') × Added o b b'
  unfolding add_order
  add_order-Added o b a =
      let (b₁, run, done, sound) = added_by_type o b a o.type refl in
      let (b', rest, sound', rested, symbol) = activate_stop_orders-IsSound b₁ sound in
      (
        b',
        rw run rest,
        record {
          with_order = b₁;
          newly_added = done;
          activated = rest;
          sound = sound';
          rested = rested;
        },
      )

  pub replace_order-IsSound :
      (b : MapOrderBook) (r new_order_id new_price : ℕ) (w : OrderWrapper)
      → IsSound b
      → find_order r b ≡ some w
      → ((r == new_order_id) ≡ false → find_order new_order_id b ≡ none)
      → (b₁ : MapOrderBook) × (b₂ : MapOrderBook) × (b' : MapOrderBook) × Deleted r w b b₁
        × Added (record w.order { id = new_order_id; price = new_price }) b₁ b₂
        × (activate_stop_orders b₂ ≡ some b')
        × (replace_order r new_order_id new_price b ≡ some b')
        × IsSound b'
        × Rested b'
  unfolding replace_order
  replace_order-IsSound b r new_order_id new_price w s here free =
      let o = set_price new_price (set_order_id new_order_id w.order) in
      let (b₁, gone, d) = delete_order-Deleted b r w true s.linked here in
      let (b₂, run, added) = add_order-Added o b₁ (accepts b₁ d) in
      let (b', rest, sound', rested', symbol) = activate_stop_orders-IsSound b₂ added.sound in
      (b₁, b₂, b', d, added, rest, rw (here, gone, run) rest, sound', rested')
    where
      accepts :
          (b₁ : MapOrderBook)
          → Deleted r w b b₁
          → AcceptsOrder (set_price new_price (set_order_id new_order_id w.order)) b₁
      accepts b₁ d = record {
        sound = Deleted-IsSound r w b b₁ s d;
        symbol = (s.linked.linked.order_fits r w here).own_symbol ∙ sym d.same_symbol;
        free = ground (arith, d.entries new_order_id, free);
        unfilled = (let live = s.live r w here in ground (arith, live));
        room = (let fits = s.linked.bounded in omega (arith, d.volume, fits));
      }
