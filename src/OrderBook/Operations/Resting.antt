-- ===== src/OrderBook/Operations/Resting.antt =====
-- `executeOrder`, `cancelOrder` and `deleteOrder` on an order of a sound book.
use rapid_trader.Base.{
  ℕ, ◌≡◌, ◌<◌, ◌≤◌, refl, ◌∙◌, true, some, arith, min, sub64, u64_mod, List, ◌∷◌,
}
use rapid_trader.Containers.{Containers}
use rapid_trader.Event.{Event}
use rapid_trader.Order.{execute, set_quantity}
use rapid_trader.OrderBook.{MapOrderBook, OrderWrapper, find_order}
use rapid_trader.OrderBook.Invariant.{reprice-IsLinked}
use rapid_trader.OrderBook.Invariant.Deleted.{Deleted, delete_order-Deleted}
use rapid_trader.OrderBook.Invariant.Deletion.{find_level}
use rapid_trader.OrderBook.Invariant.Written.{Reduces, reduce_volume-lowered}
use rapid_trader.OrderBook.Matching.Trade.{execute-Reduces}
use rapid_trader.OrderBook.Operations.{execute_resting, execute_order, cancel_order, delete_order}
use rapid_trader.OrderBook.Operations.Reduction.{Reduced, reduce-Reduced, open-lt}
use rapid_trader.OrderBook.Stops.{activate_stop_orders}
use rapid_trader.OrderBook.Stops.Activate.{IsSound}
use rapid_trader.OrderBook.Stops.Rounds.{Rested, activate_stop_orders-IsSound}
use rapid_trader.OrderBook.Stops.Trailing.Cleared.{Deleted-IsSound}

module _ ⦃C : Containers⦄ where
  pub reprice-IsSound :
      (b : MapOrderBook) (es : List Event) (last : ℕ)
      → IsSound b
      → IsSound (record b { events = es; last_traded_price = last })
  reprice-IsSound b es last s = record {
    linked = reprice-IsLinked es last b.trailing_bid_price b.trailing_ask_price s.linked;
    live = s.live;
    uncrossed = s.uncrossed;
  }

  -- What an operation does to the order `r`: `q` is taken from it, which leaves `w'`, in a book
  -- `reduced`, and then stop orders are activated.
  pub record Operated (r q : ℕ) (w' : OrderWrapper) (last : ℕ) (b b' : MapOrderBook) : Type 0 where
    pub reduced : MapOrderBook
    pub reduces : Reduced r q w' last b reduced
    pub activated : activate_stop_orders reduced ≡ some b'
    pub sound : IsSound b'
    pub rested : Rested b'
    pub same_symbol : b'.symbol_id ≡ b.symbol_id

  operate :
      (r q : ℕ) (w' : OrderWrapper) (last : ℕ) (b b₁ : MapOrderBook)
      → Reduced r q w' last b b₁
      → (b' : MapOrderBook) × (activate_stop_orders b₁ ≡ some b') × Operated r q w' last b b'
  operate r q w' last b b₁ d =
      let (b', run, sound, rested, symbol) = activate_stop_orders-IsSound b₁ d.sound in
      (
        b',
        run,
        record {
          reduced = b₁;
          reduces = d;
          activated = run;
          sound = sound;
          rested = rested;
          same_symbol = symbol ∙ d.same_symbol;
        },
      )

  -- Events and prices do not matter to it.
  reprice-Reduced :
      (r q : ℕ) (w' : OrderWrapper) (b b₁ : MapOrderBook) (es : List Event) (last : ℕ)
      → Reduced r q w' last (record b { events = es; last_traded_price = last }) b₁
      → Reduced r q w' last b b₁
  reprice-Reduced r q w' b b₁ es last d = record {
    sound = d.sound;
    entry = d.entry;
    untouched = d.untouched;
    volume = d.volume;
    last_price = d.last_price;
    same_symbol = d.same_symbol;
  }

  -- `executeOrder` on an order of a sound book returns, whatever the price, in a build with `NDEBUG`.
  -- The order is executed at that price, as much of the quantity as it has open; it is deleted exactly
  -- if it is filled by that, every other entry is as it was, the volume of the book falls by as much,
  -- and the last traded price is that price. From this book `activateStopOrders` makes the result,
  -- which is sound and in which the last traded price reaches no stop order and no trailing stop order
  -- of the ask side.
  pub execute_order-Operated :
      (b : MapOrderBook) (r quantity price : ℕ) (w : OrderWrapper)
      → IsSound b
      → find_order r b ≡ some w
      → (b' : MapOrderBook) × (execute_order r quantity price b ≡ some b')
        × Operated r
            (min quantity w.order.open_quantity)
            (record w { order = execute price (min quantity w.order.open_quantity) w.order })
            price
            b
            b'
  unfolding execute_order execute_resting execute
  execute_order-Operated b r quantity price w s here =
      let q = min quantity w.order.open_quantity in
      let o = execute price q w.order in
      let w' : OrderWrapper = record w { order = o } in
      let es = Event.executed_order o ∷ b.events in
      let s₀ = reprice-IsSound b es price s in
      let (l, there) = find_level s.linked here in
      let c : Reduces q w w' =
        execute-Reduces w price q (omega arith) (open-lt b r w s.linked here) in
      let (b₁, gone, d) = reduce-Reduced s₀ here there c in
      let (b', run, done) = operate r q w' price b b₁ (reprice-Reduced r q w' b b₁ es price d) in
      (b', rw (here, there, reduce_volume-lowered s₀.linked here there c, gone) run, done)

  cancel-Reduces :
      (w : OrderWrapper) (q : ℕ)
      → q ≤ w.order.open_quantity
      → w.order.open_quantity < u64_mod
      → Reduces q w (record w { order = set_quantity q w.order })
  unfolding set_quantity
  cancel-Reduces w q le fits = record {
    filing = record {
      same_id = refl;
      same_symbol = refl;
      same_type = refl;
      same_side = refl;
      same_price = refl;
      same_stop_price = refl;
    };
    same_level_it = refl;
    less = omega arith;
  }

  cancelled :
      (w : OrderWrapper) (q : ℕ)
      → q ≤ w.order.open_quantity
      → w.order.open_quantity < u64_mod
      → sub64 w.order.open_quantity (set_quantity q w.order).open_quantity ≡ q
  unfolding set_quantity
  cancelled w q le fits = omega arith

  -- `cancelOrder` by at most the open quantity of an order of a sound book returns, in a build with
  -- `NDEBUG`: `setQuantity` takes the quantity from the order, which is deleted exactly if nothing is
  -- left open, every other entry and the last traded price are as they were, and the volume of the
  -- book falls by as much. From this book `activateStopOrders` makes the result, which is sound and in
  -- which the last traded price reaches no stop order and no trailing stop order of the ask side.
  pub cancel_order-Operated :
      (b : MapOrderBook) (r quantity : ℕ) (w : OrderWrapper)
      → IsSound b
      → find_order r b ≡ some w
      → quantity ≤ w.order.open_quantity
      → (b' : MapOrderBook) × (cancel_order r quantity b ≡ some b')
        × Operated r quantity
            (record w { order = set_quantity quantity w.order })
            b.last_traded_price
            b
            b'
  unfolding cancel_order
  cancel_order-Operated b r quantity w s here le =
      let o = set_quantity quantity w.order in
      let w' : OrderWrapper = record w { order = o } in
      let es = Event.order_updated o ∷ b.events in
      let s₀ = reprice-IsSound b es b.last_traded_price s in
      let (l, there) = find_level s.linked here in
      let fits = open-lt b r w s.linked here in
      let c = cancel-Reduces w quantity le fits in
      let (b₁, gone, d) = reduce-Reduced s₀ here there c in
      let (b', run, done) =
        operate r quantity w' b.last_traded_price b b₁
          (reprice-Reduced r quantity w' b b₁ es b.last_traded_price d) in
      (
        b',
        rw
            (
              here,
              there,
              cancelled w quantity le fits,
              reduce_volume-lowered s₀.linked here there c,
              gone,
            )
            run,
        done,
      )

  -- `deleteOrder` on an order of a sound book returns, in a build with `NDEBUG`: the order is gone and
  -- every other entry is as it was, in a book whose volume is less by what the order had open. From
  -- this book `activateStopOrders` makes the result, which is sound and in which the last traded price
  -- reaches no stop order and no trailing stop order of the ask side.
  pub delete_order-IsSound :
      (b : MapOrderBook) (r : ℕ) (w : OrderWrapper)
      → IsSound b
      → find_order r b ≡ some w
      → (b₁ : MapOrderBook) × (b' : MapOrderBook) × Deleted r w b b₁
        × (activate_stop_orders b₁ ≡ some b')
        × (delete_order r b ≡ some b')
        × IsSound b'
        × Rested b'
  unfolding delete_order
  delete_order-IsSound b r w s here =
      let (b₁, gone, d) = delete_order-Deleted b r w true s.linked here in
      let (b', run, sound, rested, symbol) =
        activate_stop_orders-IsSound b₁ (Deleted-IsSound r w b b₁ s d) in
      (b₁, b', d, run, rw gone run, sound, rested)
