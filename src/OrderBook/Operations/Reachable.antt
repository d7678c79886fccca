-- ===== src/OrderBook/Operations/Reachable.antt =====
-- The books that a client can reach from a new book by the public operations.
use rapid_trader.Base.{
  ℕ, ◌+◌, ◌≡◌, ◌<◌, ◌≤◌, refl, sym, ◌∙◌, subst, false, none, some, ◌==◌, u64_mod,
}
use rapid_trader.Containers.{Containers}
use rapid_trader.Order.{Order, is_filled}
use rapid_trader.OrderBook.{MapOrderBook, OrderWrapper, new_book, find_order}
use rapid_trader.OrderBook.Maps.{book_volume}
use rapid_trader.OrderBook.Invariant.Fresh.{new_book-Opens}
use rapid_trader.OrderBook.Operations.{
  add_order, execute_order, execute_order_at_own_price, cancel_order, delete_order, replace_order,
}
use rapid_trader.OrderBook.Operations.Adding.{add_order-Added, replace_order-IsSound}
use rapid_trader.OrderBook.Operations.Resting.{
  execute_order-Operated, cancel_order-Operated, delete_order-IsSound,
}
use rapid_trader.OrderBook.Stops.Activate.{IsSound}
use rapid_trader.OrderBook.Stops.Rounds.{Rested}

module _ ⦃C : Containers⦄ where
  -- A new order of the book's symbol, whose quantity fits.
  pub record IsNewTo (o : Order) (b : MapOrderBook) : Type 0 where
    pub symbol : o.symbol_id ≡ b.symbol_id
    pub free : find_order o.id b ≡ none
    pub unfilled : is_filled o ≡ false
    pub room : book_volume b + o.open_quantity < u64_mod

  -- A call with the requirements of the interface `OrderBook`, and for a cancellation at most what
  -- the order has open.
  pub data BookStep (b b' : MapOrderBook) : Type 0 where
    added : (o : Order) → IsNewTo o b → add_order o b ≡ some b' → BookStep b b'
    executed :
        (r quantity price : ℕ) (w : OrderWrapper)
        → find_order r b ≡ some w
        → execute_order r quantity price b ≡ some b'
        → BookStep b b'
    executed_at_own_price :
        (r quantity : ℕ) (w : OrderWrapper)
        → find_order r b ≡ some w
        → execute_order_at_own_price r quantity b ≡ some b'
        → BookStep b b'
    cancelled :
        (r quantity : ℕ) (w : OrderWrapper)
        → find_order r b ≡ some w
        → quantity ≤ w.order.open_quantity
        → cancel_order r quantity b ≡ some b'
        → BookStep b b'
    deleted :
        (r : ℕ) (w : OrderWrapper)
        → find_order r b ≡ some w
        → delete_order r b ≡ some b'
        → BookStep b b'
    replaced :
        (r new_order_id new_price : ℕ) (w : OrderWrapper)
        → find_order r b ≡ some w
        → ((r == new_order_id) ≡ false → find_order new_order_id b ≡ none)
        → replace_order r new_order_id new_price b ≡ some b'
        → BookStep b b'

  pub data BookReach (symbol : ℕ) : MapOrderBook → Type 0 where
    opened : BookReach symbol (new_book symbol)
    operated : {b b' : MapOrderBook} → BookReach symbol b → BookStep b b' → BookReach symbol b'

  -- A book between two operations.
  abbrev pub IsAtRest : MapOrderBook → Type 0
  IsAtRest b = IsSound b × Rested b

  same_result : (b₁ b' : MapOrderBook) → some b₁ ≡ some b' → IsSound b₁ → Rested b₁ → IsAtRest b'
  same_result b₁ b' e s r = let same : b₁ ≡ b' = cc in (subst IsSound same s, subst Rested same r)

  execute_order_at_own_price-eq :
      (b : MapOrderBook) (r quantity : ℕ) (w : OrderWrapper)
      → find_order r b ≡ some w
      → execute_order_at_own_price r quantity b ≡ execute_order r quantity w.order.price b
  unfolding execute_order_at_own_price execute_order
  execute_order_at_own_price-eq b r quantity w here = rw here refl

  executed-IsAtRest :
      (b b' : MapOrderBook) (r quantity price : ℕ) (w : OrderWrapper)
      → IsSound b
      → find_order r b ≡ some w
      → execute_order r quantity price b ≡ some b'
      → IsAtRest b'
  executed-IsAtRest b b' r quantity price w s here run =
      let (b₁, run', done) = execute_order-Operated b r quantity price w s here in
      same_result b₁ b' (sym run' ∙ run) done.sound done.rested

  pub BookStep-IsAtRest : (b b' : MapOrderBook) → IsSound b → BookStep b b' → IsAtRest b'
  BookStep-IsAtRest b b' s (BookStep.added o new run) =
      let (b₁, run', done) = add_order-Added o b (record {
        sound = s;
        symbol = new.symbol;
        free = new.free;
        unfilled = new.unfilled;
        room = new.room;
      }) in
      same_result b₁ b' (sym run' ∙ run) done.sound done.rested
  BookStep-IsAtRest b b' s (BookStep.executed r quantity price w here run) =
      executed-IsAtRest b b' r quantity price w s here run
  BookStep-IsAtRest b b' s (BookStep.executed_at_own_price r quantity w here run) =
      executed-IsAtRest b b' r quantity w.order.price w s here
        (sym (execute_order_at_own_price-eq b r quantity w here) ∙ run)
  BookStep-IsAtRest b b' s (BookStep.cancelled r quantity w here le run) =
      let (b₁, run', done) = cancel_order-Operated b r quantity w s here le in
      same_result b₁ b' (sym run' ∙ run) done.sound done.rested
  BookStep-IsAtRest b b' s (BookStep.deleted r w here run) =
      let (b₀, b₁, d, run₀, run', sound, rested) = delete_order-IsSound b r w s here in
      same_result b₁ b' (sym run' ∙ run) sound rested
  BookStep-IsAtRest b b' s (BookStep.replaced r new_order_id new_price w here free run) =
      let (b₀, b₂, b₁, d, as_new, run₀, run', sound, rested) =
        replace_order-IsSound b r new_order_id new_price w s here free in
      same_result b₁ b' (sym run' ∙ run) sound rested

  new_book-Rested : (symbol : ℕ) → Rested (new_book symbol)
  unfolding new_book
  new_book-Rested symbol = record {
    stop_asks = λ p l e. cc;
    stop_bids = λ p l e. cc;
    trailing_asks = λ p l e. cc;
  }

  -- Every book that a client can reach from a new one by the operations of the interface, in any
  -- order, is sound, and the last traded price reaches none of its stop orders and none of its
  -- trailing stop orders of the ask side. The operations are on orders of the book; a new order is of
  -- the book's symbol, is not filled, has a free ID and a quantity that still fits 64 bits with the
  -- volume of the book; a replacement has a free ID or the order's own; and no more is cancelled than
  -- the order has open.
  pub BookReach-IsAtRest :
      (symbol : ℕ) (b : MapOrderBook) → BookReach symbol b → IsSound b × Rested b
  BookReach-IsAtRest symbol b BookReach.opened =
      let (linked, live, uncrossed, unknown) = new_book-Opens symbol in
      (record { linked = linked; live = live; uncrossed = uncrossed }, new_book-Rested symbol)
  BookReach-IsAtRest symbol b' (BookReach.operated {b} before step) =
      BookStep-IsAtRest b b' (BookReach-IsAtRest symbol b before).0 step
