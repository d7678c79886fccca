-- ===== src/Market/Reachable.antt =====
-- The markets that a client can reach from a new market by its operations.
use Prim.Native.String.{String}
use rapid_trader.Base.{
  ℕ, ◌≡◌, ◌≤◌, refl, sym, ◌∙◌, subst, Bool, true, false, Option, none, some, ◌==◌, arith,
  >>=-eq-some, ◌>>◌, guard, ltb, Bool-cases, inl, inr,
}
use rapid_trader.BookHandler
use rapid_trader.BookHandler.{OrderBookHandler, find_book, on_book, is_some}
use rapid_trader.Containers.{Containers}
use rapid_trader.Market.{
  Market, Symbol, new_market, find_symbol, has_symbol, add_symbol, delete_symbol, add_order,
  delete_order, cancel_order, replace_order, execute_order, execute_order_at_own_price, handle,
}
use rapid_trader.Market.Symbols.{
  IsPaired, book_of, add_symbol-Listed, delete_symbol-Delisted, on_book-apart,
}
use rapid_trader.Order.{Order}
use rapid_trader.OrderBook.{MapOrderBook, OrderWrapper, new_book, find_order}
use rapid_trader.OrderBook.Operations
use rapid_trader.OrderBook.Operations.Reachable.{
  IsNewTo, BookStep, BookReach, IsAtRest, BookStep-IsAtRest, BookReach-IsAtRest,
}
use rapid_trader.OrderBook.Operations.Resting.{reprice-IsSound}

-- What is guarded has run.
guarded : {A : Type 0} {x : Option A} {y : A} (c : Bool) → (guard c >> x) ≡ some y → x ≡ some y
guarded true e = e
guarded false e = cc

guarded_twice :
    {A : Type 0} {x : Option A} {y : A} (c d : Bool)
    → (guard c >> guard d >> x) ≡ some y
    → x ≡ some y
guarded_twice true d e = guarded d e
guarded_twice false d e = cc

module _ ⦃C : Containers⦄ where
  -- The order `r` rests as `w` in the book `b` of the symbol `s`.
  pub record RestsIn (s r : ℕ) (b : MapOrderBook) (w : OrderWrapper) (k : Market) : Type 0 where
    pub book : book_of s k ≡ some b
    pub order : find_order r b ≡ some w

  -- A call that meets the requirements of the operations, and returns.
  pub data MarketStep (k k' : Market) : Type 0 where
    symbol_added :
        (s : ℕ) (name : String)
        → has_symbol s k ≡ false
        → add_symbol s name k ≡ some k'
        → MarketStep k k'
    symbol_deleted :
        (s : ℕ) (symbol : Symbol)
        → find_symbol s k ≡ some symbol
        → delete_symbol s k ≡ some k'
        → MarketStep k k'
    added :
        (o : Order) (b : MapOrderBook)
        → book_of o.symbol_id k ≡ some b
        → IsNewTo o b
        → add_order o k ≡ some k'
        → MarketStep k k'
    deleted :
        (s r : ℕ) (b : MapOrderBook) (w : OrderWrapper)
        → RestsIn s r b w k
        → delete_order s r k ≡ some k'
        → MarketStep k k'
    cancelled :
        (s r quantity : ℕ) (b : MapOrderBook) (w : OrderWrapper)
        → RestsIn s r b w k
        → quantity ≤ w.order.open_quantity
        → cancel_order s r quantity k ≡ some k'
        → MarketStep k k'
    replaced :
        (s r new_order_id new_price : ℕ) (b : MapOrderBook) (w : OrderWrapper)
        → RestsIn s r b w k
        → ((r == new_order_id) ≡ false → find_order new_order_id b ≡ none)
        → replace_order s r new_order_id new_price k ≡ some k'
        → MarketStep k k'
    executed :
        (s r quantity price : ℕ) (b : MapOrderBook) (w : OrderWrapper)
        → RestsIn s r b w k
        → execute_order s r quantity price k ≡ some k'
        → MarketStep k k'
    executed_at_own_price :
        (s r quantity : ℕ) (b : MapOrderBook) (w : OrderWrapper)
        → RestsIn s r b w k
        → execute_order_at_own_price s r quantity k ≡ some k'
        → MarketStep k k'

  pub data MarketReach : Market → Type 0 where
    opened : MarketReach new_market
    stepped : {k k' : Market} → MarketReach k → MarketStep k k' → MarketReach k'

  -- Symbols and books go together, and every book is at rest.
  pub record IsOrderly (k : Market) : Type 0 where
    pub paired : IsPaired k
    pub books : (s : ℕ) (b : MapOrderBook) → book_of s k ≡ some b → IsAtRest b

  module _ (s : ℕ) (run : MapOrderBook → Option MapOrderBook) (k k' : Market) (b : MapOrderBook)
      (v : IsOrderly k) (here : book_of s k ≡ some b)
      (does : (b' : MapOrderBook)
        → run (record b { events = k.orderbook_handler.handled }) ≡ some b'
        → BookStep (record b { events = k.orderbook_handler.handled }) b') where
    -- An operation on the book of one symbol.
    on_book-IsOrderly : handle (on_book s run) k ≡ some k' → IsOrderly k'
    on_book-IsOrderly e =
        let (h', ran, made) = >>=-eq-some (on_book s run k.orderbook_handler) _ e in
        let (book, book', there, ran', after, told, others) =
          on_book-apart s run k.orderbook_handler h' ran in
        let same : book ≡ b = cc in
        let lent : MapOrderBook = record b { events = k.orderbook_handler.handled } in
        let step : BookStep lent book' = does book' (
          subst (λ x. run (record x { events = k.orderbook_handler.handled }) ≡ some book') same
            ran') in
        let sound =
          reprice-IsSound b k.orderbook_handler.handled b.last_traded_price (v.books s b here).0 in
        let rested = BookStep-IsAtRest lent book' sound step in
        let made' : record k { orderbook_handler = h' } ≡ k' = cc in
        subst IsOrderly made' (record {
          paired = λ j. ground (arith, v.paired j, others j, there, after);
          books = λ j b' e'. elim (Bool-cases (s == j)) [
            | inl eq ↦
                let is : book' ≡ b' = ground (arith, eq, e', after) in subst IsAtRest is rested
            | inr apart ↦ v.books j b' (sym (others j apart) ∙ e')
          ];
        })

  bookless :
      (s j : ℕ) (k : Market) (b : MapOrderBook)
      → has_symbol s k ≡ false
      → IsPaired k
      → (s == j) ≡ true
      → book_of j k ≡ some b
      → ⊥
  unfolding has_symbol
  bookless s j k b unknown paired eq e = ground (arith, unknown, paired j, eq, e)

  module _ (k k' : Market) (v : IsOrderly k) where
    MarketStep-IsOrderly : MarketStep k k' → IsOrderly k'
    unfolding add_order delete_order cancel_order replace_order execute_order
        execute_order_at_own_price BookHandler.add_order BookHandler.delete_order
        BookHandler.cancel_order BookHandler.replace_order BookHandler.execute_order
        BookHandler.execute_order_at_own_price
    MarketStep-IsOrderly (MarketStep.symbol_added s name unknown run) =
        let (k₁, run', l) = add_symbol-Listed s name k v.paired unknown in
        let same : k₁ ≡ k' = cc in
        subst IsOrderly same (record {
          paired = l.paired;
          books = λ j b e. elim (Bool-cases (s == j)) [
            | inl eq ↦
                let is : new_book s ≡ b = ground (arith, eq, e, l.fresh) in
                subst IsAtRest is (BookReach-IsAtRest s (new_book s) BookReach.opened)
            | inr apart ↦ v.books j b (sym (l.other_books j apart) ∙ e)
          ];
        })
    MarketStep-IsOrderly (MarketStep.symbol_deleted s symbol known run) =
        let (k₁, run', d) = delete_symbol-Delisted s symbol k v.paired known in
        let same : k₁ ≡ k' = cc in
        subst IsOrderly same (record {
          paired = d.paired;
          books = λ j b e. elim (Bool-cases (s == j)) [
            | inl eq ↦ absurd (bookless s j k₁ b d.unknown d.paired eq e)
            | inr apart ↦ v.books j b (sym (d.other_books j apart) ∙ e)
          ];
        })
    MarketStep-IsOrderly (MarketStep.added o b here new run) =
        on_book-IsOrderly o.symbol_id (Operations.add_order o) k k' b v here
          (λ b' e.
            BookStep.added o
              (record {
                symbol = new.symbol;
                free = new.free;
                unfilled = new.unfilled;
                room = new.room;
              })
              e)
          run
    MarketStep-IsOrderly (MarketStep.deleted s r b w here run) =
        on_book-IsOrderly s _ k k' b v here.book (λ b' e. BookStep.deleted r w here.order e) run
    MarketStep-IsOrderly (MarketStep.cancelled s r quantity b w here le run) =
        on_book-IsOrderly s _ k k' b v here.book
          (λ b' e. BookStep.cancelled r quantity w here.order le (guarded (ltb 0 quantity) e)) run
    MarketStep-IsOrderly (MarketStep.replaced s r new_order_id new_price b w here free run) =
        on_book-IsOrderly s _ k k' b v here.book
          (λ b' e.
            BookStep.replaced r new_order_id new_price w here.order free
              (guarded_twice (ltb 0 new_order_id) (ltb 0 new_price) e))
          run
    MarketStep-IsOrderly (MarketStep.executed s r quantity price b w here run) =
        on_book-IsOrderly s _ k k' b v here.book
          (λ b' e.
            BookStep.executed r quantity price w here.order
              (guarded_twice (ltb 0 quantity) (ltb 0 price) e))
          run
    MarketStep-IsOrderly (MarketStep.executed_at_own_price s r quantity b w here run) =
        on_book-IsOrderly s _ k k' b v here.book
          (λ b' e.
            BookStep.executed_at_own_price r quantity w here.order
              (guarded_twice (ltb 0 r) (ltb 0 quantity) e))
          run

  new_market-IsOrderly : IsOrderly new_market
  new_market-IsOrderly = record {
    paired = λ s. rw (C.find-empty_map {V = Symbol} s, C.find-empty_map {V = MapOrderBook} s) refl;
    books = λ s b e. absurd (let none_there = C.find-empty_map {V = MapOrderBook} s in cc);
  }

  -- In every market that a client can reach from a new one by its operations, in any order, a symbol
  -- is known exactly if it has a book, every book is sound, and the last traded price of a book
  -- reaches none of its stop orders and none of its trailing stop orders of the ask side. A symbol is
  -- added if it is unknown and deleted if it is known; the operations on orders are on a book of the
  -- market and on its orders; a new order is of the book's symbol, is not filled, has a free ID and a
  -- quantity that still fits 64 bits with the volume of the book; a replacement has a free ID or the
  -- order's own; and no more is cancelled than the order has open.
  pub MarketReach-IsOrderly : (k : Market) → MarketReach k → IsOrderly k
  MarketReach-IsOrderly k MarketReach.opened = new_market-IsOrderly
  MarketReach-IsOrderly k' (MarketReach.stepped {k} before step) =
      MarketStep-IsOrderly k k' (MarketReach-IsOrderly k before) step
