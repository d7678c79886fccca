-- ===== src/Market/Calls.antt =====
-- Calls on orders, and how a market hands them to the book of their symbol.
use rapid_trader.Base.{
  ℕ, Bool, true, false, ◌&&◌, ◌≡◌, refl, ◌∙◌, Option, some, ◌==◌, ltb, arith, ◌>>◌, guard,
}
use rapid_trader.BookHandler
use rapid_trader.BookHandler.{OrderBookHandler, find_book, on_book}
use rapid_trader.Containers.{Containers}
use rapid_trader.Market.{
  Market, add_order, delete_order, cancel_order, replace_order, execute_order,
  execute_order_at_own_price, handle,
}
use rapid_trader.Market.Symbols.{book_of}
use rapid_trader.Order.{Order}
use rapid_trader.OrderBook.{MapOrderBook}
use rapid_trader.OrderBook.Operations

-- A call on the orders of a symbol, with the parameters of the operation.
pub data OrderCall : Type 0 where
  add : Order → OrderCall
  delete : ℕ → ℕ → OrderCall
  cancel : ℕ → ℕ → ℕ → OrderCall
  replace execute : ℕ → ℕ → ℕ → ℕ → OrderCall
  execute_at_own_price : ℕ → ℕ → ℕ → OrderCall

abbrev pub symbol_of : OrderCall → ℕ
symbol_of (OrderCall.add o) = o.symbol_id
symbol_of (OrderCall.delete s r) = s
symbol_of (OrderCall.cancel s r q) = s
symbol_of (OrderCall.replace s r n p) = s
symbol_of (OrderCall.execute s r q p) = s
symbol_of (OrderCall.execute_at_own_price s r q) = s

-- The parameters that a handler requires to be positive are.
abbrev pub is_allowed : OrderCall → Bool
is_allowed (OrderCall.add o) = true
is_allowed (OrderCall.delete s r) = true
is_allowed (OrderCall.cancel s r q) = ltb 0 q
is_allowed (OrderCall.replace s r n p) = ltb 0 n && ltb 0 p
is_allowed (OrderCall.execute s r q p) = ltb 0 q && ltb 0 p
is_allowed (OrderCall.execute_at_own_price s r q) = ltb 0 r && ltb 0 q

-- Two requirements that are met guard nothing.
allowed : {A : Type 0} {x : Option A} (c d : Bool) → (c && d) ≡ true → (guard c >> guard d >> x) ≡ x
allowed true true e = refl
allowed true false e = cc
allowed false d e = cc

module _ ⦃C : Containers⦄ where
  abbrev pub by_market : OrderCall → Market → Option Market
  by_market (OrderCall.add o) k = add_order o k
  by_market (OrderCall.delete s r) k = delete_order s r k
  by_market (OrderCall.cancel s r q) k = cancel_order s r q k
  by_market (OrderCall.replace s r n p) k = replace_order s r n p k
  by_market (OrderCall.execute s r q p) k = execute_order s r q p k
  by_market (OrderCall.execute_at_own_price s r q) k = execute_order_at_own_price s r q k

  abbrev pub by_book : OrderCall → MapOrderBook → Option MapOrderBook
  by_book (OrderCall.add o) b = Operations.add_order o b
  by_book (OrderCall.delete s r) b = Operations.delete_order r b
  by_book (OrderCall.cancel s r q) b = Operations.cancel_order r q b
  by_book (OrderCall.replace s r n p) b = Operations.replace_order r n p b
  by_book (OrderCall.execute s r q p) b = Operations.execute_order r q p b
  by_book (OrderCall.execute_at_own_price s r q) b = Operations.execute_order_at_own_price r q b

  -- The market `k'` is `k` with the book `b'` for the symbol `s`.
  pub record Handed (s : ℕ) (b' : MapOrderBook) (k k' : Market) : Type 0 where
    pub own_book : book_of s k' ≡ some b'
    pub other_books : (j : ℕ) → (s == j) ≡ false → book_of j k' ≡ book_of j k
    pub handled : k'.orderbook_handler.handled ≡ b'.events
    pub symbols : k'.id_to_symbol ≡ k.id_to_symbol

  module _ (k : Market) (b b' : MapOrderBook) where
    abbrev lent : MapOrderBook
    lent = record b { events = k.orderbook_handler.handled }

    abbrev handed : ℕ → Market
    handed s = record k {
      orderbook_handler = record {
        id_to_book = C.assign s b' k.orderbook_handler.id_to_book;
        handled = b'.events;
      };
    }

    handed-Handed : (s : ℕ) → book_of s k ≡ some b → Handed s b' k (handed s)
    handed-Handed s here = record {
      own_book = ground (arith, C.find-assign s s b' k.orderbook_handler.id_to_book, here);
      other_books =
          λ j apart. ground (arith, C.find-assign j s b' k.orderbook_handler.id_to_book, apart);
      handled = refl;
      symbols = refl;
    }

    on_book-handed :
        (s : ℕ) (run : MapOrderBook → Option MapOrderBook)
        → book_of s k ≡ some b
        → run lent ≡ some b'
        → handle (on_book s run) k ≡ some (handed s)
    unfolding on_book
    on_book-handed s run here ran = rw (here, ran) refl

    by_market-handed :
        (c : OrderCall)
        → book_of (symbol_of c) k ≡ some b
        → is_allowed c ≡ true
        → by_book c lent ≡ some b'
        → by_market c k ≡ some (handed (symbol_of c))
    unfolding add_order delete_order cancel_order replace_order execute_order
        execute_order_at_own_price BookHandler.add_order BookHandler.delete_order
        BookHandler.cancel_order BookHandler.replace_order BookHandler.execute_order
        BookHandler.execute_order_at_own_price
    by_market-handed (OrderCall.add o) here ok ran =
        on_book-handed o.symbol_id (Operations.add_order o) here ran
    by_market-handed (OrderCall.delete s r) here ok ran =
        on_book-handed s (Operations.delete_order r) here ran
    by_market-handed (OrderCall.cancel s r q) here ok ran = on_book-handed s _ here (rw ok ran)
    by_market-handed (OrderCall.replace s r n p) here ok ran =
        on_book-handed s _ here (allowed (ltb 0 n) (ltb 0 p) ok ∙ ran)
    by_market-handed (OrderCall.execute s r q p) here ok ran =
        on_book-handed s _ here (allowed (ltb 0 q) (ltb 0 p) ok ∙ ran)
    by_market-handed (OrderCall.execute_at_own_price s r q) here ok ran =
        on_book-handed s _ here (allowed (ltb 0 r) (ltb 0 q) ok ∙ ran)

  -- Each of the six operations of a market on orders, with positive parameters where the handler
  -- requires them, returns if the operation of the same name returns on the book of its symbol, which
  -- is lent the events so far: that book is replaced by the result, the events are those of the
  -- result, and the books of all other symbols and the symbols are as they were.
  pub by_market-Handed :
      (c : OrderCall) (k : Market) (b b' : MapOrderBook)
      → book_of (symbol_of c) k ≡ some b
      → is_allowed c ≡ true
      → by_book c (record b { events = k.orderbook_handler.handled }) ≡ some b'
      → (k' : Market) × (by_market c k ≡ some k') × Handed (symbol_of c) b' k k'
  by_market-Handed c k b b' here ok ran = (
    handed k b b' (symbol_of c),
    by_market-handed k b b' c here ok ran,
    handed-Handed k b b' (symbol_of c) here,
  )
