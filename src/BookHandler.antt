-- ===== src/BookHandler.antt =====
-- include/matching/market/market.h and src/matching/market/market.cpp: `OrderBookHandler`, the books
-- of several symbols. All its books notify one event handler: the events so far are lent to the
-- book that runs. A failed assertion is `none`. The overload of `executeOrder` with no price has the
-- name `execute_order_at_own_price`.
use Prim.Native.String.{String}
use rapid_trader.Base.{
  ℕ, Bool, true, false, not, Option, none, some, List, [], ◌∷◌, ◌>>=◌, ◌>>◌, guard, ltb,
}
use rapid_trader.Containers.{Containers}
use rapid_trader.Event.{Event}
use rapid_trader.Order.{Order}
use rapid_trader.OrderBook.{MapOrderBook, new_book}
use rapid_trader.OrderBook.Operations

abbrev pub is_some : {A : Type 0} → Option A → Bool
is_some none = false
is_some (some a) = true

pub record OrderBookHandler ⦃C : Containers⦄ : Type 0 where
  pub id_to_book : C.Map MapOrderBook
  pub handled : List Event

module _ ⦃C : Containers⦄ where
  abbrev pub new_handler : OrderBookHandler
  new_handler = record { id_to_book = C.empty_map; handled = [] }

  abbrev pub find_book : ℕ → OrderBookHandler → Option MapOrderBook
  find_book symbol_id h = C.find symbol_id h.id_to_book

  unfoldable pub add_order_book : ℕ → String → OrderBookHandler → Option OrderBookHandler
  add_order_book symbol_id symbol_name h = do
    guard (not (is_some (find_book symbol_id h)))
    some (record {
      id_to_book = C.emplace symbol_id (new_book symbol_id) h.id_to_book;
      handled = Event.symbol_added symbol_id symbol_name ∷ h.handled;
    })

  unfoldable pub delete_order_book : ℕ → String → OrderBookHandler → Option OrderBookHandler
  delete_order_book symbol_id symbol_name h = do
    guard (is_some (find_book symbol_id h))
    some (record {
      id_to_book = C.erase symbol_id h.id_to_book;
      handled = Event.symbol_deleted symbol_id symbol_name ∷ h.handled;
    })

  -- An operation on the book of a symbol, which is asserted to exist.
  unfoldable pub on_book :
      ℕ → (MapOrderBook → Option MapOrderBook) → OrderBookHandler → Option OrderBookHandler
  on_book symbol_id run h = do
    book ← find_book symbol_id h
    book' ← run (record book { events = h.handled })
    some (record { id_to_book = C.assign symbol_id book' h.id_to_book; handled = book'.events })

  unfoldable pub add_order : Order → OrderBookHandler → Option OrderBookHandler
  add_order o h = on_book o.symbol_id (Operations.add_order o) h

  unfoldable pub delete_order : ℕ → ℕ → OrderBookHandler → Option OrderBookHandler
  delete_order symbol_id order_id h = on_book symbol_id (Operations.delete_order order_id) h

  unfoldable pub cancel_order : ℕ → ℕ → ℕ → OrderBookHandler → Option OrderBookHandler
  cancel_order symbol_id order_id cancelled_quantity h =
      on_book symbol_id
        (λ book.
          guard (ltb 0 cancelled_quantity)
          >> Operations.cancel_order order_id cancelled_quantity book)
        h

  unfoldable pub replace_order : ℕ → ℕ → ℕ → ℕ → OrderBookHandler → Option OrderBookHandler
  replace_order symbol_id order_id new_order_id new_price h =
      on_book symbol_id
        (λ book.
          guard (ltb 0 new_order_id)
          >> guard (ltb 0 new_price)
          >> Operations.replace_order order_id new_order_id new_price book)
        h

  unfoldable pub execute_order : ℕ → ℕ → ℕ → ℕ → OrderBookHandler → Option OrderBookHandler
  execute_order symbol_id order_id quantity price h =
      on_book symbol_id
        (λ book.
          guard (ltb 0 quantity)
          >> guard (ltb 0 price)
          >> Operations.execute_order order_id quantity price book)
        h

  unfoldable pub execute_order_at_own_price : ℕ → ℕ → ℕ → OrderBookHandler → Option OrderBookHandler
  execute_order_at_own_price symbol_id order_id quantity h =
      on_book symbol_id
        (λ book.
          guard (ltb 0 order_id)
          >> guard (ltb 0 quantity)
          >> Operations.execute_order_at_own_price order_id quantity book)
        h
