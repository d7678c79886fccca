-- ===== src/Market/Symbols.antt =====
-- Symbols and books go together, and the books of different symbols are apart.
use Prim.Native.String.{String}
use rapid_trader.Base.{
  ℕ, ◌≡◌, refl, sym, ap, ◌∙◌, true, false, Option, some, ◌∷◌, ◌==◌, if◌then◌else◌, arith,
  >>=-eq-some,
}
use rapid_trader.Containers.{Containers}
use rapid_trader.Event.{Event}
use rapid_trader.OrderBook.{MapOrderBook, new_book}
use rapid_trader.BookHandler.{
  OrderBookHandler, is_some, find_book, add_order_book, delete_order_book, on_book,
}
use rapid_trader.Market.{Market, Symbol, find_symbol, add_symbol, delete_symbol, has_symbol}

module _ ⦃C : Containers⦄ where
  abbrev pub book_of : ℕ → Market → Option MapOrderBook
  book_of s k = find_book s k.orderbook_handler

  -- A symbol is known exactly if it has a book.
  abbrev pub IsPaired : Market → Type 0
  IsPaired k = (s : ℕ) → is_some (find_symbol s k) ≡ is_some (book_of s k)

  -- What the addition of a new symbol makes.
  pub record Listed (s : ℕ) (name : String) (k k' : Market) : Type 0 where
    pub paired : IsPaired k'
    pub known : find_symbol s k' ≡ some (record { id = s; name = name })
    pub fresh : book_of s k' ≡ some (new_book s)
    pub other_symbols : (j : ℕ) → (s == j) ≡ false → find_symbol j k' ≡ find_symbol j k
    pub other_books : (j : ℕ) → (s == j) ≡ false → book_of j k' ≡ book_of j k

  abbrev symbol_of : ℕ → String → Symbol
  symbol_of s name = record { id = s; name = name }

  abbrev listed : ℕ → String → Market → Market
  listed s name k = record {
    orderbook_handler = record {
      id_to_book = C.emplace s (new_book s) k.orderbook_handler.id_to_book;
      handled = Event.symbol_added s name ∷ k.orderbook_handler.handled;
    };
    id_to_symbol = C.emplace s (symbol_of s name) k.id_to_symbol;
  }

  module _ (s : ℕ) (name : String) (k : Market) (paired : IsPaired k)
      (unknown : is_some (find_symbol s k) ≡ false) where
    find_symbol-listed :
        (j : ℕ)
        → find_symbol j (listed s name k)
          ≡ (if s == j then some (symbol_of s name) else find_symbol j k)
    find_symbol-listed j =
        ground (arith, C.find-emplace j s (symbol_of s name) k.id_to_symbol, unknown)

    book_of-listed :
        (j : ℕ) → book_of j (listed s name k) ≡ (if s == j then some (new_book s) else book_of j k)
    book_of-listed j =
        ground
          (arith, C.find-emplace j s (new_book s) k.orderbook_handler.id_to_book, paired s, unknown)

    listed-Listed : Listed s name k (listed s name k)
    listed-Listed = record {
      paired = λ j. ground (arith, find_symbol-listed j, book_of-listed j, paired j);
      known = ground (arith, find_symbol-listed s);
      fresh = ground (arith, book_of-listed s);
      other_symbols = λ j e. find_symbol-listed j ∙ rw e;
      other_books = λ j e. book_of-listed j ∙ rw e;
    }

    add_symbol-listed : add_symbol s name k ≡ some (listed s name k)
    unfolding add_symbol add_order_book
    add_symbol-listed =
        let none_there : is_some (book_of s k) ≡ false = sym (paired s) ∙ unknown in
        rw none_there refl

  -- Where a symbol has a book exactly if it is known, `addSymbol` on a new symbol succeeds: the
  -- symbol is known under its name and has an empty book, other symbols and books are as they
  -- were, and a symbol still has a book exactly if it is known.
  pub add_symbol-Listed :
      (s : ℕ) (name : String) (k : Market)
      → IsPaired k
      → has_symbol s k ≡ false
      → (k' : Market) × (add_symbol s name k ≡ some k') × Listed s name k k'
  unfolding has_symbol
  add_symbol-Listed s name k paired unknown = (
    listed s name k,
    add_symbol-listed s name k paired unknown,
    listed-Listed s name k paired unknown,
  )

  -- What the deletion of a symbol makes.
  pub record Delisted (s : ℕ) (k k' : Market) : Type 0 where
    pub paired : IsPaired k'
    pub unknown : has_symbol s k' ≡ false
    pub other_symbols : (j : ℕ) → (s == j) ≡ false → find_symbol j k' ≡ find_symbol j k
    pub other_books : (j : ℕ) → (s == j) ≡ false → book_of j k' ≡ book_of j k

  abbrev delisted : ℕ → String → Market → Market
  delisted s name k = record {
    orderbook_handler = record {
      id_to_book = C.erase s k.orderbook_handler.id_to_book;
      handled = Event.symbol_deleted s name ∷ k.orderbook_handler.handled;
    };
    id_to_symbol = C.erase s k.id_to_symbol;
  }

  module _ (s : ℕ) (k : Market) (paired : IsPaired k) {symbol : Symbol}
      (known : find_symbol s k ≡ some symbol) where
    delisted-Delisted : Delisted s k (delisted s symbol.name k)
    unfolding has_symbol
    delisted-Delisted = record {
      paired = λ j. ground (
        arith,
        C.find-erase j s k.id_to_symbol,
        C.find-erase j s k.orderbook_handler.id_to_book,
        paired j,
      );
      unknown = ground (arith, C.find-erase s s k.id_to_symbol);
      other_symbols = λ j e. C.find-erase j s k.id_to_symbol ∙ rw e;
      other_books = λ j e. C.find-erase j s k.orderbook_handler.id_to_book ∙ rw e;
    }

    delete_symbol-delisted : delete_symbol s k ≡ some (delisted s symbol.name k)
    unfolding delete_symbol delete_order_book
    delete_symbol-delisted =
        let there : is_some (book_of s k) ≡ true = sym (paired s) ∙ ap is_some known in
        rw (known, there) refl

  -- Where a symbol has a book exactly if it is known, `deleteSymbol` on a known symbol succeeds:
  -- the symbol is unknown, other symbols and books are as they were, and a symbol still has a
  -- book exactly if it is known.
  pub delete_symbol-Delisted :
      (s : ℕ) (symbol : Symbol) (k : Market)
      → IsPaired k
      → find_symbol s k ≡ some symbol
      → (k' : Market) × (delete_symbol s k ≡ some k') × Delisted s k k'
  delete_symbol-Delisted s symbol k paired known = (
    delisted s symbol.name k,
    delete_symbol-delisted s k paired known,
    delisted-Delisted s k paired known,
  )

  -- An operation on the book of one symbol runs on that book with all the events so far, keeps
  -- its result and its events, and leaves the books of the other symbols as they were.
  pub on_book-apart :
      (s : ℕ) (run : MapOrderBook → Option MapOrderBook) (h h' : OrderBookHandler)
      → on_book s run h ≡ some h'
      → (book : MapOrderBook) × (book' : MapOrderBook) × (find_book s h ≡ some book)
        × (run (record book { events = h.handled }) ≡ some book')
        × (find_book s h' ≡ some book')
        × (h'.handled ≡ book'.events)
        × ((j : ℕ) → (s == j) ≡ false → find_book j h' ≡ find_book j h)
  unfolding on_book
  on_book-apart s run h h' e =
      let (book, here, rest) = >>=-eq-some (find_book s h) _ e in
      let (book', ran, done) = >>=-eq-some (run (record book { events = h.handled })) _ rest in
      (
        book,
        book',
        here,
        ran,
        ground (arith, done, C.find-assign s s book' h.id_to_book, here),
        ground (arith, done),
        λ j apart. ground (arith, done, C.find-assign j s book' h.id_to_book, apart),
      )
