-- ===== src/OrderBook/Invariant/Fresh.antt =====
-- The book that the constructor makes satisfies the invariant.
use rapid_trader.Base.{ℕ, ◌≡◌, refl, none, arith}
use rapid_trader.Containers.{Containers}
use rapid_trader.OrderBook.{LevelMap, LevelIterator, levels, new_book, find_order, level_at}
use rapid_trader.OrderBook.Linked.{Linked}
use rapid_trader.OrderBook.Invariant.{IsLinked, IsLive}
use rapid_trader.PriceMap.{get}
use rapid_trader.OrderBook.Matching.Uncrossed.{ask_at, IsUncrossed}

module _ ⦃C : Containers⦄ (symbol : ℕ) where
  find-new_book : (r : ℕ) → find_order r (new_book symbol) ≡ none
  unfolding new_book
  find-new_book r = C.find-empty_map r

  get-nothing : (k : ℕ) (m : LevelMap) → get k (levels m (new_book symbol)) ≡ none
  unfolding new_book get
  get-nothing k LevelMap.ask = refl
  get-nothing k LevelMap.bid = refl
  get-nothing k LevelMap.stop_ask = refl
  get-nothing k LevelMap.stop_bid = refl
  get-nothing k LevelMap.trailing_stop_ask = refl
  get-nothing k LevelMap.trailing_stop_bid = refl

  level_at-new_book : (it : LevelIterator) → level_at it (new_book symbol) ≡ none
  level_at-new_book it = get-nothing it.key it.map

  new_book-Linked :
      Linked (λ r. find_order r (new_book symbol)) (λ it. level_at it (new_book symbol)) symbol
  new_book-Linked = record {
    listed = λ r it h. ground (arith, level_at-new_book it);
    located = λ r it h. ground (arith, find-new_book r);
    order_fits = λ r w e. absurd (ground (arith, find-new_book r));
    level_fits = λ it l e. absurd (ground (arith, level_at-new_book it));
  }

  pub new_book-IsLinked : IsLinked (new_book symbol)
  unfolding new_book
  new_book-IsLinked = record {
    ascending = λ m. ground arith;
    linked = new_book-Linked;
    bounded = omega arith;
  }

  pub new_book-IsLive : IsLive (new_book symbol)
  new_book-IsLive r w e = absurd (ground (arith, find-new_book r))

  pub new_book-IsUncrossed : IsUncrossed (new_book symbol)
  new_book-IsUncrossed p p' l l' a d = absurd (ground (arith, level_at-new_book (ask_at p)))

  -- The constructor's book satisfies the invariant, holds no filled order, is not crossed and
  -- finds no order.
  pub new_book-Opens :
      IsLinked (new_book symbol)
      × IsLive (new_book symbol)
      × IsUncrossed (new_book symbol)
      × ((r : ℕ) → find_order r (new_book symbol) ≡ none)
  new_book-Opens = (new_book-IsLinked, new_book-IsLive, new_book-IsUncrossed, find-new_book)
