-- ===== src/OrderBook/Matching/Round.antt =====
-- One round of the loop of `match` from a book that satisfies the invariant.
use rapid_trader.Base.{
  ℕ, ◌+◌, ◌≡◌, refl, sym, ap, ◌∙◌, true, false, some, ◌==◌, ◌>>=◌, if◌then◌else◌, arith, inl, inr,
  Bool-cases, u64_mod, ◌<◌,
}
use rapid_trader.Containers.{Containers, assigned}
use rapid_trader.Level
use rapid_trader.Level.{Level, refs}
use rapid_trader.Order.{Order, is_filled, execute}
use rapid_trader.OrderBook.{
  MapOrderBook, LevelMap, LevelIterator, OrderWrapper, levels, level_at, find_order, refs_count,
}
use rapid_trader.OrderBook.Maps.{book_volume, level_volume-le, same_it, same_map, same_it_refl}
use rapid_trader.OrderBook.Invariant.Deletion.{removed, delete_order-removed}
use rapid_trader.OrderBook.Storage.{delete_order}
use rapid_trader.OrderBook.Invariant.{IsLinked, reprice-IsLinked}
use rapid_trader.OrderBook.Invariant.Written.{
  Reduces, lowered, written, open-le-volume, reduce_volume-lowered, written-IsLinked,
  book_volume-written, find-written, level_at-written, levels-written, refs_count-written,
}
use rapid_trader.OrderBook.Matching.{opposite, best_opposite, settle, match_step}
use rapid_trader.OrderBook.Matching.Trade.{
  traded, after_trade, execute_against-trade, best_level, execute-Reduces,
}

module _ ⦃C : Containers⦄ {b : MapOrderBook} (v : IsLinked b) (o : Order) {p : ℕ} {l : Level}
    (best : best_opposite o b ≡ some (p, l)) {r : ℕ} {w : OrderWrapper}
    (front : Level.front l ≡ some r) (here : find_order r b ≡ some w)
    (is : w.level_it ≡ record { map = opposite o; key = p }) where
  abbrev pub q : ℕ
  q = traded o w.order

  abbrev pub resting : Order
  resting = execute w.order.price q w.order

  abbrev pub entry : OrderWrapper
  entry = record w { order = resting }

  pub there : level_at w.level_it b ≡ some l
  there = rw is (best_level v o best)

  -- The book once the trade is booked, before the resting order goes.
  pub taken : MapOrderBook
  taken = written q r entry l (after_trade o w.order b)

  pub resting-le : w.order.open_quantity < u64_mod
  resting-le =
      omega (arith, open-le-volume v here there, level_volume-le w.level_it b l there, v.bounded)

  pub entry-Reduces : Reduces q w entry
  entry-Reduces = execute-Reduces w w.order.price q (omega arith) resting-le

  pub settle-taken :
      settle r w w.level_it (execute w.order.price q o, resting, after_trade o w.order b) ≡ (
        (if is_filled resting then delete_order resting.id true taken else some taken) >>= λ b'.
        some (execute w.order.price q o, b'))
  unfolding settle taken execute
  settle-taken = rw (there, reduce_volume-lowered v here there entry-Reduces)

  pub match_step-taken : match_step o p l b ≡ (
      (if is_filled resting then delete_order resting.id true taken else some taken) >>= λ b'.
      some (execute w.order.price q o, b'))
  unfolding match_step taken execute
  match_step-taken =
      rw (front, here, execute_against-trade)
        (ap (λ it. settle r w it (execute w.order.price q o, resting, after_trade o w.order b))
            (sym is)
          ∙ settle-taken)

  pub traded_book-IsLinked : IsLinked (after_trade o w.order b)
  traded_book-IsLinked = reprice-IsLinked _ _ _ _ v

  pub taken-IsLinked : IsLinked taken
  unfolding taken
  taken-IsLinked = written-IsLinked traded_book-IsLinked here there entry-Reduces

  pub taken-volume : book_volume taken + q ≡ book_volume b
  unfolding taken
  taken-volume = book_volume-written traded_book-IsLinked here there entry-Reduces

  pub find-taken : (j : ℕ) → find_order j taken ≡ (if r == j then some entry else find_order j b)
  unfolding taken
  find-taken = find-written traded_book-IsLinked here there entry-Reduces

  pub level_at-taken :
      (it : LevelIterator)
      → level_at it taken
        ≡ (if same_it w.level_it it then assigned (lowered q l) (level_at it b) else level_at it b)
  unfolding taken
  level_at-taken = level_at-written traded_book-IsLinked here there entry-Reduces

  pub levels-taken :
      (m : LevelMap) → same_map w.level_it.map m ≡ false → levels m taken ≡ levels m b
  unfolding taken
  levels-taken = levels-written traded_book-IsLinked here there entry-Reduces

  pub refs_count-taken : (m : LevelMap) → refs_count (levels m taken) ≡ refs_count (levels m b)
  unfolding taken
  refs_count-taken = refs_count-written traded_book-IsLinked here there entry-Reduces

  pub taken-last : taken.last_traded_price ≡ w.order.price
  unfolding taken
  taken-last = refl

  pub taken-symbol : taken.symbol_id ≡ b.symbol_id
  unfolding taken
  taken-symbol = refl

  pub taken_here : find_order r taken ≡ some entry
  taken_here = ground (arith, find-taken r)

  pub taken_there : level_at w.level_it taken ≡ some (lowered q l)
  taken_there = ground (arith, level_at-taken w.level_it, there, same_it_refl w.level_it)

  -- The book after the round.
  pub finished : MapOrderBook
  finished = if is_filled resting then removed true r entry (lowered q l) taken else taken

  pub resting-id : resting.id ≡ r
  unfolding execute
  resting-id = (v.linked.order_fits r w here).own_id

  pub deleted : delete_order resting.id true taken ≡ some (removed true r entry (lowered q l) taken)
  deleted =
      ap (λ x. delete_order x true taken) resting-id
      ∙ delete_order-removed taken true taken_here taken_there
          (taken-IsLinked.linked.order_fits r entry taken_here).own_map

  pub match_step-finished : match_step o p l b ≡ some (execute w.order.price q o, finished)
  unfolding finished
  match_step-finished =
      match_step-taken
      ∙ elim (Bool-cases (is_filled resting)) [ inl e ↦ rw e (rw deleted) | inr e ↦ rw e ]

  pub finished_gone : is_filled resting ≡ true → finished ≡ removed true r entry (lowered q l) taken
  unfolding finished
  finished_gone e = rw e

  pub finished-taken : is_filled resting ≡ false → finished ≡ taken
  unfolding finished
  finished-taken e = rw e
