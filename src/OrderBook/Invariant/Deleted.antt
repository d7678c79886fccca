-- ===== src/OrderBook/Invariant/Deleted.antt =====
-- `deleteOrder` with its flag, as what it does to a book that satisfies the invariant.
use rapid_trader.Base.{
  ℕ, ◌+◌, ◌≡◌, refl, Bool, false, none, some, ◌==◌, if◌then◌else◌, arith, sym, ap, ◌∙◌, inl, inr,
  Bool-cases,
}
use rapid_trader.Containers.{Containers}
use rapid_trader.Level.{Level}
use rapid_trader.OrderBook.{
  MapOrderBook, LevelMap, LevelIterator, OrderWrapper, levels, level_at, find_order, refs_count,
}
use rapid_trader.OrderBook.Maps.{same_map, same_it, same_it→eq, book_volume}
use rapid_trader.OrderBook.Storage.{delete_order}
use rapid_trader.OrderBook.Invariant.{IsLinked}
use rapid_trader.OrderBook.Invariant.Deletion.{find_level, removed, delete_order-removed}
use rapid_trader.OrderBook.Invariant.Removed.{
  removed-IsLinked, book_volume-removed, level_at-removed, levels-removed, refs_count-removed,
}

-- What the deletion of the order `w` at `r` does to the book.
pub record Deleted ⦃C : Containers⦄ (r : ℕ) (w : OrderWrapper) (b b' : MapOrderBook) : Type 0 where
  pub linked : IsLinked b'
  pub entries : (j : ℕ) → find_order j b' ≡ (if r == j then none else find_order j b)
  pub volume : book_volume b' + w.order.open_quantity ≡ book_volume b
  pub refs_left : refs_count (levels w.level_it.map b') + 1 ≡ refs_count (levels w.level_it.map b)
  pub others : (m : LevelMap) → same_map w.level_it.map m ≡ false → levels m b' ≡ levels m b
  pub no_new :
      (it : LevelIterator) (l' : Level)
      → level_at it b' ≡ some l'
      → (l : Level) × (level_at it b ≡ some l)
  pub same_last : b'.last_traded_price ≡ b.last_traded_price
  pub same_symbol : b'.symbol_id ≡ b.symbol_id

module _ ⦃C : Containers⦄ where
  removed-no_new :
      {b : MapOrderBook} (v : IsLinked b) {r : ℕ} {w : OrderWrapper} {l : Level}
      (here : find_order r b ≡ some w) (there : level_at w.level_it b ≡ some l) (n : Bool)
      (it : LevelIterator) (l' : Level)
      → level_at it (removed n r w l b) ≡ some l'
      → (m : Level) × (level_at it b ≡ some m)
  removed-no_new {b} v {r} {w} {l} here there n it l' e =
      elim (Bool-cases (same_it w.level_it it)) [
        | inl same ↦ (l, ap (λ i. level_at i b) (sym (same_it→eq w.level_it it same)) ∙ there)
        | inr apart ↦ (l', ground (arith, level_at-removed v here there n it, apart, e))
      ]

  -- `deleteOrder` on an order of a book that satisfies the invariant succeeds: the invariant is
  -- kept, the order is gone and every other entry is as it was, the volume of the book falls by
  -- the order's open quantity, its map holds one reference less and the other maps are as they
  -- were, no level is new, and the last traded price is the same.
  pub delete_order-Deleted :
      (b : MapOrderBook) (r : ℕ) (w : OrderWrapper) (n : Bool)
      → IsLinked b
      → find_order r b ≡ some w
      → (b' : MapOrderBook) × (delete_order r n b ≡ some b') × Deleted r w b b'
  delete_order-Deleted b r w n v here =
      let (l, there) = find_level v here in
      (
        removed n r w l b,
        delete_order-removed b n here there (v.linked.order_fits r w here).own_map,
        record {
          linked = removed-IsLinked v here there n;
          entries = λ j. C.find-erase j r b.orders;
          volume = book_volume-removed v here there n;
          refs_left = refs_count-removed v here there n;
          others = levels-removed v here there n;
          no_new = removed-no_new v here there n;
          same_last = refl;
          same_symbol = refl;
        },
      )
