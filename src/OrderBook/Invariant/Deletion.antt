-- ===== src/OrderBook/Invariant/Deletion.antt =====
-- `deleteOrder` with its flag keeps the invariant.
use rapid_trader.Base.{
  ℕ, ◌≡◌, sym, ap, ◌∙◌, Bool, true, false, some, List, if◌then◌else◌, has, inl, inr, Bool-cases,
  Option-cases,
}
use rapid_trader.Containers.{Containers}
use rapid_trader.Event.{Event}
use rapid_trader.Level
use rapid_trader.Level.{Level, refs, level_empty, size}
use rapid_trader.Order.{Order, is_ask}
use rapid_trader.PriceMap.{put, erase}
use rapid_trader.OrderBook.{
  MapOrderBook, LevelIterator, OrderWrapper, levels, set_levels, level_at, write_level, find_order,
  notify_if,
}
use rapid_trader.OrderBook.Maps.{levels-set_levels_self, set_levels-set_levels}
use rapid_trader.OrderBook.Storage.{delete_order, map_of, erase_level}
use rapid_trader.OrderBook.Linked.{it_of, refs_of}
use rapid_trader.OrderBook.Invariant.{IsLinked}

module _ ⦃C : Containers⦄ where
  -- The order of a located entry has a level.
  pub find_level :
      {b : MapOrderBook} (v : IsLinked b) {r : ℕ} {w : OrderWrapper}
      → find_order r b ≡ some w
      → (l : Level) × (level_at w.level_it b ≡ some l)
  find_level {b} v {r} {w} here = elim (Option-cases (level_at w.level_it b)) [
    | inl e ↦
        cc (sym (v.linked.located r w.level_it (ap it_of here)) ∙ ap (λ x. has r (refs_of x)) e)
    | inr found ↦ found
  ]

  -- The map of the level that the order leaves.
  abbrev pub left : Level → OrderWrapper → MapOrderBook → List (ℕ × Level)
  left l w b =
      let put_back = put w.level_it.key l (levels w.level_it.map b) in
      if level_empty l then erase w.level_it.key put_back else put_back

  pub left_empty :
      (l : Level) (w : OrderWrapper) (b : MapOrderBook)
      → level_empty l ≡ true
      → left l w b ≡ erase w.level_it.key (put w.level_it.key l (levels w.level_it.map b))
  left_empty l w b e = rw e

  pub left_full :
      (l : Level) (w : OrderWrapper) (b : MapOrderBook)
      → level_empty l ≡ false
      → left l w b ≡ put w.level_it.key l (levels w.level_it.map b)
  left_full l w b e = rw e

  -- The book without the entry at `r`, with another map of levels in place of the order's.
  abbrev pub shelved : Bool → ℕ → OrderWrapper → List (ℕ × Level) → MapOrderBook → MapOrderBook
  shelved n r w m b =
      record (set_levels w.level_it.map m (notify_if n (Event.order_deleted w.order) b)) {
        orders = C.erase r b.orders;
      }

  -- The book that is left when the order `w` at `r` leaves its level `l`.
  abbrev pub removed : Bool → ℕ → OrderWrapper → Level → MapOrderBook → MapOrderBook
  removed n r w l b = shelved n r w (left (Level.delete_order w.order l) w b) b

  erase_level-write_level :
      (o : Order) (it : LevelIterator) (l : Level) (b : MapOrderBook)
      → map_of o.type (is_ask o) ≡ some it.map
      → erase_level o it (write_level it l b)
        ≡ some (set_levels it.map (erase it.key (put it.key l (levels it.map b))) b)
  erase_level-write_level o it l b own_map =
      let old = put it.key l (levels it.map b) in
      rw own_map (
        ap some (
          ap (λ m. set_levels it.map (erase it.key m) (set_levels it.map old b))
            (levels-set_levels_self it.map old b)
          ∙ set_levels-set_levels it.map (erase it.key old) old b))

  pub delete_order-removed :
      (b : MapOrderBook) {r : ℕ} {w : OrderWrapper} {l : Level} (n : Bool)
      → find_order r b ≡ some w
      → level_at w.level_it b ≡ some l
      → map_of w.order.type (is_ask w.order) ≡ some w.level_it.map
      → delete_order r n b ≡ some (removed n r w l b)
  unfolding delete_order
  delete_order-removed b {r} {w} {l} n here there own_map =
      rw (here, there)
        (elim (Bool-cases (level_empty (Level.delete_order w.order l))) [
          | inl e ↦
              rw
                (
                  e,
                  erase_level-write_level w.order w.level_it (Level.delete_order w.order l)
                      (notify_if n (Event.order_deleted w.order) b) own_map,
                )
                (ap (λ m. some (shelved n r w m b)) (sym (left_empty _ w b e)))
          | inr e ↦ rw e (ap (λ m. some (shelved n r w m b)) (sym (left_full _ w b e)))
        ])
