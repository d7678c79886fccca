-- ===== src/OrderBook/Invariant/Placed/Shelved.antt =====
-- The map of levels after an insertion.
use rapid_trader.Base.{◌+◌, ◌≡◌, ◌∙◌, some, u64_mod, ◌<◌, refl}
use rapid_trader.Containers.{Containers}
use rapid_trader.Level
use rapid_trader.Level.{Level, new_level}
use rapid_trader.Order.{Order}
use rapid_trader.PriceMap.{put, emplace}
use rapid_trader.OrderBook.{MapOrderBook, LevelIterator, levels}
use rapid_trader.OrderBook.Maps.{book_volume, levels-set_levels_self}
use rapid_trader.OrderBook.Storage.{side_of}
use rapid_trader.OrderBook.Invariant.{IsLinked}
use rapid_trader.OrderBook.Invariant.Insertion.{IsFiled, target, placed}
use rapid_trader.OrderBook.Invariant.Placed.{
  Inserted, grown, shelf, made, add_order-grown, placed-IsLinked, find-placed, levels-placed,
  level_at-placed, book_volume-placed,
}

module _ ⦃C : Containers⦄ where
  -- What an insertion leaves behind, with the level that the order came to.
  pub insert-Shelved :
      (b : MapOrderBook) (it : LevelIterator) (o : Order)
      → IsLinked b
      → IsFiled it o b
      → book_volume b + o.open_quantity < u64_mod
      → (b' : MapOrderBook) × Inserted it o b b'
        × (l : Level) × (Level.add_order o (target it o b) ≡ some l)
        × (levels it.map b'
            ≡ put it.key l
                (emplace it.key (new_level it.key (side_of o) b.symbol_id) (levels it.map b)))
  unfolding placed shelf made
  insert-Shelved b it o v f room = (
    placed it o (grown v f room) b,
    record {
      linked = placed-IsLinked v f room;
      entries = find-placed v f room;
      others = levels-placed v f room;
      elsewhere = λ jt n. level_at-placed v f room jt ∙ rw n;
      volume = book_volume-placed v f room;
      same_last = refl;
      same_symbol = refl;
      same_events = refl;
    },
    grown v f room,
    add_order-grown v f room,
    levels-set_levels_self it.map (shelf v f room) b,
  )
