-- ===== src/OrderBook/Invariant/Placed.antt =====
-- The book after an insertion satisfies the invariant, and has gained one order and its quantity.
pub mod Shelved
use rapid_trader.Base.{
  ℕ, ◌+◌, ◌≡◌, refl, ap, ◌∙◌, false, Option, none, some, List, [], ◌∷◌, ◌++◌, ◌==◌, if◌then◌else◌,
  arith, u64_mod, add64, ◌<◌, ◌≤◌,
}
use rapid_trader.Containers.{Containers}
use rapid_trader.Level
use rapid_trader.Level.{Level, refs, size, new_level}
use rapid_trader.Order.{Order}
use rapid_trader.PriceMap.{get, put, emplace, Ascending}
use rapid_trader.PriceMap.Laws.{get-put, put-Ascending, emplace-Ascending}
use rapid_trader.OrderBook.{
  MapOrderBook, LevelMap, LevelIterator, levels, level_at, find_order, level_sum,
}
use rapid_trader.OrderBook.Maps.{
  same_it, same_map, same_map→eq, level_at-set_levels, levels-set_levels, set_levels-IsAscending,
  book_sum, book_sum-set_levels, level_sum-put, level_sum-emplace, book_volume, level_volume,
  level_volume-le,
}
use rapid_trader.OrderBook.Storage.{insert_at, side_of}
use rapid_trader.OrderBook.Linked.{refs_of}
use rapid_trader.OrderBook.Linked.Add.{Adds, add-Linked, volume_of}
use rapid_trader.OrderBook.Invariant.{IsLinked}
use rapid_trader.OrderBook.Invariant.Insertion.{
  IsFiled, target, target_of, target-side, target-symbol, target-accepts, get-made, wrapper, placed,
  insert_at-placed,
}

module _ ⦃C : Containers⦄ {b : MapOrderBook} (v : IsLinked b) {it : LevelIterator} {o : Order}
    (f : IsFiled it o b) (room : book_volume b + o.open_quantity < u64_mod) where
  -- The level with the order at its back.
  abbrev grown : Level
  grown = record (target it o b) {
    volume = add64 (target it o b).volume o.open_quantity;
    orders = C.push_back o.id (target it o b).orders;
  }

  add_order-grown : Level.add_order o (target it o b) ≡ some grown
  unfolding Level.add_order
  add_order-grown = rw ((target-accepts v f).0, (target-accepts v f).1)

  made : List (ℕ × Level)
  made = emplace it.key (new_level it.key (side_of o) b.symbol_id) (levels it.map b)

  shelf : List (ℕ × Level)
  unfolding made
  shelf = put it.key grown made

  get-shelf : (k : ℕ) → get k shelf ≡ (if it.key == k then some grown else get k (levels it.map b))
  unfolding shelf
  get-shelf k = ground (arith, get-put k it.key grown made, get-made v f k)

  shelf-Ascending : Ascending 0 shelf
  unfolding shelf
  shelf-Ascending = put-Ascending it.key 0 grown made (
      emplace-Ascending it.key 0 (new_level it.key (side_of o) b.symbol_id) (levels it.map b)
        (omega arith) (v.ascending it.map))

  level_sum-shelf :
      (g : Level → ℕ)
      → g (new_level it.key (side_of o) b.symbol_id) ≡ 0
      → level_sum g shelf + g (target it o b) ≡ level_sum g (levels it.map b) + g grown
  unfolding shelf
  level_sum-shelf g z = omega (
    arith,
    level_sum-put g it.key made (target it o b) grown (ground (arith, get-made v f it.key)),
    level_sum-emplace g it.key (new_level it.key (side_of o) b.symbol_id) (levels it.map b) z,
  )

  target_of-refs :
      (found : Option Level) → refs (target_of it.key o b.symbol_id found) ≡ refs_of found
  unfolding new_level
  target_of-refs none = C.to_list-no_refs
  target_of-refs (some l) = refl

  target_of-volume :
      (found : Option Level) → (target_of it.key o b.symbol_id found).volume ≡ volume_of found
  unfolding new_level
  target_of-volume none = refl
  target_of-volume (some l) = refl

  volume_of-le : (found : Option Level) → level_at it b ≡ found → volume_of found ≤ book_volume b
  volume_of-le none e = omega arith
  volume_of-le (some l) e = level_volume-le it b l e

  grown_volume : grown.volume ≡ volume_of (level_at it b) + o.open_quantity
  grown_volume =
      omega (arith, target_of-volume (level_at it b), volume_of-le (level_at it b) refl, room)

  level_at-shelf :
      (jt : LevelIterator) (d : MapOrderBook)
      → level_at jt d ≡ (if same_map it.map jt.map then get jt.key shelf else level_at jt b)
      → level_at jt d ≡ (if same_it it jt then some grown else level_at jt b)
  level_at-shelf jt d e = ground (arith, get-shelf jt.key, same_map→eq it.map jt.map)

  level_at-placed :
      (jt : LevelIterator)
      → level_at jt (placed it o grown b) ≡ (if same_it it jt then some grown else level_at jt b)
  unfolding placed shelf made
  level_at-placed jt =
      level_at-shelf jt (placed it o grown b) (level_at-set_levels jt it.map shelf b)

  levels-placed :
      (m : LevelMap) → same_map it.map m ≡ false → levels m (placed it o grown b) ≡ levels m b
  unfolding placed shelf made
  levels-placed m e = levels-set_levels m it.map shelf b ∙ rw e

  find-placed :
      (j : ℕ)
      → find_order j (placed it o grown b)
        ≡ (if o.id == j then some (wrapper it o) else find_order j b)
  unfolding placed
  find-placed j = ground (arith, C.find-emplace j o.id (wrapper it o) b.orders, f.free)

  placed-Adds :
      Adds
        (λ j. find_order j b)
        (λ j. find_order j (placed it o grown b))
        (λ jt. level_at jt b)
        (λ jt. level_at jt (placed it o grown b))
        b.symbol_id
        o.id
        (wrapper it o)
        grown
  placed-Adds = record {
    free = f.free;
    fnd-add = find-placed;
    lev-add = level_at-placed;
    fits = record {
      own_id = refl;
      own_symbol = f.symbol;
      own_map = f.own_map;
      own_key = f.own_key;
    };
    more_refs =
        C.to_list-push_back o.id (target it o b).orders
        ∙ ap (λ x. x ++ o.id ∷ []) (target_of-refs (level_at it b));
    level_price = target_of-price (level_at it b) refl;
    level_side = target-side v f;
    level_symbol = target-symbol v f;
    grown = grown_volume;
  }
    where
      target_of-price :
          (found : Option Level)
          → level_at it b ≡ found
          → (target_of it.key o b.symbol_id found).price ≡ it.key
      target_of-price none e = unfold new_level in refl
      target_of-price (some l) e = (v.linked.level_fits it l e).own_price

  pub book_sum-placed :
      (g : Level → ℕ)
      → g (new_level it.key (side_of o) b.symbol_id) ≡ 0
      → book_sum g (placed it o grown b) + g (target it o b) ≡ book_sum g b + g grown
  unfolding placed shelf made
  book_sum-placed g z = omega (arith, level_sum-shelf g z, book_sum-set_levels g it.map shelf b)

  pub book_volume-placed : book_volume (placed it o grown b) ≡ book_volume b + o.open_quantity
  unfolding new_level
  book_volume-placed =
      omega
        (arith, book_sum-placed level_volume refl, grown_volume, target_of-volume (level_at it b))

  pub placed-IsLinked : IsLinked (placed it o grown b)
  unfolding placed shelf made
  placed-IsLinked = record {
    ascending = set_levels-IsAscending it.map shelf b v.ascending shelf-Ascending;
    linked = add-Linked v.linked placed-Adds;
    bounded = omega (arith, book_volume-placed, room);
  }

-- What the insertion of `o` at `it` does to the book.
pub record Inserted ⦃C : Containers⦄ (it : LevelIterator) (o : Order) (b b' : MapOrderBook)
    : Type 0 where
  pub linked : IsLinked b'
  pub entries :
      (j : ℕ) → find_order j b' ≡ (if o.id == j then some (wrapper it o) else find_order j b)
  pub elsewhere : (jt : LevelIterator) → same_it it jt ≡ false → level_at jt b' ≡ level_at jt b
  pub others : (m : LevelMap) → same_map it.map m ≡ false → levels m b' ≡ levels m b
  pub volume : book_volume b' ≡ book_volume b + o.open_quantity
  pub same_last : b'.last_traded_price ≡ b.last_traded_price
  pub same_symbol : b'.symbol_id ≡ b.symbol_id
  pub same_events : b'.events ≡ b.events

-- An order whose ID is free is inserted where it is filed, if its quantity still fits: the
-- invariant is kept, the order is found under its ID, every other entry and every other level is
-- as it was, and the volume of the book grows by the order's open quantity.
pub insert_at-Inserted :
    ⦃C : Containers⦄ (b : MapOrderBook) (it : LevelIterator) (o : Order)
    → IsLinked b
    → IsFiled it o b
    → book_volume b + o.open_quantity < u64_mod
    → (b' : MapOrderBook) × (insert_at it o b ≡ some b') × Inserted it o b b'
unfolding placed
insert_at-Inserted b it o v f room = (
  placed it o (grown v f room) b,
  insert_at-placed v f (grown v f room) (add_order-grown v f room),
  record {
    linked = placed-IsLinked v f room;
    entries = find-placed v f room;
    others = levels-placed v f room;
    elsewhere = λ jt n. level_at-placed v f room jt ∙ rw n;
    volume = book_volume-placed v f room;
    same_last = refl;
    same_symbol = refl;
    same_events = refl;
  },
)
