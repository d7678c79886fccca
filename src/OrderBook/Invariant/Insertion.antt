-- ===== src/OrderBook/Invariant/Insertion.antt =====
-- What the insertion of an order with a free ID computes.
use rapid_trader.Base.{
  ℕ, ◌≡◌, refl, ap, ◌∙◌, true, Option, none, some, List, ◌==◌, if◌then◌else◌, arith,
}
use rapid_trader.Containers.{Containers}
use rapid_trader.Level
use rapid_trader.Level.{Level, LevelSide, new_level, side_fits}
use rapid_trader.Order.{Order, OrderType, OrderSide, is_ask, side_is_ask}
use rapid_trader.PriceMap.{get, put, emplace}
use rapid_trader.PriceMap.Laws.{get-emplace}
use rapid_trader.OrderBook.{
  MapOrderBook, LevelMap, LevelIterator, OrderWrapper, levels, set_levels, level_at, find_order,
}
use rapid_trader.OrderBook.Maps.{levels-set_levels_self, write_level-set_levels}
use rapid_trader.OrderBook.Storage.{insert_at, map_of, side_of}
use rapid_trader.OrderBook.Linked.{key_of, side_of_map}
use rapid_trader.OrderBook.Invariant.{IsLinked}

-- A map holds levels of the side of the orders that are filed in it.
pub side_of-map_of :
    (t : OrderType) (s : OrderSide) (m : LevelMap)
    → map_of t (side_is_ask s) ≡ some m
    → (if side_is_ask s then LevelSide.ask else LevelSide.bid) ≡ side_of_map m
side_of-map_of t s m e = ground arith

module _ ⦃C : Containers⦄ where
  -- The level that an insertion finds, or makes.
  abbrev pub target_of : ℕ → Order → ℕ → Option Level → Level
  target_of key o symbol none = new_level key (side_of o) symbol
  target_of key o symbol (some l) = l

  abbrev pub target : LevelIterator → Order → MapOrderBook → Level
  target it o b = target_of it.key o b.symbol_id (level_at it b)

  -- The conditions under which an order is filed at an iterator.
  pub record IsFiled (it : LevelIterator) (o : Order) (b : MapOrderBook) : Type 0 where
    pub free : find_order o.id b ≡ none
    pub symbol : o.symbol_id ≡ b.symbol_id
    pub own_map : map_of o.type (is_ask o) ≡ some it.map
    pub own_key : key_of o ≡ it.key

  abbrev pub wrapper : LevelIterator → Order → OrderWrapper
  wrapper it o = record { order = o; level_it = it }

  unfoldable pub placed : LevelIterator → Order → Level → MapOrderBook → MapOrderBook
  placed it o l b =
      let fresh = new_level it.key (side_of o) b.symbol_id in
      record (set_levels it.map (put it.key l (emplace it.key fresh (levels it.map b))) b) {
        orders = C.emplace o.id (wrapper it o) b.orders;
      }

  module _ {it : LevelIterator} {o : Order} {b : MapOrderBook} (v : IsLinked b)
      (f : IsFiled it o b) where
    target_of-side :
        (found : Option Level)
        → level_at it b ≡ found
        → (target_of it.key o b.symbol_id found).side ≡ side_of_map it.map
    unfolding new_level
    target_of-side none e = side_of-map_of o.type o.side it.map f.own_map
    target_of-side (some l) e = (v.linked.level_fits it l e).own_side

    pub target-side : (target it o b).side ≡ side_of_map it.map
    target-side = target_of-side (level_at it b) refl

    target_of-symbol :
        (found : Option Level)
        → level_at it b ≡ found
        → (target_of it.key o b.symbol_id found).symbol_id ≡ b.symbol_id
    unfolding new_level
    target_of-symbol none e = refl
    target_of-symbol (some l) e = (v.linked.level_fits it l e).level_symbol

    pub target-symbol : (target it o b).symbol_id ≡ b.symbol_id
    target-symbol = target_of-symbol (level_at it b) refl

    -- Both assertions of `addOrder` hold.
    pub target-accepts :
        (side_fits o (target it o b).side ≡ true)
        × ((o.symbol_id == (target it o b).symbol_id) ≡ true)
    target-accepts = (
      rw target-side (ground (arith, side_of-map_of o.type o.side it.map f.own_map)),
      ground (arith, target-symbol, f.symbol),
    )

    pub get-made :
        (k : ℕ)
        → get k (emplace it.key (new_level it.key (side_of o) b.symbol_id) (levels it.map b))
          ≡ (if it.key == k then some (target it o b) else get k (levels it.map b))
    get-made k = ground (
      arith,
      get-emplace k it.key 0 (new_level it.key (side_of o) b.symbol_id) (levels it.map b)
          (v.ascending it.map),
    )

    find-emplaced : C.find o.id (C.emplace o.id (wrapper it o) b.orders) ≡ some (wrapper it o)
    find-emplaced = ground (arith, C.find-emplace o.id o.id (wrapper it o) b.orders, f.free)

    made : List (ℕ × Level)
    made = emplace it.key (new_level it.key (side_of o) b.symbol_id) (levels it.map b)

    get-levels-made : get it.key (levels it.map (set_levels it.map made b)) ≡ some (target it o b)
    unfolding made
    get-levels-made =
        ap (get it.key) (levels-set_levels_self it.map made b) ∙ ground (arith, get-made it.key)

    pub insert_at-placed :
        (l : Level)
        → Level.add_order o (target it o b) ≡ some l
        → insert_at it o b ≡ some (placed it o l b)
    unfolding insert_at placed made
    insert_at-placed l e =
        rw (find-emplaced, get-levels-made, e)
          (ap some (
            write_level-set_levels it.map it.key l made
              (record b { orders = C.emplace o.id (wrapper it o) b.orders })))
