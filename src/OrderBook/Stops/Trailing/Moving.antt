-- ===== src/OrderBook/Stops/Trailing/Moving.antt =====
-- One trailing stop order on its way to its new level.
use rapid_trader.Base.{
  ℕ, ◌+◌, ◌≡◌, ◌<◌, refl, sym, ap, ◌∙◌, subst, true, false, Option, none, some, List, [], ◌∷◌, ◌==◌,
  if◌then◌else◌, arith, has, Distinct, length, length-append, Bool-cases, inl, inr, ==_refl, ==→eq,
  u64_mod,
}
use rapid_trader.Containers.{Containers}
use rapid_trader.Event.{Event}
use rapid_trader.Level
use rapid_trader.Level.{Level, LevelSide, refs, size, new_level, side_fits}
use rapid_trader.Level.Volume.{total, open_at}
use rapid_trader.Order.{Order, is_ask, set_stop_price}
use rapid_trader.PriceMap.{get, put, emplace}
use rapid_trader.OrderBook.{
  MapOrderBook, LevelMap, LevelIterator, OrderWrapper, levels, find_order, deref, order_of,
  refs_count, write_order, notify,
}
use rapid_trader.OrderBook.Maps.{
  rank, same_map, same_map→eq, book_volume, level_sum-put, level_sum-emplace,
}
use rapid_trader.OrderBook.Storage.{map_of, side_of}
use rapid_trader.OrderBook.Linked.{key_of}
use rapid_trader.OrderBook.Invariant.Insertion.{IsFiled, target, wrapper, get-made}
use rapid_trader.OrderBook.Invariant.Placed.{Inserted}
use rapid_trader.OrderBook.Matching.Limit.{is_limit_map}
use rapid_trader.OrderBook.Stops.{calculate_stop_price}
use rapid_trader.OrderBook.Stops.Activate.{IsSound}
use rapid_trader.OrderBook.Stops.Filed.{stored-IsSound, new_price}
use rapid_trader.OrderBook.Stops.Trailing.Cleared.{AreIn, has-apart}

-- A stop order is filed by its stop price.
key_of-stop :
    (o : Order) (m : LevelMap)
    → map_of o.type (is_ask o) ≡ some m
    → is_limit_map m ≡ false
    → key_of o ≡ o.stop_price
key_of-stop o m e stop = ground (arith, e, stop)

module _ ⦃C : Containers⦄ where
  -- Only the stop price is new.
  pub calculate_stop_price-eq :
      (b : MapOrderBook) (o : Order) → calculate_stop_price b o ≡ set_stop_price (new_price o b) o
  unfolding calculate_stop_price
  calculate_stop_price-eq b o = elim (Bool-cases (is_ask o)) [
    | inl e ↦ rw e refl
    | inr e ↦ rw e refl
  ]

  pub new_price-same :
      (o : Order) (b b₀ : MapOrderBook)
      → b.last_traded_price ≡ b₀.last_traded_price
      → new_price o b ≡ new_price o b₀
  new_price-same o b b₀ e = rw e refl

  -- An entry of the book `b` after the orders of the map `m` were moved to the levels of their new
  -- stop prices.
  abbrev pub refiled : LevelMap → MapOrderBook → Option OrderWrapper → Option OrderWrapper
  refiled m b none = none
  refiled m b (some w) =
      if same_map m w.level_it.map
      then some (
          wrapper (record { map = m; key = new_price w.order b })
            (record w.order { stop_price = new_price w.order b }))
      else some w

  size-add_order : (o : Order) (t g : Level) → Level.add_order o t ≡ some g → size g ≡ size t + 1
  unfolding Level.add_order
  size-add_order o t g e =
      ground (
        arith,
        e,
        ap length (C.to_list-push_back o.id t.orders),
        length-append (refs t) (o.id ∷ []),
      )

  -- The book `b`, in which the orders `rs` of the map `m` have yet to be moved and the others stand
  -- in `new`; and the book `v`, from which the former are gone.
  pub record Moving (m : LevelMap) (b₀ : MapOrderBook) (rs : List ℕ) (new : List (ℕ × Level))
      (b v : MapOrderBook) : Type 0 where
    pub sound : IsSound v
    pub distinct : Distinct rs
    pub within : AreIn m rs b₀
    pub unmoved : (r : ℕ) → has r rs ≡ true → find_order r b ≡ find_order r b₀
    pub view : (j : ℕ) → find_order j v ≡ (if has j rs then none else find_order j b)
    pub shelves : (n : LevelMap) → levels n v ≡ (if same_map m n then new else levels n b)
    pub same_levels : (n : LevelMap) → levels n b ≡ levels n b₀
    pub moved_entry : (j : ℕ) → has j rs ≡ false → find_order j b ≡ refiled m b₀ (find_order j b₀)
    pub volume : book_volume v + total (deref b₀) rs ≡ book_volume b₀
    pub count : refs_count new + length rs ≡ refs_count (levels m b₀)
    pub symbol : v.symbol_id ≡ b.symbol_id
    pub same_symbol : b.symbol_id ≡ b₀.symbol_id
    pub same_last : b.last_traded_price ≡ b₀.last_traded_price

  module _ (m : LevelMap) (b₀ : MapOrderBook) (s₀ : IsSound b₀) (stop : is_limit_map m ≡ false)
      (r k : ℕ) (rs : List ℕ) (new : List (ℕ × Level)) (b v : MapOrderBook)
      (mv : Moving m b₀ (r ∷ rs) new b v) (w : OrderWrapper) (here : find_order r b₀ ≡ some w)
      (is : w.level_it.map ≡ m) where
    abbrev pub moved : Order
    moved = set_stop_price k w.order

    abbrev pub goal : LevelIterator
    goal = record { map = m; key = k }

    abbrev pub after : MapOrderBook
    after =
        notify (Event.order_updated moved)
          (write_order r (record { order = moved; level_it = goal }) b)

    pub own_map : map_of w.order.type (is_ask w.order) ≡ some m
    own_map = (s₀.linked.linked.order_fits r w here).own_map ∙ ap some is

    pub own_id : w.order.id ≡ r
    own_id = (s₀.linked.linked.order_fits r w here).own_id

    pub at_book : find_order r b ≡ some w
    at_book = mv.unmoved r (ground (arith, ==_refl r)) ∙ here

    pub moved-IsFiled : IsFiled goal moved v
    moved-IsFiled = record {
      free = ap (λ j. find_order j v) own_id ∙ mv.view r ∙ rw (==_refl r) refl;
      symbol =
          (s₀.linked.linked.order_fits r w here).own_symbol ∙ sym mv.same_symbol ∙ sym mv.symbol;
      own_map = own_map;
      own_key = key_of-stop moved m own_map stop;
    }

    taken : open_at (deref b₀ r) ≡ w.order.open_quantity
    taken = ap (λ o. open_at (order_of o)) here

    pub moved_room : book_volume v + moved.open_quantity < u64_mod
    moved_room = let z = s₀.linked.bounded in omega (arith, mv.volume, taken, z)

    pub after_entry :
        (j : ℕ)
        → find_order j after ≡ (if r == j then some (wrapper goal moved) else find_order j b)
    after_entry j =
        ground (arith, C.find-assign j r (wrapper goal moved) b.orders, at_book, ==→eq r j)

    module _ (v' : MapOrderBook) (i : Inserted goal moved v v') (g : Level)
        (grown : Level.add_order moved (target goal moved v) ≡ some g)
        (own : levels m v'
          ≡ put k g (emplace k (new_level k (side_of moved) v.symbol_id) (levels m v)))
        (priced : k ≡ new_price w.order b₀) where
      abbrev pub shelf : List (ℕ × Level)
      shelf = put k g (emplace k (new_level k (side_of moved) v.symbol_id) new)

      new_levels : levels m v ≡ new
      new_levels = mv.shelves m ∙ rw (==_refl (rank m)) refl

      pub found_target :
          get k (emplace k (new_level k (side_of moved) v.symbol_id) new)
          ≡ some (target goal moved v)
      found_target =
          ap (λ x. get k (emplace k (new_level k (side_of moved) v.symbol_id) x)) (sym new_levels)
          ∙ get-made mv.sound.linked moved-IsFiled k
          ∙ rw (==_refl k) refl

      shelf_count : refs_count shelf ≡ refs_count new + 1
      unfolding new_level
      shelf_count = omega (
        arith,
        level_sum-put size k (emplace k (new_level k (side_of moved) v.symbol_id) new)
            (target goal moved v) g found_target,
        level_sum-emplace size k (new_level k (side_of moved) v.symbol_id) new
            (ap length C.to_list-no_refs),
        size-add_order moved (target goal moved v) g grown,
      )

      after_view : (j : ℕ) → find_order j v' ≡ (if has j rs then none else find_order j after)
      after_view j = elim (Bool-cases (r == j)) [
        | inl same ↦
            let e = ==→eq r j same in
            let out : has j rs ≡ false = subst (λ a. has a rs ≡ false) e mv.distinct.0 in
            i.entries j ∙ rw (ap (λ a. a == j) own_id ∙ same, out, after_entry j, same) refl
        | inr apart ↦
            i.entries j ∙ rw (ap (λ a. a == j) own_id ∙ apart, mv.view j, after_entry j, apart) refl
      ]

      moved_here : some (wrapper goal moved) ≡ refiled m b₀ (some w)
      moved_here = rw (ap (λ x. same_map m x) is ∙ ==_refl (rank m), sym priced) refl

      after_moved : (j : ℕ) → has j rs ≡ false → find_order j after ≡ refiled m b₀ (find_order j b₀)
      after_moved j out = elim (Bool-cases (r == j)) [
        | inl same ↦
            after_entry j
            ∙ rw same (
                moved_here
                ∙ ap (refiled m b₀) (sym here ∙ ap (λ i. find_order i b₀) (==→eq r j same)))
        | inr apart ↦ after_entry j ∙ rw apart (mv.moved_entry j (ground (arith, apart, out)))
      ]

      pub after-Moving : Moving m b₀ rs shelf after v'
      after-Moving = record {
        sound =
            stored-IsSound mv.sound stop (let live = s₀.live r w here in ground (arith, live)) i;
        distinct = mv.distinct.1;
        within = λ a h. mv.within a (ground (arith, h));
        unmoved = λ a h.
            after_entry a
            ∙ rw (has-apart r a rs mv.distinct.0 h) (mv.unmoved a (ground (arith, h)));
        view = after_view;
        shelves = λ n. elim (Bool-cases (same_map m n)) [
          | inl same ↦ rw same (
              ap (λ x. levels x v') (sym (same_map→eq m n same))
              ∙ own
              ∙ ap (λ x. put k g (emplace k (new_level k (side_of moved) v.symbol_id) x))
                  new_levels)
          | inr apart ↦ i.others n apart ∙ mv.shelves n ∙ rw apart refl
        ];
        same_levels = mv.same_levels;
        moved_entry = after_moved;
        volume = omega (arith, mv.volume, i.volume, taken);
        count = omega (arith, mv.count, shelf_count);
        symbol = i.same_symbol ∙ mv.symbol;
        same_symbol = mv.same_symbol;
        same_last = mv.same_last;
      }
