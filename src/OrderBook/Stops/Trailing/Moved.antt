-- ===== src/OrderBook/Stops/Trailing/Moved.antt =====
-- The loops of `updateBidStopOrders` and `updateAskStopOrders`.
use rapid_trader.Base.{
  ℕ, suc, ◌≡◌, refl, sym, ap, ◌∙◌, false, Option, some, List, [], ◌∷◌, ◌++◌, sub64, arith, length,
  ==_refl, tail, head?,
}
use rapid_trader.Containers.{Containers}
use rapid_trader.Level
use rapid_trader.Level.{Level, LevelSide, refs, size, new_level}
use rapid_trader.Order.{Order, set_stop_price}
use rapid_trader.PriceMap.{get, put, emplace}
use rapid_trader.OrderBook.{MapOrderBook, LevelMap, OrderWrapper, find_order, deref, order_of}
use rapid_trader.OrderBook.Storage.{side_of}
use rapid_trader.OrderBook.Linked.{side_of_map}
use rapid_trader.OrderBook.Invariant.Insertion.{wrapper, side_of-map_of}
use rapid_trader.OrderBook.Invariant.Placed.Shelved.{insert-Shelved}
use rapid_trader.OrderBook.Matching.Limit.{is_limit_map}
use rapid_trader.OrderBook.Stops.{calculate_stop_price, move_orders, move_levels}
use rapid_trader.OrderBook.Stops.Activate.{IsSound}
use rapid_trader.OrderBook.Stops.Filed.{new_price}
use rapid_trader.OrderBook.Stops.Trailing.Moving.{
  Moving, calculate_stop_price-eq, new_price-same, after, own_map, at_book, moved-IsFiled,
  moved_room, found_target, after_entry, after-Moving,
}
use rapid_trader.OrderBook.Stops.Trailing.Pending.{all_refs}

module _ ⦃C : Containers⦄ (m : LevelMap) (side : LevelSide) (b₀ : MapOrderBook) (s₀ : IsSound b₀)
    (stop : is_limit_map m ≡ false) (own_side : side ≡ side_of_map m) where
  popped :
      (deref' : ℕ → Option Order) (l : Level) (r : ℕ) (rs : List ℕ) (o : Order)
      → refs l ≡ r ∷ rs
      → deref' r ≡ some o
      → (l' : Level) × (Level.pop_front deref' l ≡ some l') × (refs l' ≡ rs)
  unfolding Level.pop_front
  popped deref' l r rs o e here = (
    record l { volume = sub64 l.volume o.open_quantity; orders = C.pop_front l.orders },
    rw (e, here) refl,
    C.to_list-pop_front l.orders ∙ ap tail e,
  )

  -- One round of the inner loop.
  move_round :
      (rounds r k : ℕ) (l : Level) (rs later : List ℕ) (new : List (ℕ × Level)) (b v : MapOrderBook)
      (w : OrderWrapper)
      → refs l ≡ r ∷ rs
      → Moving m b₀ (r ∷ (rs ++ later)) new b v
      → find_order r b₀ ≡ some w
      → w.level_it.map ≡ m
      → calculate_stop_price b w.order ≡ set_stop_price k w.order
      → k ≡ new_price w.order b₀
      → (l' : Level) × (new' : List (ℕ × Level)) × (b' : MapOrderBook) × (v' : MapOrderBook) × (refs
            l'
          ≡ rs)
        × Moving m b₀ (rs ++ later) new' b' v'
        × (move_orders (suc rounds) m side l new b ≡ move_orders rounds m side l' new' b')
  unfolding move_orders
  move_round rounds r k l rs later new b v w e mv here is calc priced =
      let all = rs ++ later in
      let o : Order = set_stop_price k w.order in
      let b' = after m b₀ s₀ stop r k all new b v mv w here is in
      let (v', i, g, grown, own) =
        insert-Shelved v (record { map = m; key = k }) o mv.sound.linked
          (moved-IsFiled m b₀ s₀ stop r k all new b v mv w here is)
          (moved_room m b₀ s₀ stop r k all new b v mv w here is) in
      let entry : find_order r b' ≡ some (wrapper (record { map = m; key = k }) o) =
        after_entry m b₀ s₀ stop r k all new b v mv w here is r ∙ rw (==_refl r) refl in
      let (l', pop, rest) = popped (deref b') l r rs o e (ap order_of entry) in
      let fits : side ≡ side_of o =
        own_side
        ∙ sym
            (side_of-map_of o.type o.side m (own_map m b₀ s₀ stop r k all new b v mv w here is)) in
      let level : new_level k side b.symbol_id ≡ new_level k (side_of o) v.symbol_id =
        (λ j. new_level k (fits j) (sym mv.symbol j)) in
      let found =
        ap (λ x. get k (emplace k x new)) level
        ∙ found_target m b₀ s₀ stop r k all new b v mv w here is v' i g grown own priced in
      (
        l',
        put k g (emplace k (new_level k (side_of o) v.symbol_id) new),
        b',
        v',
        rest,
        after-Moving m b₀ s₀ stop r k all new b v mv w here is v' i g grown own priced,
        rw (ap head? e, at_book m b₀ s₀ stop r k all new b v mv w here is, calc, pop, found, grown)
            (ap (λ x. move_orders rounds m side l' (put k g (emplace k x new)) b') level),
      )

  -- The inner loop moves all orders of a level.
  move_orders-Moving :
      (rs : List ℕ) (l : Level) (later : List ℕ) (new : List (ℕ × Level)) (b v : MapOrderBook)
      → refs l ≡ rs
      → Moving m b₀ (rs ++ later) new b v
      → (new' : List (ℕ × Level)) × (b' : MapOrderBook) × (v' : MapOrderBook) × (move_orders
            (length rs)
            m
            side
            l
            new
            b
          ≡ some (new', b'))
        × Moving m b₀ later new' b' v'
  unfolding move_orders
  move_orders-Moving [] l later new b v e mv = (new, b, v, refl, mv)
  move_orders-Moving (r ∷ rs) l later new b v e mv =
      let (w, here, is) = mv.within r (ground (arith, ==_refl r)) in
      let k = new_price w.order b₀ in
      let calc : calculate_stop_price b w.order ≡ set_stop_price k w.order =
        calculate_stop_price-eq b w.order
        ∙ ap (λ x. set_stop_price x w.order) (new_price-same w.order b b₀ mv.same_last) in
      let (l', new₁, b₁, v₁, rest, mv₁, step) =
        move_round (length rs) r k l rs later new b v w e mv here is calc refl in
      let (new', b', v', run, done) = move_orders-Moving rs l' later new₁ b₁ v₁ rest mv₁ in
      (new', b', v', step ∙ run, done)

  -- The outer loop moves all orders of the map.
  pub move_levels-Moving :
      (old new : List (ℕ × Level)) (b v : MapOrderBook)
      → Moving m b₀ (all_refs old) new b v
      → (new' : List (ℕ × Level)) × (b' : MapOrderBook) × (v' : MapOrderBook) × (move_levels m side
            old new b
          ≡ some (new', b'))
        × Moving m b₀ [] new' b' v'
  unfolding move_levels
  move_levels-Moving [] new b v mv = (new, b, v, refl, mv)
  move_levels-Moving ((p, l) ∷ old) new b v mv =
      let (new₁, b₁, v₁, run, mv₁) = move_orders-Moving (refs l) l (all_refs old) new b v refl mv in
      let (new', b', v', rest, done) = move_levels-Moving old new₁ b₁ v₁ mv₁ in
      (new', b', v', rw run rest, done)
