-- ===== src/OrderBook/Stops/Trailing/Updated.antt =====
-- `updateBidStopOrders` and `updateAskStopOrders` as wholes.
use rapid_trader.Base.{
  Option-cases, has, ℕ, ◌≡◌, refl, sym, ap, ◌∙◌, subst, false, ◌||◌, some, List, [], if◌then◌else◌,
  arith, leb, is_nil, Bool-cases, inl, inr,
}
use rapid_trader.Containers.{Containers}
use rapid_trader.Level.{Level, LevelSide}
use rapid_trader.OrderBook.{
  MapOrderBook, LevelMap, levels, find_order, refs_count, last_traded_price_ask,
  last_traded_price_bid,
}
use rapid_trader.OrderBook.Maps.{same_map, same_map→eq, levels-set_levels}
use rapid_trader.OrderBook.Linked.{side_of_map}
use rapid_trader.OrderBook.Invariant.{reprice-IsLinked}
use rapid_trader.OrderBook.Matching.Limit.{is_limit_map}
use rapid_trader.OrderBook.Stops.{move_levels, update_bid_stop_orders, update_ask_stop_orders}
use rapid_trader.OrderBook.Stops.Activate.{IsSound}
use rapid_trader.OrderBook.Stops.Trailing.Cleared.{Cleared, clear}
use rapid_trader.OrderBook.Stops.Trailing.Moved.{move_levels-Moving}
use rapid_trader.OrderBook.Stops.Trailing.Moving.{Moving, refiled}
use rapid_trader.OrderBook.Stops.Trailing.Same.{same-IsSound, cleared_map}
use rapid_trader.OrderBook.Stops.Trailing.Pending.{
  all_refs, length-all_refs, all_refs-AreIn, all_refs_complete, all_refs-of-Distinct,
}

module _ ⦃C : Containers⦄ where
  -- What an update of the map `m` leaves behind: the orders stay in their maps.
  pub record Updated (m : LevelMap) (b b' : MapOrderBook) : Type 0 where
    pub sound : IsSound b'
    pub counts : (n : LevelMap) → refs_count (levels n b') ≡ refs_count (levels n b)
    pub others : (n : LevelMap) → same_map m n ≡ false → levels n b' ≡ levels n b
    pub same_last : b'.last_traded_price ≡ b.last_traded_price
    pub same_symbol : b'.symbol_id ≡ b.symbol_id

  module _ (m : LevelMap) (b : MapOrderBook) (s : IsSound b) where
    emptied : (v : MapOrderBook) → Cleared m (all_refs (levels m b)) b v → levels m v ≡ []
    emptied v c =
        cleared_map (levels m v)
          (λ p l e. (c.sound.linked.linked.level_fits (record { map = m; key = p }) l e).inhabited)
          (let n = length-all_refs (levels m b) in omega (arith, n, c.refs_left))

    -- Before the first move: an entry outside the map is as it was.
    unmoved_entry :
        (j : ℕ)
        → has j (all_refs (levels m b)) ≡ false
        → find_order j b ≡ refiled m b (find_order j b)
    unmoved_entry j out = elim (Option-cases (find_order j b)) [
      | inl e ↦ rw e refl
      | inr (w, e) ↦ elim (Bool-cases (same_map m w.level_it.map)) [
        | inl same ↦ absurd (
            let there = all_refs_complete s m j w e (sym (same_map→eq m w.level_it.map same)) in cc)
        | inr apart ↦ rw (e, apart) refl
      ]
    ]

    started :
        (v : MapOrderBook)
        → Cleared m (all_refs (levels m b)) b v
        → Moving m b (all_refs (levels m b)) [] b v
    started v c = record {
      sound = c.sound;
      distinct = all_refs-of-Distinct s m;
      within = all_refs-AreIn s m;
      unmoved = λ r h. refl;
      view = c.entries;
      shelves = λ n. elim (Bool-cases (same_map m n)) [
        | inl same ↦ rw same (ap (λ x. levels x v) (sym (same_map→eq m n same)) ∙ emptied v c)
        | inr apart ↦ rw apart (c.others n apart)
      ];
      same_levels = λ n. refl;
      moved_entry = unmoved_entry;
      volume = c.volume;
      count = (let n = length-all_refs (levels m b) in omega (arith, n));
      symbol = c.same_symbol;
      same_symbol = refl;
      same_last = refl;
    }

    -- The book once all orders are moved.
    ended :
        (new : List (ℕ × Level)) (b' v t : MapOrderBook)
        → Moving m b [] new b' v
        → ((n : LevelMap) → levels n t ≡ (if same_map m n then new else levels n b'))
        → ((j : ℕ) → find_order j t ≡ find_order j b')
        → t.symbol_id ≡ b'.symbol_id
        → t.last_traded_price ≡ b'.last_traded_price
        → Updated m b t
    ended new b' v t mv lev entries symbol last = record {
      sound =
          same-IsSound v t (λ j. mv.view j ∙ sym (entries j)) (λ n. mv.shelves n ∙ sym (lev n))
            (mv.symbol ∙ sym symbol) mv.sound;
      counts = λ n. elim (Bool-cases (same_map m n)) [
        | inl same ↦
            ap refs_count (lev n)
            ∙ rw same (
                subst (λ k. refs_count new ≡ refs_count (levels k b)) (same_map→eq m n same)
                  (let c = mv.count in omega (arith, c)))
        | inr apart ↦ ap refs_count (lev n) ∙ rw apart (ap refs_count (mv.same_levels n))
      ];
      others = λ n apart. lev n ∙ rw apart (mv.same_levels n);
      same_last = last ∙ mv.same_last;
      same_symbol = symbol ∙ mv.same_symbol;
    }

    -- All orders of a map are moved.
    all_moved :
        (side : LevelSide)
        → is_limit_map m ≡ false
        → side ≡ side_of_map m
        → (new : List (ℕ × Level)) × (b' : MapOrderBook) × (v : MapOrderBook) × (move_levels m side
              (levels m b)
              []
              b
            ≡ some (new, b'))
          × Moving m b [] new b' v
    all_moved side stop own =
        let (v, c) =
          clear m (all_refs (levels m b)) b s (all_refs-of-Distinct s m) (all_refs-AreIn s m) in
        move_levels-Moving m side b s stop own (levels m b) [] b v (started v c)

  repriced :
      (m : LevelMap) (b : MapOrderBook) (bid ask : ℕ)
      → IsSound b
      → Updated m b (record b { trailing_bid_price = bid; trailing_ask_price = ask })
  repriced m b bid ask s = record {
    sound = record {
      linked = reprice-IsLinked b.events b.last_traded_price bid ask s.linked;
      live = s.live;
      uncrossed = s.uncrossed;
    };
    counts = λ n. refl;
    others = λ n e. refl;
    same_last = refl;
    same_symbol = refl;
  }

  -- `updateBidStopOrders` on a sound book returns a sound book, in a build with `NDEBUG`, and sets
  -- `trailing_ask_price` to the last traded price. If the market price is below `trailing_ask_price` and the
  -- trailing stop levels of its side hold an order, every order of these levels gets the stop price
  -- that the market price and its trail amount give, and is filed there; else no order is changed. No
  -- other entry, no other map of levels and no count of references is changed.
  pub update_bid_stop_orders-Updated :
      (b : MapOrderBook)
      → IsSound b
      → (b' : MapOrderBook) × (update_bid_stop_orders b ≡ some b')
        × Updated LevelMap.trailing_stop_bid b b'
        × (b'.trailing_ask_price ≡ b.last_traded_price)
        × ((j : ℕ)
            → find_order j b' ≡ (
                if leb b.trailing_ask_price (last_traded_price_ask b)
                  || is_nil b.trailing_stop_bid_levels
                then find_order j b
                else refiled LevelMap.trailing_stop_bid b (find_order j b)))
  unfolding update_bid_stop_orders
  update_bid_stop_orders-Updated b s =
      elim (Bool-cases
        (leb b.trailing_ask_price (last_traded_price_ask b) || is_nil b.trailing_stop_bid_levels)) [
          | inl e ↦ (
            record b { trailing_ask_price = b.last_traded_price },
            rw e refl,
            repriced LevelMap.trailing_stop_bid b b.trailing_bid_price b.last_traded_price s,
            refl,
            λ j. rw e refl,
          )
          | inr e ↦
              let (new, b', v, run, mv) =
                all_moved LevelMap.trailing_stop_bid b s LevelSide.bid refl refl in
              let t : MapOrderBook = record b' {
                trailing_stop_bid_levels = new;
                trailing_ask_price = b'.last_traded_price;
              } in
              (
                t,
                rw (e, run) refl,
                ended LevelMap.trailing_stop_bid b s new b' v t mv
                    (λ n. levels-set_levels n LevelMap.trailing_stop_bid new b') (λ j. refl) refl
                    refl,
                mv.same_last,
                λ j. mv.moved_entry j refl ∙ rw e refl,
              )
        ]

  -- `updateAskStopOrders` on a sound book returns a sound book, in a build with `NDEBUG`, and sets
  -- `trailing_bid_price` to the last traded price. If the market price is above `trailing_bid_price` and the
  -- trailing stop levels of its side hold an order, every order of these levels gets the stop price
  -- that the market price and its trail amount give, and is filed there; else no order is changed. No
  -- other entry, no other map of levels and no count of references is changed.
  pub update_ask_stop_orders-Updated :
      (b : MapOrderBook)
      → IsSound b
      → (b' : MapOrderBook) × (update_ask_stop_orders b ≡ some b')
        × Updated LevelMap.trailing_stop_ask b b'
        × (b'.trailing_bid_price ≡ b.last_traded_price)
        × ((j : ℕ)
            → find_order j b' ≡ (
                if leb (last_traded_price_bid b) b.trailing_bid_price
                  || is_nil b.trailing_stop_ask_levels
                then find_order j b
                else refiled LevelMap.trailing_stop_ask b (find_order j b)))
  unfolding update_ask_stop_orders
  update_ask_stop_orders-Updated b s =
      elim (Bool-cases
        (leb (last_traded_price_bid b) b.trailing_bid_price || is_nil b.trailing_stop_ask_levels)) [
          | inl e ↦ (
            record b { trailing_bid_price = b.last_traded_price },
            rw e refl,
            repriced LevelMap.trailing_stop_ask b b.last_traded_price b.trailing_ask_price s,
            refl,
            λ j. rw e refl,
          )
          | inr e ↦
              let (new, b', v, run, mv) =
                all_moved LevelMap.trailing_stop_ask b s LevelSide.ask refl refl in
              let t : MapOrderBook = record b' {
                trailing_stop_ask_levels = new;
                trailing_bid_price = b'.last_traded_price;
              } in
              (
                t,
                rw (e, run) refl,
                ended LevelMap.trailing_stop_ask b s new b' v t mv
                    (λ n. levels-set_levels n LevelMap.trailing_stop_ask new b') (λ j. refl) refl
                    refl,
                mv.same_last,
                λ j. mv.moved_entry j refl ∙ rw e refl,
              )
        ]
