-- ===== src/OrderBook/Stops/Trailing/Same.antt =====
-- Books that show the same to their readers, and maps that hold no reference.
use rapid_trader.Base.{
  ℕ, ◌≡◌, ◌<◌, refl, ap, ◌∙◌, subst, false, some, List, [], ◌∷◌, u64_mod, arith, ==_refl, is_nil,
}
use rapid_trader.Containers.{Containers}
use rapid_trader.Level.{Level, refs}
use rapid_trader.PriceMap.{get, Ascending}
use rapid_trader.OrderBook.{
  MapOrderBook, LevelMap, levels, level_at, find_order, refs_count, level_sum,
}
use rapid_trader.OrderBook.Maps.{level_volume, book_volume}
use rapid_trader.OrderBook.Linked.{Linked}
use rapid_trader.OrderBook.Stops.Activate.{IsSound}

module _ ⦃C : Containers⦄ where
  -- A book that finds the same orders and holds the same levels.
  pub same-IsSound :
      (b b' : MapOrderBook)
      → ((j : ℕ) → find_order j b ≡ find_order j b')
      → ((n : LevelMap) → levels n b ≡ levels n b')
      → b.symbol_id ≡ b'.symbol_id
      → IsSound b
      → IsSound b'
  same-IsSound b b' entries same symbol s = record {
    linked = record {
      ascending = λ n. subst (Ascending 0) (same n) (s.linked.ascending n);
      linked = linked;
      bounded = bounded;
    };
    live = λ r w e. s.live r w (entries r ∙ e);
    uncrossed = λ p p' l l' a d.
        s.uncrossed p p' l l' (ap (get p) (same LevelMap.ask) ∙ a)
          (ap (get p') (same LevelMap.bid) ∙ d);
  }
    where
      linked : Linked (λ r. find_order r b') (λ it. level_at it b') b'.symbol_id
      linked =
          subst (λ y. Linked (λ r. find_order r b') (λ it. level_at it b') y) symbol
            (subst (λ f. Linked f (λ it. level_at it b') b.symbol_id) (λ i j. entries j i)
              (subst (λ f. Linked (λ r. find_order r b) f b.symbol_id)
                (λ i it. get it.key (same it.map i)) s.linked.linked))

      bounded : book_volume b' < u64_mod
      bounded =
          let volume = λ (n : LevelMap). ap (level_sum level_volume) (same n) in
          omega (
            arith,
            volume LevelMap.ask,
            volume LevelMap.bid,
            volume LevelMap.stop_ask,
            volume LevelMap.stop_bid,
            volume LevelMap.trailing_stop_ask,
            volume LevelMap.trailing_stop_bid,
            s.linked.bounded,
          )

  pub cleared_map :
      (m : List (ℕ × Level))
      → ((p : ℕ) (l : Level) → get p m ≡ some l → is_nil (refs l) ≡ false)
      → refs_count m ≡ 0
      → m ≡ []
  unfolding get
  cleared_map [] inh e = refl
  cleared_map ((p, l) ∷ m) inh e =
      let full = inh p l (rw (==_refl p) refl) in absurd (ground (arith, e, full))
