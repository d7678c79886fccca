-- ===== src/OrderBook/Invariant/Written.antt =====
-- A quantity is taken from a resting order and from the volume of its level.
use rapid_trader.Base.{
  ℕ, ◌+◌, ◌≡◌, refl, ap, ◌∙◌, false, some, ◌==◌, if◌then◌else◌, arith, inl, inr, Bool-cases, ==→eq,
  le→leb, sub64, ◌≤◌,
}
use rapid_trader.Containers.{Containers, assigned}
use rapid_trader.Level
use rapid_trader.Level.{Level, refs}
use rapid_trader.Level.Volume.{total-remove, open_at}
use rapid_trader.PriceMap.{put}
use rapid_trader.PriceMap.Laws.{put-Ascending}
use rapid_trader.OrderBook.{
  MapOrderBook, LevelMap, LevelIterator, OrderWrapper, levels, level_at, write_level, find_order,
  write_order, order_of, refs_count,
}
use rapid_trader.OrderBook.Maps.{
  same_map, same_map→eq, levels-set_levels, levels-set_levels_self, same_it, level_at-write_level,
  set_levels-IsAscending, book_sum, book_sum-set_levels, level_sum-put, book_volume, level_volume,
  level_volume-le,
}
use rapid_trader.OrderBook.Linked.{listed_here}
use rapid_trader.OrderBook.Linked.Write.{Writes, SameFiling, write-Linked}
use rapid_trader.OrderBook.Invariant.{IsLinked}

-- The entry `w'` is `w` with `q` less to fill.
pub record Reduces (q : ℕ) (w w' : OrderWrapper) : Type 0 where
  pub filing : SameFiling w.order w'.order
  pub same_level_it : w'.level_it ≡ w.level_it
  pub less : w'.order.open_quantity + q ≡ w.order.open_quantity

module _ ⦃C : Containers⦄ where
  -- A level with `q` less volume.
  abbrev pub lowered : ℕ → Level → Level
  lowered q l = record l { volume = sub64 l.volume q }

  abbrev pub written : ℕ → ℕ → OrderWrapper → Level → MapOrderBook → MapOrderBook
  written q r w' l b = write_level w'.level_it (lowered q l) (write_order r w' b)

  -- The level holds at least what its order asks for.
  pub open-le-volume :
      {b : MapOrderBook} (v : IsLinked b) {r : ℕ} {w : OrderWrapper} {l : Level}
      → find_order r b ≡ some w
      → level_at w.level_it b ≡ some l
      → w.order.open_quantity ≤ l.volume
  open-le-volume {b} v {r} {w} {l} here there = omega (
    arith,
    total-remove (λ j. order_of (find_order j b)) r (refs l) (listed_here v.linked here there),
    (v.linked.level_fits w.level_it l there).own_volume,
    ap (λ x. open_at (order_of x)) here,
  )

  module _ {b : MapOrderBook} (v : IsLinked b) {r q : ℕ} {w w' : OrderWrapper} {l : Level}
      (here : find_order r b ≡ some w) (there : level_at w.level_it b ≡ some l)
      (c : Reduces q w w') where
    pub lowered-volume : (lowered q l).volume + q ≡ l.volume
    lowered-volume = omega (
      arith,
      open-le-volume v here there,
      c.less,
      level_volume-le w.level_it b l there,
      v.bounded,
    )

    -- The assertion of `reduceVolume` holds.
    pub reduce_volume-lowered : Level.reduce_volume q l ≡ some (lowered q l)
    unfolding Level.reduce_volume
    reduce_volume-lowered =
        rw (le→leb q l.volume (omega (arith, open-le-volume v here there, c.less)))

    written-Writes :
        Writes
          (λ j. find_order j b)
          (λ j. find_order j (written q r w' l b))
          (λ it. level_at it b)
          (λ it. level_at it (written q r w' l b))
          r
          q
          w
          w'
          l
          (lowered q l)
    written-Writes = record {
      here = here;
      there = there;
      fnd-write = λ j. C.find-assign j r w' b.orders;
      lev-write =
          λ it. rw (← c.same_level_it) (level_at-write_level it w'.level_it (lowered q l) b);
      filing = c.filing;
      same_level_it = c.same_level_it;
      less = c.less;
      same_refs = refl;
      same_level_price = refl;
      same_level_side = refl;
      same_level_symbol = refl;
      reduced = lowered-volume;
    }

    pub book_sum-written :
        (f : Level → ℕ) → book_sum f (written q r w' l b) + f l ≡ book_sum f b + f (lowered q l)
    book_sum-written f = omega (
      arith,
      book_sum-set_levels f w'.level_it.map
          (put w'.level_it.key (lowered q l) (levels w'.level_it.map b)) b,
      level_sum-put f w'.level_it.key (levels w'.level_it.map b) l (lowered q l)
          (rw c.same_level_it there),
    )

    pub book_volume-written : book_volume (written q r w' l b) + q ≡ book_volume b
    book_volume-written = omega (arith, book_sum-written level_volume, lowered-volume)

    pub written-IsLinked : IsLinked (written q r w' l b)
    written-IsLinked = record {
      ascending =
          set_levels-IsAscending w'.level_it.map
            (put w'.level_it.key (lowered q l) (levels w'.level_it.map b)) b v.ascending
            (put-Ascending w'.level_it.key 0 (lowered q l) (levels w'.level_it.map b)
              (v.ascending w'.level_it.map));
      linked = write-Linked v.linked written-Writes;
      bounded = omega (arith, book_volume-written, v.bounded);
    }

    pub level_at-written :
        (it : LevelIterator)
        → level_at it (written q r w' l b) ≡ (
            if same_it w.level_it it then assigned (lowered q l) (level_at it b) else level_at it b)
    level_at-written = written-Writes.lev-write

    pub find-written :
        (j : ℕ) → find_order j (written q r w' l b) ≡ (if r == j then some w' else find_order j b)
    find-written j = ground (arith, C.find-assign j r w' b.orders, here, ==→eq r j)

    -- Every map holds as many references as before, and another map is as it was.
    pub levels-written :
        (m : LevelMap)
        → same_map w.level_it.map m ≡ false
        → levels m (written q r w' l b) ≡ levels m b
    levels-written m e =
        levels-set_levels m w'.level_it.map
          (put w'.level_it.key (lowered q l) (levels w'.level_it.map b)) b
        ∙ rw (c.same_level_it, e)

    pub refs_count-written :
        (m : LevelMap) → refs_count (levels m (written q r w' l b)) ≡ refs_count (levels m b)
    refs_count-written m = elim (Bool-cases (same_map w.level_it.map m)) [
      | inl e ↦
          rw (← same_map→eq w.level_it.map m e, ← c.same_level_it)
            (omega (
              arith,
              ap refs_count (
                  levels-set_levels_self w'.level_it.map
                    (put w'.level_it.key (lowered q l) (levels w'.level_it.map b)) b),
              level_sum-put Level.size w'.level_it.key (levels w'.level_it.map b) l (lowered q l)
                  (rw c.same_level_it there),
            ))
      | inr e ↦ ap refs_count (levels-written m e)
    ]
