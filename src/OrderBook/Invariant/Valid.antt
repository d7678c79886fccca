-- ===== src/OrderBook/Invariant/Valid.antt =====
-- The assertions of `validateLevel` hold at every level of a book that satisfies the invariant.
use rapid_trader.Base.{
  ℕ, ◌+◌, ◌≡◌, ap, ◌∙◌, true, Option, some, List, [], ◌∷◌, arith, has, ◌<◌, ==_refl, u64_mod, add64,
  inl, inr, Option-cases,
}
use rapid_trader.Containers.{Containers}
use rapid_trader.Level.{Level, refs, order_fits, actual_volume, validate_level}
use rapid_trader.Level.Volume.{total}
use rapid_trader.Order.{Order}
use rapid_trader.OrderBook.{
  MapOrderBook, LevelIterator, OrderWrapper, find_order, level_at, deref, order_of,
}
use rapid_trader.OrderBook.Maps.{level_volume-le}
use rapid_trader.OrderBook.Linked.{LevelFits, OrderFits, it_of, side_of_map, refs_of}
use rapid_trader.OrderBook.Invariant.{IsLinked}

module _ ⦃C : Containers⦄ where
  order_fits-OrderFits :
      (symbol r : ℕ) (w : OrderWrapper) (l : Level)
      → OrderFits symbol r w
      → l.price ≡ w.level_it.key
      → l.side ≡ side_of_map w.level_it.map
      → order_fits l w.order ≡ true
  unfolding order_fits
  order_fits-OrderFits symbol r w l f price side = ground (arith, f.own_map, f.own_key, price, side)

  actual_volume-total :
      (deref : ℕ → Option Order) (l : Level) (sum : ℕ) (rs : List ℕ)
      → ((r : ℕ) → has r rs ≡ true → (o : Order) × (deref r ≡ some o) × (order_fits l o ≡ true))
      → sum + total deref rs < u64_mod
      → actual_volume deref l sum rs ≡ some (sum + total deref rs)
  unfolding actual_volume
  actual_volume-total deref l sum [] fit room = ap some (omega arith)
  actual_volume-total deref l sum (r ∷ rs) fit room =
      let (o, e, ok) = fit r (ground arith) in
      rw (e, ok)
        (actual_volume-total deref l (add64 sum o.open_quantity) rs (λ a h. fit a (ground arith))
            (ground (arith, e))
          ∙ ap some (ground (arith, e)))

  module _ {b : MapOrderBook} (v : IsLinked b) (it : LevelIterator) {l : Level}
      (there : level_at it b ≡ some l) where
    fits : LevelFits (deref b) b.symbol_id it l
    fits = v.linked.level_fits it l there

    listed_at : (r : ℕ) → has r (refs l) ≡ true → it_of (find_order r b) ≡ some it
    listed_at r h = v.linked.listed r it (ap (λ x. has r (refs_of x)) there ∙ h)

    order_fits-at :
        (r : ℕ) (w : OrderWrapper)
        → find_order r b ≡ some w
        → it_of (find_order r b) ≡ some it
        → order_fits l w.order ≡ true
    order_fits-at r w found at =
        order_fits-OrderFits b.symbol_id r w l (v.linked.order_fits r w found)
          (ground (arith, fits.own_price, at, found)) (ground (arith, fits.own_side, at, found))

    order_fits-listed :
        (r : ℕ)
        → has r (refs l) ≡ true
        → (o : Order) × (deref b r ≡ some o) × (order_fits l o ≡ true)
    order_fits-listed r h = elim (Option-cases (find_order r b)) [
      | inl e ↦ absurd (ground (arith, listed_at r h, e))
      | inr (w, e) ↦ (w.order, ap order_of e, order_fits-at r w e (listed_at r h))
    ]

    sum-volume : actual_volume (deref b) l 0 (refs l) ≡ some l.volume
    sum-volume =
        actual_volume-total (deref b) l 0 (refs l) order_fits-listed
          (omega (arith, fits.own_volume, level_volume-le it b l there, v.bounded))
        ∙ ap some (omega (arith, fits.own_volume))

  -- In a book that satisfies the invariant, `validateLevel` accepts every level.
  pub validate_level-IsLinked :
      (b : MapOrderBook) (it : LevelIterator) (l : Level)
      → IsLinked b
      → level_at it b ≡ some l
      → validate_level (deref b) l ≡ true
  unfolding validate_level
  validate_level-IsLinked b it l v there =
      rw (sum-volume v it there, validate_level) (==_refl l.volume)
