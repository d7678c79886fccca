-- ===== src/OrderBook/Invariant/Removed.antt =====
-- The book after a deletion satisfies the invariant, and has lost one order and its quantity.
use rapid_trader.Base.{
  ℕ, ◌+◌, ◌≡◌, refl, sym, ap, ◌∙◌, Bool, true, false, Option, some, List, [], ◌∷◌, ◌==◌,
  if◌then◌else◌, arith, has, remove, length, is_nil, inl, inr, Bool-cases,
}
use rapid_trader.Containers.{Containers}
use rapid_trader.Level
use rapid_trader.Level.{Level, refs, level_empty, size}
use rapid_trader.Level.Volume.{total, total-remove, open_at}
use rapid_trader.Order.{Order}
use rapid_trader.PriceMap.{get, put, Ascending}
use rapid_trader.PriceMap.Laws.{get-put, get-erase, put-Ascending, erase-Ascending}
use rapid_trader.OrderBook.{
  MapOrderBook, LevelMap, LevelIterator, OrderWrapper, levels, level_at, find_order, order_of,
  level_sum, refs_count,
}
use rapid_trader.OrderBook.Maps.{
  same_it, same_map, same_map→eq, level_at-set_levels, levels-set_levels, levels-set_levels_self,
  set_levels-IsAscending, book_sum, book_sum-set_levels, level_sum-put, level_sum-erase,
  book_volume, level_volume, level_volume-le,
}
use rapid_trader.OrderBook.Linked.{LevelFits, listed_here}
use rapid_trader.OrderBook.Linked.Remove.{Removes, remove-Linked, kept}
use rapid_trader.OrderBook.Invariant.{IsLinked}
use rapid_trader.OrderBook.Invariant.Deletion.{left, left_empty, left_full, removed}

length-remove : (a : ℕ) (xs : List ℕ) → has a xs ≡ true → length (remove a xs) + 1 ≡ length xs
length-remove a [] h = cc
length-remove a (x ∷ xs) h = ground (arith, length-remove a xs)

length-nil : (xs : List ℕ) → is_nil xs ≡ true → length xs ≡ 0
length-nil [] e = refl
length-nil (x ∷ xs) e = cc

total-nil : (d : ℕ → Option Order) (xs : List ℕ) → is_nil xs ≡ true → total d xs ≡ 0
total-nil d [] e = refl
total-nil d (x ∷ xs) e = cc

module _ ⦃C : Containers⦄ {b : MapOrderBook} (v : IsLinked b) {r : ℕ} {w : OrderWrapper} {l : Level}
    (here : find_order r b ≡ some w) (there : level_at w.level_it b ≡ some l) where
  abbrev after : Level
  after = Level.delete_order w.order l

  level_now : LevelFits (λ j. order_of (find_order j b)) b.symbol_id w.level_it l
  level_now = v.linked.level_fits w.level_it l there

  member : has r (refs l) ≡ true
  member = listed_here v.linked here there

  refs-after : refs after ≡ remove r (refs l)
  unfolding Level.delete_order
  refs-after =
      C.to_list-unlink w.order.id l.orders level_now.distinct
      ∙ ap (λ x. remove x (refs l)) (v.linked.order_fits r w here).own_id

  volume-after : after.volume + w.order.open_quantity ≡ l.volume
  unfolding Level.delete_order
  volume-after = omega (
    arith,
    total-remove (λ j. order_of (find_order j b)) r (refs l) member,
    level_now.own_volume,
    ap (λ x. open_at (order_of x)) here,
    level_volume-le w.level_it b l there,
    v.bounded,
  )

  size-after : size after + 1 ≡ size l
  size-after = ap (λ x. length x + 1) refs-after ∙ length-remove r (refs l) member

  old_Ascending : Ascending 0 (levels w.level_it.map b)
  old_Ascending = v.ascending w.level_it.map

  put-Ascending_self : Ascending 0 (put w.level_it.key after (levels w.level_it.map b))
  put-Ascending_self = put-Ascending w.level_it.key 0 after (levels w.level_it.map b) old_Ascending

  left-Ascending : Ascending 0 (left after w b)
  left-Ascending = elim (Bool-cases (level_empty after)) [
    | inl e ↦ rw (left_empty after w b e) (
        erase-Ascending w.level_it.key 0 (put w.level_it.key after (levels w.level_it.map b))
          put-Ascending_self)
    | inr e ↦ rw (left_full after w b e) put-Ascending_self
  ]

  get-left :
      (k : ℕ)
      → get k (left after w b)
        ≡ (if w.level_it.key == k then kept after else get k (levels w.level_it.map b))
  get-left k = elim (Bool-cases (level_empty after)) [
    | inl e ↦ ground (
      arith,
      left_empty after w b e,
      get-erase k w.level_it.key 0 (put w.level_it.key after (levels w.level_it.map b))
          put-Ascending_self,
      get-put k w.level_it.key after (levels w.level_it.map b),
    )
    | inr e ↦ ground (
      arith,
      left_full after w b e,
      get-put k w.level_it.key after (levels w.level_it.map b),
      there,
    )
  ]

  get-put_self :
      get w.level_it.key (put w.level_it.key after (levels w.level_it.map b)) ≡ some after
  get-put_self =
      ground (arith, get-put w.level_it.key w.level_it.key after (levels w.level_it.map b), there)

  -- What an empty level leaves out of a sum is nothing.
  level_sum-left :
      (f : Level → ℕ)
      → (level_empty after ≡ true → f after ≡ 0)
      → level_sum f (left after w b) + f l ≡ level_sum f (levels w.level_it.map b) + f after
  level_sum-left f empty = elim (Bool-cases (level_empty after)) [
    | inl e ↦ rw (left_empty after w b e) (
        omega (
          arith,
          empty e,
          level_sum-put f w.level_it.key (levels w.level_it.map b) l after there,
          level_sum-erase f w.level_it.key (put w.level_it.key after (levels w.level_it.map b))
              after get-put_self,
        ))
    | inr e ↦
        rw (left_full after w b e)
          (level_sum-put f w.level_it.key (levels w.level_it.map b) l after there)
  ]

  level_at-left :
      (jt : LevelIterator) (d : MapOrderBook)
      → level_at jt d
        ≡ (if same_map w.level_it.map jt.map then get jt.key (left after w b) else level_at jt b)
      → level_at jt d ≡ (if same_it w.level_it jt then kept after else level_at jt b)
  level_at-left jt d e = ground (arith, get-left jt.key, same_map→eq w.level_it.map jt.map)

  -- An empty level has no volume.
  volume_empty : level_empty after ≡ true → after.volume ≡ 0
  volume_empty e = omega (
    arith,
    volume-after,
    level_now.own_volume,
    total-remove (λ j. order_of (find_order j b)) r (refs l) member,
    ap (λ x. open_at (order_of x)) here,
    total-nil (λ j. order_of (find_order j b)) (remove r (refs l)) (ap is_nil (sym refs-after) ∙ e),
  )

  module _ (n : Bool) where
    pub level_at-removed :
        (jt : LevelIterator)
        → level_at jt (removed n r w l b)
          ≡ (if same_it w.level_it jt then kept after else level_at jt b)
    level_at-removed jt =
        level_at-left jt (removed n r w l b)
          (level_at-set_levels jt w.level_it.map (left after w b) b)

    -- Another map is as it was; the order's own has one reference less.
    pub levels-removed :
        (m : LevelMap)
        → same_map w.level_it.map m ≡ false
        → levels m (removed n r w l b) ≡ levels m b
    levels-removed m e = levels-set_levels m w.level_it.map (left after w b) b ∙ rw e

    pub refs_count-removed :
        refs_count (levels w.level_it.map (removed n r w l b)) + 1
        ≡ refs_count (levels w.level_it.map b)
    refs_count-removed = omega (
      arith,
      ap refs_count (levels-set_levels_self w.level_it.map (left after w b) b),
      level_sum-left size (length-nil (refs after)),
      size-after,
    )

    removed-Removes :
        Removes
          (λ j. find_order j b)
          (λ j. find_order j (removed n r w l b))
          (λ it. level_at it b)
          (λ it. level_at it (removed n r w l b))
          r
          w
          l
          after
    unfolding Level.delete_order
    removed-Removes = record {
      here = here;
      there = there;
      fnd-remove = λ j. C.find-erase j r b.orders;
      lev-remove = level_at-removed;
      fewer_refs = refs-after;
      same_level_price = refl;
      same_level_side = refl;
      same_level_symbol = refl;
      reduced = volume-after;
    }

    -- A sum over the levels changes as it does at the level that the order left.
    pub book_sum-removed :
        (f : Level → ℕ)
        → (level_empty after ≡ true → f after ≡ 0)
        → book_sum f (removed n r w l b) + f l ≡ book_sum f b + f after
    book_sum-removed f empty =
        omega
          (arith, level_sum-left f empty, book_sum-set_levels f w.level_it.map (left after w b) b)

    pub book_volume-removed :
        book_volume (removed n r w l b) + w.order.open_quantity ≡ book_volume b
    book_volume-removed = omega (arith, book_sum-removed level_volume volume_empty, volume-after)

    pub removed-IsLinked : IsLinked (removed n r w l b)
    removed-IsLinked = record {
      ascending =
          set_levels-IsAscending w.level_it.map (left after w b) b v.ascending left-Ascending;
      linked = remove-Linked v.linked removed-Removes;
      bounded = omega (arith, book_volume-removed, v.bounded);
    }
