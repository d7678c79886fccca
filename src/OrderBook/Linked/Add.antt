-- ===== src/OrderBook/Linked/Add.antt =====
-- A new order joins the back of a level, which is made if it is not there.
use rapid_trader.Base.{
  ℕ, ◌+◌, ◌≡◌, refl, sym, ap, ◌∙◌, true, false, Option, none, some, List, [], ◌∷◌, ◌++◌, ◌==◌,
  if◌then◌else◌, arith, has, has-append, append-Distinct, Distinct, is_nil, inl, inr, Bool-cases,
  ==→eq,
}
use rapid_trader.Containers.{Containers}
use rapid_trader.Level.{Level, refs}
use rapid_trader.Level.Volume.{total, total-frame, total-append, open_at}
use rapid_trader.OrderBook.{LevelIterator, OrderWrapper, order_of}
use rapid_trader.OrderBook.Maps.{same_it, same_it→eq, same_it_refl}
use rapid_trader.OrderBook.Linked.{Linked, LevelFits, OrderFits, it_of, refs_of, side_of_map}

module _ ⦃C : Containers⦄ where
  abbrev pub volume_of : Option Level → ℕ
  volume_of none = 0
  volume_of (some l) = l.volume

  -- The order `w` comes in at `r`, which was free, and its level becomes `l'`.
  pub record Adds (fnd fnd' : ℕ → Option OrderWrapper) (lev lev' : LevelIterator → Option Level)
      (symbol r : ℕ) (w : OrderWrapper) (l' : Level) : Type 0 where
    pub free : fnd r ≡ none
    pub fnd-add : (j : ℕ) → fnd' j ≡ (if r == j then some w else fnd j)
    pub lev-add :
        (it : LevelIterator) → lev' it ≡ (if same_it w.level_it it then some l' else lev it)
    pub fits : OrderFits symbol r w
    pub more_refs : refs l' ≡ refs_of (lev w.level_it) ++ r ∷ []
    pub level_price : l'.price ≡ w.level_it.key
    pub level_side : l'.side ≡ side_of_map w.level_it.map
    pub level_symbol : l'.symbol_id ≡ symbol
    pub grown : l'.volume ≡ volume_of (lev w.level_it) + w.order.open_quantity

  module _ {fnd fnd' : ℕ → Option OrderWrapper} {lev lev' : LevelIterator → Option Level}
      {symbol r : ℕ} {w : OrderWrapper} {l' : Level} (h : Linked fnd lev symbol)
      (c : Adds fnd fnd' lev lev' symbol r w l') where
    -- A free ID is in no level.
    unlisted : (it : LevelIterator) → has r (refs_of (lev it)) ≡ false
    unlisted it = ground (arith, h.listed r it, c.free)

    refs_of-add :
        (it : LevelIterator)
        → refs_of (lev' it)
          ≡ (if same_it w.level_it it then refs_of (lev w.level_it) ++ r ∷ [] else refs_of (lev it))
    refs_of-add it = ground (arith, c.lev-add it, c.more_refs)

    listed-add :
        (j : ℕ) (it : LevelIterator) → has j (refs_of (lev' it)) ≡ true → it_of (fnd' j) ≡ some it
    listed-add j it m = elim (Bool-cases (same_it w.level_it it)) [
      | inl eq ↦ ground (
        arith,
        refs_of-add it,
        has-append j (refs_of (lev w.level_it)) (r ∷ []),
        same_it→eq w.level_it it eq,
        h.listed j w.level_it,
        c.fnd-add j,
      )
      | inr ne ↦ ground (arith, refs_of-add it, h.listed j it, c.fnd-add j, ==→eq r j, unlisted it)
    ]

    located-add :
        (j : ℕ) (it : LevelIterator) → it_of (fnd' j) ≡ some it → has j (refs_of (lev' it)) ≡ true
    located-add j it m = elim (Bool-cases (same_it w.level_it it)) [
      | inl eq ↦ ground (
        arith,
        refs_of-add it,
        has-append j (refs_of (lev w.level_it)) (r ∷ []),
        same_it→eq w.level_it it eq,
        h.located j w.level_it,
        c.fnd-add j,
      )
      | inr ne ↦ ground (arith, refs_of-add it, h.located j it, c.fnd-add j, same_it_refl it)
    ]

    order_fits-add : (j : ℕ) (v : OrderWrapper) → fnd' j ≡ some v → OrderFits symbol j v
    order_fits-add j v e = elim (Bool-cases (r == j)) [
      | inl eq ↦ let is : v ≡ w = ground (arith, c.fnd-add j) in rw (is, ← ==→eq r j eq) c.fits
      | inr ne ↦ h.order_fits j v (ground (arith, c.fnd-add j))
    ]

    deref-add : (j : ℕ) → (r == j) ≡ false → order_of (fnd' j) ≡ order_of (fnd j)
    deref-add j ne = ground (arith, c.fnd-add j)

    -- What was known of the level before, made or not.
    before-Distinct : (o : Option Level) → lev w.level_it ≡ o → Distinct (refs_of o)
    before-Distinct none e = tt
    before-Distinct (some l) e = (h.level_fits w.level_it l e).distinct

    before-total :
        (o : Option Level)
        → lev w.level_it ≡ o
        → volume_of o ≡ total (λ j. order_of (fnd j)) (refs_of o)
    before-total none e = refl
    before-total (some l) e = (h.level_fits w.level_it l e).own_volume

    append-full : (xs : List ℕ) → is_nil (xs ++ r ∷ []) ≡ false
    append-full [] = refl
    append-full (x ∷ xs) = refl

    total-add :
        (it : LevelIterator)
        → total (λ j. order_of (fnd' j)) (refs_of (lev it))
          ≡ total (λ j. order_of (fnd j)) (refs_of (lev it))
    total-add it =
        total-frame (λ j. order_of (fnd j)) (λ j. order_of (fnd' j)) (refs_of (lev it))
          λ a k. deref-add a (ground (arith, ==→eq r a, unlisted it))

    LevelFits-here : LevelFits (λ j. order_of (fnd' j)) symbol w.level_it l'
    LevelFits-here = record {
      own_price = c.level_price;
      own_side = c.level_side;
      level_symbol = c.level_symbol;
      distinct = rw c.more_refs (
          append-Distinct r (refs_of (lev w.level_it)) (before-Distinct _ refl)
            (unlisted w.level_it));
      inhabited = rw c.more_refs (append-full (refs_of (lev w.level_it)));
      own_volume = rw c.more_refs (
          omega (
            arith,
            c.grown,
            before-total _ refl,
            total-add w.level_it,
            total-append (λ j. order_of (fnd' j)) (refs_of (lev w.level_it)) (r ∷ []),
            ap (λ v. open_at (order_of v)) changed,
          ));
    }
      where
        changed : fnd' r ≡ some w
        changed = ground (arith, c.fnd-add r)

    LevelFits-add :
        (it : LevelIterator) (m : Level)
        → lev' it ≡ some m
        → LevelFits (λ j. order_of (fnd' j)) symbol it m
    LevelFits-add it m e = elim (Bool-cases (same_it w.level_it it)) [
      | inl eq ↦
          let is : m ≡ l' = ground (arith, c.lev-add it) in
          rw (is, ← same_it→eq w.level_it it eq) LevelFits-here
      | inr ne ↦
          let old : lev it ≡ some m = ground (arith, c.lev-add it) in
          let f = h.level_fits it m old in
          record {
            own_price = f.own_price;
            own_side = f.own_side;
            level_symbol = f.level_symbol;
            distinct = f.distinct;
            inhabited = f.inhabited;
            own_volume =
                f.own_volume
                ∙ sym (
                    ap (λ x. total (λ j. order_of (fnd' j)) (refs_of x)) (sym old)
                    ∙ total-add it
                    ∙ ap (λ x. total (λ j. order_of (fnd j)) (refs_of x)) old);
          }
    ]

    pub add-Linked : Linked fnd' lev' symbol
    add-Linked = record {
      listed = listed-add;
      located = located-add;
      order_fits = order_fits-add;
      level_fits = LevelFits-add;
    }
