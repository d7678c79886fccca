-- ===== src/OrderBook/Linked/Remove.antt =====
-- An order leaves its level and the book; an empty level goes with its last order.
use rapid_trader.Base.{
  ℕ, ◌+◌, ◌≡◌, sym, ap, ◌∙◌, true, false, Option, none, some, ◌==◌, if◌then◌else◌, arith, has,
  remove, has-remove, remove-Distinct, is_nil, inl, inr, Bool-cases, ==→eq,
}
use rapid_trader.Containers.{Containers}
use rapid_trader.Level.{Level, refs}
use rapid_trader.Level.Volume.{total-frame, total-remove, open_at}
use rapid_trader.OrderBook.{LevelIterator, OrderWrapper, order_of}
use rapid_trader.OrderBook.Maps.{same_it, same_it→eq, same_it→ne}
use rapid_trader.OrderBook.Linked.{Linked, LevelFits, it_of, refs_of, listed_here, listed_apart}

module _ ⦃C : Containers⦄ where
  -- A level, unless it has run empty.
  abbrev pub kept : Level → Option Level
  kept l = if is_nil (refs l) then none else some l

  -- The order `w` at `r` goes, and its level `l` becomes `l'`.
  pub record Removes (fnd fnd' : ℕ → Option OrderWrapper) (lev lev' : LevelIterator → Option Level)
      (r : ℕ) (w : OrderWrapper) (l l' : Level) : Type 0 where
    pub here : fnd r ≡ some w
    pub there : lev w.level_it ≡ some l
    pub fnd-remove : (j : ℕ) → fnd' j ≡ (if r == j then none else fnd j)
    pub lev-remove :
        (it : LevelIterator) → lev' it ≡ (if same_it w.level_it it then kept l' else lev it)
    pub fewer_refs : refs l' ≡ remove r (refs l)
    pub same_level_price : l'.price ≡ l.price
    pub same_level_side : l'.side ≡ l.side
    pub same_level_symbol : l'.symbol_id ≡ l.symbol_id
    pub reduced : l'.volume + w.order.open_quantity ≡ l.volume

  module _ {fnd fnd' : ℕ → Option OrderWrapper} {lev lev' : LevelIterator → Option Level}
      {symbol r : ℕ} {w : OrderWrapper} {l l' : Level} (h : Linked fnd lev symbol)
      (c : Removes fnd fnd' lev lev' r w l l') where
    here_fits : LevelFits (λ j. order_of (fnd j)) symbol w.level_it l
    here_fits = h.level_fits w.level_it l c.there

    refs_of-kept : (m : Level) → refs_of (kept m) ≡ refs m
    refs_of-kept m = ground arith

    refs_of-remove :
        (it : LevelIterator)
        → refs_of (lev' it)
          ≡ (if same_it w.level_it it then remove r (refs l) else refs_of (lev it))
    refs_of-remove it = ground (arith, c.lev-remove it, refs_of-kept l', c.fewer_refs)

    listed-remove :
        (j : ℕ) (it : LevelIterator) → has j (refs_of (lev' it)) ≡ true → it_of (fnd' j) ≡ some it
    listed-remove j it m = elim (Bool-cases (same_it w.level_it it)) [
      | inl eq ↦ ground (
        arith,
        refs_of-remove it,
        has-remove r j (refs l) here_fits.distinct,
        c.there,
        same_it→eq w.level_it it eq,
        h.listed j it,
        c.fnd-remove j,
      )
      | inr ne ↦ ground (
        arith,
        refs_of-remove it,
        h.listed j it,
        c.fnd-remove j,
        c.here,
        ==→eq r j,
        same_it→ne w.level_it it ne,
      )
    ]

    located-remove :
        (j : ℕ) (it : LevelIterator) → it_of (fnd' j) ≡ some it → has j (refs_of (lev' it)) ≡ true
    located-remove j it m = elim (Bool-cases (same_it w.level_it it)) [
      | inl eq ↦ ground (
        arith,
        refs_of-remove it,
        has-remove r j (refs l) here_fits.distinct,
        c.there,
        same_it→eq w.level_it it eq,
        h.located j it,
        c.fnd-remove j,
      )
      | inr ne ↦ ground (arith, refs_of-remove it, h.located j it, c.fnd-remove j)
    ]

    deref-remove : (j : ℕ) → (r == j) ≡ false → order_of (fnd' j) ≡ order_of (fnd j)
    deref-remove j ne = ground (arith, c.fnd-remove j)

    self_gone : has r (remove r (refs l)) ≡ false
    self_gone = ground (arith, has-remove r r (refs l) here_fits.distinct)

    LevelFits-here :
        is_nil (refs l') ≡ false → LevelFits (λ j. order_of (fnd' j)) symbol w.level_it l'
    LevelFits-here full = record {
      own_price = c.same_level_price ∙ f.own_price;
      own_side = c.same_level_side ∙ f.own_side;
      level_symbol = c.same_level_symbol ∙ f.level_symbol;
      distinct = rw c.fewer_refs (remove-Distinct r (refs l) f.distinct);
      inhabited = full;
      own_volume = rw c.fewer_refs (
          omega (
            arith,
            total-remove (λ j. order_of (fnd j)) r (refs l) (listed_here h c.here c.there),
            total-frame (λ j. order_of (fnd j)) (λ j. order_of (fnd' j)) (remove r (refs l))
                (λ a k. deref-remove a (ground (arith, ==→eq r a, self_gone))),
            f.own_volume,
            c.reduced,
            ap (λ v. open_at (order_of v)) c.here,
          ));
    }
      where
        f : LevelFits (λ j. order_of (fnd j)) symbol w.level_it l
        f = here_fits

    LevelFits-apart :
        (it : LevelIterator) (m : Level)
        → same_it w.level_it it ≡ false
        → lev it ≡ some m
        → LevelFits (λ j. order_of (fnd' j)) symbol it m
    LevelFits-apart it m ne e = record {
      own_price = f.own_price;
      own_side = f.own_side;
      level_symbol = f.level_symbol;
      distinct = f.distinct;
      inhabited = f.inhabited;
      own_volume =
          f.own_volume
          ∙ sym (
              total-frame (λ j. order_of (fnd j)) (λ j. order_of (fnd' j)) (refs m)
                λ a k. deref-remove a (listed_apart h a c.here e ne k));
    }
      where
        f : LevelFits (λ j. order_of (fnd j)) symbol it m
        f = h.level_fits it m e

    kept-some : (k m : Level) → kept k ≡ some m → (m ≡ k) × (is_nil (refs k) ≡ false)
    kept-some k m e = ground arith

    LevelFits-remove :
        (it : LevelIterator) (m : Level)
        → lev' it ≡ some m
        → LevelFits (λ j. order_of (fnd' j)) symbol it m
    LevelFits-remove it m e = elim (Bool-cases (same_it w.level_it it)) [
      | inl eq ↦
          let is : kept l' ≡ some m = ground (arith, c.lev-remove it) in
          let (same, full) = kept-some l' m is in
          rw (same, ← same_it→eq w.level_it it eq) (LevelFits-here full)
      | inr ne ↦ LevelFits-apart it m ne (ground (arith, c.lev-remove it))
    ]

    pub remove-Linked : Linked fnd' lev' symbol
    remove-Linked = record {
      listed = listed-remove;
      located = located-remove;
      order_fits = λ j v e. h.order_fits j v (ground (arith, c.fnd-remove j));
      level_fits = LevelFits-remove;
    }
