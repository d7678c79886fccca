-- ===== src/OrderBook/Linked/Write.antt =====
-- An order loses some of its open quantity, and its level as much of its volume.
use rapid_trader.Base.{
  ℕ, ◌+◌, ◌≡◌, sym, ap, ◌∙◌, false, Option, some, ◌==◌, if◌then◌else◌, arith, inl, inr, Bool-cases,
  ==→eq,
}
use rapid_trader.Containers.{Containers, assigned}
use rapid_trader.Level.{Level, refs}
use rapid_trader.Level.Volume.{total-frame, total-update, open_at}
use rapid_trader.Order.{Order}
use rapid_trader.OrderBook.{LevelIterator, OrderWrapper, order_of}
use rapid_trader.OrderBook.Maps.{same_it, same_it→eq, same_it_refl}
use rapid_trader.OrderBook.Linked.{
  Linked, LevelFits, OrderFits, it_of, refs_of, listed_here, listed_apart,
}

-- What the two values of an order agree on.
pub record SameFiling (o o' : Order) : Type 0 where
  pub same_id : o'.id ≡ o.id
  pub same_symbol : o'.symbol_id ≡ o.symbol_id
  pub same_type : o'.type ≡ o.type
  pub same_side : o'.side ≡ o.side
  pub same_price : o'.price ≡ o.price
  pub same_stop_price : o'.stop_price ≡ o.stop_price

OrderFits-filing :
    {symbol r : ℕ} {w w' : OrderWrapper}
    → OrderFits symbol r w
    → SameFiling w.order w'.order
    → w'.level_it ≡ w.level_it
    → OrderFits symbol r w'
OrderFits-filing {symbol} {r} {w} {w'} f s e = record {
  own_id = s.same_id ∙ f.own_id;
  own_symbol = s.same_symbol ∙ f.own_symbol;
  own_map = rw (s.same_type, s.same_side, e) f.own_map;
  own_key = rw (s.same_type, s.same_price, s.same_stop_price, e) f.own_key;
}

module _ ⦃C : Containers⦄ where
  -- The order `w` at `r` becomes `w'`, with `q` less to fill, and its level `l` becomes `l'`.
  pub record Writes (fnd fnd' : ℕ → Option OrderWrapper) (lev lev' : LevelIterator → Option Level)
      (r q : ℕ) (w w' : OrderWrapper) (l l' : Level) : Type 0 where
    pub here : fnd r ≡ some w
    pub there : lev w.level_it ≡ some l
    pub fnd-write : (j : ℕ) → fnd' j ≡ (if r == j then assigned w' (fnd j) else fnd j)
    pub lev-write :
        (it : LevelIterator)
        → lev' it ≡ (if same_it w.level_it it then assigned l' (lev it) else lev it)
    pub filing : SameFiling w.order w'.order
    pub same_level_it : w'.level_it ≡ w.level_it
    pub less : w'.order.open_quantity + q ≡ w.order.open_quantity
    pub same_refs : l'.orders ≡ l.orders
    pub same_level_price : l'.price ≡ l.price
    pub same_level_side : l'.side ≡ l.side
    pub same_level_symbol : l'.symbol_id ≡ l.symbol_id
    pub reduced : l'.volume + q ≡ l.volume

  module _ {fnd fnd' : ℕ → Option OrderWrapper} {lev lev' : LevelIterator → Option Level}
      {symbol r q : ℕ} {w w' : OrderWrapper} {l l' : Level} (h : Linked fnd lev symbol)
      (c : Writes fnd fnd' lev lev' r q w w' l l') where
    it_of-write : (j : ℕ) → it_of (fnd' j) ≡ it_of (fnd j)
    it_of-write j = ground (arith, c.fnd-write j, ==→eq r j, c.here, c.same_level_it)

    refs_of-write : (it : LevelIterator) → refs_of (lev' it) ≡ refs_of (lev it)
    refs_of-write it =
        ground (arith, c.lev-write it, c.there, same_it→eq w.level_it it, ap C.to_list c.same_refs)

    order_fits-write : (j : ℕ) (v : OrderWrapper) → fnd' j ≡ some v → OrderFits symbol j v
    order_fits-write j v e = elim (Bool-cases (r == j)) [
      | inl eq ↦
          let changed : fnd' r ≡ some w' = ground (arith, c.fnd-write r, c.here) in
          let is : v ≡ w' = ground (arith, ==→eq r j eq, changed) in
          rw (is, ← ==→eq r j eq)
            (OrderFits-filing (h.order_fits r w c.here) c.filing c.same_level_it)
      | inr ne ↦ h.order_fits j v (ground (arith, c.fnd-write j))
    ]

    deref-write : (j : ℕ) → (r == j) ≡ false → order_of (fnd' j) ≡ order_of (fnd j)
    deref-write j ne = ground (arith, c.fnd-write j)

    LevelFits-here : LevelFits (λ j. order_of (fnd' j)) symbol w.level_it l'
    LevelFits-here = record {
      own_price = c.same_level_price ∙ f.own_price;
      own_side = c.same_level_side ∙ f.own_side;
      level_symbol = c.same_level_symbol ∙ f.level_symbol;
      distinct = rw c.same_refs f.distinct;
      inhabited = rw c.same_refs f.inhabited;
      own_volume = rw c.same_refs (
          omega (
            arith,
            total-update (λ j. order_of (fnd j)) (λ j. order_of (fnd' j)) r (refs l) f.distinct
                (listed_here h c.here c.there) deref-write,
            f.own_volume,
            c.reduced,
            c.less,
            ap (λ v. open_at (order_of v)) c.here,
            ap (λ v. open_at (order_of v)) changed,
          ));
    }
      where
        f : LevelFits (λ j. order_of (fnd j)) symbol w.level_it l
        f = h.level_fits w.level_it l c.there

        changed : fnd' r ≡ some w'
        changed = ground (arith, c.fnd-write r, c.here)

    LevelFits-there :
        (it : LevelIterator) (m : Level)
        → same_it w.level_it it ≡ false
        → lev it ≡ some m
        → LevelFits (λ j. order_of (fnd' j)) symbol it m
    LevelFits-there it m ne e = record {
      own_price = f.own_price;
      own_side = f.own_side;
      level_symbol = f.level_symbol;
      distinct = f.distinct;
      inhabited = f.inhabited;
      own_volume =
          f.own_volume
          ∙ sym (
              total-frame (λ j. order_of (fnd j)) (λ j. order_of (fnd' j)) (refs m)
                λ a k. deref-write a (listed_apart h a c.here e ne k));
    }
      where
        f : LevelFits (λ j. order_of (fnd j)) symbol it m
        f = h.level_fits it m e

    LevelFits-write :
        (it : LevelIterator) (m : Level)
        → lev' it ≡ some m
        → LevelFits (λ j. order_of (fnd' j)) symbol it m
    LevelFits-write it m e = elim (Bool-cases (same_it w.level_it it)) [
      | inl eq ↦
          let changed : lev' w.level_it ≡ some l' =
            ground (arith, c.lev-write w.level_it, c.there, same_it_refl w.level_it) in
          let is : m ≡ l' = ground (arith, same_it→eq w.level_it it eq, changed) in
          rw (is, ← same_it→eq w.level_it it eq) LevelFits-here
      | inr ne ↦ LevelFits-there it m ne (ground (arith, c.lev-write it))
    ]

    pub write-Linked : Linked fnd' lev' symbol
    write-Linked = record {
      listed = λ j it m. it_of-write j ∙ h.listed j it (rw (← refs_of-write it) m);
      located = λ j it m. rw (refs_of-write it) (h.located j it (sym (it_of-write j) ∙ m));
      order_fits = order_fits-write;
      level_fits = LevelFits-write;
    }
