-- ===== src/OrderBook/Operations/Reduction.antt =====
-- What the operations on a resting order share: a quantity is taken from it, and it is deleted if it
-- is filled by that.
use rapid_trader.Base.{
  ℕ, ◌+◌, ◌≡◌, ◌<◌, refl, ◌∙◌, true, false, none, some, ◌==◌, if◌then◌else◌, arith, inl, inr,
  Bool-cases, Option-cases, ==→eq, ==_refl, u64_mod,
}
use rapid_trader.Containers.{Containers}
use rapid_trader.Level.{Level}
use rapid_trader.Order.{is_filled}
use rapid_trader.OrderBook.{MapOrderBook, LevelIterator, OrderWrapper, level_at, find_order}
use rapid_trader.OrderBook.Maps.{book_volume, level_volume-le}
use rapid_trader.OrderBook.Storage.{delete_order}
use rapid_trader.OrderBook.Invariant.{IsLinked}
use rapid_trader.OrderBook.Invariant.Deleted.{Deleted, delete_order-Deleted}
use rapid_trader.OrderBook.Invariant.Deletion.{find_level}
use rapid_trader.OrderBook.Invariant.Written.{
  Reduces, written, open-le-volume, written-IsLinked, book_volume-written, find-written,
  level_at-written,
}
use rapid_trader.OrderBook.Matching.Uncrossed.{IsUncrossed, no_new-IsUncrossed}
use rapid_trader.OrderBook.Stops.Activate.{IsSound}

module _ ⦃C : Containers⦄ where
  -- What is left of the book once `q` is taken from the order `r`, which was `w` and became `w'`;
  -- the last traded price is `last`.
  pub record Reduced (r q : ℕ) (w' : OrderWrapper) (last : ℕ) (b b' : MapOrderBook) : Type 0 where
    pub sound : IsSound b'
    pub entry : find_order r b' ≡ (if is_filled w'.order then none else some w')
    pub untouched : (j : ℕ) → (r == j) ≡ false → find_order j b' ≡ find_order j b
    pub volume : book_volume b' + q ≡ book_volume b
    pub last_price : b'.last_traded_price ≡ last
    pub same_symbol : b'.symbol_id ≡ b.symbol_id

  -- The open quantity of a resting order is a machine word.
  pub open-lt :
      (b : MapOrderBook) (r : ℕ) (w : OrderWrapper)
      → IsLinked b
      → find_order r b ≡ some w
      → w.order.open_quantity < u64_mod
  open-lt b r w v here =
      let (l, there) = find_level v here in
      omega (arith, open-le-volume v here there, level_volume-le w.level_it b l there, v.bounded)

  module _ {b : MapOrderBook} (s : IsSound b) {r q : ℕ} {w w' : OrderWrapper} {l : Level}
      (here : find_order r b ≡ some w) (there : level_at w.level_it b ≡ some l)
      (c : Reduces q w w') where
    written-no_new :
        (it : LevelIterator) (l' : Level)
        → level_at it (written q r w' l b) ≡ some l'
        → (m : Level) × (level_at it b ≡ some m)
    written-no_new it l' f = elim (Option-cases (level_at it b)) [
      | inl e ↦ absurd (ground (arith, level_at-written s.linked here there c it, f, e))
      | inr found ↦ found
    ]

    written-IsUncrossed : IsUncrossed (written q r w' l b)
    written-IsUncrossed = no_new-IsUncrossed b (written q r w' l b) written-no_new s.uncrossed

    kept-Reduced :
        is_filled w'.order ≡ false → Reduced r q w' b.last_traded_price b (written q r w' l b)
    kept-Reduced e = record {
      sound = record {
        linked = written-IsLinked s.linked here there c;
        live = λ j x f. ground (arith, find-written s.linked here there c j, s.live j x, f, e);
        uncrossed = written-IsUncrossed;
      };
      entry = find-written s.linked here there c r ∙ rw (==_refl r, e) refl;
      untouched = λ j apart. find-written s.linked here there c j ∙ rw apart refl;
      volume = book_volume-written s.linked here there c;
      last_price = refl;
      same_symbol = refl;
    }

    gone-Reduced :
        (b' : MapOrderBook)
        → is_filled w'.order ≡ true
        → Deleted r w' (written q r w' l b) b'
        → Reduced r q w' b.last_traded_price b b'
    gone-Reduced b' e d = record {
      sound = record {
        linked = d.linked;
        live = λ j x f.
            ground (arith, d.entries j, find-written s.linked here there c j, s.live j x, f);
        uncrossed = no_new-IsUncrossed (written q r w' l b) b' d.no_new written-IsUncrossed;
      };
      entry = d.entries r ∙ rw (==_refl r, e) refl;
      untouched =
          λ j apart. d.entries j ∙ rw apart (find-written s.linked here there c j ∙ rw apart refl);
      volume =
          let zero : w'.order.open_quantity ≡ 0 = ==→eq w'.order.open_quantity 0 e in
          let v = book_volume-written s.linked here there c in omega (arith, d.volume, v, zero);
      last_price = d.same_last;
      same_symbol = d.same_symbol;
    }

    pub reduce-Reduced :
        (b' : MapOrderBook) × ((if is_filled w'.order
            then delete_order r true (written q r w' l b)
            else some (written q r w' l b))
          ≡ some b')
        × Reduced r q w' b.last_traded_price b b'
    reduce-Reduced = elim (Bool-cases (is_filled w'.order)) [
      | inl e ↦
          let (b', gone, d) =
            delete_order-Deleted (written q r w' l b) r w' true
              (written-IsLinked s.linked here there c)
              (find-written s.linked here there c r ∙ rw (==_refl r) refl) in
          (b', rw e gone, gone-Reduced b' e d)
      | inr e ↦ (written q r w' l b, rw e refl, kept-Reduced e)
    ]
