-- ===== src/OrderBook/Stops/Trailing/Cleared.antt =====
-- A book without the orders of one of its stop maps.
use rapid_trader.Base.{
  ℕ, ◌+◌, ◌≡◌, refl, ap, ◌∙◌, subst, true, false, none, some, List, [], ◌∷◌, ◌==◌, if◌then◌else◌,
  arith, has, Distinct, length, ne→==, ==_refl,
}
use rapid_trader.Containers.{Containers}
use rapid_trader.Level.Volume.{total, open_at, total-frame}
use rapid_trader.OrderBook.{
  MapOrderBook, LevelMap, OrderWrapper, levels, find_order, deref, order_of, refs_count,
}
use rapid_trader.OrderBook.Maps.{same_map, book_volume}
use rapid_trader.OrderBook.Invariant.Deleted.{Deleted, delete_order-Deleted}
use rapid_trader.OrderBook.Matching.Uncrossed.{no_new-IsUncrossed}
use rapid_trader.OrderBook.Stops.Activate.{IsSound}

pub has-apart : (r a : ℕ) (rs : List ℕ) → has r rs ≡ false → has a rs ≡ true → (r == a) ≡ false
has-apart r a rs out here = ne→== r a λ e. let no = subst (λ k. has k rs ≡ false) e out in cc

module _ ⦃C : Containers⦄ where
  -- The book without the orders `rs` of the map `m`.
  pub record Cleared (m : LevelMap) (rs : List ℕ) (b b' : MapOrderBook) : Type 0 where
    pub sound : IsSound b'
    pub entries : (j : ℕ) → find_order j b' ≡ (if has j rs then none else find_order j b)
    pub refs_left : refs_count (levels m b') + length rs ≡ refs_count (levels m b)
    pub others : (n : LevelMap) → same_map m n ≡ false → levels n b' ≡ levels n b
    pub volume : book_volume b' + total (deref b) rs ≡ book_volume b
    pub same_last : b'.last_traded_price ≡ b.last_traded_price
    pub same_symbol : b'.symbol_id ≡ b.symbol_id

  -- The orders `rs` stand in the map `m`.
  abbrev pub AreIn : LevelMap → List ℕ → MapOrderBook → Type 0
  AreIn m rs b =
      (r : ℕ)
      → has r rs ≡ true
      → (w : OrderWrapper) × (find_order r b ≡ some w) × (w.level_it.map ≡ m)

  pub Deleted-IsSound :
      (r : ℕ) (w : OrderWrapper) (b b' : MapOrderBook) → IsSound b → Deleted r w b b' → IsSound b'
  Deleted-IsSound r w b b' s d = record {
    linked = d.linked;
    live = λ j x e. ground (arith, d.entries j, s.live j x, e);
    uncrossed = no_new-IsUncrossed b b' d.no_new s.uncrossed;
  }

  module _ (m : LevelMap) (rs : List ℕ) {r : ℕ} {w : OrderWrapper} {b b₁ : MapOrderBook}
      (out : has r rs ≡ false) (here : find_order r b ≡ some w) (d : Deleted r w b b₁) where
    left_entry : (a : ℕ) → has a rs ≡ true → find_order a b₁ ≡ find_order a b
    left_entry a h = d.entries a ∙ rw (has-apart r a rs out h) refl

    left_in : AreIn m (r ∷ rs) b → AreIn m rs b₁
    left_in all a h =
        let (x, there, is) = all a (ground (arith, h)) in (x, left_entry a h ∙ there, is)

    left_total : total (deref b₁) rs ≡ total (deref b) rs
    left_total = total-frame (deref b) (deref b₁) rs (λ a h. ap order_of (left_entry a h))

    both-Cleared :
        (b' : MapOrderBook) → w.level_it.map ≡ m → Cleared m rs b₁ b' → Cleared m (r ∷ rs) b b'
    both-Cleared b' is c = record {
      sound = c.sound;
      entries = λ j. ground (arith, c.entries j, d.entries j);
      refs_left =
          let one =
            subst (λ k. refs_count (levels k b₁) + 1 ≡ refs_count (levels k b)) is d.refs_left in
          omega (arith, one, c.refs_left);
      others = λ n e. c.others n e ∙ d.others n (ap (λ k. same_map k n) is ∙ e);
      volume =
          let taken : open_at (deref b r) ≡ w.order.open_quantity =
            ap (λ o. open_at (order_of o)) here in
          omega (arith, c.volume, d.volume, left_total, taken);
      same_last = c.same_last ∙ d.same_last;
      same_symbol = c.same_symbol ∙ d.same_symbol;
    }

  pub clear :
      (m : LevelMap) (rs : List ℕ) (b : MapOrderBook)
      → IsSound b
      → Distinct rs
      → AreIn m rs b
      → (b' : MapOrderBook) × Cleared m rs b b'
  clear m [] b s d all = (
    b,
    record {
      sound = s;
      entries = λ j. refl;
      refs_left = omega arith;
      others = λ n e. refl;
      volume = omega arith;
      same_last = refl;
      same_symbol = refl;
    },
  )
  clear m (r ∷ rs) b s (out, apart) all =
      let (w, here, is) = all r (ground (arith, ==_refl r)) in
      let (b₁, gone, d) = delete_order-Deleted b r w true s.linked here in
      let (b', c) =
        clear m rs b₁ (Deleted-IsSound r w b b₁ s d) apart (left_in m rs out here d all) in
      (b', both-Cleared m rs out here d b' is c)
