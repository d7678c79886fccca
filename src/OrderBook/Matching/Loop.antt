-- ===== src/OrderBook/Matching/Loop.antt =====
-- The loop of `match`: it ends, and leaves an order that is filled or crosses no level.
use rapid_trader.Base.{
  ℕ, zero, suc, ◌+◌, ◌≡◌, refl, sym, ap, ◌∙◌, ◌⊎◌, true, false, not, ◌&&◌, none, some, List, [],
  ◌∷◌, head?, length, arith, inl, inr, Bool-cases, Option-cases, ==→eq, ◌>>=◌, u64_mod, ◌<◌, ◌≤◌,
}
use rapid_trader.Containers.{Containers}
use rapid_trader.Level.{Level, refs, size}
use rapid_trader.Order.{Order, is_filled, execute}
use rapid_trader.OrderBook.{
  MapOrderBook, LevelMap, LevelIterator, levels, level_at, find_order, refs_count,
}
use rapid_trader.OrderBook.Maps.{book_volume, same_map, level_sum-get}
use rapid_trader.OrderBook.Invariant.{IsLinked, IsLive}
use rapid_trader.OrderBook.Linked.Write.{SameFiling}
use rapid_trader.OrderBook.Matching.{opposite, best_opposite, crosses, match_loop, match_step}
use rapid_trader.OrderBook.Matching.Trade.{best_level, front_order}
use rapid_trader.OrderBook.Matching.Advance.{Advance, match_step-Advance}

head?-pos : (xs : List ℕ) {x : ℕ} → head? xs ≡ some x → 0 < length xs
head?-pos [] e = cc
head?-pos (y ∷ xs) e = omega arith

module _ ⦃C : Containers⦄ where
  -- What the loop makes of the order `o` and the book `b`.
  pub record Matched (o o' : Order) (b b' : MapOrderBook) : Type 0 where
    pub linked : IsLinked b'
    pub live : IsLive b'
    pub filing : SameFiling o o'
    pub same_time_in_force : o'.time_in_force ≡ o.time_in_force
    pub not_more : o'.open_quantity ≤ o.open_quantity
    pub volume : book_volume b' + o.open_quantity ≡ book_volume b + o'.open_quantity
    pub done :
        (is_filled o' ≡ true)
        ⊎ ((p : ℕ) (l : Level) → best_opposite o b' ≡ some (p, l) → crosses o p ≡ false)
    pub last_price :
        (b'.last_traded_price ≡ b.last_traded_price) ⊎ (crosses o b'.last_traded_price ≡ true)
    pub same_symbol : b'.symbol_id ≡ b.symbol_id
    pub others : (m : LevelMap) → same_map (opposite o) m ≡ false → levels m b' ≡ levels m b
    pub no_new :
        (it : LevelIterator) (l' : Level)
        → level_at it b' ≡ some l'
        → (l : Level) × (level_at it b ≡ some l)
    pub still_free : (j : ℕ) → find_order j b ≡ none → find_order j b' ≡ none

  pub unmatched :
      {o : Order} {b : MapOrderBook}
      → IsLinked b
      → IsLive b
      → (is_filled o ≡ true)
        ⊎ ((p : ℕ) (l : Level) → best_opposite o b ≡ some (p, l) → crosses o p ≡ false)
      → Matched o o b b
  unmatched v live done = record {
    linked = v;
    live = live;
    filing = record {
      same_id = refl;
      same_symbol = refl;
      same_type = refl;
      same_side = refl;
      same_price = refl;
      same_stop_price = refl;
    };
    same_time_in_force = refl;
    not_more = omega arith;
    volume = refl;
    done = done;
    last_price = inl refl;
    same_symbol = refl;
    others = λ m n. refl;
    no_new = λ it l' e. (l', e);
    still_free = λ j e. e;
  }

  -- A round at a crossing price, and what the loop makes of the rest.
  pub execute-filing :
      {o o' : Order} (p q : ℕ)
      → o' ≡ execute p q o
      → SameFiling o o' × (o'.time_in_force ≡ o.time_in_force)
  unfolding execute
  execute-filing p q e = (
    record {
      same_id = ap (λ x. x.id) e;
      same_symbol = ap (λ x. x.symbol_id) e;
      same_type = ap (λ x. x.type) e;
      same_side = ap (λ x. x.side) e;
      same_price = ap (λ x. x.price) e;
      same_stop_price = ap (λ x. x.stop_price) e;
    },
    ap (λ x. x.time_in_force) e,
  )

  pub execute-open :
      (o o' : Order) (p q : ℕ)
      → o' ≡ execute p q o
      → q ≤ o.open_quantity
      → o.open_quantity < u64_mod
      → o'.open_quantity + q ≡ o.open_quantity
  unfolding execute
  execute-open o o' p q e le fits = omega (arith, ap (λ x. x.open_quantity) e)

  module _ {o o' : Order} (f : SameFiling o o') where
    pub same_opposite : opposite o' ≡ opposite o
    same_opposite = rw f.same_side

    same_crosses : (p : ℕ) → crosses o' p ≡ crosses o p
    same_crosses p = rw (f.same_side, f.same_price)

    same_best : (b : MapOrderBook) → best_opposite o' b ≡ best_opposite o b
    same_best b = rw f.same_side

    trans-filing : {o'' : Order} → SameFiling o' o'' → SameFiling o o''
    trans-filing g = record {
      same_id = g.same_id ∙ f.same_id;
      same_symbol = g.same_symbol ∙ f.same_symbol;
      same_type = g.same_type ∙ f.same_type;
      same_side = g.same_side ∙ f.same_side;
      same_price = g.same_price ∙ f.same_price;
      same_stop_price = g.same_stop_price ∙ f.same_stop_price;
    }

  -- A free ID stays free: a round takes away entries only.
  Advance-free :
      {o o' : Order} {b b' : MapOrderBook} {p q : ℕ} (a : Advance o o' b b' p q) (j : ℕ)
      → find_order j b ≡ none
      → find_order j b' ≡ none
  Advance-free a j e = ground (arith, a.untouched j, a.maker_here, ==→eq a.maker j)

  pub Advance-Matched :
      {o o' o'' : Order} {b b' b'' : MapOrderBook} {p q : ℕ}
      → o.open_quantity < u64_mod
      → crosses o p ≡ true
      → Advance o o' b b' p q
      → Matched o' o'' b' b''
      → Matched o o'' b b''
  Advance-Matched {o} {o'} {o''} {b} {b'} {b''} {p} {q} fits cross a m = record {
    linked = m.linked;
    live = m.live;
    filing = trans-filing f m.filing;
    same_time_in_force = m.same_time_in_force ∙ (execute-filing p q a.incoming).1;
    not_more = omega (arith, opened, m.not_more);
    volume = omega (arith, opened, m.volume, a.volume);
    done = done-back m.done;
    last_price = last-back m.last_price;
    same_symbol = m.same_symbol ∙ a.same_symbol;
    others = λ n e. m.others n (ap (λ x. same_map x n) (same_opposite f) ∙ e) ∙ a.others n e;
    no_new = λ it l' e. let (l, e') = m.no_new it l' e in a.no_new it l e';
    still_free = λ j e. m.still_free j (Advance-free a j e);
  }
    where
      f : SameFiling o o'
      f = (execute-filing p q a.incoming).0

      opened : o'.open_quantity + q ≡ o.open_quantity
      opened = execute-open o o' p q a.incoming a.within fits

      done-back :
          (is_filled o'' ≡ true)
            ⊎ ((p : ℕ) (l : Level) → best_opposite o' b'' ≡ some (p, l) → crosses o' p ≡ false)
          → (is_filled o'' ≡ true)
            ⊎ ((p : ℕ) (l : Level) → best_opposite o b'' ≡ some (p, l) → crosses o p ≡ false)
      done-back (inl e) = inl e
      done-back (inr k) = inr (λ x l e. sym (same_crosses f x) ∙ k x l (same_best f b'' ∙ e))

      last-back :
          (b''.last_traded_price ≡ b'.last_traded_price) ⊎ (crosses o' b''.last_traded_price ≡ true)
          → (b''.last_traded_price ≡ b.last_traded_price) ⊎ (crosses o b''.last_traded_price ≡ true)
      last-back (inl e) = inr (ap (crosses o) (e ∙ a.last_price) ∙ cross)
      last-back (inr c) = inr (sym (same_crosses f b''.last_traded_price) ∙ c)

  -- The best level holds a reference.
  pub refs-pos :
      {b : MapOrderBook} (o : Order) (v : IsLinked b) {p : ℕ} {l : Level}
      → best_opposite o b ≡ some (p, l)
      → 0 < refs_count (levels (opposite o) b)
  refs-pos {b} o v {p} {l} best =
      let (r, w, front, _, _, _) = front_order v o best in
      omega (
        arith,
        level_sum-get size p (levels (opposite o) b) l (best_level v o best),
        head?-pos (refs l) front,
      )

  -- The fuel is enough: more than the references on the other side, or any if nothing is to fill.
  abbrev pub IsFuelled : ℕ → Order → MapOrderBook → Type 0
  IsFuelled fuel o b =
      ((is_filled o ≡ true) × (0 < fuel)) ⊎ (refs_count (levels (opposite o) b) < fuel)

  module _ (fuel : ℕ) (o : Order) (b : MapOrderBook) where
    loop_ends : best_opposite o b ≡ none → match_loop (suc fuel) o b ≡ some (o, b)
    unfolding match_loop
    loop_ends e = rw (e, match_loop)

    module _ {p : ℕ} {l : Level} (best : best_opposite o b ≡ some (p, l)) where
      loop_stops :
          (crosses o p && not (is_filled o)) ≡ false → match_loop (suc fuel) o b ≡ some (o, b)
      unfolding match_loop
      loop_stops e = rw (best, match_loop, e)

      pub loop_goes_on :
          (crosses o p && not (is_filled o)) ≡ true
          → match_loop (suc fuel) o b ≡ (match_step o p l b >>= λ (o', b'). match_loop fuel o' b')
      unfolding match_loop
      loop_goes_on e = rw (best, match_loop, e)

      stopped :
          (crosses o p && not (is_filled o)) ≡ false
          → (is_filled o ≡ true)
            ⊎ ((p' : ℕ) (l' : Level) → best_opposite o b ≡ some (p', l') → crosses o p' ≡ false)
      stopped e = elim (Bool-cases (is_filled o)) [
        | inl filled ↦ inl filled
        | inr left ↦ inr (λ p' l' e'. ground arith)
      ]

      pub IsFuelled-on :
          {o' : Order} {b' : MapOrderBook} {q : ℕ}
          → IsLinked b
          → is_filled o ≡ false
          → IsFuelled (suc fuel) o b
          → Advance o o' b b' p q
          → IsFuelled fuel o' b'
      IsFuelled-on {o'} {b'} {q} v left (inl (filled, _)) a = absurd (cc)
      IsFuelled-on {o'} {b'} {q} v left (inr enough) a = go a.shrinks
        where
          go :
              (is_filled o' ≡ true)
                ⊎ (refs_count (levels (opposite o) b') < refs_count (levels (opposite o) b))
              → IsFuelled fuel o' b'
          go (inl filled) = inl (filled, omega (arith, refs-pos o v best))
          go (inr less) = inr (rw (same_opposite (execute-filing p q a.incoming).0) (omega arith))

  -- The loop returns if its fuel is enough, from every book that satisfies the invariant.
  pub match_loop-Matched :
      (fuel : ℕ) (o : Order) (b : MapOrderBook)
      → IsLinked b
      → IsLive b
      → o.open_quantity < u64_mod
      → IsFuelled fuel o b
      → (o' : Order) × (b' : MapOrderBook) × (match_loop fuel o b ≡ some (o', b'))
        × Matched o o' b b'
  match_loop-Matched zero o b v live fits fuelled = absurd (ground arith)
  match_loop-Matched (suc fuel) o b v live fits fuelled = elim (Option-cases (best_opposite o b)) [
    | inl e ↦ (o, b, loop_ends fuel o b e, unmatched v live (inr λ p l e'. cc))
    | inr ((p, l), best) ↦ elim (Bool-cases (crosses o p && not (is_filled o))) [
      | inl on ↦
          let left : is_filled o ≡ false = ground arith in
          let (o₁, b₁, q, step, a) = match_step-Advance b o p l v live best left fits in
          let opened : o₁.open_quantity + q ≡ o.open_quantity =
            execute-open o o₁ p q a.incoming a.within fits in
          let (o₂, b₂, run, m) =
            match_loop-Matched fuel o₁ b₁ a.linked a.live (omega arith)
              (IsFuelled-on fuel o b best v left fuelled a) in
          (
            o₂,
            b₂,
            loop_goes_on fuel o b best on ∙ rw step run,
            Advance-Matched fits (ground arith) a m,
          )
      | inr off ↦ (o, b, loop_stops fuel o b best off, unmatched v live (stopped fuel o b best off))
    ]
  ]
