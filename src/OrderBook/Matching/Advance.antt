-- ===== src/OrderBook/Matching/Advance.antt =====
-- What a round of the loop of `match` achieves: a trade at the price of the best level, after
-- which the incoming order is filled or the other side holds one order less.
use rapid_trader.Base.{
  ℕ, ◌+◌, ◌≡◌, refl, ap, ◌∙◌, ◌⊎◌, true, false, Option, none, some, ◌==◌, if◌then◌else◌, arith, inl,
  inr, Bool-cases, Option-cases, ==→eq, ==_refl, u64_mod, ◌<◌, ◌≤◌,
}
use rapid_trader.Containers.{Containers}
use rapid_trader.Level
use rapid_trader.Level.{Level}
use rapid_trader.Order.{Order, is_filled, execute}
use rapid_trader.OrderBook.{
  MapOrderBook, LevelMap, LevelIterator, OrderWrapper, levels, level_at, find_order, refs_count,
}
use rapid_trader.OrderBook.Maps.{book_volume, same_map, same_it→eq}
use rapid_trader.OrderBook.Invariant.{IsLinked, IsLive}
use rapid_trader.OrderBook.Invariant.Deletion.{removed}
use rapid_trader.OrderBook.Invariant.Removed.{
  removed-IsLinked, book_volume-removed, levels-removed, refs_count-removed, level_at-removed,
}
use rapid_trader.OrderBook.Invariant.Written.{lowered}
use rapid_trader.OrderBook.Matching.{opposite, best_opposite, match_step}
use rapid_trader.OrderBook.Matching.Trade.{traded, front_order}
use rapid_trader.OrderBook.Matching.Round.{
  resting, entry, there, taken, finished, match_step-finished, taken-IsLinked, taken-volume,
  find-taken, level_at-taken, levels-taken, refs_count-taken, taken-last, taken-symbol, taken_here,
  taken_there, resting-le, finished_gone, finished-taken,
}

module _ ⦃C : Containers⦄ where
  -- From the order `o` and the book `b` to `o'` and `b'`, by a trade of `q` at the price `p`.
  pub record Advance (o o' : Order) (b b' : MapOrderBook) (p q : ℕ) : Type 0 where
    pub linked : IsLinked b'
    pub live : IsLive b'
    pub incoming : o' ≡ execute p q o
    pub some_traded : 0 < q
    pub within : q ≤ o.open_quantity
    pub volume : book_volume b' + q ≡ book_volume b
    pub shrinks :
        (is_filled o' ≡ true)
        ⊎ (refs_count (levels (opposite o) b') < refs_count (levels (opposite o) b))
    pub last_price : b'.last_traded_price ≡ p
    pub same_symbol : b'.symbol_id ≡ b.symbol_id
    pub others : (m : LevelMap) → same_map (opposite o) m ≡ false → levels m b' ≡ levels m b
    pub no_new :
        (it : LevelIterator) (l' : Level)
        → level_at it b' ≡ some l'
        → (l : Level) × (level_at it b ≡ some l)
    -- The order traded with, in front of the best level, and what is left of it.
    pub maker : ℕ
    pub maker_entry : OrderWrapper
    pub maker_level : Level
    pub maker_best : best_opposite o b ≡ some (p, maker_level)
    pub maker_first : Level.front maker_level ≡ some maker
    pub maker_here : find_order maker b ≡ some maker_entry
    pub amount : q ≡ traded o maker_entry.order
    pub maker_after : find_order maker b' ≡ (
        if is_filled (execute p q maker_entry.order)
        then none
        else some (record maker_entry { order = execute p q maker_entry.order }))
    pub untouched : (j : ℕ) → (maker == j) ≡ false → find_order j b' ≡ find_order j b

  module _ {b : MapOrderBook} (v : IsLinked b) (live : IsLive b) (o : Order) {p : ℕ} {l : Level}
      (best : best_opposite o b ≡ some (p, l)) {r : ℕ} {w : OrderWrapper}
      (front : Level.front l ≡ some r) (here : find_order r b ≡ some w)
      (is : w.level_it ≡ record { map = opposite o; key = p }) (priced : w.order.price ≡ p)
      (unfilled : is_filled o ≡ false) (fits : o.open_quantity < u64_mod) where
    some_taken : 0 < traded o w.order
    some_taken = ground (arith, live r w here)

    -- What the trade leaves of the resting order, which is priced at the level's price.
    abbrev left_of : ℕ → Option OrderWrapper
    left_of price =
        let rest = execute price (traded o w.order) w.order in
        if is_filled rest then none else some (record w { order = rest })

    left_at_price : {m : Option OrderWrapper} → m ≡ left_of w.order.price → m ≡ left_of p
    left_at_price h = h ∙ ap left_of priced

    -- If the resting order is not filled, the incoming one is.
    incoming_filled :
        is_filled (resting v o best front here is) ≡ false
        → is_filled (execute w.order.price (traded o w.order) o) ≡ true
    unfolding execute
    incoming_filled e = ground (arith, resting-le v o best front here is)

    resting_left :
        is_filled (resting v o best front here is) ≡ false
        → 0 < (resting v o best front here is).open_quantity
    resting_left e = ground arith

    still-IsLive :
        is_filled (resting v o best front here is) ≡ false → IsLive (taken v o best front here is)
    still-IsLive e j u f = elim (Bool-cases (r == j)) [
      | inl eq ↦
          let same : u ≡ entry v o best front here is =
            ground (arith, find-taken v o best front here is j) in
          rw same (resting_left e)
      | inr ne ↦ live j u (ground (arith, find-taken v o best front here is j))
    ]

    still-no_new :
        (it : LevelIterator) (l' : Level)
        → level_at it (taken v o best front here is) ≡ some l'
        → (m : Level) × (level_at it b ≡ some m)
    still-no_new it l' f = elim (Option-cases (level_at it b)) [
      | inl e ↦ absurd (ground (arith, level_at-taken v o best front here is it))
      | inr found ↦ found
    ]

    still-Advance :
        is_filled (resting v o best front here is) ≡ false
        → Advance o
            (execute w.order.price (traded o w.order) o)
            b
            (taken v o best front here is)
            p
            (traded o w.order)
    still-Advance e = record {
      linked = taken-IsLinked v o best front here is;
      live = still-IsLive e;
      incoming = ap (λ x. execute x (traded o w.order) o) priced;
      some_traded = some_taken;
      within = omega arith;
      volume = taken-volume v o best front here is;
      shrinks = inl (incoming_filled e);
      last_price = taken-last v o best front here is ∙ priced;
      same_symbol = taken-symbol v o best front here is;
      others = λ m n. levels-taken v o best front here is m (ap (λ i. same_map i.map m) is ∙ n);
      no_new = still-no_new;
      maker = r;
      maker_entry = w;
      maker_level = l;
      maker_best = best;
      maker_first = front;
      maker_here = here;
      amount = refl;
      maker_after = left_at_price (taken_here v o best front here is ∙ rw e);
      untouched = λ j n. find-taken v o best front here is j ∙ rw n;
    }

    -- The book without the resting order.
    abbrev gone : MapOrderBook
    gone =
        removed true r (entry v o best front here is) (lowered (traded o w.order) l)
          (taken v o best front here is)

    gone-find :
        (j : ℕ)
        → find_order j gone ≡ (if r == j then none else find_order j (taken v o best front here is))
    gone-find j = C.find-erase j r (taken v o best front here is).orders

    gone-IsLive : IsLive gone
    gone-IsLive j u f = elim (Bool-cases (r == j)) [
      | inl eq ↦ absurd (ground (arith, gone-find j))
      | inr ne ↦ live j u (ground (arith, gone-find j, find-taken v o best front here is j))
    ]

    gone-no_new :
        (it : LevelIterator) (l' : Level)
        → level_at it gone ≡ some l'
        → (m : Level) × (level_at it b ≡ some m)
    gone-no_new it l' f = elim (Option-cases (level_at it b)) [
      | inl e ↦ absurd (
          ground (
            arith,
            level_at-taken v o best front here is it,
            level_at-removed (taken-IsLinked v o best front here is)
                (taken_here v o best front here is) (taken_there v o best front here is) true it,
            there v o best front here is,
            same_it→eq w.level_it it,
          ))
      | inr found ↦ found
    ]

    gone-Advance :
        is_filled (resting v o best front here is) ≡ true
        → Advance o (execute w.order.price (traded o w.order) o) b gone p (traded o w.order)
    gone-Advance e = record {
      linked = removed-IsLinked tv th tt' true;
      live = gone-IsLive;
      incoming = ap (λ x. execute x (traded o w.order) o) priced;
      some_traded = some_taken;
      within = omega arith;
      volume = omega (
        arith,
        book_volume-removed tv th tt' true,
        taken-volume v o best front here is,
        ==→eq (resting v o best front here is).open_quantity 0 e,
      );
      shrinks = inr (
          rw (← ap (λ i. i.map) is) (
            omega (
              arith,
              refs_count-removed tv th tt' true,
              refs_count-taken v o best front here is w.level_it.map,
            )));
      last_price = taken-last v o best front here is ∙ priced;
      same_symbol = taken-symbol v o best front here is;
      others = λ m n.
          levels-removed tv th tt' true m (ap (λ i. same_map i.map m) is ∙ n)
          ∙ levels-taken v o best front here is m (ap (λ i. same_map i.map m) is ∙ n);
      no_new = gone-no_new;
      maker = r;
      maker_entry = w;
      maker_level = l;
      maker_best = best;
      maker_first = front;
      maker_here = here;
      amount = refl;
      maker_after = left_at_price (gone-find r ∙ rw (e, ==_refl r));
      untouched = λ j n. gone-find j ∙ rw n (find-taken v o best front here is j ∙ rw n);
    }
      where
        tv : IsLinked (taken v o best front here is)
        tv = taken-IsLinked v o best front here is

        th : find_order r (taken v o best front here is) ≡ some (entry v o best front here is)
        th = taken_here v o best front here is

        tt' :
            level_at w.level_it (taken v o best front here is) ≡ some (lowered (traded o w.order) l)
        tt' = taken_there v o best front here is

-- In a build with `NDEBUG`, a round of the matching loop, in a book that satisfies the invariant and holds no filled order,
-- with an order that is not filled and whose open quantity fits 64 bits, does not fail: it trades
-- with the order in front of the best level, at that level's price, as much as both orders allow.
-- The resting order is gone if it is filled and else less by that much, every other entry is as it
-- was, and the book that is left satisfies both conditions.
pub match_step-Advance :
    ⦃C : Containers⦄ (b : MapOrderBook) (o : Order) (p : ℕ) (l : Level)
    → IsLinked b
    → IsLive b
    → best_opposite o b ≡ some (p, l)
    → is_filled o ≡ false
    → o.open_quantity < u64_mod
    → (o' : Order) × (b' : MapOrderBook) × (q : ℕ) × (match_step o p l b ≡ some (o', b'))
      × Advance o o' b b' p q
match_step-Advance b o p l v live best unfilled fits =
    let (r, w, front, here, is, priced) = front_order v o best in
    let result = match_step-finished v o best front here is in
    elim (Bool-cases (is_filled (resting v o best front here is))) [
      | inl e ↦ (
        execute w.order.price (traded o w.order) o,
        finished v o best front here is,
        traded o w.order,
        result,
        rw (finished_gone v o best front here is e)
            (gone-Advance v live o best front here is priced unfilled fits e),
      )
      | inr e ↦ (
        execute w.order.price (traded o w.order) o,
        finished v o best front here is,
        traded o w.order,
        result,
        rw (finished-taken v o best front here is e)
            (still-Advance v live o best front here is priced unfilled fits e),
      )
    ]
