-- ===== src/OrderBook/Matching/Whole.antt =====
-- `match` as a whole, for every time in force.
use rapid_trader.Base.{
  ℕ, suc, ◌+◌, ◌≡◌, sym, ap, ◌∙◌, true, false, Option, some, arith, inl, inr, Bool-cases, u64_mod,
  ◌<◌, not, ◌&&◌,
}
use rapid_trader.Containers.{Containers}
use rapid_trader.Level.{Level}
use rapid_trader.Order.{Order, is_fok, is_filled}
use rapid_trader.OrderBook.{MapOrderBook, levels, refs_count}
use rapid_trader.OrderBook.Maps.{book_volume}
use rapid_trader.OrderBook.Invariant.{IsLinked, IsLive}
use rapid_trader.OrderBook.Matching.{
  opposite, best_opposite, crosses, can_match_order, match_loop, match,
}
use rapid_trader.OrderBook.Matching.Advance.{match_step-Advance}
use rapid_trader.OrderBook.Matching.Fok.{best_crosses, can_match_order-crosses}
use rapid_trader.OrderBook.Matching.Loop.{
  Matched, unmatched, match_loop-Matched, loop_goes_on, IsFuelled-on, execute-open,
}

module _ ⦃C : Containers⦄ where
  loop : Order → MapOrderBook → Option (Order × MapOrderBook)
  loop o b = match_loop (suc (refs_count (levels (opposite o) b))) o b

  match_plain : (o : Order) (b : MapOrderBook) → is_fok o ≡ false → match o b ≡ loop o b
  unfolding match loop
  match_plain o b e = rw e

  match_can :
      (o : Order) (b : MapOrderBook)
      → is_fok o ≡ true
      → can_match_order o b ≡ some true
      → match o b ≡ loop o b
  unfolding match loop
  match_can o b e c = rw (e, c)

  match_cannot :
      (o : Order) (b : MapOrderBook)
      → is_fok o ≡ true
      → can_match_order o b ≡ some false
      → match o b ≡ some (o, b)
  unfolding match
  match_cannot o b e c = rw (e, c)

  uncrossing :
      (o : Order) (b : MapOrderBook)
      → best_crosses o (best_opposite o b) ≡ false
      → (p : ℕ) (l : Level) → best_opposite o b ≡ some (p, l)
      → crosses o p ≡ false
  uncrossing o b e p l best = sym (ap (best_crosses o) best) ∙ e

  -- In a build with `NDEBUG`, `match` returns from every book that satisfies the invariant and holds no filled order, for
  -- every order whose open quantity fits 64 bits. It keeps both conditions; the order is filled or
  -- crosses no level of the other side; the order and the book lose the same quantity; the maps
  -- but that of the other side are as they were, no level and no entry is new, and the last traded
  -- price is as it was or within the order's limit.
  pub match-Matched :
      (o : Order) (b : MapOrderBook)
      → IsLinked b
      → IsLive b
      → o.open_quantity < u64_mod
      → (o' : Order) × (b' : MapOrderBook) × (match o b ≡ some (o', b')) × Matched o o' b b'
  match-Matched o b v live fits =
      let (o', b', run, m) =
        match_loop-Matched (suc (refs_count (levels (opposite o) b))) o b v live fits
          (inr (omega arith)) in
      let run' : loop o b ≡ some (o', b') = unfold loop in run in
      elim (Bool-cases (is_fok o)) [
        | inr plain ↦ (o', b', match_plain o b plain ∙ run', m)
        | inl fok ↦ elim (Bool-cases (best_crosses o (best_opposite o b))) [
          | inl c ↦ (
            o',
            b',
            match_can o b fok (can_match_order-crosses o b v live fits ∙ ap some c) ∙ run',
            m,
          )
          | inr c ↦ (
            o,
            b,
            match_cannot o b fok (can_match_order-crosses o b v live fits ∙ ap some c),
            unmatched v live (inr (uncrossing o b c)),
          )
        ]
      ]

  -- In a book that satisfies the invariant and holds no filled order, a fill-or-kill order that
  -- crosses the best level and asks for more than the whole book holds, but at most for what fits
  -- 64 bits, is not killed: it is filled in part.
  pub match_fok_partial :
      (o : Order) (b : MapOrderBook) (p : ℕ) (l : Level)
      → IsLinked b
      → IsLive b
      → is_fok o ≡ true
      → best_opposite o b ≡ some (p, l)
      → crosses o p ≡ true
      → book_volume b < o.open_quantity
      → o.open_quantity < u64_mod
      → (o' : Order) × (b' : MapOrderBook) × (match o b ≡ some (o', b'))
        × (0 < o'.open_quantity)
        × (o'.open_quantity < o.open_quantity)
  match_fok_partial o b p l v live fok best cross more fits =
      let left : is_filled o ≡ false = ground arith in
      let fuel = refs_count (levels (opposite o) b) in
      let (o₁, b₁, q, step, a) = match_step-Advance b o p l v live best left fits in
      let opened : o₁.open_quantity + q ≡ o.open_quantity =
        execute-open o o₁ p q a.incoming a.within fits in
      let (o₂, b₂, run, m) =
        match_loop-Matched fuel o₁ b₁ a.linked a.live (omega arith)
          (IsFuelled-on fuel o b best v left (inr (omega arith)) a) in
      let on : (crosses o p && not (is_filled o)) ≡ true = ground arith in
      let whole : loop o b ≡ some (o₂, b₂) =
        unfold loop in loop_goes_on fuel o b best on ∙ rw step run in
      (
        o₂,
        b₂,
        match_can o b fok
              (can_match_order-crosses o b v live fits ∙ ap some (ap (best_crosses o) best ∙ cross))
            ∙ whole,
        omega (arith, opened, m.volume, a.volume, a.some_traded),
        omega (arith, opened, m.not_more, a.some_traded),
      )
