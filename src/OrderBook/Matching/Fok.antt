-- ===== src/OrderBook/Matching/Fok.antt =====
-- `canMatchOrder`: its loop never moves to the next level.
use rapid_trader.Base.{
  ℕ, zero, suc, ◌+◌, min, ◌≡◌, ap, ◌∙◌, Bool, true, false, Option, none, some, arith, inl, inr,
  Bool-cases, Option-cases, u64_mod, add64, sub64, ◌<◌, ◌≤◌,
}
use rapid_trader.Containers.{Containers}
use rapid_trader.Level.{Level}
use rapid_trader.Order.{Order}
use rapid_trader.OrderBook.{MapOrderBook, level_at}
use rapid_trader.OrderBook.Invariant.{IsLinked, IsLive}
use rapid_trader.OrderBook.Invariant.Written.{open-le-volume}
use rapid_trader.OrderBook.Matching.{best_opposite, crosses, can_match_loop, can_match_order}
use rapid_trader.OrderBook.Matching.Trade.{best_level, front_order}

-- At a level with some volume the loop ends, and says yes.
can_match_loop-true :
    (fuel v required available : ℕ)
    → 0 < v
    → available ≤ required
    → required < u64_mod
    → required < available + fuel
    → can_match_loop fuel v required available ≡ some true
unfolding can_match_loop
can_match_loop-true zero v required available pos le fits enough = absurd (omega arith)
can_match_loop-true (suc fuel) v required available pos le fits enough = ground (
  arith,
  can_match_loop-true fuel v required (add64 available (min v (sub64 required available))) pos,
)

module _ ⦃C : Containers⦄ where
  abbrev pub best_crosses : Order → Option (ℕ × Level) → Bool
  best_crosses o none = false
  best_crosses o (some (p, l)) = crosses o p

  best-volume :
      {b : MapOrderBook} (v : IsLinked b) (live : IsLive b) (o : Order) {p : ℕ} {l : Level}
      → best_opposite o b ≡ some (p, l)
      → 0 < l.volume
  best-volume {b} v live o {p} {l} best =
      let (r, w, front, here, is, _) = front_order v o best in
      omega (
        arith,
        live r w here,
        open-le-volume v here (ap (λ i. level_at i b) is ∙ best_level v o best),
      )

  -- In a book that satisfies the invariant and holds no filled order, `canMatchOrder` returns for
  -- every order whose open quantity fits 64 bits, and answers whether the best level of the other
  -- side crosses the order, however much quantity the order asks for.
  pub can_match_order-crosses :
      (o : Order) (b : MapOrderBook)
      → IsLinked b
      → IsLive b
      → o.open_quantity < u64_mod
      → can_match_order o b ≡ some (best_crosses o (best_opposite o b))
  unfolding can_match_order
  can_match_order-crosses o b v live fits = elim (Option-cases (best_opposite o b)) [
    | inl e ↦ rw (e, can_match_order)
    | inr ((p, l), best) ↦ elim (Bool-cases (crosses o p)) [
      | inl c ↦
          rw (best, can_match_order, c)
            (can_match_loop-true (suc o.open_quantity) l.volume o.open_quantity 0
              (best-volume v live o best) (omega arith) fits (omega arith))
      | inr c ↦ rw (best, can_match_order, c)
    ]
  ]
