-- ===== src/OrderBook/Matching/Quotes.antt =====
-- `bestBid` and `bestAsk` as the bounds of the limit levels, and the spread between them.
use rapid_trader.Base.{
  ℕ, ◌≡◌, refl, ◌⊎◌, none, some, arith, inl, inr, Option-cases, u64_max, ◌<◌, ◌≤◌,
}
use rapid_trader.Containers.{Containers}
use rapid_trader.Level.{Level}
use rapid_trader.PriceMap.{begin, rbegin}
use rapid_trader.PriceMap.Laws.{
  begin-least, begin-none, rbegin-greatest, rbegin-none, begin-get, rbegin-get,
}
use rapid_trader.OrderBook.{MapOrderBook, LevelMap, level_at, best_bid, best_ask}
use rapid_trader.OrderBook.Invariant.{IsLinked}
use rapid_trader.OrderBook.Matching.Uncrossed.{IsUncrossed, ask_at, bid_at}

module _ ⦃C : Containers⦄ where
  -- What `bestBid` promises: a bound of all bid levels that is a bid level itself, or zero if
  -- there is none. And `bestAsk`, with the greatest price if there is none.
  pub record Quotes (b : MapOrderBook) : Type 0 where
    pub bid_bound : (p : ℕ) (l : Level) → level_at (bid_at p) b ≡ some l → p ≤ best_bid b
    pub bid_met :
        ((l : Level) × (level_at (bid_at (best_bid b)) b ≡ some l))
        ⊎ ((best_bid b ≡ 0) × ((p : ℕ) → level_at (bid_at p) b ≡ none))
    pub ask_bound : (p : ℕ) (l : Level) → level_at (ask_at p) b ≡ some l → best_ask b ≤ p
    pub ask_met :
        ((l : Level) × (level_at (ask_at (best_ask b)) b ≡ some l))
        ⊎ ((best_ask b ≡ u64_max) × ((p : ℕ) → level_at (ask_at p) b ≡ none))

  -- In a book that satisfies the invariant, `bestBid` is the greatest price of a bid level, or
  -- zero if there is none, and `bestAsk` the least price of an ask level, or 2^64 - 1 if there is
  -- none.
  pub best-Quotes : (b : MapOrderBook) → IsLinked b → Quotes b
  unfolding best_bid best_ask
  best-Quotes b v = record {
    bid_bound = λ p l here. elim (Option-cases (rbegin b.bid_levels)) [
      | inl e ↦ absurd (ground (arith, rbegin-none b.bid_levels e p, here))
      | inr ((q, m), e) ↦
          rw e (rbegin-greatest q 0 m b.bid_levels (v.ascending LevelMap.bid) e p l here)
    ];
    bid_met = elim (Option-cases (rbegin b.bid_levels)) [
      | inl e ↦ inr (rw e refl, rbegin-none b.bid_levels e)
      | inr ((q, m), e) ↦ inl (m, rw e (rbegin-get q 0 m b.bid_levels (v.ascending LevelMap.bid) e))
    ];
    ask_bound = λ p l here. elim (Option-cases (begin b.ask_levels)) [
      | inl e ↦ absurd (ground (arith, begin-none b.ask_levels e p, here))
      | inr ((q, m), e) ↦
          rw e (begin-least q 0 m b.ask_levels (v.ascending LevelMap.ask) e p l here)
    ];
    ask_met = elim (Option-cases (begin b.ask_levels)) [
      | inl e ↦ inr (rw e refl, begin-none b.ask_levels e)
      | inr ((q, m), e) ↦ inl (m, rw e (begin-get q m b.ask_levels e))
    ];
  }

  -- In a book that satisfies the invariant and is not crossed, the best bid is below the best
  -- ask, unless the best ask is zero or the best bid is the greatest price.
  pub best_bid-best_ask :
      (b : MapOrderBook)
      → IsLinked b
      → IsUncrossed b
      → 0 < best_ask b
      → best_bid b < u64_max
      → best_bid b < best_ask b
  best_bid-best_ask b v u pos small =
      let q = best-Quotes b v in
      elim q.ask_met [
        | inl (l, ask) ↦ elim q.bid_met [
          | inl (l', bid) ↦ u (best_ask b) (best_bid b) l l' ask bid
          | inr (nothing, _) ↦ omega (arith, nothing, pos)
        ]
        | inr (most, _) ↦ omega (arith, most, small)
      ]
