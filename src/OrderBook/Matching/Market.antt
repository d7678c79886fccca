-- ===== src/OrderBook/Matching/Market.antt =====
-- `addMarketOrder` empties the other side or fills the order.
use rapid_trader.Base.{
  ℕ, ◌+◌, ◌≡◌, refl, ◌⊎◌, true, false, none, some, List, ◌∷◌, if◌then◌else◌, arith, inl, inr,
  u64_mod, u64_max, ◌<◌, ◌≤◌,
}
use rapid_trader.Containers.{Containers}
use rapid_trader.Event.{Event}
use rapid_trader.Level.{Level}
use rapid_trader.Order.{Order, is_ask, is_filled, set_price}
use rapid_trader.OrderBook.{MapOrderBook, LevelMap, levels, find_order, notify}
use rapid_trader.OrderBook.Maps.{book_volume}
use rapid_trader.OrderBook.Invariant.{IsLinked, IsLive, reprice-IsLinked}
use rapid_trader.OrderBook.Matching.{best_opposite, crosses, match, add_market_order}
use rapid_trader.OrderBook.Matching.Limit.{is_limit_map}
use rapid_trader.OrderBook.Matching.Whole.{match-Matched}
use rapid_trader.OrderBook.Matching.Uncrossed.{IsUncrossed, no_new-IsUncrossed}

-- The price that crosses every level.
abbrev pub any_price : Order → ℕ
any_price o = if is_ask o then 0 else u64_max

module _ ⦃C : Containers⦄ where
  -- A market order `o` of which `o'` is left after matching.
  pub record Marketed (o o' : Order) (b b' : MapOrderBook) : Type 0 where
    pub linked : IsLinked b'
    pub live : IsLive b'
    pub uncrossed : IsUncrossed b'
    pub not_more : o'.open_quantity ≤ o.open_quantity
    pub volume : book_volume b' + o.open_quantity ≡ book_volume b + o'.open_quantity
    pub filled_or_empty :
        (is_filled o' ≡ true)
        ⊎ ((p : ℕ) (l : Level) → best_opposite o b' ≡ some (p, l) → u64_max < p)
    pub not_kept : (j : ℕ) → find_order j b ≡ none → find_order j b' ≡ none
    pub others : (m : LevelMap) → is_limit_map m ≡ false → levels m b' ≡ levels m b
    pub same_symbol : b'.symbol_id ≡ b.symbol_id
    pub told : (es : List Event) × (b'.events ≡ Event.order_deleted o' ∷ es)

  crosses_all : (o : Order) (p : ℕ) → crosses (set_price (any_price o) o) p ≡ false → u64_max < p
  crosses_all o p e = ground (arith, e)

  add_market_order-match :
      (o o' : Order) (b b' : MapOrderBook)
      → match (set_price (any_price o) o) b ≡ some (o', b')
      → add_market_order o b ≡ some (notify (Event.order_deleted o') b')
  unfolding add_market_order
  add_market_order-match o o' b b' e = rw e

  -- In a build with `NDEBUG`, an order whose open quantity fits 64 bits, added as a market order to a book that satisfies
  -- the invariant, holds no filled order and is not crossed: `addMarketOrder` returns and keeps
  -- all three. The order is filled, or no level with a price below 2^64 - 1 or equal to it is left
  -- on the other side; what it filled is gone from the volume of the book; no entry is made for
  -- it, and the last event tells that it was deleted.
  pub add_market_order-Marketed :
      (o : Order) (b : MapOrderBook)
      → IsLinked b
      → IsLive b
      → IsUncrossed b
      → o.open_quantity < u64_mod
      → (o' : Order) × (b' : MapOrderBook) × (add_market_order o b ≡ some b') × Marketed o o' b b'
  add_market_order-Marketed o b v live uncrossed fits =
      let (o', b', run, m) = match-Matched (set_price (any_price o) o) b v live fits in
      (
        o',
        notify (Event.order_deleted o') b',
        add_market_order-match o o' b b' run,
        record {
          linked = reprice-IsLinked _ _ _ _ m.linked;
          live = m.live;
          uncrossed = no_new-IsUncrossed b b' m.no_new uncrossed;
          not_more = m.not_more;
          volume = m.volume;
          filled_or_empty = elim m.done [
            | inl filled ↦ inl filled
            | inr clear ↦ inr (λ p l best. crosses_all o p (clear p l best))
          ];
          not_kept = m.still_free;
          others = λ n e. m.others n (ground (arith, e));
          same_symbol = m.same_symbol;
          told = (b'.events, refl);
        },
      )
