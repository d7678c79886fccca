-- ===== src/OrderBook/Validation/Holds.antt =====
-- The assertions of `validateOrderBook` hold in a sound book whose stop orders wait.
use rapid_trader.Base.{
  ℕ, suc, ◌≡◌, refl, ap, ◌∙◌, Bool, true, false, Option, some, List, [], ◌∷◌, ltb, has, arith, inl,
  inr, Option-cases, u64_max, ◌<◌, ==_refl,
}
use rapid_trader.Containers.{Containers}
use rapid_trader.Level.{Level, LevelSide, level_is_ask, level_is_bid, refs}
use rapid_trader.Order.{Order, is_filled, is_ask}
use rapid_trader.PriceMap.{get, Ascending}
use rapid_trader.PriceMap.Laws.{get-bound, begin-least, begin-none, rbegin-greatest, rbegin-none}
use rapid_trader.OrderBook.{
  MapOrderBook, LevelMap, LevelIterator, levels, level_at, find_order, order_of, deref, best_bid,
  best_ask, last_traded_price_ask, last_traded_price_bid,
}
use rapid_trader.OrderBook.Storage.{map_of}
use rapid_trader.OrderBook.Linked.{refs_of, side_of_map}
use rapid_trader.OrderBook.Matching.Trade.{it_of-some}
use rapid_trader.OrderBook.Matching.Quotes.{best_bid-best_ask}
use rapid_trader.OrderBook.Stops.{next_stop}
use rapid_trader.OrderBook.Stops.Activate.{IsSound}
use rapid_trader.OrderBook.Stops.Reached.{IsUnreached}
use rapid_trader.OrderBook.Validation.{
  is_valid, validate_orders, limit_order_ok, stop_order_ok, trailing_stop_order_ok, level_ok,
  validate_levels, validate_limit_orders, validate_stop_orders, validate_trailing_stop_orders,
  validate_order_book,
}

validate_orders-all :
    (order_ok : Order → Bool) (find : ℕ → Option Order) (rs : List ℕ)
    → ((r : ℕ) → has r rs ≡ true → is_valid order_ok (find r) ≡ true)
    → validate_orders order_ok find rs ≡ true
validate_orders-all order_ok find [] all = refl
validate_orders-all order_ok find (r ∷ rs) all =
    ground (arith, all r, validate_orders-all order_ok find rs (λ a h. all a (ground arith)))

-- The test of the orders in a map of levels.
abbrev pub order_ok_in : LevelMap → Order → Bool
order_ok_in LevelMap.ask = limit_order_ok
order_ok_in LevelMap.bid = limit_order_ok
order_ok_in LevelMap.stop_ask = stop_order_ok
order_ok_in LevelMap.stop_bid = stop_order_ok
order_ok_in LevelMap.trailing_stop_ask = trailing_stop_order_ok
order_ok_in LevelMap.trailing_stop_bid = trailing_stop_order_ok

order_ok_filed :
    (o : Order) (m : LevelMap)
    → map_of o.type (is_ask o) ≡ some m
    → is_filled o ≡ false
    → order_ok_in m o ≡ true
order_ok_filed o m e left = ground (arith, e, left)

module _ ⦃C : Containers⦄ where
  validate_levels-all :
      (side_ok : LevelSide → Bool) (price_ok : ℕ → Bool) (order_ok : Order → Bool)
      (find : ℕ → Option Order) (lo : ℕ) (m : List (ℕ × Level))
      → Ascending lo m
      → ((p : ℕ) (l : Level)
          → get p m ≡ some l
          → level_ok side_ok price_ok order_ok find p l ≡ true)
      → validate_levels side_ok price_ok order_ok find m ≡ true
  unfolding get
  validate_levels-all side_ok price_ok order_ok find lo [] a all = refl
  validate_levels-all side_ok price_ok order_ok find lo ((p, l) ∷ m) a all =
      let here : level_ok side_ok price_ok order_ok find p l ≡ true = all p l (ground arith) in
      let rest : validate_levels side_ok price_ok order_ok find m ≡ true =
        validate_levels-all side_ok price_ok order_ok find (suc p) m a.1
          (λ q l' h. all q l' (ground (arith, get-bound q (suc p) m l' a.1 h, h))) in
      rw (here, rest) refl

  module _ {b : MapOrderBook} (s : IsSound b) (m : LevelMap) where
    filed_order :
        (it : LevelIterator) {l : Level}
        → it.map ≡ m
        → level_at it b ≡ some l
        → (r : ℕ) → has r (refs l) ≡ true
        → is_valid (order_ok_in m) (deref b r) ≡ true
    filed_order it {l} same there r h =
        let (w, here, is) =
          it_of-some (find_order r b) it
            (s.linked.linked.listed r it (ap (λ x. has r (refs_of x)) there ∙ h)) in
        ap (λ x. is_valid (order_ok_in m) (order_of x)) here
        ∙ order_ok_filed w.order m
            ((s.linked.linked.order_fits r w here).own_map ∙ ap some (ap (λ i. i.map) is ∙ same))
            (ground (arith, s.live r w here))

    level_ok-IsSound :
        (side_ok : LevelSide → Bool) (price_ok : ℕ → Bool) (p : ℕ) (l : Level)
        → side_ok (side_of_map m) ≡ true
        → price_ok p ≡ true
        → level_at (record { map = m; key = p }) b ≡ some l
        → level_ok side_ok price_ok (order_ok_in m) (deref b) p l ≡ true
    level_ok-IsSound side_ok price_ok p l side price there =
        let it : LevelIterator = record { map = m; key = p } in
        let fits = s.linked.linked.level_fits it l there in
        let orders : validate_orders (order_ok_in m) (deref b) (refs l) ≡ true =
          validate_orders-all (order_ok_in m) (deref b) (refs l) (filed_order it refl there) in
        rw (fits.inhabited, price, fits.own_price, ==_refl p, fits.own_side, side, orders) refl

    map_valid :
        (side_ok : LevelSide → Bool) (price_ok : ℕ → Bool)
        → side_ok (side_of_map m) ≡ true
        → ((p : ℕ) (l : Level)
            → level_at (record { map = m; key = p }) b ≡ some l
            → price_ok p ≡ true)
        → validate_levels side_ok price_ok (order_ok_in m) (deref b) (levels m b) ≡ true
    map_valid side_ok price_ok side price =
        validate_levels-all side_ok price_ok (order_ok_in m) (deref b) 0 (levels m b)
          (s.linked.ascending m)
          (λ p l h. level_ok-IsSound side_ok price_ok p l side (price p l h) h)

    -- The levels of a map that the market price does not reach.
    below_market :
        IsUnreached true m (last_traded_price_bid b) b
        → (p : ℕ) (l : Level) → level_at (record { map = m; key = p }) b ≡ some l
        → ltb p b.last_traded_price ≡ true
    below_market u p l here = elim (Option-cases (next_stop true (levels m b))) [
      | inl e ↦ absurd (ground (arith, rbegin-none (levels m b) e p, here))
      | inr ((q, l'), e) ↦
          ground
            (arith, u q l' e, rbegin-greatest q 0 l' (levels m b) (s.linked.ascending m) e p l here)
    ]

    above_market :
        IsUnreached false m (last_traded_price_ask b) b
        → (p : ℕ) (l : Level) → level_at (record { map = m; key = p }) b ≡ some l
        → ltb b.last_traded_price p ≡ true
    above_market u p l here = elim (Option-cases (next_stop false (levels m b))) [
      | inl e ↦ absurd (ground (arith, begin-none (levels m b) e p, here))
      | inr ((q, l'), e) ↦
          ground
            (arith, u q l' e, begin-least q 0 l' (levels m b) (s.linked.ascending m) e p l here)
    ]

  -- No stop level of a book is reached at the market price.
  pub record IsSettled (b : MapOrderBook) : Type 0 where
    pub stop_asks : IsUnreached true LevelMap.stop_ask (last_traded_price_bid b) b
    pub stop_bids : IsUnreached false LevelMap.stop_bid (last_traded_price_ask b) b
    pub trailing_asks : IsUnreached true LevelMap.trailing_stop_ask (last_traded_price_bid b) b
    pub trailing_bids : IsUnreached false LevelMap.trailing_stop_bid (last_traded_price_ask b) b

  -- In a sound book of which no stop level is reached at the market price, all assertions of
  -- `validateOrderBook` hold, if the best ask is not zero and the best bid is not the greatest
  -- price.
  pub validate_order_book-IsSettled :
      (b : MapOrderBook)
      → IsSound b
      → IsSettled b
      → 0 < best_ask b
      → best_bid b < u64_max
      → validate_order_book b ≡ true
  unfolding validate_order_book validate_limit_orders validate_stop_orders
      validate_trailing_stop_orders
  validate_order_book-IsSettled b s t pos small =
      rw
        (
          spread,
          map_valid s LevelMap.ask level_is_ask (λ p. true) refl (λ p l h. refl),
          map_valid s LevelMap.bid level_is_bid (λ p. true) refl (λ p l h. refl),
          map_valid s LevelMap.stop_ask level_is_ask _ refl
              (below_market s LevelMap.stop_ask t.stop_asks),
          map_valid s LevelMap.stop_bid level_is_bid _ refl
              (above_market s LevelMap.stop_bid t.stop_bids),
          map_valid s LevelMap.trailing_stop_ask level_is_ask _ refl
              (below_market s LevelMap.trailing_stop_ask t.trailing_asks),
          map_valid s LevelMap.trailing_stop_bid level_is_bid _ refl
              (above_market s LevelMap.trailing_stop_bid t.trailing_bids),
        )
        refl
    where
      spread : ltb (best_bid b) (best_ask b) ≡ true
      spread = ground (arith, best_bid-best_ask b s.linked s.uncrossed pos small)
