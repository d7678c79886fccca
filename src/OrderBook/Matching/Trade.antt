-- ===== src/OrderBook/Matching/Trade.antt =====
-- One trade between an incoming order and the order in front of the best level.
use rapid_trader.Base.{
  ℕ, min, ◌≡◌, refl, sym, ap, ◌∙◌, Bool, true, false, Option, none, some, List, [], ◌∷◌,
  if◌then◌else◌, arith, has, is_nil, head?, inl, inr, Bool-cases, u64_mod, ◌<◌, ◌≤◌,
}
use rapid_trader.Containers.{Containers}
use rapid_trader.Event.{Event}
use rapid_trader.Level
use rapid_trader.Level.{Level, refs}
use rapid_trader.Order.{Order, is_ask, execute}
use rapid_trader.PriceMap.Laws.{begin-get, rbegin-get}
use rapid_trader.OrderBook.{
  MapOrderBook, LevelMap, LevelIterator, OrderWrapper, level_at, find_order,
}
use rapid_trader.OrderBook.Storage.{map_of}
use rapid_trader.OrderBook.Linked.{key_of, it_of, refs_of, OrderFits}
use rapid_trader.OrderBook.Invariant.{IsLinked}
use rapid_trader.OrderBook.Invariant.Written.{Reduces}
use rapid_trader.OrderBook.Matching.{opposite, best_opposite, execute_against, execute_orders}

-- The quantity that two orders trade.
abbrev pub traded : Order → Order → ℕ
traded o resting = min o.open_quantity resting.open_quantity

min_comm : (a b : ℕ) → min a b ≡ min b a
min_comm a b = omega arith

-- The two notifications, the bid order's first: the list has the latest in front.
abbrev pub trade_events : Order → Order → List Event → List Event
trade_events o resting es =
    if is_ask o
    then Event.executed_order o ∷ Event.executed_order resting ∷ es
    else Event.executed_order resting ∷ Event.executed_order o ∷ es

pub head?-full :
    (xs : List ℕ) → is_nil xs ≡ false → (x : ℕ) × (head? xs ≡ some x) × (has x xs ≡ true)
head?-full [] e = cc
head?-full (x ∷ xs) e = (x, refl, ground arith)

pub it_of-some :
    (found : Option OrderWrapper) (it : LevelIterator)
    → it_of found ≡ some it
    → (w : OrderWrapper) × (found ≡ some w) × (w.level_it ≡ it)
it_of-some none it e = cc
it_of-some (some w) it e = (w, refl, ground arith)

-- An order that is filed in a limit map is filed by its price.
limit_key :
    (o : Order) (m : LevelMap) (ask : Bool)
    → map_of o.type (is_ask o) ≡ some m
    → m ≡ (if ask then LevelMap.bid else LevelMap.ask)
    → key_of o ≡ o.price
limit_key o m ask e f = ground arith

module _ ⦃C : Containers⦄ where
  pub best_it : Order → ℕ → LevelIterator
  best_it o p = record { map = opposite o; key = p }

  -- The book once the two orders have traded at `price`.
  abbrev pub after_trade : Order → Order → MapOrderBook → MapOrderBook
  after_trade o resting b =
      let q = traded o resting in
      record b {
        events =
            trade_events (execute resting.price q o) (execute resting.price q resting) b.events;
        last_traded_price = resting.price;
      }

  pub execute_against-trade :
      (o resting : Order) (b : MapOrderBook)
      → execute_against o resting b ≡ (
        execute resting.price (traded o resting) o,
        execute resting.price (traded o resting) resting,
        after_trade o resting b,
      )
  unfolding execute_orders execute
  execute_against-trade o resting b = elim (Bool-cases (is_ask o)) [
    | inl e ↦ rw e
    | inr e ↦ rw (e, min_comm resting.open_quantity o.open_quantity)
  ]

  pub best_level :
      {b : MapOrderBook} (v : IsLinked b) (o : Order) {p : ℕ} {l : Level}
      → best_opposite o b ≡ some (p, l)
      → level_at (record { map = opposite o; key = p }) b ≡ some l
  best_level {b} v o {p} {l} e = elim (Bool-cases (is_ask o)) [
    | inl ask ↦ rw ask (rbegin-get p 0 l b.bid_levels (v.ascending LevelMap.bid) (ground arith))
    | inr bid ↦ rw bid (begin-get p l b.ask_levels (ground arith))
  ]

  -- In front of the best level stands an order of the book that is filed there, at that price.
  pub front_order :
      {b : MapOrderBook} (v : IsLinked b) (o : Order) {p : ℕ} {l : Level}
      → best_opposite o b ≡ some (p, l)
      → (r : ℕ) × (w : OrderWrapper) × (Level.front l ≡ some r)
        × (find_order r b ≡ some w)
        × (w.level_it ≡ record { map = opposite o; key = p })
        × (w.order.price ≡ p)
  front_order {b} v o {p} {l} e =
      let it : LevelIterator = record { map = opposite o; key = p } in
      let there : level_at it b ≡ some l = best_level v o e in
      let (r, front, member) = head?-full (refs l) (v.linked.level_fits it l there).inhabited in
      let (w, here, is) =
        it_of-some (find_order r b) it
          (v.linked.listed r it (ap (λ x. has r (refs_of x)) there ∙ member)) in
      let fits : OrderFits b.symbol_id r w = v.linked.order_fits r w here in
      (
        r,
        w,
        front,
        here,
        is,
        sym (limit_key w.order w.level_it.map (is_ask o) fits.own_map (ap (λ i. i.map) is))
            ∙ fits.own_key
            ∙ ap (λ i. i.key) is,
      )

-- The resting order after a trade.
pub execute-Reduces :
    (w : OrderWrapper) (price q : ℕ)
    → q ≤ w.order.open_quantity
    → w.order.open_quantity < u64_mod
    → Reduces q w (record w { order = execute price q w.order })
unfolding execute
execute-Reduces w price q le fits = record {
  filing = record {
    same_id = refl;
    same_symbol = refl;
    same_type = refl;
    same_side = refl;
    same_price = refl;
    same_stop_price = refl;
  };
  same_level_it = refl;
  less = omega arith;
}
