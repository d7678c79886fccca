-- ===== src/OrderBook/Stops/Activate.antt =====
-- `activateStopOrder`: a stop order leaves the stop levels and is matched as what it becomes.
use rapid_trader.Base.{
  ℕ, ◌+◌, ◌≡◌, refl, sym, ap, ◌∙◌, true, false, ◌||◌, some, arith, inl, inr, Bool-cases, u64_mod,
  ◌<◌, if◌then◌else◌,
}
use rapid_trader.Containers.{Containers}
use rapid_trader.Event.{Event}
use rapid_trader.Order.{Order, OrderType, is_stop, is_trailing_stop}
use rapid_trader.OrderBook.{
  MapOrderBook, LevelMap, OrderWrapper, levels, find_order, notify, refs_count,
}
use rapid_trader.OrderBook.Maps.{same_map}
use rapid_trader.OrderBook.Storage.{delete_order}
use rapid_trader.OrderBook.Invariant.{IsLinked, IsLive, reprice-IsLinked}
use rapid_trader.OrderBook.Invariant.Deleted.{Deleted, delete_order-Deleted}
use rapid_trader.OrderBook.Matching.{add_limit_order, add_market_order}
use rapid_trader.OrderBook.Matching.Uncrossed.{IsUncrossed, no_new-IsUncrossed}
use rapid_trader.OrderBook.Matching.Limit.{Accepts, is_limit_map, add_limit_order-Limited}
use rapid_trader.OrderBook.Matching.Market.{add_market_order-Marketed}
use rapid_trader.OrderBook.Matching.Taken.{Taken}
use rapid_trader.OrderBook.Stops.{converted, activate_stop_order}

module _ ⦃C : Containers⦄ where
  -- The three conditions on a book between two operations.
  pub record IsSound (b : MapOrderBook) : Type 0 where
    pub linked : IsLinked b
    pub live : IsLive b
    pub uncrossed : IsUncrossed b

  -- The order that a stop order becomes.
  abbrev pub as_limit_or_market : Order → Order
  as_limit_or_market o = record o {
    type = if is_stop o || is_trailing_stop o then OrderType.market else OrderType.limit;
    stop_price = 0;
    trail_amount = 0;
  }

  -- What the activation of a stop order in the map `m` achieves.
  pub record Activated (m : LevelMap) (b b' : MapOrderBook) : Type 0 where
    pub sound : IsSound b'
    pub one_less : refs_count (levels m b') + 1 ≡ refs_count (levels m b)
    pub others :
        (n : LevelMap) → is_limit_map n ≡ false → same_map m n ≡ false → levels n b' ≡ levels n b
    pub same_symbol : b'.symbol_id ≡ b.symbol_id

  module _ {b : MapOrderBook} (s : IsSound b) {r : ℕ} {w : OrderWrapper}
      (here : find_order r b ≡ some w) (stop : is_limit_map w.level_it.map ≡ false)
      {b₁ : MapOrderBook} (d : Deleted r w b b₁) where
    abbrev told : MapOrderBook
    told = notify (Event.order_updated (converted w.order)) b₁

    deleted-IsLive : IsLive b₁
    deleted-IsLive j x e = ground (arith, d.entries j, s.live j x, e)

    deleted-IsUncrossed : IsUncrossed b₁
    deleted-IsUncrossed = no_new-IsUncrossed b b₁ d.no_new s.uncrossed

    converted_fits : (converted w.order).open_quantity < u64_mod
    converted_fits = omega (arith, d.volume, s.linked.bounded)

    converted-Accepts :
        (is_stop w.order || is_trailing_stop w.order) ≡ false → Accepts (converted w.order) told
    converted-Accepts e = record {
      linked = reprice-IsLinked _ _ _ _ d.linked;
      live = deleted-IsLive;
      uncrossed = deleted-IsUncrossed;
      is_limit = rw e refl;
      symbol = (s.linked.linked.order_fits r w here).own_symbol ∙ sym d.same_symbol;
      free =
          ap (λ j. find_order j b₁) (s.linked.linked.order_fits r w here).own_id
          ∙ ground (arith, d.entries r);
      room = omega (arith, d.volume, s.linked.bounded);
    }

    -- What holds of the book that is matched against holds of the result.
    activated :
        (b' : MapOrderBook)
        → IsSound b'
        → ((n : LevelMap) → is_limit_map n ≡ false → levels n b' ≡ levels n b₁)
        → b'.symbol_id ≡ b₁.symbol_id
        → Activated w.level_it.map b b'
    activated b' sound same symbol = record {
      sound = sound;
      one_less = ap (λ m. refs_count m + 1) (same w.level_it.map stop) ∙ d.refs_left;
      others = λ n e k. same n e ∙ d.others n k;
      same_symbol = symbol ∙ d.same_symbol;
    }

    activate_as_market :
        (is_stop w.order || is_trailing_stop w.order) ≡ true
        → delete_order w.order.id false b ≡ some b₁
        → activate_stop_order w.order b ≡ add_market_order (converted w.order) told
    unfolding activate_stop_order
    activate_as_market e gone = rw (gone, e) refl

    activate_as_limit :
        (is_stop w.order || is_trailing_stop w.order) ≡ false
        → delete_order w.order.id false b ≡ some b₁
        → activate_stop_order w.order b ≡ add_limit_order (converted w.order) told
    unfolding activate_stop_order
    activate_as_limit e gone = rw (gone, e) refl

    activate-Activated :
        delete_order w.order.id false b ≡ some b₁
        → (b' : MapOrderBook) × (activate_stop_order w.order b ≡ some b')
          × Taken (converted w.order) told b'
          × Activated w.level_it.map b b'
    activate-Activated gone = elim (Bool-cases (is_stop w.order || is_trailing_stop w.order)) [
      | inl e ↦
          let (o', b', run, m) =
            add_market_order-Marketed (converted w.order) told (reprice-IsLinked _ _ _ _ d.linked)
              deleted-IsLive deleted-IsUncrossed converted_fits in
          (
            b',
            activate_as_market e gone ∙ run,
            Taken.as_market (rw e refl) o' m,
            activated b' (record { linked = m.linked; live = m.live; uncrossed = m.uncrossed })
                m.others m.same_symbol,
          )
      | inr e ↦
          let (o', b', run, m) =
            add_limit_order-Limited (converted w.order) told (converted-Accepts e) in
          (
            b',
            activate_as_limit e gone ∙ run,
            Taken.as_limit (rw e refl) o' m,
            activated b' (record { linked = m.linked; live = m.live; uncrossed = m.uncrossed })
                m.others m.same_symbol,
          )
    ]

  pub activate_stop_order-Activated :
      (b : MapOrderBook) (r : ℕ) (w : OrderWrapper)
      → IsSound b
      → find_order r b ≡ some w
      → is_limit_map w.level_it.map ≡ false
      → (b₁ : MapOrderBook) × (b' : MapOrderBook) × Deleted r w b b₁
        × (activate_stop_order w.order b ≡ some b')
        × Taken
            (as_limit_or_market w.order)
            (notify (Event.order_updated (as_limit_or_market w.order)) b₁)
            b'
        × Activated w.level_it.map b b'
  activate_stop_order-Activated b r w s here stop =
      let (b₁, gone, d) = delete_order-Deleted b r w false s.linked here in
      let (b', run, taken, a) =
        activate-Activated s here stop d
          (ap (λ j. delete_order j false b) (s.linked.linked.order_fits r w here).own_id ∙ gone) in
      (b₁, b', d, run, taken, a)
