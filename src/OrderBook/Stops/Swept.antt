-- ===== src/OrderBook/Stops/Swept.antt =====
-- `activateBidStopOrders` and `activateAskStopOrders` as wholes: two loops, over the stop levels
-- and over the trailing stop levels.
use rapid_trader.Base.{
  ℕ, suc, ◌+◌, ◌≡◌, refl, subst, ap, ◌∙◌, ◌⊎◌, Bool, true, false, some, arith, inl, inr, ◌<◌,
}
use rapid_trader.Containers.{Containers}
use rapid_trader.OrderBook.{
  MapOrderBook, LevelMap, levels, refs_count, last_traded_price_ask, last_traded_price_bid,
}
use rapid_trader.OrderBook.Maps.{same_map}
use rapid_trader.OrderBook.Matching.Limit.{is_limit_map}
use rapid_trader.OrderBook.Stops.{activate_bid_stop_orders, activate_ask_stop_orders, stop_count}
use rapid_trader.OrderBook.Stops.Activate.{IsSound}
use rapid_trader.OrderBook.Stops.Reached.{Emptied, IsUnreached, activate_loop-Emptied}

module _ ⦃C : Containers⦄ where
  -- What the loops over the maps `m` and `n` of one side achieve: either they activated orders,
  -- or they did nothing, and there was nothing to do.
  pub record Swept (ask : Bool) (m n : LevelMap) (last : ℕ) (activated : Bool) (b b' : MapOrderBook)
      : Type 0 where
    pub sound : IsSound b'
    pub progress :
        ((activated ≡ true)
          × (refs_count (levels m b') + refs_count (levels n b')
              < refs_count (levels m b) + refs_count (levels n b)))
        ⊎ ((activated ≡ false) × (b' ≡ b) × IsUnreached ask m last b × IsUnreached ask n last b)
    pub others :
        (k : LevelMap)
        → is_limit_map k ≡ false
        → same_map m k ≡ false
        → same_map n k ≡ false
        → levels k b' ≡ levels k b
    pub same_symbol : b'.symbol_id ≡ b.symbol_id

  module _ (ask : Bool) (m n : LevelMap) (price : MapOrderBook → ℕ) {b b₁ b₂ : MapOrderBook}
      {a₁ a₂ : Bool} (apart : same_map m n ≡ false) (apart' : same_map n m ≡ false)
      (stop : is_limit_map m ≡ false) (stop' : is_limit_map n ≡ false)
      (t : Emptied ask m (price b) false a₁ b b₁) (t' : Emptied ask n (price b₁) a₁ a₂ b₁ b₂) where
    second_map : refs_count (levels n b₁) ≡ refs_count (levels n b)
    second_map = ap refs_count (t.others n stop' apart)

    first_map : refs_count (levels m b₂) ≡ refs_count (levels m b₁)
    first_map = ap refs_count (t'.others m stop apart')

    swept_progress :
        ((a₂ ≡ true)
          × (refs_count (levels m b₂) + refs_count (levels n b₂)
              < refs_count (levels m b) + refs_count (levels n b)))
        ⊎ ((a₂ ≡ false) × (b₂ ≡ b) × IsUnreached ask m (price b) b × IsUnreached ask n (price b) b)
    swept_progress = elim t.progress [
      | inl (e, less) ↦ elim t'.progress [
        | inl (e', less') ↦ inl (e', omega (arith, less, less', second_map, first_map))
        | inr (e', same) ↦ inl (e' ∙ e, rw same (omega (arith, less, second_map)))
      ]
      | inr (e, same) ↦ elim t'.progress [
        | inl (e', less') ↦ inl (
          e',
          omega (arith, ap (λ x. refs_count (levels m x)) same, less', second_map, first_map),
        )
        | inr (e', same') ↦ inr (
          e' ∙ e,
          same' ∙ same,
          subst (λ x. IsUnreached ask m (price b) x) same t.unreached,
          subst (λ x. IsUnreached ask n (price x) x) same
              (subst (λ x. IsUnreached ask n (price b₁) x) same' t'.unreached),
        )
      ]
    ]

    two-Swept : Swept ask m n (price b) a₂ b b₂
    two-Swept = record {
      sound = t'.sound;
      progress = swept_progress;
      others = λ k e d d'. t'.others k e d' ∙ t.others k e d;
      same_symbol = t'.same_symbol ∙ t.same_symbol;
    }

  -- In a build with `NDEBUG`, `activateBidStopOrders` on a sound book returns, with a sound book. If it answers true, the
  -- stop levels of the bid side hold fewer orders; if it answers false, the book is as it was and
  -- the market price reaches none of these levels. The other stop levels are as they were.
  pub activate_bid_stop_orders-Swept :
      (b : MapOrderBook)
      → IsSound b
      → (activated : Bool) × (b' : MapOrderBook) × (activate_bid_stop_orders b
          ≡ some (activated, b'))
        × Swept false LevelMap.stop_bid LevelMap.trailing_stop_bid
            (last_traded_price_ask b)
            activated
            b
            b'
  unfolding activate_bid_stop_orders
  activate_bid_stop_orders-Swept b s =
      let (a₁, b₁, run, t) =
        activate_loop-Emptied (suc (stop_count b)) false LevelMap.stop_bid (last_traded_price_ask b)
          false b s refl (omega arith) in
      let (a₂, b₂, run', t') =
        activate_loop-Emptied (suc (stop_count b)) false LevelMap.trailing_stop_bid
          (last_traded_price_ask b₁) a₁ b₁ t.sound refl
          (omega (arith, ap refs_count (t.others LevelMap.trailing_stop_bid refl refl))) in
      (
        a₂,
        b₂,
        rw (run, run') refl,
        two-Swept false LevelMap.stop_bid LevelMap.trailing_stop_bid last_traded_price_ask refl refl
            refl refl t t',
      )

  -- In a build with `NDEBUG`, `activateAskStopOrders` on a sound book returns, with a sound book. If it answers true, the
  -- stop levels of the ask side hold fewer orders; if it answers false, the book is as it was and
  -- the market price reaches none of these levels. The other stop levels are as they were.
  pub activate_ask_stop_orders-Swept :
      (b : MapOrderBook)
      → IsSound b
      → (activated : Bool) × (b' : MapOrderBook) × (activate_ask_stop_orders b
          ≡ some (activated, b'))
        × Swept true LevelMap.stop_ask LevelMap.trailing_stop_ask
            (last_traded_price_bid b)
            activated
            b
            b'
  unfolding activate_ask_stop_orders
  activate_ask_stop_orders-Swept b s =
      let (a₁, b₁, run, t) =
        activate_loop-Emptied (suc (stop_count b)) true LevelMap.stop_ask (last_traded_price_bid b)
          false b s refl (omega arith) in
      let (a₂, b₂, run', t') =
        activate_loop-Emptied (suc (stop_count b)) true LevelMap.trailing_stop_ask
          (last_traded_price_bid b₁) a₁ b₁ t.sound refl
          (omega (arith, ap refs_count (t.others LevelMap.trailing_stop_ask refl refl))) in
      (
        a₂,
        b₂,
        rw (run, run') refl,
        two-Swept true LevelMap.stop_ask LevelMap.trailing_stop_ask last_traded_price_bid refl refl
            refl refl t t',
      )
