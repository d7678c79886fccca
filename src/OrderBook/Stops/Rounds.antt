-- ===== src/OrderBook/Stops/Rounds.antt =====
-- `activateStopOrders`: its rounds end.
use rapid_trader.Base.{
  ℕ, zero, suc, ◌+◌, ◌≡◌, ◌<◌, ◌⊎◌, refl, sym, ap, ◌∙◌, subst, Bool, true, false, ◌||◌, some, arith,
  inl, inr, if◌then◌else◌, ◌==◌, u64_max,
}
use rapid_trader.Containers.{Containers}
use rapid_trader.OrderBook.{
  MapOrderBook, LevelMap, levels, refs_count, last_traded_price_ask, last_traded_price_bid,
}
use rapid_trader.OrderBook.Stops.{
  activate_round, activate_rounds, activate_stop_orders, stop_count, next_stop, reached,
}
use rapid_trader.OrderBook.Stops.Activate.{IsSound}
use rapid_trader.OrderBook.Stops.Reached.{IsUnreached}
use rapid_trader.OrderBook.Stops.Swept.{
  Swept, activate_bid_stop_orders-Swept, activate_ask_stop_orders-Swept,
}
use rapid_trader.OrderBook.Stops.Trailing.Updated.{
  Updated, update_bid_stop_orders-Updated, update_ask_stop_orders-Updated,
}

module _ ⦃C : Containers⦄ where
  -- The references in the stop levels of one side, and in those of the other.
  abbrev bid_count : MapOrderBook → ℕ
  bid_count b =
      refs_count (levels LevelMap.stop_bid b) + refs_count (levels LevelMap.trailing_stop_bid b)

  abbrev ask_count : MapOrderBook → ℕ
  ask_count b =
      refs_count (levels LevelMap.stop_ask b) + refs_count (levels LevelMap.trailing_stop_ask b)

  -- The market price reaches no stop level, and no trailing stop level of the ask side.
  pub record Rested (b : MapOrderBook) : Type 0 where
    pub stop_asks : IsUnreached true LevelMap.stop_ask (last_traded_price_bid b) b
    pub stop_bids : IsUnreached false LevelMap.stop_bid (last_traded_price_ask b) b
    pub trailing_asks : IsUnreached true LevelMap.trailing_stop_ask (last_traded_price_bid b) b

  IsUnreached-same :
      (ask : Bool) (m : LevelMap) (last last' : ℕ) (b b' : MapOrderBook)
      → levels m b' ≡ levels m b
      → last' ≡ last
      → IsUnreached ask m last b
      → IsUnreached ask m last' b'
  IsUnreached-same ask m last last' b b' lv el h p l e =
      subst (λ x. reached ask x p ≡ false) (sym el) (h p l (ap (next_stop ask) (sym lv) ∙ e))

  ask_price-same :
      (b b' : MapOrderBook)
      → b'.last_traded_price ≡ b.last_traded_price
      → last_traded_price_ask b' ≡ last_traded_price_ask b
  ask_price-same b b' e = ap (λ x. if x == 0 then u64_max else x) e

  -- What a round achieves: fewer stop orders are left, or none is reached.
  record Rounded (activated : Bool) (b b' : MapOrderBook) : Type 0 where
    sound : IsSound b'
    progress :
        ((activated ≡ true) × (stop_count b' < stop_count b)) ⊎ ((activated ≡ false) × Rested b')
    same_symbol : b'.symbol_id ≡ b.symbol_id

  module _ {b b₁ b₂ b₃ b₄ : MapOrderBook} {bids asks : Bool}
      (t : Swept false LevelMap.stop_bid LevelMap.trailing_stop_bid
        (last_traded_price_ask b)
        bids
        b
        b₁)
      (u : Updated LevelMap.trailing_stop_ask b₁ b₂)
      (t' : Swept true LevelMap.stop_ask LevelMap.trailing_stop_ask
        (last_traded_price_bid b₂)
        asks
        b₂
        b₃)
      (u' : Updated LevelMap.trailing_stop_bid b₃ b₄) where
    asks_left : ask_count b₁ ≡ ask_count b
    asks_left =
        ap (λ l. refs_count l + refs_count (levels LevelMap.trailing_stop_ask b₁))
          (t.others LevelMap.stop_ask refl refl refl)
        ∙ ap (λ l. refs_count (levels LevelMap.stop_ask b) + refs_count l)
            (t.others LevelMap.trailing_stop_ask refl refl refl)

    bids_left : bid_count b₃ ≡ bid_count b₂
    bids_left =
        ap (λ l. refs_count l + refs_count (levels LevelMap.trailing_stop_bid b₃))
          (t'.others LevelMap.stop_bid refl refl refl)
        ∙ ap (λ l. refs_count (levels LevelMap.stop_bid b₂) + refs_count l)
            (t'.others LevelMap.trailing_stop_bid refl refl refl)

    updated_bids : bid_count b₂ ≡ bid_count b₁
    updated_bids =
        let p = u.counts LevelMap.stop_bid in
        let q = u.counts LevelMap.trailing_stop_bid in omega (arith, p, q)

    updated_asks : ask_count b₂ ≡ ask_count b₁
    updated_asks =
        let p = u.counts LevelMap.stop_ask in
        let q = u.counts LevelMap.trailing_stop_ask in omega (arith, p, q)

    updated_bids' : bid_count b₄ ≡ bid_count b₃
    updated_bids' =
        let p = u'.counts LevelMap.stop_bid in
        let q = u'.counts LevelMap.trailing_stop_bid in omega (arith, p, q)

    updated_asks' : ask_count b₄ ≡ ask_count b₃
    updated_asks' =
        let p = u'.counts LevelMap.stop_ask in
        let q = u'.counts LevelMap.trailing_stop_ask in omega (arith, p, q)

    fewer : ask_count b₃ + bid_count b₁ < ask_count b₂ + bid_count b → stop_count b₄ < stop_count b
    fewer h =
        omega
          (arith, h, asks_left, bids_left, updated_bids, updated_asks, updated_bids', updated_asks')

    rested :
        b₁ ≡ b
        → b₃ ≡ b₂
        → IsUnreached false LevelMap.stop_bid (last_traded_price_ask b) b
        → IsUnreached true LevelMap.stop_ask (last_traded_price_bid b₂) b₂
        → IsUnreached true LevelMap.trailing_stop_ask (last_traded_price_bid b₂) b₂
        → Rested b₄
    rested same same' sb sa ta =
        let last_in_round : b₄.last_traded_price ≡ b₂.last_traded_price =
          u'.same_last ∙ ap (λ x. x.last_traded_price) same' in
        record {
          stop_asks =
              IsUnreached-same true LevelMap.stop_ask _ _ b₂ b₄
                (u'.others LevelMap.stop_ask refl ∙ ap (levels LevelMap.stop_ask) same')
                last_in_round sa;
          stop_bids =
              IsUnreached-same false LevelMap.stop_bid _ _ b b₄
                (u'.others LevelMap.stop_bid refl
                  ∙ ap (levels LevelMap.stop_bid) same'
                  ∙ u.others LevelMap.stop_bid refl
                  ∙ ap (levels LevelMap.stop_bid) same)
                (ask_price-same b b₄
                  (last_in_round ∙ u.same_last ∙ ap (λ x. x.last_traded_price) same))
                sb;
          trailing_asks =
              IsUnreached-same true LevelMap.trailing_stop_ask _ _ b₂ b₄
                (u'.others LevelMap.trailing_stop_ask refl
                  ∙ ap (levels LevelMap.trailing_stop_ask) same')
                last_in_round ta;
        }

    round_progress :
        (((asks || bids) ≡ true) × (stop_count b₄ < stop_count b))
        ⊎ (((asks || bids) ≡ false) × Rested b₄)
    round_progress = elim t.progress [
      | inl (e, less) ↦ elim t'.progress [
        | inl (e', less') ↦ inl (rw e' refl, fewer (omega (arith, less, less')))
        | inr (e', same', sa, ta) ↦
            inl (rw (e', e) refl, fewer (let eq = ap ask_count same' in omega (arith, less, eq)))
      ]
      | inr (e, same, sb, tb) ↦ elim t'.progress [
        | inl (e', less') ↦
            inl (rw e' refl, fewer (let eq = ap bid_count same in omega (arith, less', eq)))
        | inr (e', same', sa, ta) ↦ inr (rw (e', e) refl, rested same same' sb sa ta)
      ]
    ]

    round-Rounded : Rounded (asks || bids) b b₄
    round-Rounded = record {
      sound = u'.sound;
      progress = round_progress;
      same_symbol = u'.same_symbol ∙ t'.same_symbol ∙ u.same_symbol ∙ t.same_symbol;
    }

  activate_round-Rounded :
      (b : MapOrderBook)
      → IsSound b
      → (activated : Bool) × (b' : MapOrderBook) × (activate_round b ≡ some (activated, b'))
        × Rounded activated b b'
  unfolding activate_round
  activate_round-Rounded b s =
      let (bids, b₁, run₁, t) = activate_bid_stop_orders-Swept b s in
      let (b₂, run₂, u, priced, entries) = update_ask_stop_orders-Updated b₁ t.sound in
      let (asks, b₃, run₃, t') = activate_ask_stop_orders-Swept b₂ u.sound in
      let (b₄, run₄, u', priced', entries') = update_bid_stop_orders-Updated b₃ t'.sound in
      (asks || bids, b₄, rw (run₁, run₂, run₃, run₄) refl, round-Rounded t u t' u')

  activate_rounds-IsSound :
      (fuel : ℕ) (b : MapOrderBook)
      → IsSound b
      → stop_count b < fuel
      → (b' : MapOrderBook) × (activate_rounds fuel b ≡ some b')
        × IsSound b'
        × Rested b'
        × (b'.symbol_id ≡ b.symbol_id)
  unfolding activate_rounds
  activate_rounds-IsSound zero b s enough = absurd (omega (arith, enough))
  activate_rounds-IsSound (suc fuel) b s enough =
      let (a, b₁, run, r) = activate_round-Rounded b s in
      elim r.progress [
        | inl (e, less) ↦
            let (b', rest, sound, rested, symbol) =
              activate_rounds-IsSound fuel b₁ r.sound (omega (arith, less, enough)) in
            (b', rw (run, e) rest, sound, rested, symbol ∙ r.same_symbol)
        | inr (e, rested) ↦ (b₁, rw (run, e) refl, r.sound, rested, r.same_symbol)
      ]

  -- In a build with `NDEBUG`, `activateStopOrders` on a sound book returns, whatever its trades activate in turn, and leaves a
  -- sound book of the same symbol, in which the last traded price reaches no stop order and no
  -- trailing stop order of the ask side.
  pub activate_stop_orders-IsSound :
      (b : MapOrderBook)
      → IsSound b
      → (b' : MapOrderBook) × (activate_stop_orders b ≡ some b')
        × IsSound b'
        × Rested b'
        × (b'.symbol_id ≡ b.symbol_id)
  unfolding activate_stop_orders
  activate_stop_orders-IsSound b s = activate_rounds-IsSound (suc (stop_count b)) b s (omega arith)
