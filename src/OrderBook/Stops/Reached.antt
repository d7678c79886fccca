-- ===== src/OrderBook/Stops/Reached.antt =====
-- The loops of `activateBidStopOrders` and `activateAskStopOrders` end, and leave no stop order
-- that the price has reached.
use rapid_trader.Base.{
  ℕ, zero, suc, ◌≡◌, refl, ap, ◌∙◌, ◌⊎◌, Bool, true, false, none, some, has, arith, inl, inr,
  Bool-cases, Option-cases, ◌<◌,
}
use rapid_trader.Containers.{Containers}
use rapid_trader.Level
use rapid_trader.Level.{Level, refs, size}
use rapid_trader.PriceMap.Laws.{begin-get, rbegin-get}
use rapid_trader.OrderBook.{
  MapOrderBook, LevelMap, LevelIterator, OrderWrapper, levels, level_at, find_order, refs_count,
}
use rapid_trader.OrderBook.Maps.{same_map}
use rapid_trader.OrderBook.Linked.{refs_of}
use rapid_trader.OrderBook.Matching.Trade.{head?-full, it_of-some}
use rapid_trader.OrderBook.Matching.Limit.{is_limit_map}
use rapid_trader.OrderBook.Stops.{next_stop, reached, activate_stop_order, activate_loop}
use rapid_trader.OrderBook.Stops.Activate.{IsSound, Activated, activate_stop_order-Activated}

module _ ⦃C : Containers⦄ where
  -- No level of the map is reached at the price `last`.
  abbrev pub IsUnreached : Bool → LevelMap → ℕ → MapOrderBook → Type 0
  IsUnreached ask m last b =
      (p : ℕ) (l : Level) → next_stop ask (levels m b) ≡ some (p, l) → reached ask last p ≡ false

  -- What a loop over the map `m` achieves: either it activated orders, or it did nothing.
  pub record Emptied (ask : Bool) (m : LevelMap) (last : ℕ) (activated activated' : Bool)
      (b b' : MapOrderBook) : Type 0 where
    pub sound : IsSound b'
    pub unreached : IsUnreached ask m last b'
    pub progress :
        ((activated' ≡ true) × (refs_count (levels m b') < refs_count (levels m b)))
        ⊎ ((activated' ≡ activated) × (b' ≡ b))
    pub others :
        (n : LevelMap) → is_limit_map n ≡ false → same_map m n ≡ false → levels n b' ≡ levels n b
    pub same_symbol : b'.symbol_id ≡ b.symbol_id

  module _ {b : MapOrderBook} (s : IsSound b) (ask : Bool) (m : LevelMap) {p : ℕ} {l : Level}
      (next : next_stop ask (levels m b) ≡ some (p, l)) where
    stop_it : LevelIterator
    stop_it = record { map = m; key = p }

    next_level : level_at stop_it b ≡ some l
    unfolding stop_it
    next_level = elim (Bool-cases ask) [
      | inl e ↦ rbegin-get p 0 l (levels m b) (s.linked.ascending m) (ground (arith, e, next))
      | inr e ↦ begin-get p l (levels m b) (ground (arith, e, next))
    ]

    -- In front of the level stands an order that is filed there.
    front_stop :
        (r : ℕ) × (w : OrderWrapper) × (Level.front l ≡ some r)
        × (find_order r b ≡ some w)
        × (w.level_it.map ≡ m)
    unfolding stop_it
    front_stop =
        let fits = s.linked.linked.level_fits stop_it l next_level in
        let (r, front, member) = head?-full (refs l) fits.inhabited in
        let (w, here, is) =
          it_of-some (find_order r b) stop_it
            (s.linked.linked.listed r stop_it (ap (λ x. has r (refs_of x)) next_level ∙ member)) in
        (r, w, front, here, ap (λ i. i.map) is)

  module _ (fuel : ℕ) (ask : Bool) (m : LevelMap) (last : ℕ) (activated : Bool)
      (b : MapOrderBook) where
    loop_at_end :
        next_stop ask (levels m b) ≡ none
        → activate_loop (suc fuel) ask m last activated b ≡ some (activated, b)
    unfolding activate_loop
    loop_at_end e = rw (e, activate_loop)

    module _ {p : ℕ} {l : Level} (next : next_stop ask (levels m b) ≡ some (p, l)) where
      loop_stays :
          reached ask last p ≡ false
          → activate_loop (suc fuel) ask m last activated b ≡ some (activated, b)
      unfolding activate_loop
      loop_stays e = rw (next, activate_loop, e)

      loop_activates :
          {r : ℕ} {w : OrderWrapper} {b' : MapOrderBook}
          → reached ask last p ≡ true
          → Level.front l ≡ some r
          → find_order r b ≡ some w
          → activate_stop_order w.order b ≡ some b'
          → activate_loop (suc fuel) ask m last activated b ≡ activate_loop fuel ask m last true b'
      unfolding activate_loop
      loop_activates e front here run = rw (next, activate_loop, e, front, here, run) refl

  stayed :
      {ask : Bool} {m : LevelMap} {last : ℕ} {activated : Bool} {b : MapOrderBook}
      → IsSound b
      → IsUnreached ask m last b
      → Emptied ask m last activated activated b b
  stayed s u = record {
    sound = s;
    unreached = u;
    progress = inr (refl, refl);
    others = λ n e k. refl;
    same_symbol = refl;
  }

  went_on :
      {ask : Bool} {m : LevelMap} {last : ℕ} {activated activated' : Bool} {b b₁ b' : MapOrderBook}
      → Activated m b b₁
      → Emptied ask m last true activated' b₁ b'
      → Emptied ask m last activated activated' b b'
  went_on {ask} {m} {last} {activated} {activated'} {b} {b₁} {b'} a t = record {
    sound = t.sound;
    unreached = t.unreached;
    progress = inl (went t.progress);
    others = λ n e k. t.others n e k ∙ a.others n e k;
    same_symbol = t.same_symbol ∙ a.same_symbol;
  }
    where
      went :
          ((activated' ≡ true) × (refs_count (levels m b') < refs_count (levels m b₁)))
            ⊎ ((activated' ≡ true) × (b' ≡ b₁))
          → (activated' ≡ true) × (refs_count (levels m b') < refs_count (levels m b))
      went (inl (e, less)) = (e, omega (arith, less, a.one_less))
      went (inr (e, same)) = (e, omega (arith, ap (λ x. refs_count (levels m x)) same, a.one_less))

  -- On more fuel than the map holds references, a loop over a stop map of a sound book returns,
  -- with a sound book, in which no level of the map is reached at the price that the loop read;
  -- if it activated an order it says so and the map holds fewer references, else the book is
  -- as it was.
  pub activate_loop-Emptied :
      (fuel : ℕ) (ask : Bool) (m : LevelMap) (last : ℕ) (activated : Bool) (b : MapOrderBook)
      → IsSound b
      → is_limit_map m ≡ false
      → refs_count (levels m b) < fuel
      → (activated' : Bool) × (b' : MapOrderBook) × (activate_loop fuel ask m last activated b
          ≡ some (activated', b'))
        × Emptied ask m last activated activated' b b'
  activate_loop-Emptied zero ask m last activated b s stop enough = absurd (ground arith)
  activate_loop-Emptied (suc fuel) ask m last activated b s stop enough =
      elim (Option-cases (next_stop ask (levels m b))) [
        | inl e ↦ (activated, b, loop_at_end fuel ask m last activated b e, stayed s (λ p l k. cc))
        | inr ((p, l), next) ↦ elim (Bool-cases (reached ask last p)) [
          | inr e ↦ (
            activated,
            b,
            loop_stays fuel ask m last activated b next e,
            stayed s (λ q k same. ground (arith, next, same, e)),
          )
          | inl e ↦
              let (r, w, front, here, is) = front_stop s ask m next in
              let (b₀, b₁, gone, run, taken, a) =
                activate_stop_order-Activated b r w s here (ap is_limit_map is ∙ stop) in
              let a' : Activated m b b₁ = rw⁻¹ is a in
              let (activated', b', rest, t) =
                activate_loop-Emptied fuel ask m last true b₁ a'.sound stop
                  (omega (arith, a'.one_less, enough)) in
              (
                activated',
                b',
                loop_activates fuel ask m last activated b next e front here run ∙ rest,
                went_on a' t,
              )
        ]
      ]
