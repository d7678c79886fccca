-- ===== src/OrderBook/Matching/Uncrossed.antt =====
-- The best bid stays below the best ask.
use rapid_trader.Base.{
  ℕ, ◌≡◌, false, some, if◌then◌else◌, arith, inl, inr, Bool-cases, Option-cases, ◌<◌,
}
use rapid_trader.Containers.{Containers}
use rapid_trader.Level.{Level}
use rapid_trader.Order.{Order, is_ask}
use rapid_trader.PriceMap.Laws.{begin-least, begin-none, rbegin-greatest, rbegin-none}
use rapid_trader.OrderBook.{MapOrderBook, LevelMap, LevelIterator, level_at}
use rapid_trader.OrderBook.Maps.{IsAscending, same_it}
use rapid_trader.OrderBook.Matching.{opposite, best_opposite, crosses}

module _ ⦃C : Containers⦄ where
  abbrev pub ask_at : ℕ → LevelIterator
  ask_at p = record { map = LevelMap.ask; key = p }

  abbrev pub bid_at : ℕ → LevelIterator
  bid_at p = record { map = LevelMap.bid; key = p }

  -- Every bid level is below every ask level.
  abbrev pub IsUncrossed : MapOrderBook → Type 0
  IsUncrossed b =
      (p p' : ℕ) (l l' : Level)
      → level_at (ask_at p) b ≡ some l
      → level_at (bid_at p') b ≡ some l'
      → p' < p

  -- A book with no new limit level stays uncrossed.
  pub no_new-IsUncrossed :
      (b b' : MapOrderBook)
      → ((it : LevelIterator) (l' : Level)
          → level_at it b' ≡ some l'
          → (l : Level) × (level_at it b ≡ some l))
      → IsUncrossed b
      → IsUncrossed b'
  no_new-IsUncrossed b b' kept u p p' l l' a d =
      let (m, a') = kept (ask_at p) l a in let (m', d') = kept (bid_at p') l' d in u p p' m m' a' d'

  -- An order that does not cross the best level crosses none.
  pub crosses_none :
      (o : Order) (b : MapOrderBook)
      → IsAscending b
      → ((p : ℕ) (l : Level) → best_opposite o b ≡ some (p, l) → crosses o p ≡ false)
      → (p : ℕ) (l : Level) → level_at (record { map = opposite o; key = p }) b ≡ some l
      → crosses o p ≡ false
  crosses_none o b a best p l here = elim (Bool-cases (is_ask o)) [
    | inl ask ↦ elim (Option-cases (best_opposite o b)) [
      | inl e ↦ absurd (ground (arith, rbegin-none b.bid_levels (ground arith) p))
      | inr ((q, m), e) ↦ ground (
        arith,
        best q m e,
        rbegin-greatest q 0 m b.bid_levels (a LevelMap.bid) (ground arith) p l,
      )
    ]
    | inr bid ↦ elim (Option-cases (best_opposite o b)) [
      | inl e ↦ absurd (ground (arith, begin-none b.ask_levels (ground arith) p))
      | inr ((q, m), e) ↦
          ground
            (arith, best q m e, begin-least q 0 m b.ask_levels (a LevelMap.ask) (ground arith) p l)
    ]
  ]

  -- A new level at the price of an order that crosses no level keeps the book uncrossed.
  pub insert-IsUncrossed :
      (b b' : MapOrderBook) (o : Order)
      → IsUncrossed b
      → ((p : ℕ) (l : Level)
          → level_at (record { map = opposite o; key = p }) b ≡ some l
          → crosses o p ≡ false)
      → ((jt : LevelIterator)
          → same_it
              (record { map = if is_ask o then LevelMap.ask else LevelMap.bid; key = o.price })
              jt
            ≡ false
          → level_at jt b' ≡ level_at jt b)
      → IsUncrossed b'
  insert-IsUncrossed b b' o u clear same p p' l l' a d = elim (Bool-cases (is_ask o)) [
    | inl ask ↦ ground (arith, same (bid_at p'), same (ask_at p), clear p' l', u p p' l l')
    | inr bid ↦ ground (arith, same (ask_at p), same (bid_at p'), clear p l, u p p' l l')
  ]
