-- ===== src/OrderBook/Matching/Limit.antt =====
-- `addLimitOrder` keeps the invariant and keeps the book uncrossed.
use rapid_trader.Base.{
  ℕ, ◌+◌, ◌≡◌, sym, ap, ◌∙◌, ◌⊎◌, Bool, true, false, not, ◌&&◌, none, some, if◌then◌else◌, arith,
  inl, inr, Bool-cases, u64_mod, ◌<◌, ◌≤◌,
}
use rapid_trader.Containers.{Containers}
use rapid_trader.Event.{Event}
use rapid_trader.Level.{Level}
use rapid_trader.Order.{Order, OrderType, is_ask, is_fok, is_ioc, is_filled}
use rapid_trader.OrderBook.{MapOrderBook, LevelMap, LevelIterator, levels, find_order, notify}
use rapid_trader.OrderBook.Maps.{book_volume}
use rapid_trader.OrderBook.Storage.{insert_at, insert_limit_order}
use rapid_trader.OrderBook.Linked.Write.{SameFiling}
use rapid_trader.OrderBook.Invariant.{IsLinked, IsLive, reprice-IsLinked}
use rapid_trader.OrderBook.Invariant.Insertion.{IsFiled, wrapper}
use rapid_trader.OrderBook.Invariant.Placed.{Inserted, insert_at-Inserted}
use rapid_trader.OrderBook.Matching.{best_opposite, crosses, match, add_limit_order}
use rapid_trader.OrderBook.Matching.Loop.{Matched}
use rapid_trader.OrderBook.Matching.Whole.{match-Matched}
use rapid_trader.OrderBook.Matching.Uncrossed.{
  IsUncrossed, no_new-IsUncrossed, crosses_none, insert-IsUncrossed,
}

abbrev pub is_limit_map : LevelMap → Bool
is_limit_map LevelMap.ask = true
is_limit_map LevelMap.bid = true
is_limit_map _ = false

-- Whether what is left of a limit order stays in the book.
abbrev pub rests : Order → Bool
rests o = not (is_filled o) && not (is_ioc o) && not (is_fok o)

abbrev pub limit_it : Order → LevelIterator
limit_it o = record { map = if is_ask o then LevelMap.ask else LevelMap.bid; key = o.price }

module _ ⦃C : Containers⦄ where
  -- What a book needs to take a new limit order.
  pub record Accepts (o : Order) (b : MapOrderBook) : Type 0 where
    pub linked : IsLinked b
    pub live : IsLive b
    pub uncrossed : IsUncrossed b
    pub is_limit : o.type ≡ OrderType.limit
    pub symbol : o.symbol_id ≡ b.symbol_id
    pub free : find_order o.id b ≡ none
    pub room : book_volume b + o.open_quantity < u64_mod

  -- A limit order `o` of which `o'` is left after matching.
  pub record Limited (o o' : Order) (b b' : MapOrderBook) : Type 0 where
    pub linked : IsLinked b'
    pub live : IsLive b'
    pub uncrossed : IsUncrossed b'
    pub filing : SameFiling o o'
    pub same_time_in_force : o'.time_in_force ≡ o.time_in_force
    pub not_more : o'.open_quantity ≤ o.open_quantity
    pub entry : find_order o.id b' ≡ (if rests o' then some (wrapper (limit_it o) o') else none)
    pub volume :
        book_volume b' + o.open_quantity
        ≡ book_volume b
          + (if rests o' then o'.open_quantity + o'.open_quantity else o'.open_quantity)
    pub last_price :
        (b'.last_traded_price ≡ b.last_traded_price) ⊎ (crosses o b'.last_traded_price ≡ true)
    pub others : (m : LevelMap) → is_limit_map m ≡ false → levels m b' ≡ levels m b
    pub same_symbol : b'.symbol_id ≡ b.symbol_id

  module _ {o o' : Order} {b b' : MapOrderBook} (a : Accepts o b) (run : match o b ≡ some (o', b'))
      (m : Matched o o' b b') where
    matched-IsUncrossed : IsUncrossed b'
    matched-IsUncrossed = no_new-IsUncrossed b b' m.no_new a.uncrossed

    dropped : rests o' ≡ false → add_limit_order o b ≡ some (notify (Event.order_deleted o') b')
    unfolding add_limit_order
    dropped e = rw (run, e)

    kept : rests o' ≡ true → add_limit_order o b ≡ insert_limit_order o' b'
    unfolding add_limit_order
    kept e = rw (run, e)

    dropped-Limited : rests o' ≡ false → Limited o o' b (notify (Event.order_deleted o') b')
    dropped-Limited e = record {
      linked = reprice-IsLinked _ _ _ _ m.linked;
      live = m.live;
      uncrossed = matched-IsUncrossed;
      filing = m.filing;
      same_time_in_force = m.same_time_in_force;
      not_more = m.not_more;
      entry = m.still_free o.id a.free ∙ rw e;
      volume = rw e m.volume;
      last_price = m.last_price;
      others = λ n e. m.others n (ground (arith, e));
      same_symbol = m.same_symbol;
    }

    filed : IsFiled (limit_it o) o' b'
    filed = record {
      free = ap (λ x. find_order x b') m.filing.same_id ∙ m.still_free o.id a.free;
      symbol = m.filing.same_symbol ∙ a.symbol ∙ sym m.same_symbol;
      own_map = rw (m.filing.same_type, m.filing.same_side, a.is_limit);
      own_key = rw (m.filing.same_type, a.is_limit) m.filing.same_price;
    }

    done_if_kept :
        rests o' ≡ true
        → (p : ℕ) (l : Level) → best_opposite o b' ≡ some (p, l)
        → crosses o p ≡ false
    done_if_kept e p l best = elim m.done [
      | inl filled ↦ absurd (ground (arith, filled, e))
      | inr clear ↦ clear p l best
    ]

    kept-Limited :
        rests o' ≡ true
        → (b'' : MapOrderBook) → Inserted (limit_it o) o' b' b''
        → Limited o o' b b''
    kept-Limited e b'' i = record {
      linked = i.linked;
      live = λ r w found. ground (arith, i.entries r, m.live r w, found, e);
      uncrossed =
          insert-IsUncrossed b' b'' o matched-IsUncrossed
            (crosses_none o b' m.linked.ascending (done_if_kept e)) i.elsewhere;
      filing = m.filing;
      same_time_in_force = m.same_time_in_force;
      not_more = m.not_more;
      entry =
          ap (λ x. find_order x b'') (sym m.filing.same_id) ∙ ground (arith, i.entries o'.id, e);
      volume = rw e (omega (arith, i.volume, m.volume));
      last_price = rw i.same_last m.last_price;
      others = λ n k. i.others n (ground (arith, k)) ∙ m.others n (ground (arith, k));
      same_symbol = i.same_symbol ∙ m.same_symbol;
    }

  limit_it-filing : {o o' : Order} → SameFiling o o' → limit_it o' ≡ limit_it o
  limit_it-filing f = rw (f.same_side, f.same_price)

  insert_limit_order-at :
      (o o' : Order) (b b' : MapOrderBook)
      → SameFiling o o'
      → insert_at (limit_it o) o' b ≡ some b'
      → insert_limit_order o' b ≡ some b'
  unfolding insert_limit_order
  insert_limit_order-at o o' b b' f e = ap (λ i. insert_at i o' b) (limit_it-filing f) ∙ e

  -- In a build with `NDEBUG`, a limit order of the book's symbol with a new ID, added to a book that satisfies the
  -- invariant, holds no filled order and is not crossed, and whose volume with the order's
  -- quantity fits 64 bits: `addLimitOrder` returns, and keeps all three conditions. What is left
  -- of the order is at most its open quantity; it is found under its ID at its price if it is not
  -- filled and neither immediate-or-cancel nor fill-or-kill, else nothing is. The volume of the
  -- book is less by what was filled, and more by what was inserted. The last traded price is as it
  -- was, or within the order's limit. The maps of stop levels are as they were.
  pub add_limit_order-Limited :
      (o : Order) (b : MapOrderBook)
      → Accepts o b
      → (o' : Order) × (b' : MapOrderBook) × (add_limit_order o b ≡ some b') × Limited o o' b b'
  add_limit_order-Limited o b a =
      let (o', b₁, run, m) = match-Matched o b a.linked a.live (omega (arith, a.room)) in
      elim (Bool-cases (rests o')) [
        | inr e ↦
            (o', notify (Event.order_deleted o') b₁, dropped a run m e, dropped-Limited a run m e)
        | inl e ↦
            let (b₂, put, i) =
              insert_at-Inserted b₁ (limit_it o) o' m.linked (filed a run m)
                (omega (arith, m.volume, m.not_more, a.room)) in
            (
              o',
              b₂,
              kept a run m e ∙ insert_limit_order-at o o' b₁ b₂ m.filing put,
              kept-Limited a run m e b₂ i,
            )
      ]
