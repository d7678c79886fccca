-- ===== src/OrderBook/Linked.antt =====
-- How the orders of a book, the iterators beside them and the levels fit together. A book is seen
-- as two lookups: of an order by its ID, and of a level by its iterator.
pub mod Write
pub mod Remove
pub mod Add
use rapid_trader.Base.{
  ℕ, ◌≡◌, sym, ap, ◌∙◌, Bool, true, false, ◌||◌, Option, none, some, List, [], ◌==◌, if◌then◌else◌,
  has, Distinct, is_nil, ne→==,
}
use rapid_trader.Containers.{Containers}
use rapid_trader.Level.{Level, LevelSide, refs}
use rapid_trader.Level.Volume.{total}
use rapid_trader.Order.{
  Order, OrderType, is_ask, is_stop, is_stop_limit, is_trailing_stop, is_trailing_stop_limit,
}
use rapid_trader.OrderBook.{MapOrderBook, LevelMap, LevelIterator, OrderWrapper, order_of}
use rapid_trader.OrderBook.Maps.{same_it, same_it→ne}
use rapid_trader.OrderBook.Storage.{map_of, side_of}

abbrev pub it_of : Option OrderWrapper → Option LevelIterator
it_of none = none
it_of (some w) = some w.level_it

-- The price under which an order is filed.
abbrev pub key_of : Order → ℕ
key_of o =
    if is_stop o || is_stop_limit o || is_trailing_stop o || is_trailing_stop_limit o
    then o.stop_price
    else o.price

abbrev pub side_of_map : LevelMap → LevelSide
side_of_map LevelMap.ask = LevelSide.ask
side_of_map LevelMap.bid = LevelSide.bid
side_of_map LevelMap.stop_ask = LevelSide.ask
side_of_map LevelMap.stop_bid = LevelSide.bid
side_of_map LevelMap.trailing_stop_ask = LevelSide.ask
side_of_map LevelMap.trailing_stop_bid = LevelSide.bid

-- An order is filed by its ID, its type, its side and its price.
pub record OrderFits (symbol r : ℕ) (w : OrderWrapper) : Type 0 where
  pub own_id : w.order.id ≡ r
  pub own_symbol : w.order.symbol_id ≡ symbol
  pub own_map : map_of w.order.type (is_ask w.order) ≡ some w.level_it.map
  pub own_key : key_of w.order ≡ w.level_it.key

module _ ⦃C : Containers⦄ where
  abbrev pub refs_of : Option Level → List ℕ
  refs_of none = []
  refs_of (some l) = refs l

  pub record LevelFits (deref : ℕ → Option Order) (symbol : ℕ) (it : LevelIterator) (l : Level)
      : Type 0 where
    pub own_price : l.price ≡ it.key
    pub own_side : l.side ≡ side_of_map it.map
    pub level_symbol : l.symbol_id ≡ symbol
    pub distinct : Distinct (refs l)
    pub inhabited : is_nil (refs l) ≡ false
    pub own_volume : l.volume ≡ total deref (refs l)

  pub record Linked (fnd : ℕ → Option OrderWrapper) (lev : LevelIterator → Option Level)
      (symbol : ℕ) : Type 0 where
    pub listed :
        (r : ℕ) (it : LevelIterator) → has r (refs_of (lev it)) ≡ true → it_of (fnd r) ≡ some it
    pub located :
        (r : ℕ) (it : LevelIterator) → it_of (fnd r) ≡ some it → has r (refs_of (lev it)) ≡ true
    pub order_fits : (r : ℕ) (w : OrderWrapper) → fnd r ≡ some w → OrderFits symbol r w
    pub level_fits :
        (it : LevelIterator) (l : Level)
        → lev it ≡ some l
        → LevelFits (λ r. order_of (fnd r)) symbol it l

  module _ {fnd : ℕ → Option OrderWrapper} {lev : LevelIterator → Option Level} {symbol : ℕ}
      (h : Linked fnd lev symbol) where
    -- An order is listed in the level that its iterator points to.
    pub listed_here :
        {r : ℕ} {w : OrderWrapper} {l : Level}
        → fnd r ≡ some w
        → lev w.level_it ≡ some l
        → has r (refs l) ≡ true
    listed_here {r} {w} here there =
        ap (λ x. has r (refs_of x)) (sym there) ∙ h.located r w.level_it (ap it_of here)

    -- And in no other level.
    pub listed_apart :
        {r : ℕ} {w : OrderWrapper} {it : LevelIterator} {m : Level} (a : ℕ)
        → fnd r ≡ some w
        → lev it ≡ some m
        → same_it w.level_it it ≡ false
        → has a (refs m) ≡ true
        → (r == a) ≡ false
    listed_apart {r} {w} {it} {m} a here other ne k = ne→== r a λ e. same_it→ne w.level_it it ne (
        sym (ap it_of here)
        ∙ ap (λ x. it_of (fnd x)) e
        ∙ h.listed a it (ap (λ x. has a (refs_of x)) other ∙ k))
