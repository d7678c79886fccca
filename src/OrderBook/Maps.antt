-- ===== src/OrderBook/Maps.antt =====
-- Levels behind iterators, after each way in which the book changes one of its maps.
use rapid_trader.Base.{
  ℕ, ◌+◌, ◌≤◌, inl, inr, Bool-cases, ◌≡◌, refl, ap, ◌∙◌, Bool, true, false, ◌&&◌, some, List, [],
  ◌∷◌, ◌==◌, if◌then◌else◌, arith,
}
use rapid_trader.Containers.{Containers, assigned}
use rapid_trader.Level.{Level}
use rapid_trader.PriceMap.{get, put, emplace, erase, Ascending}
use rapid_trader.PriceMap.Laws.{get-put}
use rapid_trader.OrderBook.{
  MapOrderBook, LevelMap, LevelIterator, levels, set_levels, level_at, write_level, level_sum,
}

abbrev pub rank : LevelMap → ℕ
rank LevelMap.ask = 0
rank LevelMap.bid = 1
rank LevelMap.stop_ask = 2
rank LevelMap.stop_bid = 3
rank LevelMap.trailing_stop_ask = 4
rank LevelMap.trailing_stop_bid = 5

abbrev pub same_map : LevelMap → LevelMap → Bool
same_map m n = rank m == rank n

abbrev pub same_it : LevelIterator → LevelIterator → Bool
same_it i j = same_map i.map j.map && (i.key == j.key)

pub same_map→eq : (m n : LevelMap) → same_map m n ≡ true → m ≡ n
same_map→eq m n h = ground arith

pub same_it→eq : (i j : LevelIterator) → same_it i j ≡ true → i ≡ j
same_it→eq i j h = ground (arith, same_map→eq i.map j.map)

pub same_it_refl : (i : LevelIterator) → same_it i i ≡ true
same_it_refl i = ground arith

pub same_it→ne : (i j : LevelIterator) → same_it i j ≡ false → some i ≡ some j → ⊥
same_it→ne i j h e = ground (arith, same_it_refl i)

module _ ⦃C : Containers⦄ where
  pub levels-set_levels :
      (n m : LevelMap) (new : List (ℕ × Level)) (b : MapOrderBook)
      → levels n (set_levels m new b) ≡ (if same_map m n then new else levels n b)
  levels-set_levels n m new b = ground arith

  pub set_levels-set_levels :
      (m : LevelMap) (new old : List (ℕ × Level)) (b : MapOrderBook)
      → set_levels m new (set_levels m old b) ≡ set_levels m new b
  set_levels-set_levels LevelMap.ask new old b = refl
  set_levels-set_levels LevelMap.bid new old b = refl
  set_levels-set_levels LevelMap.stop_ask new old b = refl
  set_levels-set_levels LevelMap.stop_bid new old b = refl
  set_levels-set_levels LevelMap.trailing_stop_ask new old b = refl
  set_levels-set_levels LevelMap.trailing_stop_bid new old b = refl

  pub levels-set_levels_self :
      (m : LevelMap) (new : List (ℕ × Level)) (b : MapOrderBook)
      → levels m (set_levels m new b) ≡ new
  levels-set_levels_self m new b = ground (arith, levels-set_levels m m new b)

  -- A write through an iterator into a map that was just set.
  pub write_level-set_levels :
      (m : LevelMap) (k : ℕ) (l : Level) (old : List (ℕ × Level)) (b : MapOrderBook)
      → write_level (record { map = m; key = k }) l (set_levels m old b)
        ≡ set_levels m (put k l old) b
  write_level-set_levels m k l old b =
      ap (λ x. set_levels m (put k l x) (set_levels m old b)) (levels-set_levels_self m old b)
      ∙ set_levels-set_levels m (put k l old) old b

  pub level_at-set_levels :
      (jt : LevelIterator) (m : LevelMap) (new : List (ℕ × Level)) (b : MapOrderBook)
      → level_at jt (set_levels m new b)
        ≡ (if same_map m jt.map then get jt.key new else level_at jt b)
  level_at-set_levels jt m new b = ground (arith, levels-set_levels jt.map m new b)

  pub level_at-write_level :
      (jt it : LevelIterator) (l : Level) (b : MapOrderBook)
      → level_at jt (write_level it l b)
        ≡ (if same_it it jt then assigned l (level_at jt b) else level_at jt b)
  level_at-write_level jt it l b = ground (
    arith,
    level_at-set_levels jt it.map (put it.key l (levels it.map b)) b,
    get-put jt.key it.key l (levels it.map b),
    same_map→eq it.map jt.map,
  )

  -- Every map of a book has its keys in order.
  abbrev pub IsAscending : MapOrderBook → Type 0
  IsAscending b = (m : LevelMap) → Ascending 0 (levels m b)

  pub set_levels-IsAscending :
      (m : LevelMap) (new : List (ℕ × Level)) (b : MapOrderBook)
      → IsAscending b
      → Ascending 0 new
      → IsAscending (set_levels m new b)
  set_levels-IsAscending m new b a h n =
      rw (levels-set_levels n m new b)
        (elim (Bool-cases (same_map m n)) [ inl e ↦ rw e h | inr e ↦ rw e (a n) ])

  -- Sums over a map of levels after each change of the map.
  module _ (f : Level → ℕ) where
    pub level_sum-get :
        (k : ℕ) (m : List (ℕ × Level)) (l : Level) → get k m ≡ some l → f l ≤ level_sum f m
    unfolding get
    level_sum-get k [] l e = cc
    level_sum-get k ((p, w) ∷ m) l e = ground (arith, level_sum-get k m l)

    pub level_sum-put :
        (k : ℕ) (m : List (ℕ × Level)) (l l' : Level)
        → get k m ≡ some l
        → level_sum f (put k l' m) + f l ≡ level_sum f m + f l'
    unfolding get put
    level_sum-put k [] l l' e = cc
    level_sum-put k ((p, w) ∷ m) l l' e = ground (arith, level_sum-put k m l l')

    pub level_sum-erase :
        (k : ℕ) (m : List (ℕ × Level)) (l : Level)
        → get k m ≡ some l
        → level_sum f (erase k m) + f l ≡ level_sum f m
    unfolding get erase
    level_sum-erase k [] l e = cc
    level_sum-erase k ((p, w) ∷ m) l e = ground (arith, level_sum-erase k m l)

    pub level_sum-emplace :
        (k : ℕ) (v : Level) (m : List (ℕ × Level))
        → f v ≡ 0
        → level_sum f (emplace k v m) ≡ level_sum f m
    unfolding emplace
    level_sum-emplace k v [] e = ground arith
    level_sum-emplace k v ((p, w) ∷ m) e = ground (arith, level_sum-emplace k v m e)

  -- The sum over all six maps.
  abbrev pub book_sum : (Level → ℕ) → MapOrderBook → ℕ
  book_sum f b =
      level_sum f b.ask_levels
      + level_sum f b.bid_levels
      + level_sum f b.stop_ask_levels
      + level_sum f b.stop_bid_levels
      + level_sum f b.trailing_stop_ask_levels
      + level_sum f b.trailing_stop_bid_levels

  abbrev pub level_volume : Level → ℕ
  level_volume l = l.volume

  abbrev pub book_volume : MapOrderBook → ℕ
  book_volume = book_sum level_volume

  pub book_sum-set_levels :
      (f : Level → ℕ) (m : LevelMap) (new : List (ℕ × Level)) (b : MapOrderBook)
      → book_sum f (set_levels m new b) + level_sum f (levels m b) ≡ book_sum f b + level_sum f new
  book_sum-set_levels f LevelMap.ask new b = omega arith
  book_sum-set_levels f LevelMap.bid new b = omega arith
  book_sum-set_levels f LevelMap.stop_ask new b = omega arith
  book_sum-set_levels f LevelMap.stop_bid new b = omega arith
  book_sum-set_levels f LevelMap.trailing_stop_ask new b = omega arith
  book_sum-set_levels f LevelMap.trailing_stop_bid new b = omega arith

  pub level_sum-le :
      (f : Level → ℕ) (m : LevelMap) (b : MapOrderBook) → level_sum f (levels m b) ≤ book_sum f b
  level_sum-le f LevelMap.ask b = omega arith
  level_sum-le f LevelMap.bid b = omega arith
  level_sum-le f LevelMap.stop_ask b = omega arith
  level_sum-le f LevelMap.stop_bid b = omega arith
  level_sum-le f LevelMap.trailing_stop_ask b = omega arith
  level_sum-le f LevelMap.trailing_stop_bid b = omega arith

  pub level_volume-le :
      (it : LevelIterator) (b : MapOrderBook) (l : Level)
      → level_at it b ≡ some l
      → l.volume ≤ book_volume b
  level_volume-le it b l e = omega (
    arith,
    level_sum-get level_volume it.key (levels it.map b) l e,
    level_sum-le level_volume it.map b,
  )
