-- ===== src/OrderBook/Stops/Trailing/Pending.antt =====
-- The references of all levels of a map.
use rapid_trader.Base.{
  ℕ, suc, ◌≡◌, refl, sym, ap, ◌∙◌, true, false, some, List, [], ◌∷◌, ◌++◌, arith, has, Distinct,
  length, length-append, has-append, Bool-cases, inl, inr, ==_refl, ◌==◌, subst,
}
use rapid_trader.Containers.{Containers}
use rapid_trader.Level.{Level, refs}
use rapid_trader.PriceMap.{get, Ascending}
use rapid_trader.PriceMap.Laws.{get-bound}
use rapid_trader.OrderBook.{MapOrderBook, LevelMap, OrderWrapper, levels, find_order, refs_count}
use rapid_trader.OrderBook.Linked.{refs_of, it_of}
use rapid_trader.OrderBook.Matching.Trade.{it_of-some}
use rapid_trader.OrderBook.Stops.Activate.{IsSound}
use rapid_trader.OrderBook.Stops.Trailing.Cleared.{AreIn}

both-Distinct :
    (xs ys : List ℕ)
    → Distinct xs
    → Distinct ys
    → ((a : ℕ) → has a xs ≡ true → has a ys ≡ false)
    → Distinct (xs ++ ys)
both-Distinct [] ys d d' apart = d'
both-Distinct (x ∷ xs) ys (out, d) d' apart = (
  has-append x xs ys ∙ rw (out, apart x (ground (arith, ==_refl x))) refl,
  both-Distinct xs ys d d' (λ a h. apart a (ground (arith, h))),
)

module _ ⦃C : Containers⦄ where
  abbrev pub all_refs : List (ℕ × Level) → List ℕ
  all_refs [] = []
  all_refs ((p, l) ∷ m) = refs l ++ all_refs m

  pub length-all_refs : (m : List (ℕ × Level)) → length (all_refs m) ≡ refs_count m
  length-all_refs [] = refl
  length-all_refs ((p, l) ∷ m) =
      omega (arith, length-append (refs l) (all_refs m), length-all_refs m)

  get-behind :
      (p q lo : ℕ) (l x : Level) (m : List (ℕ × Level))
      → Ascending (suc q) m
      → get p m ≡ some l
      → get p ((q, x) ∷ m) ≡ some l
  unfolding get
  get-behind p q lo l x m a e = ground (arith, get-bound p (suc q) m l a e, e)

  get-front : (q : ℕ) (x : Level) (m : List (ℕ × Level)) → get q ((q, x) ∷ m) ≡ some x
  unfolding get
  get-front q x m = rw (==_refl q) refl

  has-all_refs :
      (r p : ℕ) (m : List (ℕ × Level))
      → has r (refs_of (get p m)) ≡ true
      → has r (all_refs m) ≡ true
  unfolding get
  has-all_refs r p [] h = ground (arith, h)
  has-all_refs r p ((q, x) ∷ m) h =
      has-append r (refs x) (all_refs m) ∙ elim (Bool-cases (q == p)) [
        | inl e ↦ ground (arith, e, h)
        | inr e ↦ ground (arith, e, h, has-all_refs r p m (ground (arith, e, h)))
      ]

  -- A reference of the map is one of a level of the map.
  level_of :
      (r lo : ℕ) (m : List (ℕ × Level))
      → Ascending lo m
      → has r (all_refs m) ≡ true
      → (p : ℕ) × (l : Level) × (get p m ≡ some l) × (has r (refs l) ≡ true)
  level_of r lo [] a h = absurd (ground (arith, h))
  level_of r lo ((q, x) ∷ m) a h = elim (Bool-cases (has r (refs x))) [
    | inl here ↦ (q, x, get-front q x m, here)
    | inr there ↦
        let (p, l, e, k) =
          level_of r (suc q) m a.1 (ground (arith, has-append r (refs x) (all_refs m), h, there)) in
        (p, l, get-behind p q lo l x m a.1 e, k)
  ]

  all_refs-Distinct :
      (lo : ℕ) (m : List (ℕ × Level))
      → Ascending lo m
      → ((p : ℕ) (l : Level) → get p m ≡ some l → Distinct (refs l))
      → ((r p p' : ℕ) (l l' : Level)
          → get p m ≡ some l
          → get p' m ≡ some l'
          → has r (refs l) ≡ true
          → has r (refs l') ≡ true
          → p ≡ p')
      → Distinct (all_refs m)
  all_refs-Distinct lo [] a each apart = tt
  all_refs-Distinct lo ((q, x) ∷ m) a each apart =
      both-Distinct (refs x) (all_refs m) (each q x (get-front q x m))
        (all_refs-Distinct (suc q) m a.1 (λ p l e. each p l (get-behind p q lo l x m a.1 e))
          (λ r p p' l l' e e'.
            apart r p p' l l' (get-behind p q lo l x m a.1 e) (get-behind p' q lo l' x m a.1 e')))
        (λ r here. elim (Bool-cases (has r (all_refs m))) [
          | inr out ↦ out
          | inl there ↦
              let (p, l, e, k) = level_of r (suc q) m a.1 there in
              let same : q ≡ p =
                apart r q p x l (get-front q x m) (get-behind p q lo l x m a.1 e) here k in
              absurd (let low = get-bound p (suc q) m l a.1 e in omega (arith, same, low))
        ])

  module _ {b : MapOrderBook} (s : IsSound b) (m : LevelMap) where
    listed_at :
        (r p : ℕ) (l : Level)
        → get p (levels m b) ≡ some l
        → has r (refs l) ≡ true
        → (w : OrderWrapper) × (find_order r b ≡ some w)
          × (w.level_it ≡ record { map = m; key = p })
    listed_at r p l e h =
        it_of-some (find_order r b) (record { map = m; key = p })
          (s.linked.linked.listed r (record { map = m; key = p })
            (ap (λ x. has r (refs_of x)) e ∙ h))

    -- The orders of a map of a sound book are found, each in that map.
    pub all_refs-AreIn : AreIn m (all_refs (levels m b)) b
    all_refs-AreIn r h =
        let (p, l, e, k) = level_of r 0 (levels m b) (s.linked.ascending m) h in
        let (w, here, is) = listed_at r p l e k in (w, here, ap (λ i. i.map) is)

    -- All orders of the map are among them.
    pub all_refs_complete :
        (r : ℕ) (w : OrderWrapper)
        → find_order r b ≡ some w
        → w.level_it.map ≡ m
        → has r (all_refs (levels m b)) ≡ true
    all_refs_complete r w here is = has-all_refs r w.level_it.key (levels m b) (
        subst (λ n. has r (refs_of (get w.level_it.key (levels n b))) ≡ true) is
          (s.linked.linked.located r w.level_it (ap it_of here)))

    same_key :
        (r p p' : ℕ) (l l' : Level)
        → get p (levels m b) ≡ some l
        → get p' (levels m b) ≡ some l'
        → has r (refs l) ≡ true
        → has r (refs l') ≡ true
        → p ≡ p'
    same_key r p p' l l' e e' h h' =
        let (w, here, is) = listed_at r p l e h in
        let (w', here', is') = listed_at r p' l' e' h' in
        let one : w ≡ w' = cc in ap (λ i. i.key) (sym is ∙ ap (λ x. x.level_it) one ∙ is')

    pub all_refs-of-Distinct : Distinct (all_refs (levels m b))
    all_refs-of-Distinct =
        all_refs-Distinct 0 (levels m b) (s.linked.ascending m)
          (λ p l e. (s.linked.linked.level_fits (record { map = m; key = p }) l e).distinct)
          same_key
