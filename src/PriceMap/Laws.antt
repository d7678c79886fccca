-- ===== src/PriceMap/Laws.antt =====
-- Lookups after each operation of the map, and what `begin` and `rbegin` point to.
use rapid_trader.Base.{
  ℕ, suc, ◌≤◌, ◌<◌, ◌≡◌, refl, none, some, List, [], ◌∷◌, ◌==◌, if◌then◌else◌, arith,
}
use rapid_trader.Containers.{emplaced, assigned}
use rapid_trader.PriceMap.{get, emplace, put, erase, begin, rbegin, Ascending}

module _ {V : Type 0} where
  pub get-below : (j lo : ℕ) (m : List (ℕ × V)) → Ascending lo m → j < lo → get j m ≡ none
  unfolding get
  get-below j lo [] a h = refl
  get-below j lo ((p, w) ∷ m) a h = ground (arith, get-below j (suc p) m a.1)

  pub Ascending-mono : (lo lo' : ℕ) (m : List (ℕ × V)) → lo' ≤ lo → Ascending lo m → Ascending lo' m
  Ascending-mono lo lo' [] h a = tt
  Ascending-mono lo lo' ((p, w) ∷ m) h a = (omega arith, a.1)

  pub emplace-Ascending :
      (k lo : ℕ) (v : V) (m : List (ℕ × V)) → lo ≤ k → Ascending lo m → Ascending lo (emplace k v m)
  unfolding emplace
  emplace-Ascending k lo v [] h a = (h, tt)
  emplace-Ascending k lo v ((p, w) ∷ m) h a = ground (arith, emplace-Ascending k (suc p) v m)

  pub put-Ascending :
      (k lo : ℕ) (v : V) (m : List (ℕ × V)) → Ascending lo m → Ascending lo (put k v m)
  unfolding put
  put-Ascending k lo v [] a = tt
  put-Ascending k lo v ((p, w) ∷ m) a = ground (arith, put-Ascending k (suc p) v m)

  pub erase-Ascending : (k lo : ℕ) (m : List (ℕ × V)) → Ascending lo m → Ascending lo (erase k m)
  unfolding erase
  erase-Ascending k lo [] a = tt
  erase-Ascending k lo ((p, w) ∷ m) a =
      ground (arith, erase-Ascending k (suc p) m, Ascending-mono (suc p) lo m)

  pub get-emplace :
      (j k lo : ℕ) (v : V) (m : List (ℕ × V))
      → Ascending lo m
      → get j (emplace k v m) ≡ (if k == j then emplaced v (get j m) else get j m)
  unfolding get emplace
  get-emplace j k lo v [] a = ground arith
  get-emplace j k lo v ((p, w) ∷ m) a =
      ground (arith, get-emplace j k (suc p) v m a.1, get-below j (suc p) m a.1)

  pub get-put :
      (j k : ℕ) (v : V) (m : List (ℕ × V))
      → get j (put k v m) ≡ (if k == j then assigned v (get j m) else get j m)
  unfolding get put
  get-put j k v [] = ground arith
  get-put j k v ((p, w) ∷ m) = ground (arith, get-put j k v m)

  pub get-erase :
      (j k lo : ℕ) (m : List (ℕ × V))
      → Ascending lo m
      → get j (erase k m) ≡ (if k == j then none else get j m)
  unfolding get erase
  get-erase j k lo [] a = ground arith
  get-erase j k lo ((p, w) ∷ m) a =
      ground (arith, get-erase j k (suc p) m a.1, get-below j (suc p) m a.1)

  -- A key that has an entry is at least the bound.
  pub get-bound : (j lo : ℕ) (m : List (ℕ × V)) (w : V) → Ascending lo m → get j m ≡ some w → lo ≤ j
  unfolding get
  get-bound j lo [] w a h = cc
  get-bound j lo ((p, v) ∷ m) w a h = ground (arith, get-bound j (suc p) m w a.1)

  -- `begin()` points to an entry whose key is the least.
  pub begin-get : (p : ℕ) (v : V) (m : List (ℕ × V)) → begin m ≡ some (p, v) → get p m ≡ some v
  unfolding get
  begin-get p v [] h = cc
  begin-get p v ((q, w) ∷ m) h = ground arith

  pub begin-least :
      (p lo : ℕ) (v : V) (m : List (ℕ × V))
      → Ascending lo m
      → begin m ≡ some (p, v)
      → (j : ℕ) (w : V) → get j m ≡ some w
      → p ≤ j
  unfolding get
  begin-least p lo v [] a h j w g = cc
  begin-least p lo v ((q, x) ∷ m) a h j w g = ground (arith, get-bound j (suc q) m w a.1)

  -- `rbegin()` points to an entry whose key is the greatest.
  pub rbegin-get :
      (p lo : ℕ) (v : V) (m : List (ℕ × V))
      → Ascending lo m
      → rbegin m ≡ some (p, v)
      → get p m ≡ some v
  unfolding get
  rbegin-get p lo v [] a h = cc
  rbegin-get p lo v ((q, w) ∷ []) a h = ground arith
  rbegin-get p lo v ((q, w) ∷ (r, x) ∷ m) a h =
      ground
        (arith, rbegin-get p (suc q) v ((r, x) ∷ m) a.1 h, get-bound p (suc q) ((r, x) ∷ m) v a.1)

  pub rbegin-greatest :
      (p lo : ℕ) (v : V) (m : List (ℕ × V))
      → Ascending lo m
      → rbegin m ≡ some (p, v)
      → (j : ℕ) (w : V) → get j m ≡ some w
      → j ≤ p
  unfolding get
  rbegin-greatest p lo v [] a h j w g = cc
  rbegin-greatest p lo v ((q, x) ∷ []) a h j w g = ground arith
  rbegin-greatest p lo v ((q, x) ∷ (r, y) ∷ m) a h j w g = ground (
    arith,
    get-bound p (suc q) ((r, y) ∷ m) v a.1 (rbegin-get p (suc q) v ((r, y) ∷ m) a.1 h),
    rbegin-greatest p (suc q) v ((r, y) ∷ m) a.1 h j w,
  )

  pub begin-none : (m : List (ℕ × V)) → begin m ≡ none → (j : ℕ) → get j m ≡ none
  unfolding get
  begin-none [] h j = refl
  begin-none (e ∷ m) h j = cc

  pub rbegin-none : (m : List (ℕ × V)) → rbegin m ≡ none → (j : ℕ) → get j m ≡ none
  unfolding get
  rbegin-none [] h j = refl
  rbegin-none (e ∷ []) h j = cc
  rbegin-none (e ∷ f ∷ m) h j = absurd (rbegin-cons f m h)
    where
      rbegin-cons : (f : ℕ × V) (m : List (ℕ × V)) → rbegin (f ∷ m) ≡ none → ⊥
      rbegin-cons f [] k = cc
      rbegin-cons f (g ∷ m) k = rbegin-cons g m k
