-- ===== src/PriceMap.antt =====
-- `std::map<uint64_t, T>` as the order book uses it: the entries in ascending order of their keys.
-- An iterator is the key of the entry that it points to.
pub mod Laws
use rapid_trader.Base.{
  ℕ, suc, ◌≤◌, Bool, Option, none, some, List, [], ◌∷◌, ltb, ◌==◌, if◌then◌else◌, head?, last?,
  is_nil,
}

module _ {V : Type 0} where
  -- The entry that an iterator points to; `none` is `end()`.
  unfoldable pub get : ℕ → List (ℕ × V) → Option V
  get k [] = none
  get k ((p, v) ∷ m) = if p == k then some v else get k m

  -- An existing entry is left alone.
  unfoldable pub emplace : ℕ → V → List (ℕ × V) → List (ℕ × V)
  emplace k v [] = (k, v) ∷ []
  emplace k v ((p, w) ∷ m) =
      if ltb k p
      then (k, v) ∷ (p, w) ∷ m
      else (if p == k then (p, w) ∷ m else (p, w) ∷ emplace k v m)

  -- A write through an iterator.
  unfoldable pub put : ℕ → V → List (ℕ × V) → List (ℕ × V)
  put k v [] = []
  put k v ((p, w) ∷ m) = if p == k then (p, v) ∷ m else (p, w) ∷ put k v m

  unfoldable pub erase : ℕ → List (ℕ × V) → List (ℕ × V)
  erase k [] = []
  erase k ((p, v) ∷ m) = if p == k then m else (p, v) ∷ erase k m

  -- `*begin()` and `*rbegin()`.
  abbrev pub begin : List (ℕ × V) → Option (ℕ × V)
  begin = head?

  abbrev pub rbegin : List (ℕ × V) → Option (ℕ × V)
  rbegin = last?

  -- The keys ascend, from `lo` at least.
  abbrev pub Ascending : ℕ → List (ℕ × V) → Type 0
  Ascending lo [] = Unit {0}
  Ascending lo ((p, v) ∷ m) = (lo ≤ p) × Ascending (suc p) m
