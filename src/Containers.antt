-- ===== src/Containers.antt =====
-- The containers that the matching engine takes from elsewhere: `robin_hood::unordered_map`
-- (include/utils/robin_hood.h, a vendored library) and `boost::intrusive::list`. Both are
-- parameters, with their documented behaviour as laws.
pub mod Assoc
use rapid_trader.Base.{
  ℕ, ◌≡◌, ◌↔◌, Bool, true, false, Option, none, some, List, [], ◌∷◌, ◌++◌, ◌==◌, if◌then◌else◌,
  Distinct, remove, tail, init,
}

-- What a lookup finds after `emplace`, which leaves an existing entry alone.
abbrev pub emplaced : {V : Type 0} → V → Option V → Option V
emplaced v none = some v
emplaced v (some w) = some w

-- What a lookup finds after a write through an iterator, which makes no new entry.
abbrev pub assigned : {V : Type 0} → V → Option V → Option V
assigned v none = none
assigned v (some w) = some v

-- `Map V` is a map from IDs to `V` with stable addresses; `RefList` is an intrusive list, of
-- references to orders. An order is referred to by the ID that is its key in the map.
pub record Containers : Type 1 where
  pub Map : Type 0 → Type 0
  pub empty_map : {V : Type 0} → Map V
  pub find : {V : Type 0} → ℕ → Map V → Option V
  pub emplace : {V : Type 0} → ℕ → V → Map V → Map V
  pub assign : {V : Type 0} → ℕ → V → Map V → Map V
  pub erase : {V : Type 0} → ℕ → Map V → Map V
  pub map_empty : {V : Type 0} → Map V → Bool
  pub find-empty_map : {V : Type 0} (k : ℕ) → find {V = V} k empty_map ≡ none
  pub find-emplace :
      {V : Type 0} (j k : ℕ) (v : V) (m : Map V)
      → find j (emplace k v m) ≡ (if k == j then emplaced v (find j m) else find j m)
  pub find-assign :
      {V : Type 0} (j k : ℕ) (v : V) (m : Map V)
      → find j (assign k v m) ≡ (if k == j then assigned v (find j m) else find j m)
  pub find-erase :
      {V : Type 0} (j k : ℕ) (m : Map V) → find j (erase k m) ≡ (if k == j then none else find j m)
  pub map_empty_iff : {V : Type 0} (m : Map V) → (map_empty m ≡ true) ↔ ((k : ℕ) → find k m ≡ none)
  pub RefList : Type 0
  pub to_list : RefList → List ℕ
  pub no_refs : RefList
  pub push_back : ℕ → RefList → RefList
  pub pop_front : RefList → RefList
  pub pop_back : RefList → RefList
  pub unlink : ℕ → RefList → RefList
  pub to_list-no_refs : to_list no_refs ≡ []
  pub to_list-push_back : (a : ℕ) (l : RefList) → to_list (push_back a l) ≡ to_list l ++ a ∷ []
  pub to_list-pop_front : (l : RefList) → to_list (pop_front l) ≡ tail (to_list l)
  pub to_list-pop_back : (l : RefList) → to_list (pop_back l) ≡ init (to_list l)
  pub to_list-unlink :
      (a : ℕ) (l : RefList) → Distinct (to_list l) → to_list (unlink a l) ≡ remove a (to_list l)
