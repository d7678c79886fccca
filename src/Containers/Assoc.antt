-- ===== src/Containers/Assoc.antt =====
-- Association lists and plain lists meet the laws of the containers.
use rapid_trader.Base.{
  ℕ, ◌≡◌, refl, ◌↔◌, true, Option, none, some, List, [], ◌∷◌, ◌++◌, ◌==◌, if◌then◌else◌, arith,
  remove, tail, init, is_nil,
}
use rapid_trader.Containers.{Containers, emplaced, assigned}

module _ {V : Type 0} where
  abbrev pub find : ℕ → List (ℕ × V) → Option V
  find k [] = none
  find k ((j, v) ∷ m) = if j == k then some v else find k m

  abbrev pub erase : ℕ → List (ℕ × V) → List (ℕ × V)
  erase k [] = []
  erase k ((j, v) ∷ m) = if j == k then erase k m else (j, v) ∷ erase k m

  abbrev pub assign : ℕ → V → List (ℕ × V) → List (ℕ × V)
  assign k v [] = []
  assign k v ((j, w) ∷ m) = if j == k then (j, v) ∷ assign k v m else (j, w) ∷ assign k v m

  abbrev pub emplace_at : ℕ → V → List (ℕ × V) → Option V → List (ℕ × V)
  emplace_at k v m none = (k, v) ∷ m
  emplace_at k v m (some w) = m

  abbrev pub emplace : ℕ → V → List (ℕ × V) → List (ℕ × V)
  emplace k v m = emplace_at k v m (find k m)

  pub find-emplace :
      (j k : ℕ) (v : V) (m : List (ℕ × V))
      → find j (emplace k v m) ≡ (if k == j then emplaced v (find j m) else find j m)
  find-emplace j k v m = ground arith

  pub find-assign :
      (j k : ℕ) (v : V) (m : List (ℕ × V))
      → find j (assign k v m) ≡ (if k == j then assigned v (find j m) else find j m)
  find-assign j k v [] = ground arith
  find-assign j k v ((i, w) ∷ m) = ground (arith, find-assign j k v m)

  pub find-erase :
      (j k : ℕ) (m : List (ℕ × V)) → find j (erase k m) ≡ (if k == j then none else find j m)
  find-erase j k [] = ground arith
  find-erase j k ((i, w) ∷ m) = ground (arith, find-erase j k m)

  pub is_nil_iff : (m : List (ℕ × V)) → (is_nil m ≡ true) ↔ ((k : ℕ) → find k m ≡ none)
  is_nil_iff [] = (λ h k. refl, λ h. refl)
  is_nil_iff ((j, v) ∷ m) = (λ h k. cc, λ h. absurd (ground (arith, h j)))

abbrev pub assoc : Containers
assoc = record {
  Map = λ V. List (ℕ × V);
  empty_map = [];
  find = find;
  emplace = emplace;
  assign = assign;
  erase = erase;
  map_empty = is_nil;
  find-empty_map = λ k. refl;
  find-emplace = find-emplace;
  find-assign = find-assign;
  find-erase = find-erase;
  map_empty_iff = is_nil_iff;
  RefList = List ℕ;
  to_list = λ l. l;
  no_refs = [];
  push_back = λ a l. l ++ a ∷ [];
  pop_front = tail;
  pop_back = init;
  unlink = remove;
  to_list-no_refs = refl;
  to_list-push_back = λ a l. refl;
  to_list-pop_front = λ l. refl;
  to_list-pop_back = λ l. refl;
  to_list-unlink = λ a l d. refl;
}
