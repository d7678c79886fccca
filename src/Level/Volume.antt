-- ===== src/Level/Volume.antt =====
-- The volume of a level is the total of the open quantities that its references stand for.
use rapid_trader.Base.{
  ℕ, ◌+◌, ◌≡◌, refl, true, false, Option, none, some, List, [], ◌∷◌, ◌++◌, ◌==◌, arith, has, remove,
  Distinct, Bool-cases, inl, inr, ne→==, ==→eq,
}
use rapid_trader.Order.{Order}

-- The open quantity behind a reference, and the total behind several.
abbrev pub open_at : Option Order → ℕ
open_at none = 0
open_at (some o) = o.open_quantity

abbrev pub total : (ℕ → Option Order) → List ℕ → ℕ
total deref [] = 0
total deref (r ∷ rs) = open_at (deref r) + total deref rs

module _ (deref deref' : ℕ → Option Order) where
  -- A store that differs at references outside the list only has the same total.
  pub total-frame :
      (rs : List ℕ)
      → ((r : ℕ) → has r rs ≡ true → deref' r ≡ deref r)
      → total deref' rs ≡ total deref rs
  total-frame [] same = refl
  total-frame (r ∷ rs) same = ground (arith, same r, total-frame rs (λ a h. same a (ground arith)))

pub total-append :
    (deref : ℕ → Option Order) (rs ss : List ℕ)
    → total deref (rs ++ ss) ≡ total deref rs + total deref ss
total-append deref [] ss = omega arith
total-append deref (r ∷ rs) ss = omega (arith, total-append deref rs ss)

pub total-remove :
    (deref : ℕ → Option Order) (r : ℕ) (rs : List ℕ)
    → has r rs ≡ true
    → total deref rs ≡ open_at (deref r) + total deref (remove r rs)
total-remove deref r [] h = cc
total-remove deref r (s ∷ rs) h = ground (arith, total-remove deref r rs)

-- Only the order behind `r` has changed: so has the total, by as much.
pub total-update :
    (deref deref' : ℕ → Option Order) (r : ℕ) (rs : List ℕ)
    → Distinct rs
    → has r rs ≡ true
    → ((s : ℕ) → (r == s) ≡ false → deref' s ≡ deref s)
    → total deref' rs + open_at (deref r) ≡ total deref rs + open_at (deref' r)
total-update deref deref' r [] d h same = cc
total-update deref deref' r (s ∷ rs) d h same = elim (Bool-cases (s == r)) [
  | inl here ↦ ground (
    arith,
    total-frame deref deref' rs (λ a m. same a (ne→== r a (λ e. ground (arith, ==→eq s r here)))),
  )
  | inr there ↦ ground (arith, total-update deref deref' r rs d.1, same s (ground arith))
]
