-- ===== src/Order/Execution.antt =====
-- What executions and cancellations do to an order's quantities.
use rapid_trader.Base.{ℕ, ◌+◌, ◌≤◌, ◌<◌, ◌≡◌, false, arith, u64_mod}
use rapid_trader.Order.{Order, is_filled, execute, set_quantity}

-- The bookkeeping of an order that only executions have changed.
pub record IsBalanced (o : Order) : Type 0 where
  pub balanced : o.executed_quantity + o.open_quantity ≡ o.quantity
  pub last_fits : o.last_executed_quantity ≤ o.executed_quantity
  pub fits : o.quantity < u64_mod

-- An execution of at most the open quantity keeps an order balanced: what is executed and what is
-- open make up the quantity, and the last execution is a part of what is executed.
pub execute-IsBalanced :
    {o : Order} (p q : ℕ) → IsBalanced o → q ≤ o.open_quantity → IsBalanced (execute p q o)
unfolding execute
execute-IsBalanced p q v h = omega arith

-- A cancellation of more than the open quantity of an order, by an amount that fits 64 bits,
-- leaves the order open, with a larger open quantity than before.
pub set_quantity_too_much :
    (o : Order) (q : ℕ)
    → o.open_quantity < q
    → q < u64_mod
    → (is_filled (set_quantity q o) ≡ false) × (o.open_quantity < (set_quantity q o).open_quantity)
unfolding set_quantity
set_quantity_too_much o q more fits = (ground (arith, more, fits), omega (arith, more, fits))
