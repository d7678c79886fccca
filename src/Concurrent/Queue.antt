-- ===== src/Concurrent/Queue.antt =====
-- include/concurrent/queue.h: `Queue`. Every method holds the queue's mutex from its first line to its
-- last, so a call is one step. A call that waits is `none` until the queue holds something.
use rapid_trader.Base.{Bool, true, false, Option, none, some, List, [], ◌∷◌, ◌++◌, is_nil}

pub record Queue (A : Type 0) : Type 0 where
  pub queue : List A

module _ {A : Type 0} where
  abbrev pub new_queue : Queue A
  new_queue = record { queue = [] }

  -- The copy constructor.
  abbrev pub copy : Queue A → Queue A
  copy other = record { queue = other.queue }

  abbrev pub push : A → Queue A → Queue A
  push data_ q = record { queue = q.queue ++ data_ ∷ [] }

  abbrev pub wait_and_pop : Queue A → Option (A × Queue A)
  wait_and_pop q = elim q.queue [ [] ↦ none | a ∷ rest ↦ some (a, record { queue = rest }) ]

  -- The overload that returns a pointer: from an empty queue it points to a new `T`.
  abbrev pub try_pop_or : A → Queue A → A × Queue A
  try_pop_or fresh q = elim q.queue [ [] ↦ (fresh, q) | a ∷ rest ↦ (a, record { queue = rest }) ]

  -- The overload that writes to its argument `data_` and tells whether it did.
  abbrev pub try_pop : A → Queue A → Bool × A × Queue A
  try_pop data_ q = elim q.queue [
    | [] ↦ (false, data_, q)
    | a ∷ rest ↦ (true, a, record { queue = rest })
  ]

  abbrev pub empty : Queue A → Bool
  empty q = is_nil q.queue
