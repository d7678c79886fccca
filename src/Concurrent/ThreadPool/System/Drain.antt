-- ===== src/Concurrent/ThreadPool/System/Drain.antt =====
-- The end of a pool: once `running` is false, each step of a thread leaves less to do.
use Prim.Native.Nat.{◌*◌}
use rapid_trader.Base.{
  ℕ, zero, suc, ◌+◌, ◌≡◌, refl, subst, ◌<◌, Bool, false, ◌==◌, if◌then◌else◌, arith, inl, inr,
  Bool-cases, ==→eq, ==_refl, length, ==→ne,
}
use rapid_trader.Concurrent.Queue
use rapid_trader.Concurrent.Queue.{Queue}
use rapid_trader.Concurrent.ThreadPool.{Worker, ThreadPool}
use rapid_trader.Concurrent.ThreadPool.System.{Tasks, System, WorkerStep, set_worker, set_queue}

-- The sum of `f` below `n`.
abbrev total : (ℕ → ℕ) → ℕ → ℕ
total f zero = 0
total f (suc n) = total f n + f n

total_same : (f g : ℕ → ℕ) (n : ℕ) → ((j : ℕ) → j < n → g j ≡ f j) → total g n ≡ total f n
total_same f g zero same = refl
total_same f g (suc n) same =
    let here = same n (omega arith) in
    let before = total_same f g n (λ j lt. same j (omega arith)) in omega (arith, here, before)

-- A sum falls where one summand falls and the others stay.
total_falls :
    (f g : ℕ → ℕ) (i n : ℕ)
    → i < n
    → g i < f i
    → ((j : ℕ) → (i == j) ≡ false → g j ≡ f j)
    → total g n < total f n
total_falls f g i zero lt less same = absurd (omega arith)
total_falls f g i (suc n) lt less same = elim (Bool-cases (i == n)) [
  | inl e ↦
      let before = total_same f g n (λ j below. same j (let at = ==→eq i n e in ground arith)) in
      let at = ==→eq i n e in
      let here : g n < f n = subst (λ k. g k < f k) at less in omega (arith, before, here)
  | inr e ↦
      let before = total_falls f g i n (let ne = ==→ne i n e in omega (arith, ne)) less same in
      omega (arith, before, same n e)
]

module _ {A : Type 0} where
  -- What a thread has still to do besides the tasks in its queue.
  abbrev stage : Worker A → Bool → ℕ
  stage Worker.looping e = 2
  stage Worker.polling e = if e then 3 else 1
  stage (Worker.busy a) e = 3
  stage Worker.finished e = 0
  stage Worker.joined e = 0

  abbrev left : ThreadPool A → ℕ → ℕ
  left pool i =
      4 * length (pool.thread_queues i).queue
      + stage (pool.threads i) (Queue.empty (pool.thread_queues i))

  -- A bound on the steps that the threads can still make.
  abbrev pub work_left : ThreadPool A → ℕ
  work_left pool = total (left pool) pool.num_threads

module _ {A S : Type 0} ⦃T : Tasks A S⦄ where
  -- Each step leaves less to do.
  pub WorkerStep-left :
      (s s' : System A S)
      → s.pool.running ≡ false
      → WorkerStep s s'
      → work_left s'.pool < work_left s.pool
  WorkerStep-left s s' off (WorkerStep.enter i lt at on e) = rw e (
      total_falls (left s.pool) (left (set_worker i Worker.polling s.pool)) i s.pool.num_threads lt
        (rw (==_refl i, at) (let on' = rw off at on in ground (arith, on')))
        (λ j apart. rw apart refl))
  WorkerStep-left s s' off (WorkerStep.leave i lt at on e) = rw e (
      total_falls (left s.pool) (left (set_worker i Worker.finished s.pool)) i s.pool.num_threads lt
        (rw (==_refl i, at) (omega arith)) (λ j apart. rw apart refl))
  WorkerStep-left s s' off (WorkerStep.take i a todo lt at q e) = rw e (
      total_falls (left s.pool)
        (left (set_worker i (Worker.busy a) (set_queue i (record { queue = todo }) s.pool))) i
        s.pool.num_threads lt (rw (==_refl i, at, q) (omega arith)) (λ j apart. rw apart refl))
  WorkerStep-left s s' off (WorkerStep.yield i lt at q e) = rw e (
      total_falls (left s.pool) (left (set_worker i Worker.looping s.pool)) i s.pool.num_threads lt
        (rw (==_refl i, at, q) (omega arith)) (λ j apart. rw apart refl))
  WorkerStep-left s s' off (WorkerStep.execute i a sh lt at ran e) = rw e (
      total_falls (left s.pool) (left (set_worker i Worker.looping s.pool)) i s.pool.num_threads lt
        (rw (==_refl i, at) (omega arith)) (λ j apart. rw apart refl))
