-- ===== src/Concurrent/ThreadPool/System/Finish.antt =====
-- The threads of a pool that was told to stop run what is left, and finish.
use rapid_trader.Base.{
  ℕ, zero, suc, ◌+◌, ◌≤◌, ◌≡◌, refl, subst, sym, ap, ◌∙◌, ◌<◌, some, List, [], ◌∷◌, arith, inl, inr,
  Bool-cases,
}
use rapid_trader.Concurrent.ThreadPool.{Worker, goes_on}
use rapid_trader.Concurrent.ThreadPool.System.{Tasks, System, WorkerStep}
use rapid_trader.Concurrent.ThreadPool.System.History.{append_nil}
use rapid_trader.Concurrent.ThreadPool.System.Drain.{work_left, WorkerStep-left}
use rapid_trader.Concurrent.ThreadPool.System.Halted.{IsHalted, WorkerStep-IsHalted}
use rapid_trader.Concurrent.ThreadPool.System.Serial.{submitted_same, num_threads_same}

module _ {A S : Type 0} ⦃T : Tasks A S⦄ where
  -- A number of steps of the threads.
  pub data Runs (s : System A S) : ℕ → System A S → Type 0 where
    here : Runs s zero s
    more : {k : ℕ} {t u : System A S} → Runs s k t → WorkerStep t u → Runs s (suc k) u

  Runs-IsHalted : (s s' : System A S) (k : ℕ) → IsHalted s → Runs s k s' → IsHalted s'
  Runs-IsHalted s s' k h Runs.here = h
  Runs-IsHalted s s' n h (Runs.more {k} {t} r step) =
      WorkerStep-IsHalted t s' (Runs-IsHalted s t k h r) step

  counted :
      (s s' : System A S) (k : ℕ)
      → IsHalted s
      → Runs s k s'
      → k + work_left s'.pool ≤ work_left s.pool
  counted s s' k h Runs.here = omega arith
  counted s s' n h (Runs.more {k} {t} r step) =
      let before = counted s t k h r in
      let now = WorkerStep-left t s' (Runs-IsHalted s t k h r).off step in
      omega (arith, before, now)

  -- The threads of a pool that was told to stop, without further calls of the client, make at most
  -- `work_left` steps, whatever their order: four for each task that waits, and at most three besides
  -- for each thread.
  pub Runs-work_left : (s s' : System A S) (k : ℕ) → IsHalted s → Runs s k s' → k ≤ work_left s.pool
  Runs-work_left s s' k h r = let c = counted s s' k h r in omega (arith, c)

  polling_at :
      (s : System A S) (i : ℕ) (q : List A)
      → i < s.pool.num_threads
      → s.pool.threads i ≡ Worker.polling
      → (s.pool.thread_queues i).queue ≡ q
      → ((t : System A S) → ¬ WorkerStep s t)
      → ⊥
  polling_at s i [] lt at e stuck = stuck _ (WorkerStep.yield i lt at e refl)
  polling_at s i (a ∷ todo) lt at e stuck = stuck _ (WorkerStep.take i a todo lt at e refl)

  -- Of a thread that can make no step.
  step_at :
      (s : System A S) (i : ℕ) (w : Worker A)
      → IsHalted s
      → i < s.pool.num_threads
      → s.pool.threads i ≡ w
      → ((t : System A S) → ¬ WorkerStep s t)
      → ((a : A) (l : S) → (l' : S) × (T.run a l ≡ some l'))
      → w ≡ Worker.finished
  step_at s i Worker.looping h lt at stuck total = elim (Bool-cases (goes_on i s.pool)) [
    | inl on ↦ absurd (stuck _ (WorkerStep.enter i lt at on refl))
    | inr on ↦ absurd (stuck _ (WorkerStep.leave i lt at on refl))
  ]
  step_at s i Worker.polling h lt at stuck total =
      absurd (polling_at s i (s.pool.thread_queues i).queue lt at refl stuck)
  step_at s i (Worker.busy a) h lt at stuck total =
      let (l', ran) = total a s.shared in
      absurd (stuck _ (WorkerStep.execute i a l' lt at ran refl))
  step_at s i Worker.finished h lt at stuck total = refl
  step_at s i Worker.joined h lt at stuck total = absurd (h.unjoined i at)

  Runs-same :
      (s s' : System A S) (k : ℕ)
      → Runs s k s'
      → (s'.submitted ≡ s.submitted) × (s'.pool.num_threads ≡ s.pool.num_threads)
  Runs-same s s' k Runs.here = (refl, refl)
  Runs-same s s' n (Runs.more {k} {t} r step) =
      let (sub, num) = Runs-same s t k r in (submitted_same step ∙ sub, num_threads_same step ∙ num)

  -- From a state in which the pool was told to stop, no thread is joined and no finished thread has
  -- left a task in its queue, and while no client calls it: once the threads can make no further step,
  -- in whatever order they made theirs, and if no task fails, every thread has finished and has run,
  -- in order, all that had been submitted to its queue.
  pub Runs-Drained :
      (s s' : System A S) (k : ℕ)
      → IsHalted s
      → Runs s k s'
      → ((a : A) (l : S) → (l' : S) × (T.run a l ≡ some l'))
      → ((t : System A S) → ¬ WorkerStep s' t)
      → (i : ℕ) → i < s.pool.num_threads
      → (s'.pool.threads i ≡ Worker.finished) × (s'.executed i ≡ s.submitted i)
  Runs-Drained s s' k h r total stuck i lt =
      let h' = Runs-IsHalted s s' k h r in
      let (sub, num) = Runs-same s s' k r in
      let at =
        step_at s' i (s'.pool.threads i) h' (subst (λ n. i < n) (sym num) lt) refl stuck total in
      (
        at,
        sym (
            ap (λ f. f i) (sym sub)
            ∙ h'.ordered i
            ∙ rw (at, h'.empty i at) (append_nil (s'.executed i))),
      )
