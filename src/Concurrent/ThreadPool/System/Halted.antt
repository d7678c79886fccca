-- ===== src/Concurrent/ThreadPool/System/Halted.antt =====
-- A pool that was told to stop, and what its threads keep.
use rapid_trader.Base.{
  ℕ, ◌≡◌, refl, subst, ◌∙◌, false, List, [], ◌==◌, arith, inl, inr, ◌≢◌, Bool-cases, ==→eq,
}
use rapid_trader.Concurrent.ThreadPool.{Worker, update, goes_on}
use rapid_trader.Concurrent.ThreadPool.System.{Tasks, System, WorkerStep}
use rapid_trader.Concurrent.ThreadPool.System.History.{IsOrdered, WorkerStep-IsOrdered}

module _ {A S : Type 0} ⦃T : Tasks A S⦄ where
  -- A pool that was told to stop: its finished threads have left no task behind, and none is joined.
  pub record IsHalted (s : System A S) : Type 0 where
    pub off : s.pool.running ≡ false
    pub ordered : IsOrdered s
    pub empty : (i : ℕ) → s.pool.threads i ≡ Worker.finished → (s.pool.thread_queues i).queue ≡ []
    pub unjoined : (i : ℕ) → s.pool.threads i ≢ Worker.joined

  moved_empty :
      (s : System A S) (i : ℕ) (w : Worker A)
      → (w ≡ Worker.finished → (s.pool.thread_queues i).queue ≡ [])
      → ((j : ℕ) → s.pool.threads j ≡ Worker.finished → (s.pool.thread_queues j).queue ≡ [])
      → (j : ℕ) → update s.pool.threads i w j ≡ Worker.finished
      → (s.pool.thread_queues j).queue ≡ []
  moved_empty s i w here empty j at = elim (Bool-cases (i == j)) [
    | inl same ↦
        subst (λ k. (s.pool.thread_queues k).queue ≡ []) (==→eq i j same) (here (rw same at at))
    | inr apart ↦ empty j (rw apart at at)
  ]

  moved_unjoined :
      (s : System A S) (i : ℕ) (w : Worker A)
      → w ≢ Worker.joined
      → ((j : ℕ) → s.pool.threads j ≢ Worker.joined)
      → (j : ℕ) → update s.pool.threads i w j ≢ Worker.joined
  moved_unjoined s i w here unjoined j at = elim (Bool-cases (i == j)) [
    | inl same ↦ here (rw same at at)
    | inr apart ↦ unjoined j (rw apart at at)
  ]

  taken_empty :
      (s : System A S) (i : ℕ) (a : A) (todo : List A)
      → ((j : ℕ) → s.pool.threads j ≡ Worker.finished → (s.pool.thread_queues j).queue ≡ [])
      → (j : ℕ) → update s.pool.threads i (Worker.busy a) j ≡ Worker.finished
      → (update s.pool.thread_queues i (record { queue = todo }) j).queue ≡ []
  taken_empty s i a todo empty j at = elim (Bool-cases (i == j)) [
    | inl same ↦ let no = rw same at at in cc
    | inr apart ↦ rw apart (empty j (rw apart at at))
  ]

  left_empty :
      (s : System A S) (i : ℕ) → goes_on i s.pool ≡ false → (s.pool.thread_queues i).queue ≡ []
  left_empty s i on = ground (arith, on)

  WorkerStep-empty :
      (s s' : System A S)
      → IsHalted s
      → WorkerStep s s'
      → (j : ℕ) → s'.pool.threads j ≡ Worker.finished
      → (s'.pool.thread_queues j).queue ≡ []
  WorkerStep-empty s s' h (WorkerStep.enter i lt at on e) =
      rw e (moved_empty s i Worker.polling (λ no. cc) h.empty)
  WorkerStep-empty s s' h (WorkerStep.leave i lt at on e) =
      rw e (moved_empty s i Worker.finished (λ same. left_empty s i on) h.empty)
  WorkerStep-empty s s' h (WorkerStep.take i a todo lt at q e) =
      rw e (taken_empty s i a todo h.empty)
  WorkerStep-empty s s' h (WorkerStep.yield i lt at q e) =
      rw e (moved_empty s i Worker.looping (λ no. cc) h.empty)
  WorkerStep-empty s s' h (WorkerStep.execute i a sh lt at ran e) =
      rw e (moved_empty s i Worker.looping (λ no. cc) h.empty)

  pub WorkerStep-IsUnjoined :
      (s s' : System A S)
      → ((j : ℕ) → s.pool.threads j ≢ Worker.joined)
      → WorkerStep s s'
      → (j : ℕ) → s'.pool.threads j ≢ Worker.joined
  WorkerStep-IsUnjoined s s' h (WorkerStep.enter i lt at on e) =
      rw e (moved_unjoined s i Worker.polling (λ no. cc) h)
  WorkerStep-IsUnjoined s s' h (WorkerStep.leave i lt at on e) =
      rw e (moved_unjoined s i Worker.finished (λ no. cc) h)
  WorkerStep-IsUnjoined s s' h (WorkerStep.take i a todo lt at q e) =
      rw e (moved_unjoined s i (Worker.busy a) (λ no. cc) h)
  WorkerStep-IsUnjoined s s' h (WorkerStep.yield i lt at q e) =
      rw e (moved_unjoined s i Worker.looping (λ no. cc) h)
  WorkerStep-IsUnjoined s s' h (WorkerStep.execute i a sh lt at ran e) =
      rw e (moved_unjoined s i Worker.looping (λ no. cc) h)

  running_same : {s s' : System A S} → WorkerStep s s' → s'.pool.running ≡ s.pool.running
  running_same (WorkerStep.enter i lt at on e) = rw e refl
  running_same (WorkerStep.leave i lt at on e) = rw e refl
  running_same (WorkerStep.take i a todo lt at q e) = rw e refl
  running_same (WorkerStep.yield i lt at q e) = rw e refl
  running_same (WorkerStep.execute i a sh lt at ran e) = rw e refl

  pub WorkerStep-IsHalted : (s s' : System A S) → IsHalted s → WorkerStep s s' → IsHalted s'
  WorkerStep-IsHalted s s' h step = record {
    off = running_same step ∙ h.off;
    ordered = WorkerStep-IsOrdered step h.ordered;
    empty = WorkerStep-empty s s' h step;
    unjoined = WorkerStep-IsUnjoined s s' h.unjoined step;
  }
