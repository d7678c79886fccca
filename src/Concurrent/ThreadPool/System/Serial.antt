-- ===== src/Concurrent/ThreadPool/System/Serial.antt =====
-- Tasks of different queues that work on different parts of the shared state: each part is what its
-- queue's tasks make of it, one after the other.
use rapid_trader.Base.{
  ℕ, ◌≡◌, refl, subst, sym, ap, ◌∙◌, All, false, Option, some, List, [], ◌∷◌, ◌++◌, ◌==◌, ◌>>=◌,
  inl, inr, Bool-cases, ==→eq,
}
use rapid_trader.Concurrent.ThreadPool.{Worker, update}
use rapid_trader.Concurrent.ThreadPool.System.{Tasks, System, WorkerStep, ClientStep, Reach}
use rapid_trader.Concurrent.ThreadPool.System.History.{
  IsOrdered, Reach-IsOrdered, run_all, run_all-append,
}

-- Every task works on one part of the state.
pub record Parts (A S L : Type 0) ⦃T : Tasks A S⦄ : Type 0 where
  pub part : ℕ → S → L
  pub owner : A → ℕ
  pub work : A → L → Option L
  pub works :
      (a : A) (s s' : S)
      → T.run a s ≡ some s'
      → work a (part (owner a) s) ≡ some (part (owner a) s')
  pub apart :
      (a : A) (s s' : S) (j : ℕ)
      → T.run a s ≡ some s'
      → (owner a == j) ≡ false
      → part j s' ≡ part j s

-- All the tasks of a list are for the part `i`.
abbrev pub AllFor : {A : Type 0} → (A → ℕ) → ℕ → List A → Type 0
AllFor owner i = All (λ a. owner a ≡ i)

AllFor-left :
    {A : Type 0} (owner : A → ℕ) (i : ℕ) (xs ys : List A)
    → AllFor owner i (xs ++ ys)
    → AllFor owner i xs
AllFor-left owner i [] ys all = tt
AllFor-left owner i (x ∷ xs) ys (own, all) = (own, AllFor-left owner i xs ys all)

pub AllFor-right :
    {A : Type 0} (owner : A → ℕ) (i : ℕ) (xs ys : List A)
    → AllFor owner i (xs ++ ys)
    → AllFor owner i ys
AllFor-right owner i [] ys all = all
AllFor-right owner i (x ∷ xs) ys (own, all) = AllFor-right owner i xs ys all

module _ {A S : Type 0} ⦃T : Tasks A S⦄ where
  -- A thread submits nothing.
  pub submitted_same : {s s' : System A S} → WorkerStep s s' → s'.submitted ≡ s.submitted
  submitted_same (WorkerStep.enter i lt at on e) = rw e refl
  submitted_same (WorkerStep.leave i lt at on e) = rw e refl
  submitted_same (WorkerStep.yield i lt at q e) = rw e refl
  submitted_same (WorkerStep.take i a todo lt at q e) = rw e refl
  submitted_same (WorkerStep.execute i a sh lt at ran e) = rw e refl

  pub num_threads_same :
      {s s' : System A S} → WorkerStep s s' → s'.pool.num_threads ≡ s.pool.num_threads
  num_threads_same (WorkerStep.enter i lt at on e) = rw e refl
  num_threads_same (WorkerStep.leave i lt at on e) = rw e refl
  num_threads_same (WorkerStep.yield i lt at q e) = rw e refl
  num_threads_same (WorkerStep.take i a todo lt at q e) = rw e refl
  num_threads_same (WorkerStep.execute i a sh lt at ran e) = rw e refl

module _ {A S L : Type 0} ⦃T : Tasks A S⦄ (P : Parts A S L) where
  -- Every task stands in the queue of its part.
  abbrev pub IsSorted : System A S → Type 0
  IsSorted s = (i : ℕ) → AllFor P.owner i (s.submitted i)

  -- Each part is what the tasks that were run make of it.
  abbrev pub IsSerial : S → System A S → Type 0
  IsSerial from s =
      (i : ℕ) → run_all P.work (s.executed i) (P.part i from) ≡ some (P.part i s.shared)

  ClientStep-IsSorted : {s s' : System A S} → ClientStep s s' → IsSorted s' → IsSorted s
  ClientStep-IsSorted {s} (ClientStep.submit i a pool' run e) all j = elim (Bool-cases (i == j)) [
    | inl same ↦ AllFor-left P.owner j (s.submitted j) (a ∷ []) (
        subst (λ k. AllFor P.owner j (s.submitted k ++ a ∷ [])) (==→eq i j same)
          (rw same at (rw e at (all j))))
    | inr apart ↦ rw apart at (rw e at (all j))
  ]
  ClientStep-IsSorted {s} (ClientStep.halt pool' run e) all j = rw e at (all j)

  WorkerStep-IsSorted : {s s' : System A S} → WorkerStep s s' → IsSorted s' → IsSorted s
  WorkerStep-IsSorted step all j = rw (submitted_same step) at (all j)

  -- The task in hand is for the part of its thread.
  owned :
      (s : System A S) (i : ℕ) (a : A)
      → IsOrdered s
      → IsSorted s
      → s.pool.threads i ≡ Worker.busy a
      → P.owner a ≡ i
  owned s i a o all at =
      (AllFor-right P.owner i (s.executed i) (a ∷ (s.pool.thread_queues i).queue)
        (rw (at) at (rw (o i) at (all i)))).0

  executed_here :
      (from : S) (s : System A S) (i : ℕ) (a : A) (shared' : S)
      → P.owner a ≡ i
      → T.run a s.shared ≡ some shared'
      → IsSerial from s
      → run_all P.work (s.executed i ++ a ∷ []) (P.part i from) ≡ some (P.part i shared')
  executed_here from s i a shared' own ran serial =
      run_all-append P.work (s.executed i) (a ∷ []) (P.part i from)
      ∙ ap (λ m. m >>= run_all P.work (a ∷ [])) (serial i)
      ∙ ap (λ m. m >>= some)
          (subst (λ k. P.work a (P.part k s.shared) ≡ some (P.part k shared')) own
            (P.works a s.shared shared' ran))

  executed-IsSerial :
      (from : S) (s : System A S) (i : ℕ) (a : A) (shared' : S)
      → P.owner a ≡ i
      → T.run a s.shared ≡ some shared'
      → IsSerial from s
      → (j : ℕ)
      → run_all P.work (update s.executed i (s.executed i ++ a ∷ []) j) (P.part j from)
        ≡ some (P.part j shared')
  executed-IsSerial from s i a shared' own ran serial j = elim (Bool-cases (i == j)) [
    | inl same ↦ rw same (
        subst
          (λ k. run_all P.work (s.executed i ++ a ∷ []) (P.part k from) ≡ some (P.part k shared'))
          (==→eq i j same) (executed_here from s i a shared' own ran serial))
    | inr apart ↦
        rw apart (
          serial j
          ∙ ap some (sym (P.apart a s.shared shared' j ran (ap (λ k. k == j) own ∙ apart))))
  ]

  WorkerStep-IsSerial :
      (from : S) {s s' : System A S}
      → WorkerStep s s'
      → IsOrdered s
      → IsSorted s
      → IsSerial from s
      → IsSerial from s'
  WorkerStep-IsSerial from {s} (WorkerStep.enter i lt at on e) o all serial = rw e serial
  WorkerStep-IsSerial from {s} (WorkerStep.leave i lt at on e) o all serial = rw e serial
  WorkerStep-IsSerial from {s} (WorkerStep.yield i lt at q e) o all serial = rw e serial
  WorkerStep-IsSerial from {s} (WorkerStep.take i a todo lt at q e) o all serial = rw e serial
  WorkerStep-IsSerial from {s} (WorkerStep.execute i a sh lt at ran e) o all serial =
      rw e (executed-IsSerial from s i a sh (owned s i a o all at) ran serial)

  ClientStep-IsSerial :
      (from : S) {s s' : System A S} → ClientStep s s' → IsSerial from s → IsSerial from s'
  ClientStep-IsSerial from (ClientStep.submit i a pool' run e) serial = rw e serial
  ClientStep-IsSerial from (ClientStep.halt pool' run e) serial = rw e serial

  Reach-executed-IsSerial :
      {s s' : System A S}
      → Reach s s'
      → IsOrdered s
      → ((i : ℕ) → s.executed i ≡ [])
      → IsSorted s'
      → IsSerial s.shared s'
  Reach-executed-IsSerial {s} Reach.here o fresh all =
      λ i. ap (λ l. run_all P.work l (P.part i s.shared)) (fresh i)
  Reach-executed-IsSerial {s} (Reach.by_worker r step) o fresh all =
      let all' = WorkerStep-IsSorted step all in
      WorkerStep-IsSerial s.shared step (Reach-IsOrdered r o) all'
        (Reach-executed-IsSerial r o fresh all')
  Reach-executed-IsSerial {s} (Reach.by_client r step) o fresh all =
      ClientStep-IsSerial s.shared step
        (Reach-executed-IsSerial r o fresh (ClientStep-IsSorted step all))

  -- From a pool to which nothing was submitted, whatever the client and the threads do, in any
  -- order, if every task was submitted to the queue of its part and none has failed: what was
  -- submitted to a queue is what its thread has run, followed by what it has not, and the part of
  -- the shared state is what the tasks that were run make of it, one after the other.
  pub Reach-IsSerial :
      (s s' : System A S)
      → Reach s s'
      → IsOrdered s
      → ((i : ℕ) → s.executed i ≡ [])
      → IsSorted s'
      → (i : ℕ)
      → (todo : List A) × (s'.submitted i ≡ s'.executed i ++ todo)
        × (run_all P.work (s'.executed i) (P.part i s.shared) ≡ some (P.part i s'.shared))
  Reach-IsSerial s s' r o fresh all i =
      (_, Reach-IsOrdered r o i, Reach-executed-IsSerial r o fresh all i)
