-- ===== src/Concurrent/ThreadPool/System/History.antt =====
-- A queue is first in, first out, and its thread runs its tasks one after the other.
use rapid_trader.Base.{
  ℕ, ◌≡◌, refl, subst, sym, ap, ◌∙◌, false, Option, none, some, List, [], ◌∷◌, ◌++◌, ◌==◌, ◌>>=◌,
  arith, inl, inr, Bool-cases, ==→eq,
}
use rapid_trader.Concurrent.Queue.{push}
use rapid_trader.Concurrent.ThreadPool.{Worker, ThreadPool, update, submit_task, stop}
use rapid_trader.Concurrent.ThreadPool.System.{
  Tasks, System, WorkerStep, ClientStep, Reach, set_worker,
}

>>=-append :
    {L : Type 0} (m : Option L) (f g h : L → Option L)
    → ((l : L) → f l ≡ (g l >>= h))
    → (m >>= f) ≡ ((m >>= g) >>= h)
>>=-append none f g h same = refl
>>=-append (some l) f g h same = same l

module _ {A : Type 0} where
  -- The task that a thread has in hand.
  abbrev pub in_hand : Worker A → List A
  in_hand (Worker.busy a) = a ∷ []
  in_hand _ = []

  pub append_assoc : (xs ys zs : List A) → (xs ++ ys) ++ zs ≡ xs ++ (ys ++ zs)
  append_assoc [] ys zs = refl
  append_assoc (x ∷ xs) ys zs = ap (λ l. x ∷ l) (append_assoc xs ys zs)

  pub append_nil : (xs : List A) → xs ++ [] ≡ xs
  append_nil [] = refl
  append_nil (x ∷ xs) = ap (λ l. x ∷ l) (append_nil xs)

  -- What a state becomes by one task after the other.
  abbrev pub run_all : {L : Type 0} → (A → L → Option L) → List A → L → Option L
  run_all work [] l = some l
  run_all work (a ∷ todo) l = work a l >>= run_all work todo

  pub run_all-append :
      {L : Type 0} (work : A → L → Option L) (todo bs : List A) (l : L)
      → run_all work (todo ++ bs) l ≡ (run_all work todo l >>= run_all work bs)
  run_all-append work [] bs l = refl
  run_all-append work (a ∷ todo) bs l =
      >>=-append (work a l) (run_all work (todo ++ bs)) (run_all work todo) (run_all work bs)
        (run_all-append work todo bs)

  -- A thread that moves on with the same task in hand, or none.
  in_hand-update :
      (threads : ℕ → Worker A) (i j : ℕ) (w w' : Worker A)
      → threads i ≡ w
      → in_hand w' ≡ in_hand w
      → in_hand (update threads i w' j) ≡ in_hand (threads j)
  in_hand-update threads i j w w' at same = elim (Bool-cases (i == j)) [
    | inl e ↦ rw e (same ∙ ap in_hand (sym at) ∙ ap (λ k. in_hand (threads k)) (==→eq i j e))
    | inr e ↦ rw e refl
  ]

  pub submit_task-eq :
      (i : ℕ) (a : A) (pool pool' : ThreadPool A)
      → submit_task i a pool ≡ some pool'
      → pool' ≡ record pool {
        thread_queues = update pool.thread_queues i (push a (pool.thread_queues i));
      }
  unfolding submit_task
  submit_task-eq i a pool pool' e = ground (arith, e)

  pub stop-eq :
      (pool pool' : ThreadPool A) → stop pool ≡ some pool' → pool' ≡ record pool { running = false }
  unfolding stop
  stop-eq pool pool' e = ground (arith, e)

module _ {A S : Type 0} ⦃T : Tasks A S⦄ where
  -- All that was submitted to a queue: run, in hand, and waiting, in this order.
  abbrev pub accounted : System A S → ℕ → List A
  accounted s i = s.executed i ++ (in_hand (s.pool.threads i) ++ (s.pool.thread_queues i).queue)

  abbrev pub IsOrdered : System A S → Type 0
  IsOrdered s = (i : ℕ) → s.submitted i ≡ accounted s i

  moved :
      (s : System A S) (i : ℕ) (w w' : Worker A)
      → s.pool.threads i ≡ w
      → in_hand w' ≡ in_hand w
      → IsOrdered s
      → IsOrdered (record s { pool = set_worker i w' s.pool })
  moved s i w w' at same o j =
      o j
      ∙ ap (λ h. s.executed j ++ (h ++ (s.pool.thread_queues j).queue))
          (sym (in_hand-update s.pool.threads i j w w' at same))

  pub WorkerStep-IsOrdered : {s s' : System A S} → WorkerStep s s' → IsOrdered s → IsOrdered s'
  WorkerStep-IsOrdered {s} (WorkerStep.enter i lt at on e) o =
      rw e (moved s i Worker.looping Worker.polling at refl o)
  WorkerStep-IsOrdered {s} (WorkerStep.leave i lt at on e) o =
      rw e (moved s i Worker.looping Worker.finished at refl o)
  WorkerStep-IsOrdered {s} (WorkerStep.yield i lt at q e) o =
      rw e (moved s i Worker.polling Worker.looping at refl o)
  WorkerStep-IsOrdered {s} (WorkerStep.take i a todo lt at q e) o = rw e λ j.
      elim (Bool-cases (i == j)) [
        | inl same ↦ rw same (
            subst (λ k. s.submitted k ≡ s.executed k ++ a ∷ todo) (==→eq i j same)
              (rw (at, q) at (o i)))
        | inr apart ↦ rw apart (o j)
      ]
  WorkerStep-IsOrdered {s} (WorkerStep.execute i a sh lt at ran e) o = rw e λ j.
      elim (Bool-cases (i == j)) [
        | inl same ↦ rw same (
            subst (λ k. s.submitted k ≡ (s.executed i ++ a ∷ []) ++ (s.pool.thread_queues k).queue)
              (==→eq i j same)
              (rw at at (o i)
                ∙ sym (append_assoc (s.executed i) (a ∷ []) (s.pool.thread_queues i).queue)))
        | inr apart ↦ rw apart (o j)
      ]

  ClientStep-IsOrdered : {s s' : System A S} → ClientStep s s' → IsOrdered s → IsOrdered s'
  ClientStep-IsOrdered {s} (ClientStep.submit i a pool' run e) o =
      rw (e, submit_task-eq i a s.pool pool' run)
        λ j. elim (Bool-cases (i == j)) [
          | inl same ↦ rw same (
              subst
                (λ k.
                  s.submitted i ++ a ∷ []
                  ≡ s.executed k
                    ++ (in_hand (s.pool.threads k) ++ ((s.pool.thread_queues i).queue ++ a ∷ [])))
                (==→eq i j same)
                (ap (λ l. l ++ a ∷ []) (o i)
                  ∙ append_assoc (s.executed i) (in_hand (s.pool.threads i) ++ _) (a ∷ [])
                  ∙ ap (λ l. s.executed i ++ l)
                      (append_assoc (in_hand (s.pool.threads i)) (s.pool.thread_queues i).queue
                        (a ∷ []))))
          | inr apart ↦ rw apart (o j)
        ]
  ClientStep-IsOrdered {s} (ClientStep.halt pool' run e) o = rw (e, stop-eq s.pool pool' run) o

  -- What a thread pool does with the tasks of a queue, from a state in which all tasks are
  -- accounted for: whatever the client and the threads do, in any order, what was submitted to a
  -- queue is what its thread has run, then what it has in hand, then what waits.
  pub Reach-IsOrdered : {s s' : System A S} → Reach s s' → IsOrdered s → IsOrdered s'
  Reach-IsOrdered Reach.here o = o
  Reach-IsOrdered (Reach.by_worker r step) o = WorkerStep-IsOrdered step (Reach-IsOrdered r o)
  Reach-IsOrdered (Reach.by_client r step) o = ClientStep-IsOrdered step (Reach-IsOrdered r o)
