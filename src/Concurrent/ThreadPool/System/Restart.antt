-- ===== src/Concurrent/ThreadPool/System/Restart.antt =====
-- `start` on a pool at work.
use rapid_trader.Base.{
  ℕ, zero, suc, ◌-◌, ◌≡◌, ◌≢◌, refl, sym, subst, ◌∙◌, ◌<◌, true, none, arith, inl, inr, Bool-cases,
}
use rapid_trader.Concurrent.ThreadPool.{Worker, ThreadPool, joinable, respawn, start}
use rapid_trader.Concurrent.ThreadPool.System.{Tasks, System, ClientStep, Reach}
use rapid_trader.Concurrent.ThreadPool.System.Halted.{WorkerStep-IsUnjoined}
use rapid_trader.Concurrent.ThreadPool.System.History.{submit_task-eq, stop-eq}
use rapid_trader.Concurrent.ThreadPool.System.Serial.{num_threads_same}

module _ {A : Type 0} where
  joinable_unless : (w : Worker A) → w ≢ Worker.joined → joinable w ≡ true
  joinable_unless Worker.looping h = refl
  joinable_unless Worker.polling h = refl
  joinable_unless (Worker.busy a) h = refl
  joinable_unless Worker.finished h = refl
  joinable_unless Worker.joined h = absurd (h refl)

  -- The first thread is assigned to first.
  respawn_fails :
      (n : ℕ) (threads : ℕ → Worker A)
      → joinable (threads 0) ≡ true
      → respawn (suc n) threads ≡ none
  respawn_fails zero threads h = rw h refl
  respawn_fails (suc n) threads h = rw (respawn_fails n threads h) refl

  start_fails :
      (pool : ThreadPool A)
      → 0 < pool.num_threads
      → joinable (pool.threads 0) ≡ true
      → start pool ≡ none
  unfolding start
  start_fails pool pos h = elim (Bool-cases pool.running) [
    | inl on ↦ rw on refl
    | inr off ↦
        let n = pool.num_threads - 1 in
        let e : pool.num_threads ≡ suc n = omega arith in
        rw (off, e, respawn_fails n pool.threads h) refl
  ]

module _ {A S : Type 0} ⦃T : Tasks A S⦄ where
  abbrev pub IsUnjoined : System A S → Type 0
  IsUnjoined s = (j : ℕ) → s.pool.threads j ≢ Worker.joined

  ClientStep-IsUnjoined :
      (s s' : System A S)
      → ClientStep s s'
      → IsUnjoined s
      → IsUnjoined s' × (s'.pool.num_threads ≡ s.pool.num_threads)
  ClientStep-IsUnjoined s s' (ClientStep.submit i a pool' run e) h =
      rw (e, submit_task-eq i a s.pool pool' run) (h, refl)
  ClientStep-IsUnjoined s s' (ClientStep.halt pool' run e) h =
      rw (e, stop-eq s.pool pool' run) (h, refl)

  Reach-IsUnjoined :
      (s s' : System A S)
      → Reach s s'
      → IsUnjoined s
      → IsUnjoined s' × (s'.pool.num_threads ≡ s.pool.num_threads)
  Reach-IsUnjoined s s' Reach.here h = (h, refl)
  Reach-IsUnjoined s s' (Reach.by_worker {t} r step) h =
      let (before, num) = Reach-IsUnjoined s t r h in
      (WorkerStep-IsUnjoined t s' before step, num_threads_same step ∙ num)
  Reach-IsUnjoined s s' (Reach.by_client {t} r step) h =
      let (before, num) = Reach-IsUnjoined s t r h in
      let (after, same) = ClientStep-IsUnjoined t s' step before in (after, same ∙ num)

  -- Whatever the client and the threads have done, with at least one thread and none joined: `start`
  -- does not return. It fails its assertion if the pool runs, and it ends the program if the pool was
  -- told to stop, since it assigns to a thread that can be joined.
  pub start_never :
      (s s' : System A S)
      → 0 < s.pool.num_threads
      → IsUnjoined s
      → Reach s s'
      → start s'.pool ≡ none
  start_never s s' pos h r =
      let (after, num) = Reach-IsUnjoined s s' r h in
      start_fails s'.pool (subst (λ n. 0 < n) (sym num) pos)
        (joinable_unless (s'.pool.threads 0) (after 0))
