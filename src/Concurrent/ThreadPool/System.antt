-- ===== src/Concurrent/ThreadPool/System.antt =====
-- The thread pool at work: its threads run `workerThread`, interleaved with each other and with the
-- calls of the client in any order. A task runs as one step.
pub mod History
pub mod Serial
pub mod Drain
pub mod Halted
pub mod Finish
pub mod Restart
use rapid_trader.Base.{ℕ, ◌≡◌, ◌<◌, Bool, true, false, Option, none, some, List, [], ◌∷◌, ◌++◌}
use rapid_trader.Concurrent.Queue.{Queue, try_pop}
use rapid_trader.Concurrent.ThreadPool.{Worker, ThreadPool, update, submit_task, stop, goes_on}

-- What the tasks do to the state that they share; `none` is a failed assertion.
pub record Tasks (A S : Type 0) : Type 0 where
  pub run : A → S → Option S

-- The pool and the shared state. `submitted` and `executed` are history: what the client gave to
-- each queue, and what its thread has run.
pub record System (A S : Type 0) : Type 0 where
  pub pool : ThreadPool A
  pub shared : S
  pub submitted : ℕ → List A
  pub executed : ℕ → List A

module _ {A : Type 0} where
  abbrev pub set_worker : ℕ → Worker A → ThreadPool A → ThreadPool A
  set_worker i w pool = record pool { threads = update pool.threads i w }

  abbrev pub set_queue : ℕ → Queue A → ThreadPool A → ThreadPool A
  set_queue i q pool = record pool { thread_queues = update pool.thread_queues i q }

module _ {A S : Type 0} ⦃T : Tasks A S⦄ where
  -- A step of the thread `i` in `workerThread`.
  pub data WorkerStep (s s' : System A S) : Type 0 where
    enter :
        (i : ℕ)
        → i < s.pool.num_threads
        → s.pool.threads i ≡ Worker.looping
        → goes_on i s.pool ≡ true
        → s' ≡ record s { pool = set_worker i Worker.polling s.pool }
        → WorkerStep s s'
    leave :
        (i : ℕ)
        → i < s.pool.num_threads
        → s.pool.threads i ≡ Worker.looping
        → goes_on i s.pool ≡ false
        → s' ≡ record s { pool = set_worker i Worker.finished s.pool }
        → WorkerStep s s'
    take :
        (i : ℕ) (a : A) (rest : List A)
        → i < s.pool.num_threads
        → s.pool.threads i ≡ Worker.polling
        → (s.pool.thread_queues i).queue ≡ a ∷ rest
        → s' ≡ record s {
          pool = set_worker i (Worker.busy a) (set_queue i (record { queue = rest }) s.pool);
        }
        → WorkerStep s s'
    yield :
        (i : ℕ)
        → i < s.pool.num_threads
        → s.pool.threads i ≡ Worker.polling
        → (s.pool.thread_queues i).queue ≡ []
        → s' ≡ record s { pool = set_worker i Worker.looping s.pool }
        → WorkerStep s s'
    execute :
        (i : ℕ) (a : A) (shared' : S)
        → i < s.pool.num_threads
        → s.pool.threads i ≡ Worker.busy a
        → T.run a s.shared ≡ some shared'
        → s' ≡ record s {
          pool = set_worker i Worker.looping s.pool;
          shared = shared';
          executed = update s.executed i (s.executed i ++ a ∷ []);
        }
        → WorkerStep s s'

  -- A call of the client.
  pub data ClientStep (s s' : System A S) : Type 0 where
    submit :
        (i : ℕ) (a : A) (pool' : ThreadPool A)
        → submit_task i a s.pool ≡ some pool'
        → s' ≡ record s { pool = pool'; submitted = update s.submitted i (s.submitted i ++ a ∷ []) }
        → ClientStep s s'
    halt :
        (pool' : ThreadPool A)
        → stop s.pool ≡ some pool'
        → s' ≡ record s { pool = pool' }
        → ClientStep s s'

  pub data Reach (s : System A S) : System A S → Type 0 where
    here : Reach s s
    by_worker : {t u : System A S} → Reach s t → WorkerStep t u → Reach s u
    by_client : {t u : System A S} → Reach s t → ClientStep t u → Reach s u
