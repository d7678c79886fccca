-- ===== src/Concurrent/ThreadPool.antt =====
-- include/concurrent/thread_pool.h and include/concurrent/thread_joiner.h: `ThreadPool` and
-- `ThreadJoiner`. The two vectors have the length `num_threads` from the constructor on: they are
-- functions, and an index that is out of range is `none`. A thread is where it stands in
-- `workerThread`. A task is a value that `run` gives a meaning, on the state that the tasks share.
pub mod System
use rapid_trader.Base.{
  ℕ, zero, suc, Bool, true, false, not, ◌||◌, Option, none, some, List, [], ◌∷◌, ◌==◌, ◌>>=◌, ◌>>◌,
  guard, ltb, if◌then◌else◌,
}
use rapid_trader.Concurrent.Queue
use rapid_trader.Concurrent.Queue.{Queue, new_queue, push}

-- A value of a vector with another value at one index.
abbrev pub update {ℓ} : {B : Type ℓ} → (ℕ → B) → ℕ → B → ℕ → B
update f i b j = if i == j then b else f j

-- A `std::thread`: before the test of the loop, between the test and `tryPop`, with a task in
-- hand, at the end of `workerThread`, and joined.
pub data Worker (A : Type 0) : Type 0 where
  looping polling : Worker A
  busy : A → Worker A
  finished joined : Worker A

pub record ThreadPool (A : Type 0) : Type 0 where
  pub running : Bool
  pub num_threads : ℕ
  pub thread_queues : ℕ → Queue A
  pub threads : ℕ → Worker A

module _ {A : Type 0} where
  abbrev pub new_pool : ℕ → Option (ThreadPool A)
  new_pool num_threads_ = do
    guard (ltb 0 num_threads_)
    some (record {
      running = true;
      num_threads = num_threads_;
      thread_queues = λ i. new_queue;
      threads = λ i. Worker.looping;
    })

  unfoldable pub submit_task : ℕ → A → ThreadPool A → Option (ThreadPool A)
  submit_task queue_index task pool = do
    guard (ltb queue_index pool.num_threads)
    some (record pool {
      thread_queues =
          update pool.thread_queues queue_index (push task (pool.thread_queues queue_index));
    })

  -- The queued task invokes the callable `f` and hands what it returns to a promise: it is
  -- `promised f`. The future that is returned is that promise's.
  abbrev pub submit_waitable_task :
      {F : Type 0} → (F → A) → ℕ → F → ThreadPool A → Option (ThreadPool A)
  submit_waitable_task promised queue_index f pool = submit_task queue_index (promised f) pool

  abbrev pub joinable : Worker A → Bool
  joinable Worker.joined = false
  joinable _ = true

  -- `threads[i] = std::thread(…)` for the indices below `n`: a thread that is assigned to while
  -- it is joinable ends the program.
  abbrev pub respawn : ℕ → (ℕ → Worker A) → Option (ℕ → Worker A)
  respawn zero threads = some threads
  respawn (suc n) threads = do
    threads' ← respawn n threads
    guard (not (joinable (threads' n)))
    some (update threads' n Worker.looping)

  unfoldable pub start : ThreadPool A → Option (ThreadPool A)
  start pool = do
    guard (not pool.running)
    threads' ← respawn pool.num_threads pool.threads
    some (record pool { running = true; threads = threads' })

  unfoldable pub stop : ThreadPool A → Option (ThreadPool A)
  stop pool = do guard pool.running; some (record pool { running = false })

  abbrev pub is_started : ThreadPool A → Bool
  is_started pool = pool.running

  abbrev pub number_of_threads : ThreadPool A → ℕ
  number_of_threads pool = pool.num_threads

  -- `~ThreadPool`, before its members are destroyed.
  abbrev pub shut_down : ThreadPool A → ThreadPool A
  shut_down pool = record pool { running = false }

  -- `join` on a joinable thread waits until the thread has finished; `~ThreadJoiner` skips the
  -- others.
  abbrev pub join_thread : Worker A → Option (Worker A)
  join_thread Worker.finished = some Worker.joined
  join_thread Worker.joined = some Worker.joined
  join_thread _ = none

  abbrev pub join_threads : ℕ → (ℕ → Worker A) → Option (ℕ → Worker A)
  join_threads zero threads = some threads
  join_threads (suc n) threads = do
    threads' ← join_threads n threads
    worker ← join_thread (threads' n)
    some (update threads' n worker)

  -- The test of the loop of `workerThread`.
  abbrev pub goes_on : ℕ → ThreadPool A → Bool
  goes_on i pool = pool.running || not (Queue.empty (pool.thread_queues i))
