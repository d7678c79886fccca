-- ===== src/Tests/Threads.antt =====
-- The thread pool and the concurrent market at concrete inputs.
use rapid_trader.Base.{
  ℕ, ◌+◌, ◌==◌, ◌≡◌, ◌<◌, ◌≤◌, refl, subst, sym, true, false, none, some, List, [], ◌∷◌, ◌++◌,
  arith, inl, inr, Bool-cases, if◌then◌else◌,
}
use rapid_trader.BookHandler.{new_handler}
use rapid_trader.Concurrent.Queue.{new_queue}
use rapid_trader.Concurrent.ThreadPool.{Worker, submit_task, start, stop, update}
use rapid_trader.Concurrent.ThreadPool.System.{
  Tasks, System, WorkerStep, ClientStep, Reach, set_worker, set_queue,
}
use rapid_trader.Concurrent.ThreadPool.System.Drain.{work_left}
use rapid_trader.Concurrent.ThreadPool.System.Finish.{Runs, Runs-work_left, Runs-Drained}
use rapid_trader.Concurrent.ThreadPool.System.Halted.{IsHalted}
use rapid_trader.Concurrent.ThreadPool.System.Restart.{start_never}
use rapid_trader.Concurrent.ThreadPool.System.History.{accounted, run_all, Reach-IsOrdered}
use rapid_trader.ConcurrentMarket.{ConcurrentMarket, new_market, add_symbol, delete_symbol}
use rapid_trader.ConcurrentMarket.Calls.{Task, run_call}
use rapid_trader.ConcurrentMarket.Deletion.{Misdirected, delete_symbol-Misdirected}
use rapid_trader.ConcurrentMarket.Routing.{
  IsRouted, Routed, listed, listed-Routed, add_symbol-eq, add_symbol-Routed,
}
use rapid_trader.ConcurrentMarket.Sequential.{
  MarketStep, MarketReach, opened, opened-IsRouted, Reach-Sequential,
}
use rapid_trader.Market.{Symbol}
use rapid_trader.Tests.Runs.{lists}

-- Tasks that add to a number.
instance abbrev additions : Tasks ℕ ℕ
additions = record { run = λ a n. some (a + n) }

abbrev idle : System ℕ ℕ
idle = record {
  pool = record {
    running = true;
    num_threads = 1;
    thread_queues = λ i. new_queue;
    threads = λ i. Worker.looping;
  };
  shared = 0;
  submitted = λ i. [];
  executed = λ i. [];
}

abbrev submitted_5 : System ℕ ℕ
submitted_5 = record idle {
  pool = record idle.pool {
    thread_queues = λ i. if 0 == i then record { queue = 5 ∷ [] } else new_queue;
  };
  submitted = λ i. if 0 == i then 5 ∷ [] else [];
}

idle-submit : Reach idle submitted_5
unfolding submit_task
idle-submit = Reach.by_client Reach.here (ClientStep.submit 0 5 submitted_5.pool refl refl)

Reach-IsOrdered_example : submitted_5.submitted 0 ≡ accounted submitted_5 0
Reach-IsOrdered_example = Reach-IsOrdered idle-submit (λ i. refl) 0

two_threads : IsRouted (opened 2)
two_threads = opened-IsRouted 2 (omega arith) (omega arith)

abbrev one_symbol : ConcurrentMarket
one_symbol = listed 1 "RTR" (opened 2)

one_symbol-Routed : Routed 1 "RTR" (opened 2) one_symbol
one_symbol-Routed = listed-Routed 1 "RTR" (opened 2) two_threads refl

add_symbol-Routed_example :
    (m' : ConcurrentMarket) × (add_symbol 1 "RTR" (opened 2) ≡ some m')
    × Routed 1 "RTR" (opened 2) m'
add_symbol-Routed_example = add_symbol-Routed 1 "RTR" (opened 2) two_threads refl

two_threads_open : new_market 2 2 ≡ some (opened 2)
unfolding new_market
two_threads_open = refl

one_symbol-reached : MarketReach (opened 2) one_symbol
one_symbol-reached =
    MarketReach.step MarketReach.start
      (MarketStep.symbol_added 1 "RTR" (add_symbol-eq 1 "RTR" (opened 2) two_threads refl))

Reach-Sequential_example :
    (todo : List Task) × (one_symbol.system.submitted 0 ≡ one_symbol.system.executed 0 ++ todo)
    × (run_all (λ (task : Task) h. run_call task.call h) (one_symbol.system.executed 0) new_handler
        ≡ some (one_symbol.system.shared 0))
Reach-Sequential_example =
    Reach-Sequential 2 2 (opened 2) one_symbol (omega arith) two_threads_open one_symbol-reached 0

abbrev rtr : Symbol
rtr = record { id = 1; name = "RTR" }

delete_symbol-Misdirected_example :
    (m' : ConcurrentMarket) × (delete_symbol false 1 one_symbol ≡ some m')
    × Misdirected false 1 rtr one_symbol m'
delete_symbol-Misdirected_example =
    delete_symbol-Misdirected false 1 rtr one_symbol one_symbol-Routed.routed refl (cc)

-- A pool that was told to stop with a task in its queue.
abbrev stopped : System ℕ ℕ
stopped = record submitted_5 { pool = record submitted_5.pool { running = false } }

idle-stopped : Reach idle stopped
unfolding stop
idle-stopped = Reach.by_client idle-submit (ClientStep.halt stopped.pool refl refl)

start_never_example : start stopped.pool ≡ none
start_never_example = start_never idle stopped (omega arith) (λ j. cc) idle-stopped

stopped-IsHalted : IsHalted stopped
stopped-IsHalted = record {
  off = refl;
  ordered = λ i. elim (Bool-cases (0 == i)) [ inl e ↦ rw e refl | inr e ↦ rw e refl ];
  empty = λ i e. cc;
  unjoined = λ i e. cc;
}

abbrev moved_to : Worker ℕ → System ℕ ℕ → System ℕ ℕ
moved_to w s = record s { pool = set_worker 0 w s.pool }

abbrev polled : System ℕ ℕ
polled = moved_to Worker.polling stopped

abbrev taken : System ℕ ℕ
taken = record polled {
  pool = set_worker 0 (Worker.busy 5) (set_queue 0 (record { queue = [] }) polled.pool);
}

abbrev run_5 : System ℕ ℕ
run_5 = record taken {
  pool = set_worker 0 Worker.looping taken.pool;
  shared = 5;
  executed = update taken.executed 0 (taken.executed 0 ++ 5 ∷ []);
}

abbrev drained : System ℕ ℕ
drained = moved_to Worker.finished run_5

stopped-drained : Runs stopped 4 drained
stopped-drained =
    Runs.more
      (Runs.more
        (Runs.more (Runs.more Runs.here (WorkerStep.enter 0 (omega arith) refl refl refl))
          (WorkerStep.take 0 5 [] (omega arith) refl refl refl))
        (WorkerStep.execute 0 5 5 (omega arith) refl refl refl))
      (WorkerStep.leave 0 (omega arith) refl refl refl)

drained_at : (i : ℕ) → i < 1 → 0 ≡ i
drained_at i lt = omega arith

drained_stuck : (t : System ℕ ℕ) → ¬ WorkerStep drained t
drained_stuck t (WorkerStep.enter i lt at on e) =
    let here = subst (λ k. drained.pool.threads k ≡ Worker.looping) (sym (drained_at i lt)) at in cc
drained_stuck t (WorkerStep.leave i lt at on e) =
    let here = subst (λ k. drained.pool.threads k ≡ Worker.looping) (sym (drained_at i lt)) at in cc
drained_stuck t (WorkerStep.take i a todo lt at q e) =
    let here = subst (λ k. drained.pool.threads k ≡ Worker.polling) (sym (drained_at i lt)) at in cc
drained_stuck t (WorkerStep.yield i lt at q e) =
    let here = subst (λ k. drained.pool.threads k ≡ Worker.polling) (sym (drained_at i lt)) at in cc
drained_stuck t (WorkerStep.execute i a sh lt at ran e) =
    let here = subst (λ k. drained.pool.threads k ≡ Worker.busy a) (sym (drained_at i lt)) at in cc

Runs-work_left_example : 4 ≤ work_left stopped.pool
Runs-work_left_example = Runs-work_left stopped drained 4 stopped-IsHalted stopped-drained

Runs-Drained_example :
    (drained.pool.threads 0 ≡ Worker.finished) × (drained.executed 0 ≡ stopped.submitted 0)
Runs-Drained_example =
    Runs-Drained stopped drained 4 stopped-IsHalted stopped-drained (λ a l. (a + l, refl))
      drained_stuck 0 (omega arith)
