-- ===== src/ConcurrentMarket/Sequential.antt =====
-- The concurrent market at work: the calls of a client that deletes no symbol, interleaved with the
-- steps of the threads in any order.
use Prim.Native.String.{String}
use rapid_trader.Base.{
  Option, ℕ, ◌≡◌, refl, sym, ◌<◌, true, some, List, [], ◌++◌, arith, subst, >>=-eq-some,
}
use rapid_trader.BookHandler.{OrderBookHandler, new_handler}
use rapid_trader.Concurrent.Queue.{new_queue}
use rapid_trader.Concurrent.ThreadPool.{Worker}
use rapid_trader.Concurrent.ThreadPool.System.{System, WorkerStep, Reach}
use rapid_trader.Concurrent.ThreadPool.System.History.{run_all}
use rapid_trader.Concurrent.ThreadPool.System.Serial.{IsSorted, Reach-IsSerial}
use rapid_trader.ConcurrentMarket.{
  ConcurrentMarket, new_market, add_symbol, add_order, delete_order, cancel_order, replace_order,
  execute_order, execute_order_at_own_price, request_strings, gather, to_string,
}
use rapid_trader.ConcurrentMarket.Calls.{Task, run_call, market_tasks}
use rapid_trader.ConcurrentMarket.Routing.{IsRouted}
use rapid_trader.Containers.{Containers}
use rapid_trader.Order.{Order}
use rapid_trader.ConcurrentMarket.Steps.{
  handlers, IsStep, call_for-IsStep, add_symbol-IsStep, by_thread-IsStep, request_strings-IsStep,
}

module _ ⦃C : Containers⦄ where
  -- A call of the client, or a step of a thread.
  pub data MarketStep (m m' : ConcurrentMarket) : Type 0 where
    symbol_added : (s : ℕ) (name : String) → add_symbol s name m ≡ some m' → MarketStep m m'
    order_added : (o : Order) → add_order o m ≡ some m' → MarketStep m m'
    order_deleted : (s i : ℕ) → delete_order s i m ≡ some m' → MarketStep m m'
    order_cancelled : (s i q : ℕ) → cancel_order s i q m ≡ some m' → MarketStep m m'
    order_replaced : (s i j p : ℕ) → replace_order s i j p m ≡ some m' → MarketStep m m'
    order_executed : (s i q p : ℕ) → execute_order s i q p m ≡ some m' → MarketStep m m'
    order_executed_at_own_price :
        (s i q : ℕ) → execute_order_at_own_price s i q m ≡ some m' → MarketStep m m'
    market_printed :
        (print : OrderBookHandler → String) (shown : ℕ → OrderBookHandler) (text : String)
        → to_string print shown m ≡ some (m', text)
        → MarketStep m m'
    by_thread :
        (system' : System Task (ℕ → OrderBookHandler))
        → WorkerStep m.system system'
        → m' ≡ record m { system = system' }
        → MarketStep m m'

  pub data MarketReach (m : ConcurrentMarket) : ConcurrentMarket → Type 0 where
    start : MarketReach m m
    step : {k l : ConcurrentMarket} → MarketReach m k → MarketStep k l → MarketReach m l

  printed_market :
      (k m : ConcurrentMarket) (s t : String)
      → ◌≡◌ {A = Option (ConcurrentMarket × String)} (some (k, s)) (some (m, t))
      → k ≡ m
  printed_market k m s t e = cc

  MarketStep-IsStep : (m m' : ConcurrentMarket) → IsRouted m → MarketStep m m' → IsStep m m'
  unfolding add_order delete_order cancel_order replace_order execute_order
      execute_order_at_own_price to_string
  MarketStep-IsStep m m' r (MarketStep.symbol_added s name e) = add_symbol-IsStep s name m m' r e
  MarketStep-IsStep m m' r (MarketStep.order_added o e) = call_for-IsStep _ _ m m' r e
  MarketStep-IsStep m m' r (MarketStep.order_deleted s i e) = call_for-IsStep _ _ m m' r e
  MarketStep-IsStep m m' r (MarketStep.order_cancelled s i q e) = call_for-IsStep _ _ m m' r e
  MarketStep-IsStep m m' r (MarketStep.order_replaced s i j p e) = call_for-IsStep _ _ m m' r e
  MarketStep-IsStep m m' r (MarketStep.order_executed s i q p e) = call_for-IsStep _ _ m m' r e
  MarketStep-IsStep m m' r (MarketStep.order_executed_at_own_price s i q e) =
      call_for-IsStep _ _ m m' r e
  MarketStep-IsStep m m' r (MarketStep.market_printed print shown text e) =
      let (k, asked, done) =
        >>=-eq-some (request_strings m.number_of_handlers m)
          (λ m'. some (m', gather print shown m.number_of_handlers)) e in
      request_strings-IsStep m.number_of_handlers m m' r (
        subst (λ l. request_strings m.number_of_handlers m ≡ some l) (printed_market k m' _ _ done)
          asked)
  MarketStep-IsStep m m' r (MarketStep.by_thread system' w e) =
      subst (λ l. IsStep m l) (sym e) (by_thread-IsStep m system' r w)

  -- What a market is when its constructor returns.
  abbrev pub opened : ℕ → ConcurrentMarket
  opened n = record {
    number_of_handlers = n;
    id_to_symbol = C.empty_map;
    id_to_submission_index = C.empty_map;
    system = record {
      pool = record {
        running = true;
        num_threads = n;
        thread_queues = λ i. new_queue;
        threads = λ i. Worker.looping;
      };
      shared = λ i. new_handler;
      submitted = λ i. [];
      executed = λ i. [];
    };
    symbol_submission_index = 0;
  }

  new_market-eq :
      (k n : ℕ) (m : ConcurrentMarket) → new_market k n ≡ some m → (0 < n) × (opened n ≡ m)
  unfolding new_market
  new_market-eq k n m e = ground (arith, e)

  pub opened-IsRouted : (n : ℕ) → 0 < n → n < 256 → IsRouted (opened n)
  opened-IsRouted n pos few = record {
    threads = refl;
    few = few;
    next = pos;
    known = λ s i e. let no = C.find-empty_map {V = ℕ} s in cc;
    paired = λ s e. C.find-empty_map s;
  }

  reached :
      (m m' : ConcurrentMarket)
      → MarketReach m m'
      → IsRouted m
      → IsSorted handlers m.system
      → IsRouted m' × Reach m.system m'.system × IsSorted handlers m'.system
  reached m m' MarketReach.start r all = (r, Reach.here, all)
  reached m m' (MarketReach.step {k} before last) r all =
      let (routed, reach, sorted) = reached m k before r all in
      let s = MarketStep-IsStep k m' routed last in (s.routed, s.reach reach, s.sorted sorted)

  -- A market of fewer than 256 threads, whose client deletes no symbol: whatever the client and the
  -- threads do, in any order, as long as no task fails, what was submitted to a thread is what it has
  -- run, followed by what it has not, and its handler is what a handler of its own would be after the
  -- calls that were run, one after the other, in the order in which they were submitted.
  pub Reach-Sequential :
      (k n : ℕ) (m m' : ConcurrentMarket)
      → n < 256
      → new_market k n ≡ some m
      → MarketReach m m'
      → (i : ℕ)
      → (todo : List Task) × (m'.system.submitted i ≡ m'.system.executed i ++ todo)
        × (run_all (λ (task : Task) h. run_call task.call h) (m'.system.executed i) new_handler
            ≡ some (m'.system.shared i))
  Reach-Sequential k n m m' few made r i =
      let (pos, same) = new_market-eq k n m made in
      let (routed, reach, sorted) =
        reached (opened n) m' (subst (λ l. MarketReach l m') (sym same) r)
          (opened-IsRouted n pos few) (λ j. tt) in
      Reach-IsSerial handlers (opened n).system m'.system reach (λ j. refl) (λ j. refl) sorted i
