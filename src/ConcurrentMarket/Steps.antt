-- ===== src/ConcurrentMarket/Steps.antt =====
-- The steps of the concurrent market are steps of its thread pool, by which each call stays with the
-- thread of the handler that it works on.
use Prim.Native.String.{String}
use rapid_trader.Base.{
  zero, suc, ltb, ℕ, ◌≡◌, refl, sym, ap, ◌∙◌, ◌<◌, Bool-cases, inl, inr, false, some, List, [], ◌∷◌,
  ◌++◌, ◌==◌, arith, ==→eq, ==_refl, subst, >>=-eq-some,
}
use rapid_trader.BookHandler.{OrderBookHandler}
use rapid_trader.Concurrent.ThreadPool.{update, submit_task}
use rapid_trader.Concurrent.ThreadPool.System.{System, WorkerStep, ClientStep, Reach}
use rapid_trader.Concurrent.ThreadPool.System.Serial.{
  Parts, AllFor, IsSorted, submitted_same, num_threads_same,
}
use rapid_trader.ConcurrentMarket.{
  ConcurrentMarket, call_for, add_symbol, get_submission_index, call_handler, request_strings,
}
use rapid_trader.ConcurrentMarket.Calls.{Task, Call, run_call, run_task, market_tasks}
use rapid_trader.ConcurrentMarket.Routing.{
  IsRouted, call_handler-eq, queued, queued-IsRouted, get_submission_index-lt, add_symbol_new,
  call_for-eq, add_symbol-Routed,
}
use rapid_trader.Containers.{Containers}

module _ ⦃C : Containers⦄ where
  run_task-eq :
      (a : Task) (hs hs' : ℕ → OrderBookHandler)
      → run_task a hs ≡ some hs'
      → (h : OrderBookHandler) × (run_call a.call (hs a.orderbook_handler) ≡ some h)
        × (update hs a.orderbook_handler h ≡ hs')
  unfolding run_task
  run_task-eq a hs hs' e =
      let (h, ran, done) =
        >>=-eq-some (run_call a.call (hs a.orderbook_handler))
          (λ h. some (update hs a.orderbook_handler h)) e in
      (h, ran, cc)

  pub run_task-works :
      (a : Task) (hs hs' : ℕ → OrderBookHandler)
      → run_task a hs ≡ some hs'
      → run_call a.call (hs a.orderbook_handler) ≡ some (hs' a.orderbook_handler)
  run_task-works a hs hs' e =
      let (h, ran, done) = run_task-eq a hs hs' e in rw (sym done, ==_refl a.orderbook_handler) ran

  pub run_task-apart :
      (a : Task) (hs hs' : ℕ → OrderBookHandler) (j : ℕ)
      → run_task a hs ≡ some hs'
      → (a.orderbook_handler == j) ≡ false
      → hs' j ≡ hs j
  run_task-apart a hs hs' j e apart =
      let (h, ran, done) = run_task-eq a hs hs' e in rw (sym done, apart) refl

  -- Each task works on the handler that it points to.
  abbrev pub handlers : Parts Task (ℕ → OrderBookHandler) OrderBookHandler
  handlers = record {
    part = λ i hs. hs i;
    owner = λ task. task.orderbook_handler;
    work = λ task h. run_call task.call h;
    works = run_task-works;
    apart = run_task-apart;
  }

  -- A step of the market is one of its system, by which its calls stay where they belong.
  pub record IsStep (m m' : ConcurrentMarket) : Type 0 where
    pub routed : IsRouted m'
    pub reach :
        {from : System Task (ℕ → OrderBookHandler)} → Reach from m.system → Reach from m'.system
    pub sorted : IsSorted handlers m.system → IsSorted handlers m'.system

  AllFor-snoc :
      (i : ℕ) (tasks : List Task) (call : Call)
      → AllFor handlers.owner i tasks
      → AllFor handlers.owner i (tasks ++ record { orderbook_handler = i; call = call } ∷ [])
  AllFor-snoc i [] call all = (refl, tt)
  AllFor-snoc i (t ∷ tasks) call (own, all) = (own, AllFor-snoc i tasks call all)

  queued-IsStep :
      (i : ℕ) (call : Call) (m m' : ConcurrentMarket)
      → i < m.system.pool.num_threads
      → m'.system ≡ (queued i (record { orderbook_handler = i; call = call }) m).system
      → IsRouted m'
      → IsStep m m'
  unfolding submit_task
  queued-IsStep i call m m' lt e routed =
      let task : Task = record { orderbook_handler = i; call = call } in
      record {
        routed = routed;
        reach = λ r.
            Reach.by_client r
              (ClientStep.submit i task (queued i task m).system.pool (ground (arith, lt)) e);
        sorted = λ all j. elim (Bool-cases (i == j)) [
          | inl same ↦
              rw (e, same)
                (subst (λ k. AllFor handlers.owner k (m.system.submitted i ++ task ∷ []))
                  (==→eq i j same) (AllFor-snoc i (m.system.submitted i) call (all i)))
          | inr apart ↦ rw (e, apart) (all j)
        ];
      }

  pub call_for-IsStep :
      (s : ℕ) (call : Call) (m m' : ConcurrentMarket)
      → IsRouted m
      → call_for s call m ≡ some m'
      → IsStep m m'
  call_for-IsStep s call m m' r e =
      let i = get_submission_index s m in
      let task : Task = record { orderbook_handler = i; call = call } in
      let same : queued i task m ≡ m' = (let f = call_for-eq s call m r in cc) in
      let lt = get_submission_index-lt s m r in
      queued-IsStep i call m m' (subst (λ k. i < k) r.threads lt) (ap (λ k. k.system) (sym same))
        (subst IsRouted same (queued-IsRouted i task m r))

  pub add_symbol-IsStep :
      (s : ℕ) (name : String) (m m' : ConcurrentMarket)
      → IsRouted m
      → add_symbol s name m ≡ some m'
      → IsStep m m'
  add_symbol-IsStep s name m m' r e =
      let (k, f, listed) = add_symbol-Routed s name m r (add_symbol_new s name m m' e) in
      let same : k ≡ m' = cc in
      subst (λ l. IsStep m l) same
        (queued-IsStep m.symbol_submission_index (Call.add_order_book s name) m k
          (subst (λ n. m.symbol_submission_index < n) r.threads r.next) listed.system listed.routed)

  pub by_thread-IsStep :
      (m : ConcurrentMarket) (system' : System Task (ℕ → OrderBookHandler))
      → IsRouted m
      → WorkerStep m.system system'
      → IsStep m (record m { system = system' })
  by_thread-IsStep m system' r w = record {
    routed = record {
      threads = r.threads ∙ sym (num_threads_same w);
      few = r.few;
      next = r.next;
      known = r.known;
      paired = r.paired;
    };
    reach = λ reach. Reach.by_worker reach w;
    sorted = λ all i. rw (submitted_same w) (all i);
  }

  -- A call that is submitted is for a handler that there is.
  call_handler-lt :
      (i target : ℕ) (call : Call) (m m' : ConcurrentMarket)
      → call_handler i target call m ≡ some m'
      → target < m.number_of_handlers
  unfolding call_handler
  call_handler-lt i target call m m' e = elim (Bool-cases (ltb target m.number_of_handlers)) [
    | inl lt ↦ ground (arith, lt)
    | inr off ↦ let bad = rw off at e in cc
  ]

  call_handler-IsStep :
      (i : ℕ) (call : Call) (m m' : ConcurrentMarket)
      → IsRouted m
      → call_handler i i call m ≡ some m'
      → IsStep m m'
  call_handler-IsStep i call m m' r e =
      let task : Task = record { orderbook_handler = i; call = call } in
      let lt = call_handler-lt i i call m m' e in
      let at = subst (λ k. i < k) r.threads lt in
      let same : queued i task m ≡ m' = (let f = call_handler-eq i i call m at lt in cc) in
      queued-IsStep i call m m' at (ap (λ k. k.system) (sym same))
        (subst IsRouted same (queued-IsRouted i task m r))

  pub request_strings-IsStep :
      (n : ℕ) (m m' : ConcurrentMarket) → IsRouted m → request_strings n m ≡ some m' → IsStep m m'
  request_strings-IsStep zero m m' r e =
      let same : m ≡ m' = cc in
      subst (λ l. IsStep m l) same
        (record { routed = r; reach = λ reach. reach; sorted = λ sorted. sorted })
  request_strings-IsStep (suc n) m m' r e =
      let (k, before, last) =
        >>=-eq-some (request_strings n m) (call_handler n n Call.to_string) e in
      let first = request_strings-IsStep n m k r before in
      let second = call_handler-IsStep n Call.to_string k m' first.routed last in
      record {
        routed = second.routed;
        reach = λ reach. second.reach (first.reach reach);
        sorted = λ sorted. second.sorted (first.sorted sorted);
      }
