-- ===== src/ConcurrentMarket.antt =====
-- include/matching/market/concurrent_market.h and src/matching/market/concurrent_market.cpp:
-- `ConcurrentMarket`, which shares its symbols out among the threads of a pool. Thread `i` has the
-- queue `i` and the handler `i`. A failed assertion and an index that is out of range are `none`.
-- The overload of `executeOrder` with no price has the name `execute_order_at_own_price`.
pub mod Calls
pub mod Routing
pub mod Steps
pub mod Sequential
pub mod Deletion
use Prim.Native.String.{String, ◌++◌ as ◌<>◌}
use rapid_trader.Base.{
  ℕ, zero, suc, ◌+◌, ◌%◌, Bool, not, Option, none, some, [], ◌∷◌, ◌++◌, ◌==◌, ◌>>=◌, ◌>>◌, guard,
  ltb, if◌then◌else◌, u32_mod,
}
use rapid_trader.BookHandler.{OrderBookHandler, new_handler, is_some}
use rapid_trader.Concurrent.ThreadPool.{ThreadPool, new_pool, submit_task, update}
use rapid_trader.Concurrent.ThreadPool.System.{System}
use rapid_trader.ConcurrentMarket.Calls.{Task, Call}
use rapid_trader.Containers.{Containers}
use rapid_trader.Market.{Symbol}
use rapid_trader.Order.{Order}

-- The system is the thread pool and the contents of the handlers, which only its threads touch.
pub record ConcurrentMarket ⦃C : Containers⦄ : Type 0 where
  pub number_of_handlers : ℕ
  pub id_to_symbol : C.Map Symbol
  pub id_to_submission_index : C.Map ℕ
  pub system : System Task (ℕ → OrderBookHandler)
  pub symbol_submission_index : ℕ

module _ ⦃C : Containers⦄ where
  -- The constructor, for `number_of_event_handlers` event handlers.
  unfoldable pub new_market : ℕ → ℕ → Option ConcurrentMarket
  new_market number_of_event_handlers num_threads = do
    pool ← new_pool num_threads
    guard (ltb 0 num_threads)
    guard (number_of_event_handlers == num_threads)
    some (record {
      number_of_handlers = num_threads;
      id_to_symbol = C.empty_map;
      id_to_submission_index = C.empty_map;
      system = record {
        pool = pool;
        shared = λ i. new_handler;
        submitted = λ i. [];
        executed = λ i. [];
      };
      symbol_submission_index = 0;
    })

  abbrev pub get_submission_index : ℕ → ConcurrentMarket → ℕ
  get_submission_index symbol_id m = elim (C.find symbol_id m.id_to_submission_index) [
    | none ↦ 0
    | some i ↦ i
  ]

  abbrev pub update_symbol_submission_index : ConcurrentMarket → ConcurrentMarket
  update_symbol_submission_index m = record m {
    symbol_submission_index = ((m.symbol_submission_index + 1) % u32_mod) % m.number_of_handlers;
  }

  -- A task is given to the pool, and the history notes it.
  unfoldable pub submit : ℕ → Task → ConcurrentMarket → Option ConcurrentMarket
  submit i task m = do
    pool' ← submit_task i task m.system.pool
    some (record m {
      system = record m.system {
        pool = pool';
        submitted = update m.system.submitted i (m.system.submitted i ++ task ∷ []);
      };
    })

  -- A call of the handler `target`, for the thread `submission_index`.
  unfoldable pub call_handler : ℕ → ℕ → Call → ConcurrentMarket → Option ConcurrentMarket
  call_handler submission_index target call m = do
    guard (ltb target m.number_of_handlers)
    submit submission_index (record { orderbook_handler = target; call = call }) m

  -- A call for a symbol, by the thread and the handler of the symbol.
  unfoldable pub call_for : ℕ → Call → ConcurrentMarket → Option ConcurrentMarket
  call_for symbol_id call m =
      let submission_index = get_submission_index symbol_id m in
      call_handler submission_index submission_index call m

  unfoldable pub add_symbol : ℕ → String → ConcurrentMarket → Option ConcurrentMarket
  add_symbol symbol_id symbol_name m = do
    guard (not (is_some (C.find symbol_id m.id_to_symbol)))
    let symbol : Symbol = record { id = symbol_id; name = symbol_name }
    m' ←
        call_handler m.symbol_submission_index m.symbol_submission_index
          (Call.add_order_book symbol_id symbol_name)
          (record m {
            id_to_symbol = C.emplace symbol_id symbol m.id_to_symbol;
            id_to_submission_index =
                C.emplace symbol_id m.symbol_submission_index m.id_to_submission_index;
          })
    some (update_symbol_submission_index m')

  -- `erased` tells whether the symbol is erased from the map before the task reads its name.
  unfoldable pub delete_symbol : Bool → ℕ → ConcurrentMarket → Option ConcurrentMarket
  delete_symbol erased symbol_id m = do
    symbol ← C.find symbol_id m.id_to_symbol
    m' ←
        call_handler (get_submission_index symbol_id m) m.symbol_submission_index
          (Call.delete_order_book symbol_id (if erased then none else some symbol.name)) m
    some (record m' {
      id_to_symbol = C.erase symbol_id m'.id_to_symbol;
      id_to_submission_index = C.erase symbol_id m'.id_to_submission_index;
    })

  unfoldable pub add_order : Order → ConcurrentMarket → Option ConcurrentMarket
  add_order o m = call_for o.symbol_id (Call.add_order o) m

  unfoldable pub delete_order : ℕ → ℕ → ConcurrentMarket → Option ConcurrentMarket
  delete_order symbol_id order_id m = call_for symbol_id (Call.delete_order symbol_id order_id) m

  unfoldable pub cancel_order : ℕ → ℕ → ℕ → ConcurrentMarket → Option ConcurrentMarket
  cancel_order symbol_id order_id cancelled_quantity m =
      call_for symbol_id (Call.cancel_order symbol_id order_id cancelled_quantity) m

  unfoldable pub replace_order : ℕ → ℕ → ℕ → ℕ → ConcurrentMarket → Option ConcurrentMarket
  replace_order symbol_id order_id new_order_id new_price m =
      call_for symbol_id (Call.replace_order symbol_id order_id new_order_id new_price) m

  unfoldable pub execute_order : ℕ → ℕ → ℕ → ℕ → ConcurrentMarket → Option ConcurrentMarket
  execute_order symbol_id order_id quantity price m =
      call_for symbol_id (Call.execute_order symbol_id order_id quantity price) m

  unfoldable pub execute_order_at_own_price : ℕ → ℕ → ℕ → ConcurrentMarket → Option ConcurrentMarket
  execute_order_at_own_price symbol_id order_id quantity m =
      call_for symbol_id (Call.execute_order_at_own_price symbol_id order_id quantity) m

  -- The loop of `toString` that submits a waitable task for each handler, here for those below `n`.
  abbrev pub request_strings : ℕ → ConcurrentMarket → Option ConcurrentMarket
  request_strings zero m = some m
  request_strings (suc n) m = do m' ← request_strings n m; call_handler n n Call.to_string m'

  -- The loop that waits for the results: `shown i` is the handler `i` when its task is run.
  abbrev pub gather : (OrderBookHandler → String) → (ℕ → OrderBookHandler) → ℕ → String
  gather print shown zero = ""
  gather print shown (suc n) = gather print shown n <> print (shown n)

  unfoldable pub to_string :
      (OrderBookHandler → String)
      → (ℕ → OrderBookHandler)
      → ConcurrentMarket
      → Option (ConcurrentMarket × String)
  to_string print shown m = do
    m' ← request_strings m.number_of_handlers m
    some (m', gather print shown m.number_of_handlers)
