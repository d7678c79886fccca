-- ===== src/ConcurrentMarket/Routing.antt =====
-- Which thread and which handler a call of the concurrent market gets.
use Prim.Native.String.{String}
use native.Mathlib.Nat.{mod-eq_of_lt, mod_self}
use rapid_trader.Base.{
  ℕ, ◌≡◌, refl, sym, subst, ◌+◌, ◌%◌, ◌<◌, inl, inr, false, none, some, [], ◌∷◌, ◌++◌, ◌==◌,
  if◌then◌else◌, arith, u32_mod, Bool-cases, Option-cases, ==→eq, ==→ne,
}
use rapid_trader.Concurrent.ThreadPool.{update, submit_task}
use rapid_trader.ConcurrentMarket.{
  ConcurrentMarket, submit, call_handler, call_for, add_symbol, get_submission_index,
  update_symbol_submission_index,
}
use rapid_trader.ConcurrentMarket.Calls.{Task, Call, market_tasks}
use rapid_trader.Containers.{Containers}

module _ ⦃C : Containers⦄ where
  -- Every handler has its thread, and every symbol has a handler. The number of threads is a
  -- `uint8_t`.
  pub record IsRouted (m : ConcurrentMarket) : Type 0 where
    pub threads : m.number_of_handlers ≡ m.system.pool.num_threads
    pub few : m.number_of_handlers < 256
    pub next : m.symbol_submission_index < m.number_of_handlers
    pub known : (s i : ℕ) → C.find s m.id_to_submission_index ≡ some i → i < m.number_of_handlers
    pub paired : (s : ℕ) → C.find s m.id_to_symbol ≡ none → C.find s m.id_to_submission_index ≡ none

  abbrev pub queued : ℕ → Task → ConcurrentMarket → ConcurrentMarket
  queued i task m = record m {
    system = record m.system {
      pool = record m.system.pool {
        thread_queues =
            update m.system.pool.thread_queues i
              (record { queue = (m.system.pool.thread_queues i).queue ++ task ∷ [] });
      };
      submitted = update m.system.submitted i (m.system.submitted i ++ task ∷ []);
    };
  }

  pub queued-IsRouted :
      (i : ℕ) (task : Task) (m : ConcurrentMarket) → IsRouted m → IsRouted (queued i task m)
  queued-IsRouted i task m r = record {
    threads = r.threads;
    few = r.few;
    next = r.next;
    known = r.known;
    paired = r.paired;
  }

  -- Only a symbol that is new is added.
  pub add_symbol_new :
      (s : ℕ) (name : String) (m m' : ConcurrentMarket)
      → add_symbol s name m ≡ some m'
      → C.find s m.id_to_symbol ≡ none
  unfolding add_symbol
  add_symbol_new s name m m' e = elim (Option-cases (C.find s m.id_to_symbol)) [
    | inl new ↦ new
    | inr (symbol, known) ↦ let no = rw known at e in cc
  ]

  pub call_handler-eq :
      (i target : ℕ) (call : Call) (m : ConcurrentMarket)
      → i < m.system.pool.num_threads
      → target < m.number_of_handlers
      → call_handler i target call m
        ≡ some (queued i (record { orderbook_handler = target; call = call }) m)
  unfolding call_handler submit submit_task
  call_handler-eq i target call m h k = ground (arith, h, k)

  pub get_submission_index-lt :
      (s : ℕ) (m : ConcurrentMarket) → IsRouted m → get_submission_index s m < m.number_of_handlers
  get_submission_index-lt s m r = elim (Option-cases (C.find s m.id_to_submission_index)) [
    | inl e ↦ rw (e, get_submission_index) (let n = r.next in omega arith)
    | inr (i, e) ↦ rw (e, get_submission_index) (r.known s i e)
  ]

  pub call_for-eq :
      (s : ℕ) (call : Call) (m : ConcurrentMarket)
      → IsRouted m
      → call_for s call m
        ≡ some (
            queued
              (get_submission_index s m)
              (record { orderbook_handler = get_submission_index s m; call = call })
              m)
  unfolding call_for
  call_for-eq s call m r =
      let i = get_submission_index s m in
      let lt = get_submission_index-lt s m r in
      call_handler-eq i i call m (subst (λ k. i < k) r.threads lt) lt

  -- What the addition of a new symbol makes: the next thread gets it, in turn.
  pub record Routed (s : ℕ) (name : String) (m m' : ConcurrentMarket) : Type 0 where
    pub routed : IsRouted m'
    pub system :
        m'.system
        ≡ (queued m.symbol_submission_index
            (record {
              orderbook_handler = m.symbol_submission_index;
              call = Call.add_order_book s name;
            })
            m).system
    pub known : C.find s m'.id_to_symbol ≡ some (record { id = s; name = name })
    pub index : get_submission_index s m' ≡ m.symbol_submission_index
    pub others : (j : ℕ) → (s == j) ≡ false → get_submission_index j m' ≡ get_submission_index j m
    pub in_turn : m'.symbol_submission_index ≡ (
        if m.symbol_submission_index + 1 == m.number_of_handlers
        then 0
        else m.symbol_submission_index + 1)

  next_index :
      (i n : ℕ) → i < n → n < u32_mod → ((i + 1) % u32_mod) % n ≡ (if i + 1 == n then 0 else i + 1)
  next_index i n h k = elim (Bool-cases (i + 1 == n)) [
    | inl e ↦ rw (e, ==→eq (i + 1) n e, mod-eq_of_lt {n = n} {m = u32_mod} k) (mod_self n)
    | inr e ↦
        let ne = ==→ne (i + 1) n e in
        rw (e, mod-eq_of_lt {n = i + 1} {m = u32_mod} (omega (arith, ne)))
          (mod-eq_of_lt {n = i + 1} {m = n} (omega (arith, ne)))
  ]

  abbrev with_symbol : ℕ → String → ConcurrentMarket → ConcurrentMarket
  with_symbol s name m = record m {
    id_to_symbol = C.emplace s (record { id = s; name = name }) m.id_to_symbol;
    id_to_submission_index = C.emplace s m.symbol_submission_index m.id_to_submission_index;
  }

  -- The market with a new symbol.
  abbrev pub listed : ℕ → String → ConcurrentMarket → ConcurrentMarket
  listed s name m = update_symbol_submission_index (
      queued m.symbol_submission_index
        (record {
          orderbook_handler = m.symbol_submission_index;
          call = Call.add_order_book s name;
        })
        (with_symbol s name m))

  module _ (s : ℕ) (name : String) (m : ConcurrentMarket) (r : IsRouted m)
      (unknown : C.find s m.id_to_symbol ≡ none) where
    below : m.number_of_handlers < u32_mod
    below = let f = r.few in omega arith

    pub add_symbol-eq : add_symbol s name m ≡ some (listed s name m)
    unfolding add_symbol
    add_symbol-eq =
        let i = m.symbol_submission_index in
        let e =
          call_handler-eq i i (Call.add_order_book s name) (with_symbol s name m)
            (subst (λ k. i < k) r.threads r.next) r.next in
        rw (unknown, e) refl

    find-listed :
        (j : ℕ)
        → C.find j (listed s name m).id_to_submission_index
          ≡ (if s == j then some m.symbol_submission_index else C.find j m.id_to_submission_index)
    find-listed j = ground (
      arith,
      C.find-emplace j s m.symbol_submission_index m.id_to_submission_index,
      r.paired s unknown,
    )

    pub listed-Routed : Routed s name m (listed s name m)
    listed-Routed = record {
      routed = record {
        threads = r.threads;
        few = r.few;
        next =
            subst (λ k. k < m.number_of_handlers)
              (sym (next_index m.symbol_submission_index m.number_of_handlers r.next below))
              (let n = r.next in ground arith);
        paired = λ j e. ground (
          arith,
          find-listed j,
          r.paired j,
          C.find-emplace j s (record { id = s; name = name }) m.id_to_symbol,
          unknown,
        );
        known = λ j i e. let n = r.next in ground (arith, find-listed j, r.known j i);
      };
      index = ground (arith, find-listed s);
      others = λ j apart. ground (arith, find-listed j);
      in_turn = next_index m.symbol_submission_index m.number_of_handlers r.next below;
      system = refl;
      known =
          ground
            (arith, C.find-emplace s s (record { id = s; name = name }) m.id_to_symbol, unknown);
    }

    -- To add a symbol that is new succeeds. The symbol gets
    -- the thread whose turn it is and the handler of that thread, to which its task is given; every
    -- other symbol keeps its own, every symbol has a handler, and the turn goes round the threads.
    pub add_symbol-Routed :
        (m' : ConcurrentMarket) × (add_symbol s name m ≡ some m') × Routed s name m m'
    add_symbol-Routed = (listed s name m, add_symbol-eq, listed-Routed)
