-- ===== src/ConcurrentMarket/Deletion.antt =====
-- The deletion of a symbol from the concurrent market.
use rapid_trader.Base.{
  ℕ, ◌≡◌, ◌≢◌, refl, sym, subst, ◌<◌, ◌⊎◌, inl, inr, true, false, Bool, none, some, [], ◌∷◌, ◌++◌,
  if◌then◌else◌, ==_refl,
}
use rapid_trader.BookHandler.{OrderBookHandler, find_book, delete_order_book}
use rapid_trader.ConcurrentMarket.{ConcurrentMarket, delete_symbol, get_submission_index}
use rapid_trader.ConcurrentMarket.Calls.{Task, Call, run_task, market_tasks}
use rapid_trader.ConcurrentMarket.Routing.{
  IsRouted, queued, call_handler-eq, get_submission_index-lt,
}
use rapid_trader.ConcurrentMarket.Steps.{handlers}
use rapid_trader.Concurrent.ThreadPool.System.Serial.{IsSorted, AllFor-right}
use rapid_trader.Containers.{Containers}
use rapid_trader.Market.{Symbol}

module _ ⦃C : Containers⦄ where
  -- The task that `deleteSymbol` submits.
  abbrev pub deletion : Bool → ℕ → Symbol → ConcurrentMarket → Task
  deletion erased s symbol m = record {
    orderbook_handler = m.symbol_submission_index;
    call = Call.delete_order_book s (if erased then none else some symbol.name);
  }

  abbrev deleted : Bool → ℕ → Symbol → ConcurrentMarket → ConcurrentMarket
  deleted erased s symbol m =
      let m' = queued (get_submission_index s m) (deletion erased s symbol m) m in
      record m' {
        id_to_symbol = C.erase s m'.id_to_symbol;
        id_to_submission_index = C.erase s m'.id_to_submission_index;
      }

  delete_symbol-eq :
      (erased : Bool) (s : ℕ) (symbol : Symbol) (m : ConcurrentMarket)
      → IsRouted m
      → C.find s m.id_to_symbol ≡ some symbol
      → delete_symbol erased s m ≡ some (deleted erased s symbol m)
  unfolding delete_symbol
  delete_symbol-eq erased s symbol m r known =
      let i = get_submission_index s m in
      let e =
        call_handler-eq i m.symbol_submission_index
          (Call.delete_order_book s (if erased then none else some symbol.name)) m
          (subst (λ k. i < k) r.threads (get_submission_index-lt s m r)) r.next in
      rw (known, e) refl

  deletion_fails :
      (erased : Bool) (s : ℕ) (symbol : Symbol) (m : ConcurrentMarket) (hs : ℕ → OrderBookHandler)
      → (erased ≡ true) ⊎ (find_book s (hs m.symbol_submission_index) ≡ none)
      → run_task (deletion erased s symbol m) hs ≡ none
  unfolding run_task delete_order_book
  deletion_fails erased s symbol m hs (inl e) = rw e refl
  deletion_fails true s symbol m hs (inr e) = refl
  deletion_fails false s symbol m hs (inr e) = rw e refl

  -- What goes wrong: the task of a deletion stands in the queue of the symbol's thread, but works on
  -- the handler whose turn is next.
  pub record Misdirected (erased : Bool) (s : ℕ) (symbol : Symbol) (m m' : ConcurrentMarket)
      : Type 0 where
    pub submitted :
        m'.system.submitted (get_submission_index s m)
        ≡ m.system.submitted (get_submission_index s m) ++ deletion erased s symbol m ∷ []
    pub unsorted : ¬ IsSorted handlers m'.system
    pub fails :
        (hs : ℕ → OrderBookHandler)
        → (erased ≡ true) ⊎ (find_book s (hs m.symbol_submission_index) ≡ none)
        → run_task (deletion erased s symbol m) hs ≡ none

  -- To delete a known symbol whose thread is not the one whose turn is next succeeds for the caller,
  -- but its task, in the queue of the symbol's thread, is for the handler of the other thread. When
  -- it runs it fails if that handler has no book of the symbol, and also if the symbol has been
  -- erased in the meantime.
  pub delete_symbol-Misdirected :
      (erased : Bool) (s : ℕ) (symbol : Symbol) (m : ConcurrentMarket)
      → IsRouted m
      → C.find s m.id_to_symbol ≡ some symbol
      → get_submission_index s m ≢ m.symbol_submission_index
      → (m' : ConcurrentMarket) × (delete_symbol erased s m ≡ some m')
        × Misdirected erased s symbol m m'
  delete_symbol-Misdirected erased s symbol m r known other =
      let i = get_submission_index s m in
      let submitted : (deleted erased s symbol m).system.submitted i
          ≡ m.system.submitted i ++ deletion erased s symbol m ∷ [] =
        rw (==_refl i) refl in
      (
        deleted erased s symbol m,
        delete_symbol-eq erased s symbol m r known,
        record {
          submitted = submitted;
          unsorted = λ sorted. other (
              sym
                (AllFor-right handlers.owner i (m.system.submitted i)
                  (deletion erased s symbol m ∷ []) (rw submitted at (sorted i))).0);
          fails = deletion_fails erased s symbol m;
        },
      )
