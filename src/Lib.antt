-- ===== src/Lib.antt =====
-- A model of RapidTrader's matching engine, and the theorems that make it correct.
--
-- The program. An order (include/matching/orderbook/order.h, src/matching/orderbook/order.cpp) is a
-- value with its quantities. A level (level.h, level.cpp beside them) lists the orders of one price,
-- oldest first, with their total open quantity. An order book (map_orderbook.h, map_orderbook.cpp)
-- keeps the orders of one symbol in a hash map by ID, each with an iterator to its level, and six
-- maps from prices to levels: asks and bids as limit, stop and trailing stop levels. Adding an order
-- matches it against the other side, then files what is left of it; every operation ends with the
-- activation of the stop orders that the last traded price has reached. What happens is told to an
-- event handler. A market (include/matching/market/market.h, src/matching/market/market.cpp) keeps
-- symbols and one book for each, and hands every operation to the book of its symbol. A concurrent
-- market (concurrent_market.h, concurrent_market.cpp beside them) has a thread pool
-- (include/concurrent) and one handler of books for each thread; it gives each symbol to a thread in
-- turn, and every operation to the queue of its symbol's thread.
--
-- The files.
--   Base: Boolean tests, machine words of 64 and 32 bits, options and lists.
--   Containers: the hash map and the intrusive list as parameters with laws, and an instance.
--   PriceMap: `std::map` from prices, as an ascending list of entries.
--   Order: the order; Order/Factories: its factories; Order/Execution and Order/Validity: theorems;
--     Order/Checked, Level/Checked, OrderBook/Operations/Checked: what a build without `NDEBUG` adds.
--   Level: the level and `validateLevel`; Level/Volume: totals of open quantities.
--   Event: what an event handler is told; Event/Printing: its text.
--   Text: `std::to_string`, and readers of printed numbers and lines.
--   Order/Printing, Level/Printing, OrderBook/Printing, Market/Printing: `toString`; under the first
--     and the third, readers of what is printed.
--   OrderBook: the state and the accessors of `MapOrderBook`.
--     OrderBook/Storage: `deleteOrder` with its flag, and the insertions.
--     OrderBook/Matching: `match`, `executeOrders`, `canMatchOrder`, `addLimitOrder`,
--       `addMarketOrder`, and under it the theorems on them.
--     OrderBook/Stops: stop and trailing stop orders; under it one activation (Activate), the loops
--       over a map (Swept), the updates of trailing stops (Trailing), the rounds of
--       `activateStopOrders` (Rounds) and `addStopOrder` (Filed, Added).
--     OrderBook/Operations: the public operations; under it what the operations on a resting order
--       share (Reduction) and do (Resting), `addOrder` and `replaceOrder` (Adding), and the books
--       that a client can reach (Reachable).
--     OrderBook/Validation: `validateOrderBook` and its parts, and when they hold.
--     OrderBook/Maps, OrderBook/Linked, OrderBook/Invariant: levels behind iterators, how orders and
--       levels point to each other, and the invariant of a book with the steps that keep it.
--   BookHandler: `OrderBookHandler`, the books of the symbols and their one event handler.
--   Market: `Market` and `Symbol`; Market/Symbols: theorems on both; Market/Reachable: the markets
--     that a client can reach; Market/Calls: how a call gets to the book of its symbol.
--   Concurrent/Queue, Concurrent/ThreadPool: the thread-safe queue, the thread pool and the joiner
--     (include/concurrent); Concurrent/ThreadPool/System: the pool at work, as a step relation, and
--     under it what every interleaving keeps, how the threads end, and `start`.
--   ConcurrentMarket: `ConcurrentMarket`; under it its tasks (Calls), which thread a call gets
--     (Routing), the market at work (Steps, Sequential) and `deleteSymbol` (Deletion).
--   Tests: runs, concrete books, and each theorem at a concrete input.
--
-- How the code corresponds. A class is a record of its fields, a method a function from the state to
-- the state, in snake_case. A pointer or a reference to an order is the order's ID, which is its key
-- in the hash map; an iterator into a map of levels is the map's name and the key. A read through a
-- dangling reference, a failed assertion and the end of the fuel are `none`, so a theorem that
-- an operation is `some` excludes all three. Events are a list, newest first. Unsigned numbers are
-- natural numbers, and sums, differences and the narrowing to 32 bits are written out modulo the
-- word.
--
-- Builds. The model is of a build with `NDEBUG`. There the macros `VALIDATE_ORDER` (order.h),
-- `VALIDATE_LEVEL` (level.h) and `VALIDATE_ORDERBOOK` (map_orderbook.h), which the source keeps for
-- debugging, expand to nothing, so no function runs `validateOrder`, `validateLevel` or
-- `validateOrderBook` as its last statement. That build compiles the other uses of `assert` out as
-- well; the model keeps these, as `none`, so that an operation which is `some` meets them too. In a
-- build without `NDEBUG` the three checks run, and an operation that returns here can fail there: an
-- order that is cancelled in part after an execution, or executed after it was cancelled in part, can
-- fail `validateOrder`, and a book with a bid at the greatest price fails `validateOrderBook`.
-- Order/Checked, Level/Checked and OrderBook/Operations/Checked are the functions that end with one of
-- the macros, as that build compiles them, each with its own last check only: an operation of the book
-- there does not run the checks of the orders and levels that it changes.
--
-- Fuel. The loop of `match` runs on one more than the references on the other side: each round
-- removes a resting order or fills the incoming one. The loop of `canMatchOrder` runs on one more
-- than the quantity asked for: each round adds at least one unit. Each loop over a map of stop
-- levels runs on one more than the references in all stop levels: each round removes one. The loop of
-- `activateStopOrders` runs on one more than the same number: each round but the last leaves fewer.
-- All of these are proved to be enough.
--
-- Threads. A call of the client and a step of a thread are steps of one relation, in any order. The
-- methods of the queue hold its mutex throughout and are one step; a task runs as one step; a task
-- that fails has no step, so what is said of the states that are reached says nothing of what comes
-- after a failure. A task is a value that names the call, in place of a closure.
--
-- Not modelled: the checks of orders and levels within an operation of the book, in a build without
-- `NDEBUG`; files and logging; `operator<<` where it only writes `toString` out. The vendored
-- hash map include/utils/robin_hood.h and Boost's intrusive list are parameters; so is the order in
-- which the hash map of the books is walked, for `OrderBookHandler::toString`. A book is printed from
-- its numbers, by `std::to_string` for numbers of at most 64 bits.
--
-- Words. A book satisfies the invariant if its maps are in order, its orders, iterators and levels
-- agree, and its volume, the sum of the open quantities, fits 64 bits. It is sound if besides it
-- holds no filled order and every bid level is below every ask level.
pub mod Base
pub mod Text
pub mod Order
pub mod Containers
pub mod PriceMap
pub mod Level
pub mod Event
pub mod OrderBook
pub mod Tests
pub mod BookHandler
pub mod Market
pub mod Concurrent
pub mod ConcurrentMarket
