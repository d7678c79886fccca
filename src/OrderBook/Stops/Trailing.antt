-- ===== src/OrderBook/Stops/Trailing.antt =====
-- The updates of the trailing stop orders: `updateBidStopOrders` and `updateAskStopOrders` of
-- src/matching/orderbook/map_orderbook.cpp keep a book sound. The proof follows a second book, from
-- which the orders that have yet to be moved are gone: to move an order is to insert it there.
pub mod Cleared
pub mod Pending
pub mod Moving
pub mod Moved
pub mod Updated
pub mod Same
