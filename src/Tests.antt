-- ===== src/Tests.antt =====
-- Runs of the book, books to try the theorems at, and the theorems at them.
pub mod Runs
pub mod Books
pub mod Witnesses
pub mod Threads
pub mod Printing
pub mod Operations
pub mod Checks
