-- ===== src/Concurrent.antt =====
-- include/concurrent: the thread-safe queue and the thread pool.
pub mod Queue
pub mod ThreadPool
