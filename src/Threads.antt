-- ===== src/Threads.antt =====
-- Threads/mdz_thr_safecontainers: the map of elements that threads share.
pub mod SafeMap
pub mod Queue
