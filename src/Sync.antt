-- ===== src/Sync.antt =====
-- pkg/sync: the semaphore, a buffered channel of tokens.
pub mod Semaphore
