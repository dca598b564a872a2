-- ===== src/Sync.antt =====
-- include/sephi/sync and src/sync: synchronisation of threads.
pub mod Event
