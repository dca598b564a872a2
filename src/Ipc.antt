-- ===== src/Ipc.antt =====
-- include/sephi/ipc and src/ipc: memory, messages and events between processes.
pub mod Names
pub mod SharedMemory
pub mod MessageQueue
pub mod NamedEvent
pub mod Event
