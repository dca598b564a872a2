-- ===== src/Net.antt =====
-- The asynchronous endpoints of include/sephi/net and src/net.
pub mod Types
pub mod SendLoop
pub mod Channel
pub mod Callbacks
pub mod Client
pub mod SerialParams
pub mod Serial
pub mod SessionMap
pub mod Session
pub mod Server
pub mod Udp
pub mod Stream
pub mod Link
