-- ===== src/Host.antt =====
-- host/: what every host's configuration shares.
pub mod Timeout
pub mod Dispatch
pub mod Lifecycle
mod Tests
