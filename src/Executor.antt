-- ===== src/Executor.antt =====
-- executor.py: the lease that guards a stream which one process at a time may use.
pub mod Lease
mod Tests
