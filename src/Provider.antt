-- ===== src/Provider.antt =====
-- provider/: the contracts of providers and the ordered selector over them.
pub mod Contracts
pub mod Selector
pub mod Failover
pub mod Connect
mod Tests
