-- ===== src/Container.antt =====
-- transports/container/: what the path backend makes of Docker's archives.
pub mod Archive
mod Tests
