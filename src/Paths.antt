-- ===== src/Paths.antt =====
-- paths/: paths on a host, served by the first path provider that can.
pub mod Routing
