-- ===== src/Uri.antt =====
-- src/hostctl/uri: connection URIs.
pub mod Query
pub mod Redact
pub mod Credentials
pub mod Tests
