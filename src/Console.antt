-- ===== src/Console.antt =====
-- console/: the byte stream that a console profile drives.
pub mod Stream
pub mod Frame
pub mod Typed
pub mod Acknowledged
pub mod Echo
mod Tests
