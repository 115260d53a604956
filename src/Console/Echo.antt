-- ===== src/Console/Echo.antt =====
-- What console/_posix.py types for a command, against the markers of that command.
pub mod Marks
pub mod Pieces
pub mod Lines
pub mod Batches
mod Tests
