-- ===== src/Shell.antt =====
-- shell/: how each shell flavour quotes values, beside readers that say how the shells take a command
-- line apart into words. Texts are lists of code points.
pub mod Text
pub mod Reader
pub mod Login
pub mod Quote
pub mod Cmd
pub mod Script
mod Tests
