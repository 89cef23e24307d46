-- ===== src/Net.antt =====
-- crates/filesec-gui/src/net: the parts of the desktop program's network threads that stand below the
-- transfer protocol.
pub mod Wire
pub mod Permits
pub mod Limiter
pub mod Code
mod Tests
