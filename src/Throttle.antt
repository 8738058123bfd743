-- ===== src/Throttle.antt =====
-- pkg/throttle: rates of bytes, and writers that keep to them.
pub mod Byterate
pub mod Writer
