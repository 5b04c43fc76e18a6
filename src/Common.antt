-- ===== src/Common.antt =====
-- The containers of common/ and the errors of errors/ that they return.
pub mod Errors
pub mod Effects
pub mod Bytes
pub mod Lru
pub mod RollingIndex
pub mod RollingIndexMap
pub mod Timer
