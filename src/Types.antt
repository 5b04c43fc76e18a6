-- ===== src/Types.antt =====
-- The records of types/ that the nodes exchange and store.
pub mod RoundInfo
pub mod Root
pub mod Block
pub mod Comet
pub mod Frame
