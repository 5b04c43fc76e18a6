-- ===== src/Storage.antt =====
-- storage/: the caches of comets, rounds and blocks.
pub mod Caches
pub mod KeyValue
pub mod MemoryStore
pub mod Database
pub mod BadgerStore
