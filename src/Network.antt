-- ===== src/Network.antt =====
-- The messages between nodes and their peers (network/).
pub mod Peer
pub mod Tcp
pub mod Transport
