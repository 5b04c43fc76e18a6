-- ===== src/Sequentia.antt =====
-- core/sequentia: the comet graph, the rounds and the fame of its witnesses, and the order of comets.
pub mod Store
pub mod Graph
pub mod Queries
pub mod Coordinates
pub mod Insert
pub mod Wire
pub mod Rounds
pub mod Fame
pub mod Order
pub mod Frames
pub mod PeerSelector
