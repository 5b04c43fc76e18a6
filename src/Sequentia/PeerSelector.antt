-- ===== src/Sequentia/PeerSelector.antt =====
-- core/sequentia/peer_selector.go: the choice of the peer to gossip with. `rand.Intn` is a parameter.
pub mod Next
use paradigm.Prelude.{
  ℕ, String, List, ltb, if◌then◌else◌, length, pos, nat_eq, int_eq, string_eq, pair_eq,
}
use paradigm.Common.Errors.{Result, panic, index}
use paradigm.Network.Peer.{Peer, exclude_peer}

pub record RandomPeerSelector : Type 0 where
  pub peers : List Peer
  pub last : String

-- `NewRandomPeerSelector`
unfoldable pub new_random_peer_selector : List Peer → String → RandomPeerSelector
new_random_peer_selector participants local_addr = record {
  peers = (exclude_peer participants local_addr).1;
  last = "";
}

-- `UpdateLast`
unfoldable pub update_last : RandomPeerSelector → String → RandomPeerSelector
update_last ps peer = record ps { last = peer }

-- the peers that `Next` selects from
unfoldable pub selectable : RandomPeerSelector → List Peer
selectable ps = if ltb 1 (length ps.peers) then (exclude_peer ps.peers ps.last).1 else ps.peers

-- `Next`; `rand.Intn` panics at 0
unfoldable pub next : (ℕ → ℕ) → RandomPeerSelector → Result Peer
unfolding selectable
next intn ps =
    let n = length (selectable ps) in
    if ltb 0 n then index (selectable ps) (pos (intn n)) else panic
