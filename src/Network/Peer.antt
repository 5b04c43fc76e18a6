-- ===== src/Network/Peer.antt =====
-- network/peer/peer.go: a peer of the network, and the peers other than one.
pub mod Others
use paradigm.Prelude.{
  ◌+◌, String, List, [], ◌∷◌, if◌then◌else◌, ℤ, pos, negsuc, ◌+ℤ◌, ◌==◌, nat_eq, int_eq, string_eq,
  pair_eq,
}

pub record Peer : Type 0 where
  pub net_addr : String
  pub pub_key_hex : String

-- the loop of `ExcludePeer` from the `i`-th peer on, with the index found before
unfoldable pub exclude_from : ℤ → ℤ → List Peer → String → ℤ × List Peer
exclude_from i index [] peer = (index, [])
exclude_from i index (p ∷ ps) peer =
    let at = if p.net_addr == peer then i else index in
    let rest = exclude_from (i +ℤ pos 1) at ps peer in
    if p.net_addr == peer then rest else (rest.0, p ∷ rest.1)

-- `ExcludePeer`
unfoldable pub exclude_peer : List Peer → String → ℤ × List Peer
unfolding exclude_from
exclude_peer peers peer = exclude_from (pos 0) (negsuc 0) peers peer
