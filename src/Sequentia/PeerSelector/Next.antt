-- ===== src/Sequentia/PeerSelector/Next.antt =====
-- `Next` of core/sequentia/peer_selector.go always finds a peer.
use paradigm.Prelude.{
  ℕ, ◌<◌, ◌≡◌, ◌≢◌, inl, inr, true, some, List, arith, ltb, if◌then◌else◌, ltb→lt, lt→ltb,
  Bool-cases, length, get_elem?, get_elem?_in, pos, nat_eq, int_eq, string_eq, pair_eq,
}
use paradigm.Common.Errors.{ok, panic, index}
use paradigm.Network.Peer.{Peer}
use paradigm.Network.Peer.Others.{IsDistinct, exclude_peer_lem}
use paradigm.Sequentia.PeerSelector.{RandomPeerSelector, selectable, next}

-- The peers that `Next` selects from: there is one, each is a peer, and where there are two or more none
-- is the last.
selectable_lem :
    (ps : RandomPeerSelector)
    → IsDistinct ps.peers
    → 0 < length ps.peers
    → (0 < length (selectable ps))
      × ((j : ℕ) (p : Peer)
          → get_elem? (selectable ps) j ≡ some p
          → ((k : ℕ) × (get_elem? ps.peers k ≡ some p))
            × (1 < length ps.peers → p.net_addr ≢ ps.last))
unfolding selectable
selectable_lem ps d some_peer = elim (Bool-cases (ltb 1 (length ps.peers))) [
  | inr alone ↦ rw alone (
    some_peer,
    λ j p h. ((j, h), λ more. absurd (ground (arith, alone, lt→ltb 1 (length ps.peers) more))),
  )
  | inl several ↦
      let (others, at_most_one) = exclude_peer_lem ps.peers ps.last in
      let more = ltb→lt 1 (length ps.peers) several in
      let left = at_most_one d in
      rw several
        (omega (arith, more, left), λ j p h. let (k, away) = others j p h in (k, λ m. away))
]

index-found :
    (xs : List Peer) (i : ℕ) (q : Peer)
    → ltb 0 (length xs) ≡ true
    → get_elem? xs i ≡ some q
    → (if ltb 0 (length xs) then index xs (pos i) else panic) ≡ ok q
unfolding index
index-found xs i q h e = rw h (ground (arith, e))

-- With at least one peer, no two of the same address, and a random number below its bound, `Next` does
-- not panic: it returns one of the peers, which is not the last where there are two or more.
pub next_lem :
    (intn : ℕ → ℕ) (ps : RandomPeerSelector)
    → ((n : ℕ) → 0 < n → intn n < n)
    → IsDistinct ps.peers
    → 0 < length ps.peers
    → (p : Peer) × (next intn ps ≡ ok p)
      × ((k : ℕ) × (get_elem? ps.peers k ≡ some p))
      × (1 < length ps.peers → p.net_addr ≢ ps.last)
unfolding next
next_lem intn ps below d some_peer =
    let (many, each) = selectable_lem ps d some_peer in
    let (p, at) =
      get_elem?_in (selectable ps) (intn (length (selectable ps)))
        (below (length (selectable ps)) many) in
    let (one_of, away) = each (intn (length (selectable ps))) p at in
    let enough = lt→ltb 0 (length (selectable ps)) many in
    (p, index-found (selectable ps) (intn (length (selectable ps))) p enough at, one_of, away)
