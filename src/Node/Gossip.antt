-- ===== src/Node/Gossip.antt =====
-- What a round of gossip of core/node.go leaves.
use paradigm.Prelude.{
  ℕ, String, ◌≡◌, sym, ◌⊎◌, Bool, true, false, some, List, ℤ, nat_eq, int_eq, string_eq, pair_eq,
  Map,
}
use mathlib.Core.Path.{subst}
use paradigm.Core
use paradigm.Core.{Core, CoreM, Keys, ended, to_wires}
use paradigm.Core.Keeps.{OnlyGraph, KeepsNode-run_consensus}
use paradigm.Core.Pools.{sync_lem}
use paradigm.Network.Transport.{Transport, SyncResponse, EagerSyncResponse}
use paradigm.Node.{Node, catching_up, finished, in_core, sync}
use paradigm.Node.Gentle.{OnlyCore, IsIdle, OnlyCore-trans, OnlyCore-in_core, Gentle-in_core}
use paradigm.Node.Steps.{>>=-eq-finished, in_core-eq-finished}
use paradigm.Sequentia.Insert.{Crypto}
use paradigm.Sequentia.PeerSelector.{update_last}
use paradigm.Sequentia.Store.{Store}
use paradigm.Types.Comet.{Comet, WireEvent}

module _ {S : Type 0} (st : Store S) (crypto : Crypto) (keys : Keys) where
  -- After `sync` the pools are empty.
  pub sync-IsIdle :
      (fuel : ℕ) (now : ℤ) (wes : List WireEvent) (n d : Node S)
      → sync st crypto keys fuel now wes n ≡ finished tt d
      → OnlyCore n d × IsIdle d
  unfolding sync
  sync-IsIdle fuel now wes n d e =
      let core_sync = Core.sync st crypto keys fuel now wes in
      let (u, n', p, q) = >>=-eq-finished (in_core core_sync) _ n d tt e in
      let (c, r, same) = in_core-eq-finished core_sync n n' tt p in
      let (t, b, s) = sync_lem st crypto keys fuel now wes n.core c r in
      let (o, i) =
        (Gentle-in_core (Core.run_consensus st crypto keys fuel)
            (KeepsNode-run_consensus st crypto keys fuel)).leaves
          n' d tt q in
      (
        OnlyCore-trans n n' d (OnlyCore-in_core core_sync n n' tt p) o,
        i (subst IsIdle (sym same) (t, b)),
      )

  module _ (trans : Transport) (others : ℕ → Node S → Node S) (peer : String) where
    -- What a push of what the peer lacks leaves of a node `a`: nothing is sent over the sync limit, and
    -- under it the comets that `EventDiff` finds are sent, and the peer answers.
    pub data Pushed (known : Map ℤ ℤ) (a d : Node S) : Type 0 where
      over :
          (c : Core S)
          → Core.over_sync_limit st crypto keys known a.sync_limit a.core ≡ ended true c
          → OnlyGraph a.core c
          → d ≡ record a { core = c }
          → Pushed known a d
      sent :
          (c c' : Core S) (b : Node S) (diff : List Comet) (resp : EagerSyncResponse)
          → Core.over_sync_limit st crypto keys known a.sync_limit a.core ≡ ended false c
          → OnlyGraph a.core c
          → b ≡ others 2 (record a { core = c })
          → Core.event_diff st crypto keys known b.core ≡ ended diff c'
          → OnlyGraph b.core c'
          → d ≡ others 3 (record b { core = c' })
          → trans.eager_sync peer (record { from_id = d.id; events = to_wires diff }) ≡ some resp
          → Pushed known a d

    -- The peer's response to a request with what the node knows, and the node when it is there.
    pub record Responded (n m : Node S) (resp : SyncResponse) : Type 0 where
      pub known : Map ℤ ℤ
      pub asking : Core S
      pub known_at : Core.known_events st crypto keys n.core ≡ ended known asking
      pub only_graph : OnlyGraph n.core asking
      pub waited : m ≡ others 0 (record n { core = asking })
      pub response : trans.sync peer (record { from_id = m.id; known = known }) ≡ some resp

    -- What a round of gossip leaves, with what the other handlers do between its steps.
    pub data Gossiped (n d : Node S) : Type 0 where
      -- the peer says that its sync limit is hit, and the node is catching up
      limited :
          (m : Node S) (resp : SyncResponse)
          → Responded n m resp
          → resp.sync_limit ≡ true
          → d ≡ record m { state = catching_up }
          → Gossiped n d
      -- the peer's comets are taken in, by which only the core changes and its pools are emptied, and what
      -- the peer lacks is pushed; the peer is the last one of the selector, and the node is not starting
      exchanged :
          (m k p : Node S) (resp : SyncResponse)
          → Responded n m resp
          → resp.sync_limit ≡ false
          → OnlyCore m k
          → IsIdle k
          → Pushed resp.known (others 1 k) p
          → (let q = others 4 p in
              let s = others 5 (record q { peer_selector = update_last q.peer_selector peer }) in
              d ≡ record s { starting = false })
          → Gossiped n d

    -- What the response leads to.
    abbrev TakenIn : SyncResponse → Node S → Bool → Map ℤ ℤ → Node S → Type 0
    TakenIn resp m limit known d =
        ((resp.sync_limit ≡ true) × (limit ≡ true) × (d ≡ m))
        ⊎ ((resp.sync_limit ≡ false)
            × (limit ≡ false)
            × (known ≡ resp.known)
            × OnlyCore m d
            × IsIdle d)
