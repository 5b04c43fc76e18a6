-- ===== src/Tests/Nodes.antt =====
-- core/core.go, core/node.go, core/sequentia/peer_selector.go and common/timer/control_timer.go at concrete
-- inputs.
use paradigm.Prelude.{
  ℕ, zero, suc, ◌-◌, ◌<◌, ◌≡◌, refl, ◌≢◌, Bool, true, false, some, List, [], ◌∷◌, arith,
  if◌then◌else◌, length, get_elem?, pos, negsuc, eqb_ℤ, nat_eq, int_eq, string_eq, pair_eq,
  ne_of_==, find, store,
}
use paradigm.Common.Errors.{ok}
use paradigm.Common.Lru
use paradigm.Common.Lru.{Lru}
use paradigm.Common.RollingIndex
use paradigm.Common.RollingIndexMap
use paradigm.Storage.Caches
use paradigm.Storage.MemoryStore
use paradigm.Storage.MemoryStore.{InmemStore, new_inmem_store}
use paradigm.Sequentia.Graph.{Graph, Outcome, done, failed, panicked, plurality, build_comet_graph}
use paradigm.Sequentia.Insert.{Crypto}
use paradigm.Sequentia.Order.{Sort}
use paradigm.Sequentia.Store.{inmem}
use paradigm.Tests.Graphs.{accept_all, sorted}
use paradigm.Tests.Stores.{named, members}
use paradigm.Types.Comet.{Comet, EventCoordinates}
use paradigm.Core
use paradigm.Common.Lru.Elements
use paradigm.Common.Errors
use paradigm.Types.RoundInfo
use paradigm.Types.Block
use paradigm.Types.Comet
use paradigm.Sequentia.Graph as Graphs
use paradigm.Sequentia.Wire
use paradigm.Sequentia.Insert
use paradigm.Sequentia.Coordinates
use paradigm.Sequentia.Queries
use paradigm.Sequentia.Rounds
use paradigm.Sequentia.Fame
use paradigm.Sequentia.Order
use paradigm.Sequentia.Frames
use paradigm.Sequentia.PeerSelector
use paradigm.Sequentia.PeerSelector.{RandomPeerSelector}
use paradigm.Network.Peer
use paradigm.Core.{Core, CoreOutcome, Keys, ended, refused, crashed}
use paradigm.Network.Peer.{Peer}
use paradigm.Network.Transport.{Transport, SyncRequest, sync_request}
use paradigm.Node
use paradigm.Node.{Node, NodeOutcome, finished, erred, died}
use paradigm.Node.Requests.{IsAnswer, process_rpc-Answered}
use paradigm.Core.Boot.{Booted, bootstrap_lem}
use paradigm.Sequentia.PeerSelector.Next.{next_lem}
use paradigm.Network.Peer.Others.{IsDistinct}

abbrev own_keys : Keys
own_keys = record {
  pub_key = [];
  sign_comet = λ b. some "signed";
  sign_body = λ b. some "signed";
  hash = λ b. if eqb_ℤ b.index (pos 0) then "a" else "b";
  middle_bit = λ h. true;
  sort = sorted;
  signature_r = λ c. 0;
  empty = named "" "" (pos 0);
}

abbrev core_of : {A : Type 0} → CoreOutcome InmemStore A → Core InmemStore → Core InmemStore
core_of (ended a d) c = d
core_of (refused e d) c = d
core_of crashed c = c

-- A node alone, with its first comet and a transaction to send.
abbrev fresh : Core InmemStore
fresh = Core.new_core inmem accept_all own_keys (pos 0) members (new_inmem_store members 4) true

abbrev busy : Core InmemStore
busy =
    let c = core_of (Core.init inmem accept_all own_keys 5 fresh) fresh in
    Core.add_transactions inmem accept_all own_keys ((7 ∷ []) ∷ []) c

abbrev synced : Core InmemStore
synced = core_of (Core.sync inmem accept_all own_keys 5 (pos 9) [] busy) busy

-- A transport to a peer that has nothing new, and knows all that is asked for.
abbrev quiet : Transport
quiet = record {
  sync = λ target q.
      some (record { from_id = pos 1; sync_limit = false; events = []; known = q.known });
  eager_sync = λ target q. some (record { from_id = pos 1; success = true });
}

abbrev node_of : {A : Type 0} → NodeOutcome InmemStore A → Node InmemStore → Node InmemStore
node_of (finished a d) n = d
node_of (erred e d) n = d
node_of died n = n

abbrev peers : List Peer
peers =
    record { net_addr = "here"; pub_key_hex = "p" }
    ∷ record { net_addr = "there"; pub_key_hex = "q" }
    ∷ record { net_addr = "elsewhere"; pub_key_hex = "r" }
    ∷ []

abbrev started : Node InmemStore
started =
    let n =
      Node.new_node inmem accept_all own_keys (pos 0) peers members (new_inmem_store members 4)
        "here" (pos 100) in
    record n { core = busy }

-- Another handler takes a transaction where the lock is free for the second time.
abbrev bystander : ℕ → Node InmemStore → Node InmemStore
bystander (suc zero) n = Node.add_transaction inmem accept_all own_keys (8 ∷ []) n
bystander _ n = n

abbrev gossiped : Node InmemStore
gossiped =
    node_of (Node.gossip inmem accept_all own_keys 5 (pos 9) quiet bystander "there" started)
      started

abbrev is_finished : {A : Type 0} → NodeOutcome InmemStore A → Bool
is_finished (finished a d) = true
is_finished _ = false

abbrev asks : SyncRequest
asks = record { from_id = pos 1; known = (pos 0, negsuc 0) ∷ [] }

process_rpc-Answered_example :
    IsAnswer inmem accept_all own_keys bystander
      (sync_request asks)
      started
      (Node.process_rpc inmem accept_all own_keys 5 (pos 9) bystander (sync_request asks) started)
process_rpc-Answered_example =
    process_rpc-Answered inmem accept_all own_keys bystander 5 (pos 9) (sync_request asks) started

abbrev booted : Core InmemStore
booted = core_of (Core.bootstrap inmem accept_all own_keys 5 fresh) fresh

boots : Core.bootstrap inmem accept_all own_keys 5 fresh ≡ ended tt booted
unfolding Core.bootstrap Core.boot_head Core.new_core Frames.bootstrap MemoryStore.last_event_from
    Caches.get_last_event Caches.participant_id find build_comet_graph new_inmem_store
    Caches.new_participant_cache RollingIndexMap.get_last RollingIndexMap.new_rolling_index_map
    store RollingIndex.new_rolling_index MemoryStore.get_root MemoryStore.base_roots
boots = refl

bootstrap_lem_example :
    ((g : Graph InmemStore) × (Frames.bootstrap inmem accept_all own_keys.middle_bit own_keys.sort
          own_keys.signature_r own_keys.empty 5 fresh.graph
        ≡ done tt g)
      × Booted inmem accept_all own_keys g.store booted)
    × (booted ≡ record fresh { graph = booted.graph; head = booted.head; seq = booted.seq })
bootstrap_lem_example = bootstrap_lem inmem accept_all own_keys 5 fresh booted boots

abbrev selector : RandomPeerSelector
selector = PeerSelector.update_last (PeerSelector.new_random_peer_selector peers "here") "there"

apart : IsDistinct selector.peers
unfolding PeerSelector.update_last PeerSelector.new_random_peer_selector Peer.exclude_peer
    Peer.exclude_from
apart = ((ne_of_== "elsewhere" "there" refl, tt), (tt, tt))

some_peers : 0 < length selector.peers
unfolding PeerSelector.update_last PeerSelector.new_random_peer_selector Peer.exclude_peer
    Peer.exclude_from
some_peers = omega arith

next_lem_example :
    (p : Peer) × (PeerSelector.next (λ n. n - 1) selector ≡ ok p)
    × ((k : ℕ) × (get_elem? selector.peers k ≡ some p))
    × (1 < length selector.peers → p.net_addr ≢ selector.last)
next_lem_example = next_lem (λ n. n - 1) selector (λ n h. omega (arith, h)) apart some_peers
