-- ===== src/Node.antt =====
-- core/node.go and core/node_state.go: the states of a node, and what it does with requests, gossip,
-- transactions and blocks. The transport, the application and the clock are parameters, and so is what the
-- other handlers do to a node whenever a round of gossip, or the answer to a sync request, has not the lock
-- of the core; what a handler does
-- under the lock is one step. The goroutines and their channels, the gossip timer, statistics and
-- logging are left out.
pub mod Steps
pub mod Gentle
pub mod Gossip
pub mod Requests
use paradigm.Prelude.{
  ℕ, String, Bool, true, false, ◌||◌, Option, none, some, List, [], ◌∷◌, if◌then◌else◌, ℤ, nat_eq,
  int_eq, string_eq, pair_eq, Map, store,
}
use paradigm.Common.Errors.{Result}
use paradigm.Core
use paradigm.Core.{Core, CoreM, Keys, ended, refused, crashed, has_pool, need_gossip, to_wires}
use paradigm.Network.Peer.{Peer}
use paradigm.Network.Transport.{
  SyncRequest, SyncResponse, EagerSyncRequest, EagerSyncResponse, Command, sync_request,
  eager_sync_request, other_command, Response, sync_response, eager_sync_response, no_response,
  Transport,
}
use paradigm.Sequentia.Graph.{GraphErr}
use paradigm.Sequentia.Insert.{Crypto}
use paradigm.Sequentia.PeerSelector.{RandomPeerSelector, new_random_peer_selector, update_last}
use paradigm.Sequentia.Store.{Store}
use paradigm.Types.Block.{Block}
use paradigm.Types.Comet.{Comet, WireEvent}

pub data NodeState : Type 0 where
  booting : NodeState
  catching_up : NodeState
  shutdown : NodeState

pub record Node (S : Type 0) : Type 0 where
  pub state : NodeState
  -- `starting > 0`
  pub starting : Bool
  pub id : ℤ
  pub core : Core S
  pub local_addr : String
  pub peer_selector : RandomPeerSelector
  -- `conf.SyncLimit`
  pub sync_limit : ℤ

pub data NodeErr : Type 0 where
  of_core : GraphErr → NodeErr
  of_transport : NodeErr
  not_ready : NodeState → NodeErr
  unexpected_command : NodeErr

pub data NodeOutcome (S A : Type 0) : Type 0 where
  finished : A → Node S → NodeOutcome S A
  erred : NodeErr → Node S → NodeOutcome S A
  died : NodeOutcome S A

abbrev pub NodeM : Type 0 → Type 0 → Type 0
NodeM S A = Node S → NodeOutcome S A

module _ {S : Type 0} where
  infixl 5 ◌>>=◌ ◌>>◌
  abbrev pub ◌>>=◌ : {A B : Type 0} → NodeM S A → (A → NodeM S B) → NodeM S B
  ◌>>=◌ m f n = elim (m n) [ finished a n' ↦ f a n' | erred e n' ↦ erred e n' | died ↦ died ]

  abbrev pub ◌>>◌ : {B : Type 0} → NodeM S (Unit {0}) → NodeM S B → NodeM S B
  m >> k = m >>= λ _. k

  abbrev pub return : {A : Type 0} → A → NodeM S A
  return a n = finished a n

  abbrev pub fail : {A : Type 0} → NodeErr → NodeM S A
  fail e n = erred e n

  abbrev pub node : NodeM S (Node S)
  node n = finished n n

  abbrev pub modify : (Node S → Node S) → NodeM S (Unit {0})
  modify f n = finished tt (f n)

  -- a method of the core
  abbrev pub in_core : {A : Type 0} → CoreM S A → NodeM S A
  in_core m n = elim (m n.core) [
    | ended a c ↦ finished a (record n { core = c })
    | refused e c ↦ erred (of_core e) (record n { core = c })
    | crashed ↦ died
  ]

  -- a call whose error is kept as a value; the value is `a` where there is an error
  abbrev pub attempt : {A : Type 0} → A → NodeM S A → NodeM S (A × Option NodeErr)
  attempt a m n = elim (m n) [
    | finished b n' ↦ finished (b, none) n'
    | erred e n' ↦ finished (a, some e) n'
    | died ↦ died
  ]

  -- `setState`
  unfoldable pub set_state : NodeState → Node S → Node S
  set_state s n = record n { state = s }

  -- `setStarting`
  unfoldable pub set_starting : Bool → Node S → Node S
  set_starting b n = record n { starting = b }

module _ {S : Type 0} (st : Store S) (crypto : Crypto) (keys : Keys) where
  -- `NewNode`
  unfoldable pub new_node : ℤ → List Peer → Map String ℤ → S → String → ℤ → Node S
  unfolding set_state set_starting
  new_node id participants pmap s local_addr sync_limit = set_state booting (
      set_starting true (record {
        state = booting;
        starting = false;
        id = id;
        core = Core.new_core st crypto keys id pmap s true;
        local_addr = local_addr;
        peer_selector = new_random_peer_selector participants local_addr;
        sync_limit = sync_limit;
      }))

  -- `Init`
  unfoldable pub init : ℕ → Bool → NodeM S (Unit {0})
  init fuel bootstrap =
      if bootstrap
      then in_core (Core.bootstrap st crypto keys fuel)
      else in_core (Core.init st crypto keys fuel)

  -- `sync`
  unfoldable pub sync : ℕ → ℤ → List WireEvent → NodeM S (Unit {0})
  sync fuel now events = do
    in_core (Core.sync st crypto keys fuel now events)
    in_core (Core.run_consensus st crypto keys fuel)

  -- the part of `processSyncRequest` under the sync limit; an error leaves no comets
  unfoldable pub diff_response : Map ℤ ℤ → NodeM S (List WireEvent × Option NodeErr)
  diff_response known = do
    (diff, e) ← attempt [] (in_core (Core.event_diff st crypto keys known))
    return (to_wires diff, e)

  -- `processSyncRequest`; the lock of the core is free after the test of the limit and before the known
  -- comets are read, and `others` is what the other handlers do to the node there
  unfoldable pub process_sync_request :
      (ℕ → Node S → Node S) → SyncRequest → NodeM S (Response × Option NodeErr)
  unfolding diff_response
  process_sync_request others cmd = do
    n ← node
    over ← in_core (Core.over_sync_limit st crypto keys cmd.known n.sync_limit)
    modify (others 0)
    (events, e) ← if over then return ([], none) else diff_response cmd.known
    modify (others 1)
    known ← in_core (Core.known_events st crypto keys)
    let resp : SyncResponse = record {
      from_id = n.id;
      sync_limit = over;
      events = events;
      known = known;
    }
    return (sync_response resp, e)

  -- `processEagerSyncRequest`
  unfoldable pub process_eager_sync_request :
      ℕ → ℤ → EagerSyncRequest → NodeM S (Response × Option NodeErr)
  unfolding sync
  process_eager_sync_request fuel now cmd = do
    n ← node
    (u, e) ← attempt tt (sync fuel now cmd.events)
    let resp : EagerSyncResponse = record {
      from_id = n.id;
      success = elim e [ none ↦ true | some x ↦ false ];
    }
    return (eager_sync_response resp, e)

  -- the switch over the command in `processRPC`
  unfoldable pub dispatch :
      ℕ → ℤ → (ℕ → Node S → Node S) → Command → NodeM S (Response × Option NodeErr)
  unfolding process_sync_request process_eager_sync_request
  dispatch fuel now others (sync_request cmd) = process_sync_request others cmd
  dispatch fuel now others (eager_sync_request cmd) = process_eager_sync_request fuel now cmd
  dispatch fuel now others other_command = return (no_response, some unexpected_command)

  -- the refusal of `processRPC` in a state that is not booting
  unfoldable pub discard_rpc : NodeM S (Response × Option NodeErr)
  discard_rpc n =
      let resp : SyncResponse = record {
        from_id = n.id;
        sync_limit = false;
        events = [];
        known = [];
      } in
      finished (sync_response resp, some (not_ready n.state)) n

  -- `processRPC`
  unfoldable pub process_rpc :
      ℕ → ℤ → (ℕ → Node S → Node S) → Command → NodeM S (Response × Option NodeErr)
  unfolding dispatch discard_rpc
  process_rpc fuel now others cmd n = elim n.state [
    | booting ↦ dispatch fuel now others cmd n
    | catching_up ↦ discard_rpc n
    | shutdown ↦ discard_rpc n
  ]

  -- `preGossip`
  unfoldable pub pre_gossip : ℕ → ℤ → NodeM S Bool
  pre_gossip fuel now = do
    n ← node
    if need_gossip st crypto keys n.core || n.starting
        then (do in_core (Core.add_self_event st crypto keys fuel now); return true)
        else return false

  -- a response of the transport, or its failure
  abbrev pub answer : {A : Type 0} → Option A → NodeM S A
  answer r = elim r [ some a ↦ return a | none ↦ fail of_transport ]

  -- `requestSync`
  unfoldable pub request_sync : Transport → String → Map ℤ ℤ → NodeM S SyncResponse
  request_sync trans target known = do
    n ← node
    answer (trans.sync target (record { from_id = n.id; known = known }))

  -- `requestEagerSync`
  unfoldable pub request_eager_sync :
      Transport → String → List WireEvent → NodeM S EagerSyncResponse
  request_eager_sync trans target events = do
    n ← node
    answer (trans.eager_sync target (record { from_id = n.id; events = events }))

  -- `pull`: whether the sync limit is hit, and what the peer knows. The lock of the core is free during the
  -- request: `others 0` is what the other handlers do to the node meanwhile.
  unfoldable pub pull :
      ℕ → ℤ → Transport → (ℕ → Node S → Node S) → String → NodeM S (Bool × Map ℤ ℤ)
  unfolding sync request_sync
  pull fuel now trans others peer_addr = do
    known ← in_core (Core.known_events st crypto keys)
    modify (others 0)
    resp ← request_sync trans peer_addr known
    if resp.sync_limit
        then return (true, [])
        else (do sync fuel now resp.events; return (false, resp.known))

  -- `push`; the lock is free before it (1), before the comets are collected (2) and during the request (3)
  unfoldable pub push : Transport → (ℕ → Node S → Node S) → String → Map ℤ ℤ → NodeM S (Unit {0})
  unfolding request_eager_sync
  push trans others peer_addr known = do
    modify (others 1)
    n ← node
    over ← in_core (Core.over_sync_limit st crypto keys known n.sync_limit)
    if over then return tt else (do
      modify (others 2)
      diff ← in_core (Core.event_diff st crypto keys known)
      modify (others 3)
      resp ← request_eager_sync trans peer_addr (to_wires diff)
      return tt)

  -- `gossip`; the other handlers also act before (4) and after (5) the selector is updated
  unfoldable pub gossip : ℕ → ℤ → Transport → (ℕ → Node S → Node S) → String → NodeM S (Unit {0})
  unfolding pull push set_state set_starting
  gossip fuel now trans others peer_addr = do
    (limit, known) ← pull fuel now trans others peer_addr
    if limit then modify (set_state catching_up) else (do
      push trans others peer_addr known
      modify (others 4)
      modify (λ n. record n { peer_selector = update_last n.peer_selector peer_addr })
      modify (others 5)
      modify (set_starting false))

  -- `fastForward`
  unfoldable pub fast_forward : NodeM S (Unit {0})
  unfolding set_state
  fast_forward = modify (set_state booting)

  -- `commit`; `CommitBlock` gives a state hash, and its error is not looked at
  unfoldable pub commit : (Block → List ℕ × Option NodeErr) → Block → NodeM S (Unit {0})
  commit commit_block block = do
    let (state_hash, e) = commit_block block
    let b = block.body
    sig ← in_core (
        Core.sign_block st crypto keys
          (record block { body = record b { state_hash = state_hash } }))
    modify (λ n. record n { core = Core.add_block_signature st crypto keys sig n.core })

  -- `addTransaction`
  unfoldable pub add_transaction : List ℕ → Node S → Node S
  add_transaction tx n = record n { core = Core.add_transactions st crypto keys (tx ∷ []) n.core }

  -- the change of state in `Shutdown`
  unfoldable pub stop : Node S → Node S
  unfolding set_state
  stop n = elim n.state [
    | shutdown ↦ n
    | booting ↦ set_state shutdown n
    | catching_up ↦ set_state shutdown n
  ]

  -- `GetBlock`
  unfoldable pub get_block : ℤ → Node S → Result Block × Node S
  get_block i n =
      let c = n.core in
      let g = c.graph in
      let (r, s) = st.get_block g.store i in
      (r, record n { core = record c { graph = record g { store = s } } })
