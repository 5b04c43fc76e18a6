-- ===== src/Lib.antt =====
-- The consensus of Paradigm: its comet graph, the stores under it, the caches of both, and the node that
-- exchanges comets with its peers.
--
-- Each participant of the network makes comets, events that point to the last comet of the same
-- participant (the self-parent) and to one of another (the other-parent). The graph of
-- core/sequentia/sequentia.go takes comets in, divides them into rounds, decides by votes which
-- witnesses of a round are famous, orders the comets that enough famous witnesses see, and makes
-- blocks of their transactions. It reads and writes a store (storage/), which keeps comets, rounds and
-- blocks in LRUs and the names of each participant's comets in rolling indices (common/); the Badger
-- store has a database behind these. The core (core/core.go) owns the graph, the head of the node's own
-- comets and the pools of what is to be sent; the node (core/node.go) pulls comets from a peer and
-- pushes its own, answers the requests of the peers, and signs the blocks. The application (proxy/)
-- applies the transactions of a block to its accounts, one message each, and commits them to the store.
-- The transport (network/tcp/) carries the requests over a pool of connections.
--
-- Files, and the code that they model:
--   Prelude              tests, lists, integers and maps that all parts share
--   Common/Errors        errors/errors.go: the store's errors; a result is a value, an error or a panic
--   Common/Lru           common/lru.go: LRU, with NewLRU, Add, Get, Contains, Peek, Remove, RemoveOldest,
--                        GetOldest, Len, Purge; Elements is its linked list, Spec the list of pairs
--   Common/RollingIndex  common/rolling_index.go: RollingIndex, with Get, GetItem, Set (set_item), Roll
--   Common/RollingIndexMap  common/rolling_index_map.go
--   Common/Bytes         bytes, and BytesToHash of common/types.go
--   Common/Effects       methods that end with a value, an error or a panic, and the state they leave
--   Common/Timer         common/timer/control_timer.go: ControlTimer, its Run as a step relation
--   Types                types/round_info.go, types/root.go, types/block.go, types/comet.go, types/frame.go
--   Network/Peer         network/peer/peer.go: Peer, ExcludePeer
--   Network/Transport    the messages of network/transport.go
--   Network/Tcp          network/tcp/net_transport.go: NetworkTransport, with getConn, returnConn,
--                        genericRPC, sendRPC, decodeResponse, Close; Places says where each connection is,
--                        Held what one call leaves, Steps interleaves the calls, Closed says what is
--                        closed in the network; Server is handleCommand and handleConn, Exchange a
--                        call with its answer
--   Storage/Caches       storage/caches.go: the events and the block signatures of the participants
--   Storage/MemoryStore  storage/memory_store.go: InmemStore
--   Storage/Database     storage/badger_store.go: the keys and the methods on the database
--   Storage/BadgerStore  storage/badger_store.go: BadgerStore, a cache in front of the database
--   Storage/KeyValue     storage/badger_store.go: Get, Has and Put, in the form of the store of Proxy/Chain
--   Sequentia/Store      the interface of storage/store.go that the graph uses, and InmemStore as one
--   Sequentia/Graph      CometGraph and BuildCometGraph, and the monad of the graph's methods
--   Sequentia/Queries    AncestorOf, SelfAncestor, See, OldestSelfAncestorToSee, StronglySee
--   Sequentia/Coordinates  InitEventCoordinates, UpdateAncestorFirstDescendant
--   Sequentia/Insert     InsertComet and its checks, SetWireInfo, recordBlockSignatures
--   Sequentia/Wire       ReadWireInfo
--   Sequentia/Rounds     ParentRound, RoundInc, Round, RoundDiff, Witness, DivideRounds
--   Sequentia/Fame       DecideFame, updateUndecidedRounds, setLastConsensusRound
--   Sequentia/Order      DecideRoundReceived, MedianTimestamp, FindOrder, handleNewConsensusEvents,
--                        createAndInsertBlock; the order of core/sequentia/sorter.go
--   Sequentia/Frames     Reset, GetFrame, Bootstrap, and the run of the consensus methods
--   Sequentia/PeerSelector  core/sequentia/peer_selector.go: RandomPeerSelector
--   Core                 core/core.go: Core, with Init, Bootstrap, InsertEvent, Sync, AddSelfEvent,
--                        EventDiff, OverSyncLimit, SignBlock, FromWire, ToWire
--   Node                 core/node.go and core/node_state.go: processRPC, preGossip, gossip, pull, push,
--                        sync, commit, Shutdown
--   Proxy/GasPool        proxy/gaspool.go
--   Proxy/StateDb        what a message asks of the accounts of state/statedb.go
--   Proxy/Transition     proxy/proxy_processor.go: ProcessMessage and the methods of StateTransition
--   Proxy/Receipts       types/receipt.go: NewReceipt, and a receipt for storage
--   Proxy/Chain          the store, the encodings and the accounts that proxy/ uses
--   Proxy/State          proxy/proxy_state.go, proxy/proxy_was_state.go, proxy/mem_pool.go: ProcessBlock,
--                        applyTransaction, commit, the write-ahead state's Commit, the pool's Reset
--   Proxy/Lifecycle      NewState, InitState, CreateAccounts, CheckTx, GetTransaction, GetReceipt
--   Proxy/Ledger, Applied, Written, Filed, Readback, Restart, NilPool
--                        what blocks leave in the write-ahead state and in the store, and what a start
--                        finds there
--   Tests                runs at concrete inputs, and the results applied to some
-- Child modules hold proofs and are named for what they prove.
--
-- State is passed explicitly. A method of the graph is a function of the graph that ends with a value
-- and the new graph, with an error and the graph that it left, or with a panic (an index out of range,
-- a nil pointer). A read of an LRU changes it, so a read of the store returns the store, too. The
-- methods of the core and the handlers of the node are of the same form around the graph. A round
-- of gossip and processSyncRequest free the lock of the core between their parts, and take what the
-- other handlers do to the node at each of these points as a parameter, a function of the node. Every
-- other handler is one step, under the lock.
--
-- Go's int is an integer without bound: the indices, rounds and sizes of the code stay far below 2^63.
-- A map is a list of pairs with one entry for a key, read in the order of its entries; Go reads it in
-- no fixed order. The size of an LRU is not negative and its callback is nil, as at each call of
-- NewLRU. A nil slice and an empty one are not told apart. The JSON of a comet leaves out the four wire
-- fields of its body, so a comet that is decoded has them 0 (`persisted` in Types/Comet); RLP writes a
-- nil gas as 0 (`as_decoded` in Proxy/Receipts).
--
-- Fuel: the recursion of Round over the parents, the loop of UpdateAncestorFirstDescendant over the
-- self-parents, and the loops over the keys of the database have no bound in the code. They take fuel,
-- and a run that has used it up is a panic, never a value; a number above that of the comets in the
-- store is the intended bound. handleConn takes the number of commands that it may serve, and says
-- whether it has ended within it. All other loops recur on the list or the count that they run over.
--
-- Parameters: the verification of signatures and the hexadecimal forms (Crypto in Sequentia/Insert); the
-- key of the node, its signatures, the hash of a comet, the middle bit of a hash, the number of a
-- signature and sort.Sort (Keys in Core); the clock and rand.Intn; the database and the encodings of
-- what it keeps (Storage/Database); the transport and the application's CommitBlock, in Node; the
-- accounts, the encodings of transactions and receipts, their hashes and the recovery of a sender, and
-- the store (Proxy/Chain, Proxy/StateDb); the stream layer, the buffers and the JSON coders of a
-- connection (Stream and Listener in Network/Tcp).
--
-- Not modelled: JSON, RLP, hashing and signing; the trie and the accounts of state/, which are copies of
-- go-ethereum's; the goroutines, channels and locks of the node; the loop that accepts connections, and
-- the actors; the HTTP service of the proxy; statistics and logging.
pub mod Prelude
pub mod Common
pub mod Types
pub mod Network
pub mod Storage
pub mod Proxy
pub mod Sequentia
pub mod Core
pub mod Node
pub mod Tests
