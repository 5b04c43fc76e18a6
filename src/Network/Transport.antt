-- ===== src/Network/Transport.antt =====
-- network/transport.go: the requests between nodes and their responses, and the transport that a node
-- takes from outside. A call of the transport gives a response or fails.
use paradigm.Prelude.{String, Bool, Option, List, ℤ, nat_eq, int_eq, string_eq, pair_eq, Map}
use paradigm.Types.Comet.{WireEvent}

pub record SyncRequest : Type 0 where
  pub from_id : ℤ
  pub known : Map ℤ ℤ

pub record SyncResponse : Type 0 where
  pub from_id : ℤ
  pub sync_limit : Bool
  pub events : List WireEvent
  pub known : Map ℤ ℤ

pub record EagerSyncRequest : Type 0 where
  pub from_id : ℤ
  pub events : List WireEvent

pub record EagerSyncResponse : Type 0 where
  pub from_id : ℤ
  pub success : Bool

-- what `Command` of an RPC holds
pub data Command : Type 0 where
  sync_request : SyncRequest → Command
  eager_sync_request : EagerSyncRequest → Command
  other_command : Command

-- what is given to `Respond` as a response
pub data Response : Type 0 where
  sync_response : SyncResponse → Response
  eager_sync_response : EagerSyncResponse → Response
  no_response : Response

-- `Sync` and `EagerSync` of a transport
pub record Transport : Type 0 where
  pub sync : String → SyncRequest → Option SyncResponse
  pub eager_sync : String → EagerSyncRequest → Option EagerSyncResponse
