-- ===== src/Types/Comet.antt =====
-- types/comet.go: the events of the graph and their wire form. The cached fields `creator` and `hex`
-- hold what the methods `Creator` and `Hex` return; how they follow from the body (JSON, SHA-256, hex
-- digits) is not modelled. `Parents` always has two entries. A nil slice and an empty one are not
-- told apart.
use paradigm.Prelude.{
  [], none, ℕ, String, Bool, true, ◌||◌, Option, some, List, map, ltb, if◌then◌else◌, length, ℤ,
  pos, eqb_ℤ, nat_eq, int_eq, string_eq, pair_eq,
}
use paradigm.Types.Block.{BlockSignature, WireBlockSignature, to_wire_signature}

pub record CometBody : Type 0 where
  pub transactions : List (List ℕ)
  pub self_parent : String
  pub other_parent : String
  pub creator : List ℕ
  pub timestamp : ℤ
  pub index : ℤ
  pub block_signatures : List BlockSignature
  pub self_parent_index : ℤ
  pub other_parent_creator_id : ℤ
  pub other_parent_index : ℤ
  pub creator_id : ℤ

pub record EventCoordinates : Type 0 where
  pub hash : String
  pub index : ℤ

pub record Comet : Type 0 where
  pub body : CometBody
  pub signature : String
  pub topological_index : ℕ
  pub round_received : Option ℤ
  pub consensus_timestamp : ℤ
  pub last_ancestors : List EventCoordinates
  pub first_descendants : List EventCoordinates
  pub creator : String
  pub hex : String

-- `NewComet`, at the time `now`, for the printing of a creator's key and the hash of a body
unfoldable pub new_comet :
    (List ℕ → String)
    → (CometBody → String)
    → List (List ℕ)
    → List BlockSignature
    → String
    → String
    → List ℕ
    → ℤ
    → ℤ
    → Comet
new_comet to_hex hash transactions signatures self other creator index now =
    let body : CometBody = record {
      transactions = transactions;
      self_parent = self;
      other_parent = other;
      creator = creator;
      timestamp = now;
      index = index;
      block_signatures = signatures;
      self_parent_index = pos 0;
      other_parent_creator_id = pos 0;
      other_parent_index = pos 0;
      creator_id = pos 0;
    } in
    record {
      body = body;
      signature = "";
      topological_index = 0;
      round_received = none;
      consensus_timestamp = pos 0;
      last_ancestors = [];
      first_descendants = [];
      creator = to_hex creator;
      hex = hash body;
    }

-- `IsLoaded`
unfoldable pub is_loaded : Comet → Bool
is_loaded e =
    if eqb_ℤ e.body.index (pos 0)
    then true
    else ltb 0 (length e.body.transactions) || ltb 0 (length e.body.block_signatures)

-- `SetRoundReceived`
unfoldable pub set_round_received : Comet → ℤ → Comet
set_round_received e rr = record e { round_received = some rr }

-- `SetWireInfo`
unfoldable pub set_wire_info : Comet → ℤ → ℤ → ℤ → ℤ → Comet
set_wire_info e self_parent_index other_parent_creator_id other_parent_index creator_id =
    let old = e.body in
    record e {
      body = record old {
        self_parent_index = self_parent_index;
        other_parent_creator_id = other_parent_creator_id;
        other_parent_index = other_parent_index;
        creator_id = creator_id;
      };
    }

-- `Unmarshal` after `Marshal`: the JSON has only the exported fields of the body, so its four wire fields
-- are lost. The cached fields are computed again from what it has.
unfoldable pub persisted : Comet → Comet
persisted e =
    let old = e.body in
    record e {
      body = record old {
        self_parent_index = pos 0;
        other_parent_creator_id = pos 0;
        other_parent_index = pos 0;
        creator_id = pos 0;
      };
    }

pub record WireBody : Type 0 where
  pub transactions : List (List ℕ)
  pub block_signatures : List WireBlockSignature
  pub self_parent_index : ℤ
  pub other_parent_creator_id : ℤ
  pub other_parent_index : ℤ
  pub creator_id : ℤ
  pub timestamp : ℤ
  pub index : ℤ

pub record WireEvent : Type 0 where
  pub body : WireBody
  pub signature : String

-- `ToWire`, with `WireBlockSignatures`
unfoldable pub to_wire : Comet → WireEvent
unfolding to_wire_signature
to_wire e = record {
  body = record {
    transactions = e.body.transactions;
    block_signatures = map to_wire_signature e.body.block_signatures;
    self_parent_index = e.body.self_parent_index;
    other_parent_creator_id = e.body.other_parent_creator_id;
    other_parent_index = e.body.other_parent_index;
    creator_id = e.body.creator_id;
    timestamp = e.body.timestamp;
    index = e.body.index;
  };
  signature = e.signature;
}

-- `BlockSignatures` of a wire event
unfoldable pub wire_block_signatures : WireEvent → List ℕ → List BlockSignature
wire_block_signatures we validator =
    map
      (λ (bs : WireBlockSignature).
        let s : BlockSignature = record {
          validator = validator;
          index = bs.index;
          signature = bs.signature;
        } in
        s)
      we.body.block_signatures
