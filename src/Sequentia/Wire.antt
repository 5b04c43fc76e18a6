-- ===== src/Sequentia/Wire.antt =====
-- core/sequentia/sequentia.go: `ReadWireInfo`, the comet that stands behind its wire form. The hash of
-- its body is a parameter.
pub mod RoundTrip
use paradigm.Prelude.{
  String, Option, none, some, [], if◌then◌else◌, ℤ, pos, leb_ℤ, nat_eq, int_eq, string_eq, pair_eq,
  Map, find, store,
}
use mathlib.Core.Option
use paradigm.Sequentia.Graph.{M, done, panicked, ◌>>=◌, ◌>>◌, return, fail, state, lift, not_hex}
use paradigm.Sequentia.Store.{Store}
use paradigm.Types.Comet.{Comet, CometBody, WireEvent, wire_block_signatures}
use paradigm.Sequentia.Insert.{Crypto, name_of}

module _ {S : Type 0} (st : Store S) where
  module _ (crypto : Crypto) where
    -- a parent of `ReadWireInfo`: none at a negative index
    unfoldable pub parent_at : String → ℤ → M S String
    parent_at creator i g =
        if leb_ℤ (pos 0) i then lift (st.participant_event g.store creator i) g else done "" g

    -- `creator[2:]` of an id that has no name panics
    unfoldable pub known_name : Map ℤ String → ℤ → M S String
    known_name m id g = elim (find id m) [ none ↦ panicked | some s ↦ done s g ]

    -- `ReadWireInfo`, with the given hash
    unfoldable pub read_wire_info : (CometBody → String) → WireEvent → M S Comet
    unfolding parent_at known_name wire_block_signatures
    read_wire_info hash we = do
      g ← state
      creator ← known_name g.reverse_participants we.body.creator_id
      elim (crypto.from_hex creator) [
        | none ↦ fail not_hex
        | some bytes ↦ do
          self_parent ← parent_at creator we.body.self_parent_index
          other_parent ←
              parent_at (name_of g.reverse_participants we.body.other_parent_creator_id)
                we.body.other_parent_index
          let body : CometBody = record {
            transactions = we.body.transactions;
            self_parent = self_parent;
            other_parent = other_parent;
            creator = bytes;
            timestamp = we.body.timestamp;
            index = we.body.index;
            block_signatures = wire_block_signatures we bytes;
            self_parent_index = we.body.self_parent_index;
            other_parent_creator_id = we.body.other_parent_creator_id;
            other_parent_index = we.body.other_parent_index;
            creator_id = we.body.creator_id;
          }
          return (record {
            body = body;
            signature = we.signature;
            topological_index = 0;
            round_received = none;
            consensus_timestamp = pos 0;
            last_ancestors = [];
            first_descendants = [];
            creator = crypto.to_hex bytes;
            hex = hash body;
          })
      ]
