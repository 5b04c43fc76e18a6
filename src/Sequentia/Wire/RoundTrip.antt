-- ===== src/Sequentia/Wire/RoundTrip.antt =====
-- A comet that is sent with its wire information is read back: `ToWire` of types/comet.go and
-- `ReadWireInfo` of core/sequentia/sequentia.go.
use paradigm.Prelude.{
  ℕ, String, ◌≡◌, refl, sym, ap, none, some, List, [], ◌∷◌, map, arith, ℤ, pos, negsuc, nat_eq,
  int_eq, string_eq, pair_eq, find,
}
use paradigm.Common.Errors.{ok}
use paradigm.Sequentia.Graph.{Graph, done}
use paradigm.Sequentia.Insert.{Crypto, name_of}
use paradigm.Sequentia.Wire.{parent_at, known_name, read_wire_info}
use paradigm.Sequentia.Store.{Store}
use paradigm.Types.Block.{BlockSignature, WireBlockSignature, to_wire_signature}
use paradigm.Types.Comet.{Comet, CometBody, to_wire, wire_block_signatures}

-- The signatures of a list are all by one validator.
abbrev pub AllBy : List ℕ → List BlockSignature → Type 0
AllBy v [] = Unit
AllBy v (s ∷ ss) = (s.validator ≡ v) × AllBy v ss

-- What the signatures become on the wire, read for the validator `v`.
reread : List ℕ → BlockSignature → BlockSignature
reread v s = record {
  validator = v;
  index = (to_wire_signature s).index;
  signature = (to_wire_signature s).signature;
}

reread_lem : (v : List ℕ) (s : BlockSignature) → s.validator ≡ v → reread v s ≡ s
unfolding reread to_wire_signature
reread_lem v s h = ap (λ w. record s { validator = w }) (sym h)

signatures_lem :
    (v : List ℕ) (ss : List BlockSignature)
    → AllBy v ss
    → map
        (λ (bs : WireBlockSignature).
          let s : BlockSignature = record {
            validator = v;
            index = bs.index;
            signature = bs.signature;
          } in
          s)
        (map to_wire_signature ss)
      ≡ ss
unfolding reread
signatures_lem v [] all = refl
signatures_lem v (s ∷ ss) (h, all) =
    let x = reread_lem v s h in let rest = signatures_lem v ss all in cc

module _ {S : Type 0} (st : Store S) where
  -- The index `i` of a creator's comet leads to the name `p` of a parent: that of the comet at a
  -- nonnegative index, "" at a negative one.
  pub data Leads (g : Graph S) (creator : String) : ℤ → String → Type 0 where
    to_comet :
        (n : ℕ) (p : String)
        → st.participant_event g.store creator (pos n) ≡ ok p
        → Leads g creator (pos n) p
    to_root : (n : ℕ) → Leads g creator (negsuc n) ""

  module _ (crypto : Crypto) where
    parent_at_lem :
        (g : Graph S) (creator : String) (i : ℤ) (p : String)
        → Leads g creator i p
        → parent_at st crypto creator i g ≡ done p g
    unfolding parent_at
    parent_at_lem g creator i p (to_comet n _ e) = ground arith
    parent_at_lem g creator i p (to_root n) = ground arith

    -- A comet whose wire information names its creator and leads to its parents, and whose block
    -- signatures are its creator's own, is read back from the wire: the same body and signature, with
    -- the hash of the body, and a graph that is as it was.
    pub read_wire_info-to_wire :
        (hash : CometBody → String) (c : Comet) (g : Graph S) (creator : String)
        → find c.body.creator_id g.reverse_participants ≡ some creator
        → crypto.from_hex creator ≡ some c.body.creator
        → Leads g creator c.body.self_parent_index c.body.self_parent
        → Leads g
            (name_of g.reverse_participants c.body.other_parent_creator_id)
            c.body.other_parent_index
            c.body.other_parent
        → AllBy c.body.creator c.body.block_signatures
        → (out : Comet) × (read_wire_info st crypto hash (to_wire c) g ≡ done out g)
          × (out.body ≡ c.body)
          × (out.signature ≡ c.signature)
          × (out.hex ≡ hash c.body)
    unfolding read_wire_info known_name to_wire wire_block_signatures
    read_wire_info-to_wire hash c g creator known hex self other own =
        let p = parent_at_lem g creator c.body.self_parent_index c.body.self_parent self in
        let q =
          parent_at_lem g (name_of g.reverse_participants c.body.other_parent_creator_id)
            c.body.other_parent_index c.body.other_parent other in
        (
          record {
            body = c.body;
            signature = c.signature;
            topological_index = 0;
            round_received = none;
            consensus_timestamp = pos 0;
            last_ancestors = [];
            first_descendants = [];
            creator = crypto.to_hex c.body.creator;
            hex = hash c.body;
          },
          ground (arith, p, q, signatures_lem c.body.creator c.body.block_signatures own),
          refl,
          refl,
          refl,
        )
