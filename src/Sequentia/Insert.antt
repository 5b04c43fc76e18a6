-- ===== src/Sequentia/Insert.antt =====
-- core/sequentia/sequentia.go: the insertion of a comet, with its checks and its wire information.
-- `comet.Verify` and `block.Verify` (ECDSA over a SHA-256 of JSON) are parameters; logging is left out.
pub mod Frame
pub mod Laws
use paradigm.Prelude.{
  ℕ, suc, ◌+◌, String, Bool, false, ◌&&◌, Option, none, some, List, [], ◌∷◌, ◌++◌, if◌then◌else◌, ℤ,
  pos, negsuc, ◌+ℤ◌, ◌==◌, nat_eq, int_eq, string_eq, pair_eq, Map, find, store,
}
use mathlib.Core.Option
use paradigm.Common.Errors.{ok, err, panic}
use paradigm.Sequentia.Coordinates.{init_event_coordinates, update_ancestor_first_descendant}
use paradigm.Sequentia.Graph.{
  M, done, panicked, ◌>>=◌, ◌>>◌, return, fail, state, modify, lift, id_of, get_comet,
  require_comet, self_parent_not_last, other_parent_unknown, invalid_signature,
}
use paradigm.Sequentia.Store.{Store}
use paradigm.Types.Block.{Block, BlockSignature, set_signature}
use paradigm.Types.Comet.{Comet, set_wire_info, is_loaded}

-- `m[k]` of a map of names: "" where there is no entry
abbrev pub name_of : Map ℤ String → ℤ → String
name_of m k = elim (find k m) [ some s ↦ s | none ↦ "" ]

-- `valid`, where there is no error
abbrev pub is_valid : Option Bool → Bool
is_valid none = false
is_valid (some b) = b

-- The crypto and the encodings that the graph calls.
pub record Crypto : Type 0 where
  -- `comet.Verify()`: an error, or whether the signature is valid
  pub verify_comet : Comet → Option Bool
  -- `block.Verify(sig)`
  pub verify_block : Block → BlockSignature → Option Bool
  -- `fmt.Sprintf("0x%X", bytes)`
  pub to_hex : List ℕ → String
  -- `hex.DecodeString(s[2:])`
  pub from_hex : String → Option (List ℕ)

module _ {S : Type 0} (st : Store S) where
  -- `CheckSelfParent`
  unfoldable pub check_self_parent : Comet → M S (Unit {0})
  check_self_parent comet = do
    g ← state
    (last, is_root) ← lift (st.last_event_from g.store comet.creator)
    if comet.body.self_parent == last then return tt else fail self_parent_not_last

  -- `other, ok := root.Others[comet.Hex()]` in `CheckOtherParent`
  unfoldable pub check_listed : Comet → Option String → M S (Unit {0})
  check_listed comet none = fail other_parent_unknown
  check_listed comet (some o) =
      if o == comet.body.other_parent then return tt else fail other_parent_unknown

  -- `CheckOtherParent` at a parent that is not found: it might still be in the root
  unfoldable pub check_known : Comet → Option Comet → M S (Unit {0})
  unfolding check_listed
  check_known comet (some c) = return tt
  check_known comet none = do
    g ← state
    root ← lift (st.get_root g.store comet.creator)
    if (root.x == comet.body.self_parent) && (root.y == comet.body.other_parent)
        then return tt
        else check_listed comet (find comet.hex root.others)

  -- `CheckOtherParent`
  unfoldable pub check_other_parent : Comet → M S (Unit {0})
  unfolding get_comet check_known
  check_other_parent comet =
      if comet.body.other_parent == ""
      then return tt
      else (do found ← get_comet st comet.body.other_parent; check_known comet found)

  -- the index of the self-parent in `SetWireInfo`
  unfoldable pub self_parent_index_of : Comet → M S ℤ
  unfolding require_comet
  self_parent_index_of comet = do
    g ← state
    let first : Bool = elim (st.last_event_from g.store comet.creator) [
      | ok (lf, is_root) ↦ is_root && (lf == comet.body.self_parent)
      | _ ↦ false
    ]
    if first
        then (do root ← lift (st.get_root g.store comet.creator); return root.index)
        else (do c ← require_comet st comet.body.self_parent; return c.body.index)

  -- the creator and the index of the other parent in `SetWireInfo`
  unfoldable pub other_parent_info_of : Comet → M S (ℤ × ℤ)
  unfolding require_comet
  other_parent_info_of comet =
      if comet.body.other_parent == "" then return (negsuc 0, negsuc 0) else do
        c ← require_comet st comet.body.other_parent
        g ← state
        return (id_of g.participants c.creator, c.body.index)

  -- `SetWireInfo`
  unfoldable pub set_wire_info_of : Comet → M S Comet
  unfolding self_parent_index_of other_parent_info_of set_wire_info
  set_wire_info_of comet = do
    self_index ← self_parent_index_of comet
    (other_creator, other_index) ← other_parent_info_of comet
    g ← state
    return (
        set_wire_info comet self_index other_creator other_index
          (id_of g.participants comet.creator))

  module _ (crypto : Crypto) where
    -- the end of a round of the loop of `recordBlockSignatures`, at the block that is found
    unfoldable pub sign_block : BlockSignature → Option Block → M S (Unit {0})
    sign_block bs none g = done tt g
    sign_block bs (some block) g =
        if is_valid (crypto.verify_block block bs)
        then elim (st.set_block g.store (set_signature crypto.to_hex block bs)) [
          | ok s' ↦ done tt (record g { store = s' })
          | err e ↦ done tt g
          | panic ↦ panicked
        ]
        else done tt g

    -- `Store.GetBlock`, of which only an error is tested
    unfoldable pub get_block : ℤ → M S (Option Block)
    get_block i g =
        let (res, s) = st.get_block g.store i in
        let g' = record g { store = s } in
        elim res [ ok b ↦ done (some b) g' | err e ↦ done none g' | panic ↦ panicked ]

    -- one round of the loop, for a validator among the participants
    unfoldable pub record_known : BlockSignature → Option ℤ → M S (Unit {0})
    unfolding sign_block get_block
    record_known bs none = return tt
    record_known bs (some id) = do block ← get_block bs.index; sign_block bs block

    -- one round of the loop of `recordBlockSignatures`
    unfoldable pub record_block_signature : BlockSignature → M S (Unit {0})
    unfolding record_known
    record_block_signature bs = do
      g ← state
      record_known bs (find (crypto.to_hex bs.validator) g.participants)

    -- `recordBlockSignatures`
    unfoldable pub record_block_signatures : List BlockSignature → M S (Unit {0})
    unfolding record_block_signature
    record_block_signatures [] = return tt
    record_block_signatures (bs ∷ bss) = do record_block_signature bs; record_block_signatures bss

    -- `comet.TopologicalIndex = cg.topologicalIndex; cg.topologicalIndex++`
    unfoldable pub stamp : Comet → M S Comet
    stamp comet g =
        done (record comet { topological_index = g.topological_index })
          (record g { topological_index = suc g.topological_index })

    -- `Store.SetComet`
    unfoldable pub store_comet : Comet → M S (Unit {0})
    store_comet comet = do
      g ← state
      s ← lift (st.set_comet g.store comet)
      modify (λ h. record h { store = s })

    -- the comet is undetermined, and pending if it is loaded
    unfoldable pub enqueue : Comet → M S (Unit {0})
    enqueue comet g = done tt (record g {
      undetermined_events = g.undetermined_events ++ (comet.hex ∷ []);
      pending_loaded_events =
          if is_loaded comet then g.pending_loaded_events +ℤ pos 1 else g.pending_loaded_events;
    })

    -- what `InsertComet` does with a comet that passed the checks
    unfoldable pub insert_checked : ℕ → Comet → Bool → M S (Unit {0})
    unfolding stamp store_comet enqueue set_wire_info_of init_event_coordinates
        update_ancestor_first_descendant record_block_signatures
    insert_checked fuel comet wire = do
      placed ← stamp comet
      wired ← if wire then set_wire_info_of placed else return placed
      ready ← init_event_coordinates st wired
      store_comet ready
      update_ancestor_first_descendant st fuel ready
      enqueue ready
      record_block_signatures ready.body.block_signatures

    -- `InsertComet`
    unfoldable pub insert_comet : ℕ → Comet → Bool → M S (Unit {0})
    unfolding check_self_parent check_other_parent insert_checked
    insert_comet fuel comet wire =
        if is_valid (crypto.verify_comet comet)
        then (do check_self_parent comet; check_other_parent comet; insert_checked fuel comet wire)
        else fail invalid_signature
