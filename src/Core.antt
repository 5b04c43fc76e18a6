-- ===== src/Core.antt =====
-- core/core.go: the part of a node that owns the graph, the pools of what is to be sent, and the head of
-- its own comets. A method ends with a value, with an error, or with a panic. The key of the node, the
-- hash of a comet and the clock are parameters; logging is left out.
pub mod Steps
pub mod Pools
pub mod Keeps
pub mod Boot
use paradigm.Prelude.{
  ℕ, ◌+◌, ◌-◌, String, Bool, true, false, ◌||◌, Option, none, some, List, [], ◌∷◌, ◌++◌, ltb,
  if◌then◌else◌, length, ℤ, pos, ltb_ℤ, ◌+ℤ◌, ◌-ℤ◌, ◌==◌, nat_eq, int_eq, string_eq, pair_eq, Map,
  find, store,
}
use paradigm.Common.Errors.{Result, ok, err, panic}
use paradigm.Sequentia.Fame.{decide_fame}
use paradigm.Sequentia.Frames
use paradigm.Sequentia.Frames.{by_topological_order, require_comets}
use paradigm.Sequentia.Graph.{
  Graph, done, failed, panicked, GraphErr, M, cannot_sign, of_store, build_comet_graph,
  require_comet, lift, reversed,
}
use paradigm.Sequentia.Insert.{Crypto, name_of, insert_comet}
use paradigm.Sequentia.Order.{Sort}
use paradigm.Sequentia.Store.{Store}
use paradigm.Sequentia.Wire.{read_wire_info}
use paradigm.Types.Root.{zero_root}
use paradigm.Types.Block.{Block, BlockBody, BlockSignature, set_signature}
use paradigm.Types.Comet.{Comet, CometBody, WireEvent, new_comet, to_wire}
use paradigm.Types.Frame.{Frame}

pub record Core (S : Type 0) : Type 0 where
  pub id : ℤ
  pub graph : Graph S
  pub participants : Map String ℤ
  pub reverse_participants : Map ℤ String
  pub head : String
  pub seq : ℤ
  pub transaction_pool : List (List ℕ)
  pub block_signature_pool : List BlockSignature

-- The node's key, and what the consensus takes from outside.
pub record Keys : Type 0 where
  pub pub_key : List ℕ
  -- `Sign` of a comet's body and of a block's
  pub sign_comet : CometBody → Option String
  pub sign_body : BlockBody → Option String
  pub hash : CometBody → String
  pub middle_bit : String → Bool
  pub sort : Sort
  pub signature_r : Comet → ℕ
  pub empty : Comet

pub data CoreOutcome (S A : Type 0) : Type 0 where
  ended : A → Core S → CoreOutcome S A
  refused : GraphErr → Core S → CoreOutcome S A
  crashed : CoreOutcome S A

abbrev pub CoreM : Type 0 → Type 0 → Type 0
CoreM S A = Core S → CoreOutcome S A

module _ {S : Type 0} where
  infixl 5 ◌>>=◌ ◌>>◌
  abbrev pub ◌>>=◌ : {A B : Type 0} → CoreM S A → (A → CoreM S B) → CoreM S B
  ◌>>=◌ m f c = elim (m c) [ ended a c' ↦ f a c' | refused e c' ↦ refused e c' | crashed ↦ crashed ]

  abbrev pub ◌>>◌ : {B : Type 0} → CoreM S (Unit {0}) → CoreM S B → CoreM S B
  m >> k = m >>= λ _. k

  abbrev pub return : {A : Type 0} → A → CoreM S A
  return a c = ended a c

  abbrev pub refuse : {A : Type 0} → GraphErr → CoreM S A
  refuse e c = refused e c

  abbrev pub core_state : CoreM S (Core S)
  core_state c = ended c c

  abbrev pub modify : (Core S → Core S) → CoreM S (Unit {0})
  modify f c = ended tt (f c)

  -- a method of the graph
  abbrev pub in_graph : {A : Type 0} → M S A → CoreM S A
  in_graph m c = elim (m c.graph) [
    | done a g ↦ ended a (record c { graph = g })
    | failed e g ↦ refused e (record c { graph = g })
    | panicked ↦ crashed
  ]

-- `m[i]` of a map of indices: 0 where there is no entry
abbrev pub known_index : Map ℤ ℤ → ℤ → ℤ
known_index m i = elim (find i m) [ some n ↦ n | none ↦ pos 0 ]

-- the loop of `OverSyncLimit`
unfoldable pub total_unknown : Map ℤ ℤ → Map ℤ ℤ → ℤ
total_unknown [] known = pos 0
total_unknown ((i, li) ∷ mine) known =
    let rest = total_unknown mine known in
    if ltb_ℤ (known_index known i) li then rest +ℤ (li -ℤ known_index known i) else rest

module _ {S : Type 0} (st : Store S) (crypto : Crypto) (keys : Keys) where
  -- `NewCore`
  unfoldable pub new_core : ℤ → Map String ℤ → S → Bool → Core S
  new_core id participants s has_commit_ch = record {
    id = id;
    graph = build_comet_graph st participants s has_commit_ch;
    participants = participants;
    reverse_participants = reversed participants;
    head = "";
    seq = pos 0;
    transaction_pool = [];
    block_signature_pool = [];
  }

  -- `HexID`
  abbrev pub hex_id : String
  hex_id = crypto.to_hex keys.pub_key

  -- the head and the sequence number that an own comet sets
  unfoldable pub follow : Comet → Core S → Core S
  follow event c =
      if event.creator == hex_id then record c { head = event.hex; seq = event.body.index } else c

  -- `InsertEvent`
  unfoldable pub insert_event : ℕ → Comet → Bool → CoreM S (Unit {0})
  unfolding follow
  insert_event fuel event wire = do
    in_graph (insert_comet st crypto fuel event wire)
    modify (follow event)

  -- `SignAndInsertSelfEvent`
  unfoldable pub sign_and_insert_self_event : ℕ → Comet → CoreM S (Unit {0})
  unfolding insert_event
  sign_and_insert_self_event fuel event = elim (keys.sign_comet event.body) [
    | none ↦ refuse cannot_sign
    | some sig ↦ insert_event fuel (record event { signature = sig }) true
  ]

  -- `NewComet` of this node
  abbrev pub own_comet : List (List ℕ) → List BlockSignature → String → String → ℤ → ℤ → Comet
  own_comet txs sigs self other index now =
      new_comet crypto.to_hex keys.hash txs sigs self other keys.pub_key index now

  -- `Init`: the first comet has the zero time
  unfoldable pub init : ℕ → CoreM S (Unit {0})
  unfolding sign_and_insert_self_event
  init fuel = do
    c ← core_state
    sign_and_insert_self_event fuel (own_comet [] [] "" "" c.seq (pos 0))

  -- the head and the sequence number that `Bootstrap` finds: for a root they are set only if `GetRoot`
  -- fails, and then from the zero root that comes with the error
  unfoldable pub boot_head : String → Bool → CoreM S (String × ℤ)
  boot_head last true = λ c.
      let g = c.graph in
      elim (st.get_root g.store hex_id) [
        | ok root ↦ ended ("", pos 0) c
        | err e ↦ let root = zero_root in ended (root.x, root.index) c
        | panic ↦ crashed
      ]
  boot_head last false = do
    last_event ← in_graph (require_comet st last)
    return (last, last_event.body.index)

  -- `Bootstrap`
  unfoldable pub bootstrap : ℕ → CoreM S (Unit {0})
  unfolding boot_head
  bootstrap fuel = do
    in_graph (Frames.bootstrap st crypto keys.middle_bit keys.sort keys.signature_r keys.empty fuel)
    c ← core_state
    let g = c.graph
    (last, is_root) ← in_graph (lift (st.last_event_from g.store hex_id))
    (head, seq) ← boot_head last is_root
    modify (λ d. record d { head = head; seq = seq })

  -- `SignBlock`
  unfoldable pub sign_block : Block → CoreM S BlockSignature
  sign_block block = elim (keys.sign_body block.body) [
    | none ↦ refuse cannot_sign
    | some s ↦ do
      let b = block.body
      let sig : BlockSignature = record { validator = keys.pub_key; index = b.index; signature = s }
      c ← core_state
      let g = c.graph
      s' ← in_graph (lift (st.set_block g.store (set_signature crypto.to_hex block sig)))
      modify (λ d. let h = d.graph in record d { graph = record h { store = s' } })
      return sig
  ]

  -- `KnownEvents`
  unfoldable pub known_events : CoreM S (Map ℤ ℤ)
  known_events c =
      let g = c.graph in
      let (known, s) = st.known_events g.store in
      ended known (record c { graph = record g { store = s } })

  -- `OverSyncLimit`
  unfoldable pub over_sync_limit : Map ℤ ℤ → ℤ → CoreM S Bool
  unfolding total_unknown known_events
  over_sync_limit known sync_limit = do
    mine ← known_events
    return (ltb_ℤ sync_limit (total_unknown mine known))

  -- `GetFrame`
  abbrev pub get_frame : ℕ → CoreM S Frame
  get_frame fuel = in_graph (Frames.get_frame st fuel keys.sort)

  -- the loop of `EventDiff`
  unfoldable pub collect_unknown : Map ℤ ℤ → CoreM S (List Comet)
  unfolding require_comets
  collect_unknown [] = return []
  collect_unknown ((id, ct) ∷ known) = do
    c ← core_state
    let g = c.graph
    names ← in_graph (lift (st.participant_events g.store (name_of c.reverse_participants id) ct))
    evs ← in_graph (require_comets st names)
    rest ← collect_unknown known
    return (evs ++ rest)

  -- `EventDiff`
  unfoldable pub event_diff : Map ℤ ℤ → CoreM S (List Comet)
  unfolding collect_unknown
  event_diff known = do
    unknown ← collect_unknown known
    return (keys.sort by_topological_order unknown)

  -- the loop of `Sync`: the name of the last comet is the other head
  unfoldable pub insert_wires : ℕ → List WireEvent → String → CoreM S String
  unfolding insert_event
  insert_wires fuel [] other = return other
  insert_wires fuel (we ∷ wes) other = do
    ev ← in_graph (read_wire_info st crypto keys.hash we)
    insert_event fuel ev false
    insert_wires fuel wes (elim wes [ [] ↦ ev.hex | w ∷ ws ↦ other ])

  -- a new head with the contents of the pools, which are then empty
  unfoldable pub new_head : ℕ → String → ℤ → CoreM S (Unit {0})
  unfolding sign_and_insert_self_event
  new_head fuel other now = do
    c ← core_state
    sign_and_insert_self_event fuel
        (own_comet c.transaction_pool c.block_signature_pool c.head other (c.seq +ℤ pos 1) now)
    modify (λ d. record d { transaction_pool = []; block_signature_pool = [] })

  -- `len(c.transactionPool) > 0 || len(c.blockSignaturePool) > 0`
  abbrev pub has_pool : Core S → Bool
  has_pool c = ltb 0 (length c.transaction_pool) || ltb 0 (length c.block_signature_pool)

  -- `Sync`
  unfoldable pub sync : ℕ → ℤ → List WireEvent → CoreM S (Unit {0})
  unfolding insert_wires new_head
  sync fuel now unknown = do
    other ← insert_wires fuel unknown ""
    c ← core_state
    if ltb 0 (length unknown) || has_pool c then new_head fuel other now else return tt

  -- `AddSelfEvent`
  unfoldable pub add_self_event : ℕ → ℤ → CoreM S (Unit {0})
  unfolding new_head
  add_self_event fuel now = do
    c ← core_state
    if has_pool c then new_head fuel "" now else return tt

  -- `FromWire`
  unfoldable pub from_wire : List WireEvent → CoreM S (List Comet)
  from_wire [] = return []
  from_wire (we ∷ wes) = do
    ev ← in_graph (read_wire_info st crypto keys.hash we)
    rest ← from_wire wes
    return (ev ∷ rest)

  -- `RunConsensus`
  unfoldable pub run_consensus : ℕ → CoreM S (Unit {0})
  run_consensus fuel =
      in_graph
        (Frames.run_consensus st crypto keys.middle_bit keys.sort keys.signature_r keys.empty fuel)

  -- `AddTransactions`
  unfoldable pub add_transactions : List (List ℕ) → Core S → Core S
  add_transactions txs c = record c { transaction_pool = c.transaction_pool ++ txs }

  -- `AddBlockSignature`
  unfoldable pub add_block_signature : BlockSignature → Core S → Core S
  add_block_signature bs c = record c { block_signature_pool = c.block_signature_pool ++ (bs ∷ []) }

  -- `GetComet`, and `GetHead` at the head
  unfoldable pub get_comet : String → CoreM S Comet
  get_comet hash = in_graph (require_comet st hash)

  -- the loop of `GetConsensusTransactions`, with `GetCometTransactions`
  unfoldable pub transactions_of : List String → CoreM S (List (List ℕ))
  unfolding get_comet
  transactions_of [] = return []
  transactions_of (e ∷ es) = do
    ev ← get_comet e
    rest ← transactions_of es
    return (ev.body.transactions ++ rest)

  -- `GetConsensusTransactions`
  unfoldable pub get_consensus_transactions : CoreM S (List (List ℕ))
  unfolding transactions_of
  get_consensus_transactions = do
    c ← core_state
    let g = c.graph
    transactions_of (st.consensus_events g.store)

  -- `NeedGossip`
  unfoldable pub need_gossip : Core S → Bool
  need_gossip c = let g = c.graph in ltb_ℤ (pos 0) g.pending_loaded_events || has_pool c

-- `ToWire`
unfoldable pub to_wires : List Comet → List WireEvent
to_wires [] = []
to_wires (e ∷ es) = to_wire e ∷ to_wires es
