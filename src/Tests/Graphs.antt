-- ===== src/Tests/Graphs.antt =====
-- core/sequentia/sequentia.go at concrete inputs.
use paradigm.Prelude.{
  ℕ, ◌<◌, String, ◌≡◌, refl, Bool, true, false, some, List, [], ◌∷◌, ◌++◌, arith, if◌then◌else◌,
  length, ℤ, pos, negsuc, ◌+ℤ◌, nat_eq, int_eq, string_eq, pair_eq, Map, find, store, discard,
}
use paradigm.Common.Errors.{ok}
use paradigm.Common.Lru
use paradigm.Common.Lru.{Lru, new_lru}
use paradigm.Common.Lru.Elements.{list_remove, move_to_front, set_value, back, element_at}
use paradigm.Common.RollingIndex
use paradigm.Common.RollingIndexMap
use paradigm.Storage.Caches
use paradigm.Storage.MemoryStore
use paradigm.Storage.MemoryStore.{InmemStore, new_inmem_store}
use paradigm.Sequentia.Coordinates.{
  copied, later_of, merged, placed, init_event_coordinates, visit_ancestor, mark_descendant,
  mark_each, mark_known, update_ancestor_first_descendant,
}
use paradigm.Sequentia.Coordinates.Init.{Placed, init_event_coordinates_lem}
use paradigm.Sequentia.Graph.{
  Graph, Outcome, done, failed, panicked, plurality, reversed, build_comet_graph, get_comet,
  require_comet, most_plurality,
}
use paradigm.Sequentia.Insert.{
  Crypto, check_self_parent, check_listed, check_known, check_other_parent, self_parent_index_of,
  other_parent_info_of, set_wire_info_of, sign_block, get_block, record_known,
  record_block_signature, record_block_signatures, stamp, store_comet, enqueue, insert_checked,
  insert_comet,
}
use paradigm.Sequentia.Insert.Laws.{Inserted, insert_comet_lem}
use paradigm.Sequentia.Wire.{read_wire_info}
use paradigm.Sequentia.Wire.RoundTrip.{to_root, read_wire_info-to_wire}
use paradigm.Sequentia.Order.{Sort, commit_blocks, commit_round, create_and_insert_block, send}
use paradigm.Sequentia.Order.Blocks.{blocks_from, commit_blocks_lem}
use paradigm.Sequentia.Queries.{count_between, strongly_see_uncached}
use paradigm.Sequentia.Queries.Quorum.{Seen, Between, strongly_see_overlap}
use paradigm.Sequentia.Store.{inmem}
use paradigm.Tests.Stores.{named, members}
use paradigm.Types.Comet.{Comet, EventCoordinates, is_loaded, to_wire}

abbrev pub accept_all : Crypto
accept_all = record {
  verify_comet = λ c. some true;
  verify_block = λ b s. some true;
  to_hex = λ bs. "p";
  from_hex = λ s. some [];
}

-- A sort by insertion.
abbrev pub inserted : (Comet → Comet → Bool) → Comet → List Comet → List Comet
inserted less c [] = c ∷ []
inserted less c (d ∷ ds) =
    let rest = inserted less c ds in if less c d then c ∷ d ∷ ds else d ∷ rest

abbrev pub sorted : Sort
sorted less [] = []
sorted less (c ∷ cs) = inserted less c (sorted less cs)

-- The graph that a method leaves, and `g` if it panics.
abbrev pub left_in : {A : Type 0} → Outcome InmemStore A → Graph InmemStore → Graph InmemStore
left_in (done a h) g = h
left_in (failed e h) g = h
left_in panicked g = g

-- A graph of one participant, with a channel for its blocks.
abbrev pub lone : Graph InmemStore
lone = build_comet_graph inmem members (new_inmem_store members 2) true

abbrev two_rounds : Map ℤ (List (List ℕ))
two_rounds = (pos 1, (7 ∷ []) ∷ []) ∷ (pos 2, []) ∷ (pos 3, (8 ∷ []) ∷ (9 ∷ []) ∷ []) ∷ []

abbrev committed : Graph InmemStore
committed = left_in (commit_blocks inmem sorted two_rounds lone) lone

commit_blocks_lem_example :
    (committed.commits ≡ lone.commits ++ blocks_from (lone.last_block_index +ℤ pos 1) two_rounds)
    × (committed.last_block_index
        ≡ lone.last_block_index
          +ℤ pos (length (blocks_from (lone.last_block_index +ℤ pos 1) two_rounds)))
unfolding commit_blocks commit_round create_and_insert_block send build_comet_graph
commit_blocks_lem_example = commit_blocks_lem inmem sorted two_rounds lone committed refl refl

-- The first comet of the participant, whose self-parent is the root.
abbrev first : Comet
first = named "a" "p" (pos 0)

abbrev inserted_first : Graph InmemStore
inserted_first = left_in (insert_comet inmem accept_all 5 first true lone) lone

inserts : insert_comet inmem accept_all 5 first true lone ≡ done tt inserted_first
unfolding insert_comet insert_checked check_self_parent check_listed check_known check_other_parent
    self_parent_index_of other_parent_info_of set_wire_info_of sign_block get_block record_known
    record_block_signature record_block_signatures stamp store_comet enqueue init_event_coordinates
    placed merged copied later_of update_ancestor_first_descendant mark_known mark_each
    mark_descendant visit_ancestor build_comet_graph reversed get_comet require_comet is_loaded
    MemoryStore.get_comet MemoryStore.set_comet MemoryStore.add_participant_event
    MemoryStore.participant_event MemoryStore.last_event_from MemoryStore.get_root
    MemoryStore.base_roots new_inmem_store new_lru Lru.get Lru.add Lru.push_front Lru.remove_oldest
    Lru.remove_element list_remove move_to_front set_value back element_at find store discard
    Caches.set_item Caches.get_last_event Caches.participant_id Caches.new_participant_cache
    Caches.get_values RollingIndexMap.new_rolling_index_map RollingIndexMap.fresh_mapping
    RollingIndexMap.set_item RollingIndexMap.get_last RollingIndexMap.last_of
    RollingIndex.new_rolling_index RollingIndex.set_item RollingIndex.append RollingIndex.roll
    RollingIndex.get_last_window
inserts = refl

insert_comet_lem_example :
    (accept_all.verify_comet first ≡ some true)
    × ((is_root : Bool) × (inmem.last_event_from lone.store "p" ≡ ok ("", is_root)))
    × Inserted inmem first lone inserted_first
insert_comet_lem_example =
    insert_comet_lem inmem accept_all 5 first true lone inserted_first inserts

-- The comet as it is stored.
abbrev stored : Comet
stored =
    let own : EventCoordinates = record { hash = "a"; index = pos 0 } in
    record first { last_ancestors = own ∷ []; first_descendants = own ∷ [] }

-- The graph whose store holds the comet.
abbrev holding : Graph InmemStore
holding =
    let s = lone.store in
    record lone { store = record s { event_cache = (Lru.add s.event_cache "a" stored).1 } }

abbrev sees_itself : Graph InmemStore
sees_itself = left_in (strongly_see_uncached inmem "a" "a" holding) holding

reads_stored : (inmem.get_comet holding.store "a").0 ≡ ok stored
unfolding build_comet_graph MemoryStore.get_comet new_inmem_store new_lru Lru.get Lru.add
    Lru.push_front list_remove move_to_front element_at find store
reads_stored = refl

quorum_of_one : holding.most_plurality ≡ plurality 1
unfolding build_comet_graph
quorum_of_one = refl

sees : strongly_see_uncached inmem "a" "a" holding ≡ done true sees_itself
unfolding strongly_see_uncached count_between most_plurality get_comet build_comet_graph
    MemoryStore.get_comet new_inmem_store new_lru Lru.get Lru.add Lru.push_front list_remove
    move_to_front element_at find store
sees = refl

strongly_see_overlap_example :
    (a : Seen inmem "a" "a" holding) × (b : Seen inmem "a" "a" holding) × (i : ℕ) × (i < 1)
    × Between a.seer.last_ancestors a.target.first_descendants i
    × Between b.seer.last_ancestors b.target.first_descendants i
strongly_see_overlap_example =
    strongly_see_overlap inmem 1 "a" "a" "a" "a" holding holding sees_itself sees_itself stored
      stored reads_stored reads_stored refl refl quorum_of_one quorum_of_one sees sees

names_first : find (pos 0) lone.reverse_participants ≡ some "p"
unfolding find build_comet_graph reversed store
names_first = refl

read_wire_info-to_wire_example :
    (out : Comet) × (read_wire_info inmem accept_all (λ b. "a") (to_wire first) lone
      ≡ done out lone)
    × (out.body ≡ first.body)
    × (out.signature ≡ first.signature)
    × (out.hex ≡ "a")
read_wire_info-to_wire_example =
    read_wire_info-to_wire inmem accept_all (λ b. "a") first lone "p" names_first refl (to_root 0)
      (to_root 0) tt

-- Two participants, each with a comet, and a comet of the first that has both as parents.
abbrev pair_members : Map String ℤ
pair_members = ("p", pos 0) ∷ ("q", pos 1) ∷ []

abbrev at : String → ℤ → EventCoordinates
at h i = record { hash = h; index = i }

abbrev first_of_p : Comet
first_of_p =
    let c = named "a" "p" (pos 0) in
    record c { last_ancestors = at "a" (pos 0) ∷ at "" (negsuc 0) ∷ [] }

abbrev first_of_q : Comet
first_of_q =
    let c = named "b" "q" (pos 0) in
    record c { last_ancestors = at "" (negsuc 0) ∷ at "b" (pos 0) ∷ [] }

abbrev child : Comet
child =
    let c = named "c" "p" (pos 1) in
    let b = c.body in record c { body = record b { self_parent = "a"; other_parent = "b" } }

abbrev pair_graph : Graph InmemStore
pair_graph =
    let g = build_comet_graph inmem pair_members (new_inmem_store pair_members 4) false in
    let s = g.store in
    let events = (Lru.add s.event_cache "a" first_of_p).1 in
    record g { store = record s { event_cache = (Lru.add events "b" first_of_q).1 } }

reads_p : (inmem.get_comet pair_graph.store "a").0 ≡ ok first_of_p
unfolding build_comet_graph MemoryStore.get_comet new_inmem_store new_lru Lru.get Lru.add
    Lru.push_front list_remove move_to_front element_at find store
reads_p = refl

reads_q : (inmem.get_comet (inmem.get_comet pair_graph.store "a").1 "b").0 ≡ ok first_of_q
unfolding build_comet_graph MemoryStore.get_comet new_inmem_store new_lru Lru.get Lru.add
    Lru.push_front list_remove move_to_front element_at find store
reads_q = refl

init_event_coordinates_lem_example :
    (out : Comet) × (g' : Graph InmemStore) × (init_event_coordinates inmem child pair_graph
      ≡ done out g')
    × Placed (length pair_graph.participants) 0 1 child (at "" (negsuc 0)) (at "b" (pos 0)) out
unfolding build_comet_graph find
init_event_coordinates_lem_example =
    init_event_coordinates_lem inmem child first_of_p first_of_q 0 1 (at "" (negsuc 0))
      (at "b" (pos 0)) pair_graph reads_p reads_q refl refl refl (omega arith) (omega arith) refl
      refl
