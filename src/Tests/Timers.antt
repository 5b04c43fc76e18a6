-- ===== src/Tests/Timers.antt =====
-- common/timer/control_timer.go and `MedianTimestamp` of core/sequentia/sequentia.go at concrete inputs.
use paradigm.Prelude.{
  ℕ, ◌*◌, ◌<◌, String, ◌≡◌, refl, ◌≢◌, inl, inr, false, some, List, [], ◌∷◌, arith, if◌then◌else◌,
  Bool-cases, length, ℤ, pos, ◌≤ℤ◌, leb_ℤ, ◌==◌, nat_eq, int_eq, string_eq, pair_eq, find, store,
  discard,
}
use paradigm.Common.Errors.{ok, err, panic}
use paradigm.Common.Lru
use paradigm.Common.Lru.{Lru, new_lru}
use paradigm.Common.Lru.Elements.{list_remove, move_to_front, set_value, back, element_at}
use paradigm.Common.Timer.{
  ControlTimer, Reach, here, next, tick, unset, start, set_timer, clock_of, random_timeout,
}
use paradigm.Common.Timer.Ticks.{IsSynced, Reach-IsSynced}
use paradigm.Sequentia.Coordinates.{max_int32, update_ancestor_first_descendant}
use paradigm.Sequentia.Coordinates.Termination.{
  IsRanked, set_comet-IsRanked, update_ancestor_first_descendant_ends,
}
use paradigm.Sequentia.Graph.{Graph, done, build_comet_graph, get_comet}
use paradigm.Sequentia.Order.{comets_of, median_timestamp}
use paradigm.Sequentia.Order.Median.{count, median_timestamp_lem}
use paradigm.Sequentia.Store.{inmem}
use paradigm.Sequentia.Store.Laws.{inmem-CometLaws}
use paradigm.Common.RollingIndex
use paradigm.Common.RollingIndexMap
use paradigm.Storage.Caches
use paradigm.Storage.MemoryStore
use paradigm.Storage.MemoryStore.{InmemStore, new_inmem_store}
use paradigm.Storage.MemoryStore.Valid.{IsValid, new_inmem_store-IsValid}
use paradigm.Tests.Graphs.{lone, left_in, sorted}
use paradigm.Tests.Sorts.{sorted-SortsByTime}
use paradigm.Tests.Stores.{named, members, empty_store}
use paradigm.Types.Comet.{Comet, EventCoordinates}

-- A timer that has ticked, at its select again.
abbrev ticked_once : ControlTimer
ticked_once = let c = start 5 in record c { set = false; clock = paradigm.Common.Timer.spent }

Reach-IsSynced_example : IsSynced ticked_once
unfolding start set_timer clock_of
Reach-IsSynced_example =
    Reach-IsSynced 5 ticked_once (omega arith)
      (next (next here (tick refl refl refl)) (unset refl refl))

-- Three comets, and the names of them.
abbrev at_time : String → ℤ → Comet
at_time h t =
    let c = named h "p" (pos 0) in let b = c.body in record c { body = record b { timestamp = t } }

abbrev three : Graph InmemStore
three =
    let g = build_comet_graph inmem members (new_inmem_store members 4) false in
    let s = g.store in
    let one = (Lru.add s.event_cache "a" (at_time "a" (pos 30))).1 in
    let two = (Lru.add one "b" (at_time "b" (pos 10))).1 in
    record g { store = record s { event_cache = (Lru.add two "c" (at_time "c" (pos 20))).1 } }

abbrev names : List String
names = "a" ∷ "b" ∷ "c" ∷ []

abbrev comets : List Comet
comets = at_time "a" (pos 30) ∷ at_time "b" (pos 10) ∷ at_time "c" (pos 20) ∷ []

abbrev after_reads : Graph InmemStore
after_reads = left_in (comets_of inmem sorted (named "" "" (pos 0)) names three) three

reads_three : comets_of inmem sorted (named "" "" (pos 0)) names three ≡ done comets after_reads
unfolding comets_of get_comet build_comet_graph MemoryStore.get_comet new_inmem_store new_lru
    Lru.get Lru.add Lru.push_front list_remove move_to_front element_at find store
reads_three = refl

median_timestamp_lem_example :
    (t : ℤ) × (median_timestamp inmem sorted (named "" "" (pos 0)) names three ≡ done t after_reads)
    × ((lo : ℤ) → length comets < 2 * count (λ c. leb_ℤ lo c.body.timestamp) comets → lo ≤ℤ t)
    × ((hi : ℤ) → length comets < 2 * count (λ c. leb_ℤ c.body.timestamp hi) comets → t ≤ℤ hi)
median_timestamp_lem_example =
    median_timestamp_lem inmem sorted (named "" "" (pos 0)) names three after_reads comets
      sorted-SortsByTime (omega arith) reads_three

-- A store with one comet that has no descendant yet, and a comet on top of it.
abbrev waiting : Comet
waiting =
    let c = named "a" "p" (pos 0) in
    let own : EventCoordinates = record { hash = "a"; index = pos 0 } in
    let free : EventCoordinates = record { hash = ""; index = max_int32 } in
    record c { last_ancestors = own ∷ []; first_descendants = free ∷ [] }

abbrev on_top : Comet
on_top =
    let c = named "b" "p" (pos 1) in
    let b = c.body in
    let below : EventCoordinates = record { hash = "a"; index = pos 0 } in
    record c { body = record b { self_parent = "a" }; last_ancestors = below ∷ [] }

abbrev rank : String → ℕ
rank h = if h == "a" then 1 else 0

rank-small : (k : String) → rank k < 2
rank-small k = elim (Bool-cases (k == "a")) [
  | inl y ↦ rw y (omega arith)
  | inr n ↦ rw n (omega arith)
]

abbrev stored : InmemStore
stored = elim (MemoryStore.set_comet empty_store waiting) [
  | ok s ↦ s
  | err x ↦ empty_store
  | panic ↦ empty_store
]

stores : MemoryStore.set_comet empty_store waiting ≡ ok stored
unfolding MemoryStore.set_comet MemoryStore.get_comet MemoryStore.add_participant_event
    new_inmem_store new_lru Lru.get Lru.add Lru.push_front Lru.remove_oldest Lru.remove_element
    list_remove move_to_front set_value back element_at find store discard Caches.set_item
    Caches.participant_id Caches.new_participant_cache Caches.get_values
    RollingIndexMap.new_rolling_index_map RollingIndexMap.fresh_mapping RollingIndexMap.set_item
    RollingIndex.new_rolling_index RollingIndex.set_item RollingIndex.append RollingIndex.roll
stores = refl

nothing_there : (k : String) (c : Comet) → (inmem.get_comet empty_store k).0 ≢ ok c
unfolding MemoryStore.get_comet new_inmem_store new_lru Lru.get find
nothing_there k c h = cc

no_comets : IsRanked inmem IsValid inmem-CometLaws rank 1 empty_store
no_comets = record {
  good = new_inmem_store-IsValid members 2 (omega arith);
  ranked = λ k c e. absurd (nothing_there k c e);
}

one_comet : IsRanked inmem IsValid inmem-CometLaws rank 1 stored
one_comet =
    set_comet-IsRanked inmem IsValid inmem-CometLaws rank 1 empty_store stored waiting no_comets
      (omega arith, refl) stores

abbrev marking : Graph InmemStore
marking = let g = lone in record g { store = stored }

knows_p : find "p" marking.participants ≡ some (pos 0)
unfolding find build_comet_graph
knows_p = refl

update_ancestor_first_descendant_ends_example :
    (g' : Graph InmemStore) × (update_ancestor_first_descendant inmem 2 on_top marking ≡ done tt g')
    × (update_ancestor_first_descendant inmem 9 on_top marking ≡ done tt g')
    × IsRanked inmem IsValid inmem-CometLaws rank 1 g'.store
update_ancestor_first_descendant_ends_example =
    update_ancestor_first_descendant_ends inmem IsValid inmem-CometLaws rank 1 2 9 0 on_top marking
      knows_p (omega arith) rank-small (λ k. omega (arith, rank-small k)) one_comet
