-- ===== src/Tests/Events.antt =====
-- storage/caches.go, and the last events of storage/memory_store.go, at concrete inputs.
use paradigm.Prelude.{
  String, ◌≡◌, refl, ap, ◌≢◌, false, [], ◌∷◌, arith, pos, ◌==◌, nat_eq, int_eq, string_eq, pair_eq,
  find, store,
}
use paradigm.Common.Errors.{Result, ok}
use paradigm.Common.Lru
use paradigm.Common.Lru.{new_lru}
use paradigm.Common.RollingIndex
use paradigm.Common.RollingIndex.{RollingIndex, new_rolling_index}
use paradigm.Common.RollingIndex.History.{new-Tracks}
use paradigm.Common.RollingIndexMap
use paradigm.Storage.Caches
use paradigm.Storage.Caches.{ParticipantEventsCache, ParticipantCache, new_participant_cache}
use paradigm.Storage.Caches.Events.{HasEvents}
use paradigm.Storage.MemoryStore
use paradigm.Storage.MemoryStore.{InmemStore, set_comet, last_event_from, new_inmem_store}
use paradigm.Storage.MemoryStore.Events.{set_comet-last_event_from}
use paradigm.Tests.Stores.{named, empty_store, true_not_false}

a_not_empty : ◌≢◌ {A = String} "a" ""
a_not_empty h = true_not_false (ap (λ s. ◌==◌ {K = String} "a" s) h)

no_events : HasEvents empty_store.participant_events_cache "p" []
unfolding new_inmem_store new_participant_cache Caches.get_values
    RollingIndexMap.new_rolling_index_map RollingIndexMap.fresh_mapping find store
no_events = record {
  id = pos 0;
  named = refl;
  holds = record { items = new_rolling_index 2; found = refl; tracks = new-Tracks 2 (omega arith) };
}

set_comet-last_event_from_example :
    (s' : InmemStore) × (set_comet empty_store (named "a" "p" (pos 0)) ≡ ok s')
    × HasEvents s'.participant_events_cache "p" ("a" ∷ [])
    × (last_event_from s' "p" ≡ ok ("a", false))
unfolding MemoryStore.get_comet new_inmem_store new_lru Lru.get find
set_comet-last_event_from_example =
    set_comet-last_event_from empty_store (named "a" "p" (pos 0)) [] no_events refl refl a_not_empty

-- Two participants, of which the second has been given three names.
abbrev three_names : RollingIndex String
three_names = record { size = 2; last_index = pos 2; items = "x" ∷ "y" ∷ "z" ∷ [] }

abbrev pair_cache : ParticipantEventsCache
pair_cache = record {
  participants = ("p", pos 0) ∷ ("q", pos 1) ∷ [];
  rim = record {
    size = 2;
    keys = pos 0 ∷ pos 1 ∷ [];
    mapping = (pos 0, new_rolling_index 2) ∷ (pos 1, three_names) ∷ [];
  };
}

names_of_q : HasEvents pair_cache "q" ("x" ∷ "y" ∷ "z" ∷ [])
unfolding find
names_of_q = record {
  id = pos 1;
  named = refl;
  holds = record {
    items = three_names;
    found = refl;
    tracks = record {
      valid = record { positive = omega arith; held = omega arith; roomy = omega arith };
      last = refl;
      window = refl;
      recent = omega arith;
    };
  };
}

-- The cache that a call leaves, and `pec` if it fails.
abbrev left_cache : Result ParticipantEventsCache → ParticipantEventsCache → ParticipantEventsCache
left_cache (ok pec) old = pec
left_cache _ old = old

abbrev after_p : ParticipantEventsCache
after_p = left_cache (Caches.set_item pair_cache "p" "a" (pos 0)) pair_cache

takes_a : Caches.set_item pair_cache "p" "a" (pos 0) ≡ ok after_p
unfolding Caches.set_item Caches.participant_id RollingIndexMap.set_item RollingIndex.set_item
    RollingIndex.append RollingIndex.roll new_rolling_index find store
takes_a = refl
