-- ===== src/Tests/Stores.antt =====
-- storage/memory_store.go and types/round_info.go at concrete inputs.
use paradigm.Prelude.{
  String, ◌≡◌, refl, ap, ◌≢◌, ◌↔◌, true, false, none, [], ◌∷◌, arith, ℤ, pos, negsuc, ◌==◌, nat_eq,
  int_eq, string_eq, pair_eq, Map, find, store,
}
use paradigm.Common.Errors.{Result, ok}
use paradigm.Common.Lru
use paradigm.Common.Lru.{Lru, new_lru, push_front, remove_oldest, remove_element}
use paradigm.Common.RollingIndex
use paradigm.Common.RollingIndexMap
use paradigm.Storage.Caches
use paradigm.Storage.MemoryStore.{
  InmemStore, base_roots, new_inmem_store, get_comet, set_comet, add_participant_event,
  add_consensus_event,
}
use paradigm.Storage.MemoryStore.Valid.{IsValid, new_inmem_store-IsValid}
use paradigm.Storage.MemoryStore.Reads.{get_comet-set_comet_self}
use paradigm.Storage.MemoryStore.Consensus.{
  HasOrdered, new_inmem_store-HasOrdered, add_consensus_event_lem,
}
use paradigm.Types.Block.{Block, new_block}
use paradigm.Types.Comet.{Comet}
use paradigm.Types.RoundInfo.{
  RoundInfo, RoundEvent, Trilean, witnesses_decided, is_decided, witnesses, famous_witnesses,
}
use paradigm.Types.RoundInfo.Laws.{listed, witnesses_decided_lem}

abbrev pub named : String → String → ℤ → Comet
named hex creator i = record {
  body = record {
    transactions = [];
    self_parent = "";
    other_parent = "";
    creator = [];
    timestamp = pos 0;
    index = i;
    block_signatures = [];
    self_parent_index = negsuc 0;
    other_parent_creator_id = negsuc 0;
    other_parent_index = negsuc 0;
    creator_id = pos 0;
  };
  signature = "";
  topological_index = 0;
  round_received = none;
  consensus_timestamp = pos 0;
  last_ancestors = [];
  first_descendants = [];
  creator = creator;
  hex = hex;
}

abbrev pub members : Map String ℤ
members = ("p", pos 0) ∷ []

abbrev pub empty_store : InmemStore
empty_store = new_inmem_store members 2

empty_store-IsValid : IsValid empty_store
empty_store-IsValid = new_inmem_store-IsValid members 2 (omega arith)

-- The store that a call leaves, and `s` if the call fails.
abbrev left_by : Result InmemStore → InmemStore → InmemStore
left_by (ok t) s = t
left_by _ s = s

abbrev one_comet : InmemStore
one_comet = left_by (set_comet empty_store (named "a" "p" (pos 0))) empty_store

stored_one : set_comet empty_store (named "a" "p" (pos 0)) ≡ ok one_comet
unfolding set_comet get_comet add_participant_event new_inmem_store base_roots new_lru Lru.get
    Lru.add Caches.set_item Caches.new_participant_cache Caches.get_values Caches.participant_id
    RollingIndexMap.new_rolling_index_map RollingIndexMap.fresh_mapping RollingIndexMap.set_item
    RollingIndex.new_rolling_index RollingIndex.set_item RollingIndex.append RollingIndex.roll find
    store push_front
stored_one = refl

get_comet-set_comet_self_example : (get_comet one_comet "a").0 ≡ ok (named "a" "p" (pos 0))
get_comet-set_comet_self_example =
    get_comet-set_comet_self empty_store one_comet (named "a" "p" (pos 0)) empty_store-IsValid
      stored_one

pub true_not_false : true ≢ false
true_not_false h = cc

a_not_b : ◌≢◌ {A = String} "a" "b"
a_not_b h = true_not_false (ap (λ s. ◌==◌ {K = String} "a" s) h)

-- A round with one witness, and the same with its fame decided.
abbrev one_witness : RoundInfo
one_witness = record {
  events = ("a", record { witness = true; famous = Trilean.undefined }) ∷ [];
  queued = false;
}

abbrev famous_one : RoundEvent
famous_one = record { witness = true; famous = Trilean.true_fame }

abbrev one_decided : RoundInfo
one_decided = record {
  events = ("a", famous_one) ∷ ("b", record { witness = false; famous = Trilean.undefined }) ∷ [];
  queued = false;
}

abbrev a_block : Block
a_block = new_block (pos 3) (pos 1) ((7 ∷ []) ∷ [])

add_consensus_event_lem_example :
    (s' : InmemStore) × (add_consensus_event empty_store "a" ≡ ok s') × HasOrdered s' ("a" ∷ [])
add_consensus_event_lem_example =
    add_consensus_event_lem empty_store [] "a" (new_inmem_store-HasOrdered members 2 (omega arith))

witnesses_decided_lem_example :
    (witnesses_decided one_decided ≡ true
      ↔ ((x : String) → listed x (witnesses one_decided) ≡ true → is_decided one_decided x ≡ true))
    × ((x : String) → is_decided one_decided x ≡ true → listed x (witnesses one_decided) ≡ true)
    × ((x : String)
        → listed x (famous_witnesses one_decided) ≡ true
        → is_decided one_decided x ≡ true)
unfolding find
witnesses_decided_lem_example = witnesses_decided_lem one_decided (refl, (refl, tt))
