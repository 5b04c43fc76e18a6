-- ===== src/Storage/MemoryStore/Valid.antt =====
-- The invariant of storage/memory_store.go: its caches are valid and of the store's size.
use paradigm.Prelude.{
  ℕ, ◌<◌, String, ◌≡◌, refl, sym, ◌∙◌, arith, ℤ, nat_eq, int_eq, string_eq, pair_eq, Map,
}
use paradigm.Common.Errors.{ok}
use paradigm.Common.Lru
use paradigm.Common.Lru.{Lru, new_lru}
use paradigm.Storage.Caches.{ParticipantEventsCache}
use paradigm.Types.Block.{Block}
use paradigm.Types.Comet.{Comet}
use paradigm.Types.RoundInfo.{RoundInfo}
use paradigm.Storage.MemoryStore.{
  InmemStore, new_inmem_store, get_comet, add_participant_event, set_comet, get_round, set_round,
  set_block,
}
use paradigm.Common.Lru.Valid
use paradigm.Common.Lru.Get.{get-IsValid}
use paradigm.Common.Lru.Add.{add-IsValid}
use paradigm.Common.Lru.Runs.{size-add, size-get}
use mathlib.Core.Path.{subst}

pub record IsValid (s : InmemStore) : Type 0 where
  pub positive : 0 < s.cache_size
  pub events : Valid.IsValid s.event_cache
  pub rounds : Valid.IsValid s.round_cache
  pub blocks : Valid.IsValid s.block_cache
  pub events_size : s.event_cache.size ≡ s.cache_size
  pub rounds_size : s.round_cache.size ≡ s.cache_size
  pub blocks_size : s.block_cache.size ≡ s.cache_size

pub new_inmem_store-IsValid :
    (participants : Map String ℤ) (size : ℕ)
    → 0 < size
    → IsValid (new_inmem_store participants size)
unfolding new_inmem_store new_lru
new_inmem_store-IsValid participants size h = record {
  positive = h;
  events = Valid.new_lru-IsValid size;
  rounds = Valid.new_lru-IsValid size;
  blocks = Valid.new_lru-IsValid size;
  events_size = refl;
  rounds_size = refl;
  blocks_size = refl;
}

pub get_comet-IsValid : (s : InmemStore) (k : String) → IsValid s → IsValid (get_comet s k).1
unfolding get_comet
get_comet-IsValid s k v = record {
  positive = v.positive;
  events = get-IsValid s.event_cache k v.events;
  rounds = v.rounds;
  blocks = v.blocks;
  events_size = size-get s.event_cache k ∙ v.events_size;
  rounds_size = v.rounds_size;
  blocks_size = v.blocks_size;
}

pub get_round-IsValid : (s : InmemStore) (r : ℤ) → IsValid s → IsValid (get_round s r).2
unfolding get_round
get_round-IsValid s r v = record {
  positive = v.positive;
  events = v.events;
  rounds = get-IsValid s.round_cache r v.rounds;
  blocks = v.blocks;
  events_size = v.events_size;
  rounds_size = size-get s.round_cache r ∙ v.rounds_size;
  blocks_size = v.blocks_size;
}

pub set_round-IsValid :
    (s : InmemStore) (r : ℤ) (info : RoundInfo) → IsValid s → IsValid (set_round s r info)
unfolding set_round
set_round-IsValid s r info v = record {
  positive = v.positive;
  events = v.events;
  rounds = add-IsValid s.round_cache r info v.rounds;
  blocks = v.blocks;
  events_size = v.events_size;
  rounds_size = size-add s.round_cache r info ∙ v.rounds_size;
  blocks_size = v.blocks_size;
}

pub set_block-IsValid : (s : InmemStore) (b : Block) → IsValid s → IsValid (set_block s b)
unfolding set_block
set_block-IsValid s b v =
    let i = b.body.index in
    let c = (Lru.get s.block_cache i).1 in
    let w = get-IsValid s.block_cache i v.blocks in
    record {
      positive = v.positive;
      events = v.events;
      rounds = v.rounds;
      blocks = add-IsValid c i b w;
      events_size = v.events_size;
      rounds_size = v.rounds_size;
      blocks_size = size-add c i b ∙ size-get s.block_cache i ∙ v.blocks_size;
    }

-- The event caches of a store with another participant cache.
add_participant_event-keeps :
    (s s' : InmemStore) (p h : String) (i : ℤ)
    → add_participant_event s p h i ≡ ok s'
    → s' ≡ record s { participant_events_cache = s'.participant_events_cache }
unfolding add_participant_event
add_participant_event-keeps s s' p h i e = ground arith

pub with_event-IsValid :
    (s : InmemStore) (pec : ParticipantEventsCache) (c : Comet)
    → IsValid s
    → IsValid (record s {
      participant_events_cache = pec;
      event_cache = (Lru.add s.event_cache c.hex c).1;
    })
with_event-IsValid s pec c v = record {
  positive = v.positive;
  events = add-IsValid s.event_cache c.hex c v.events;
  rounds = v.rounds;
  blocks = v.blocks;
  events_size = size-add s.event_cache c.hex c ∙ v.events_size;
  rounds_size = v.rounds_size;
  blocks_size = v.blocks_size;
}

-- What a successful SetComet leaves.
pub set_comet_ok :
    (s s' : InmemStore) (c : Comet)
    → set_comet s c ≡ ok s'
    → let t = (get_comet s c.hex).1 in
      s' ≡ record t {
        participant_events_cache = s'.participant_events_cache;
        event_cache = (Lru.add t.event_cache c.hex c).1;
      }
unfolding set_comet add_participant_event get_comet
set_comet_ok s s' c e = ground arith

-- When `SetComet` succeeds on a valid store, it leaves a valid store.
pub set_comet-IsValid :
    (s s' : InmemStore) (c : Comet) → IsValid s → set_comet s c ≡ ok s' → IsValid s'
set_comet-IsValid s s' c v e = subst IsValid (sym (set_comet_ok s s' c e)) (
    with_event-IsValid (get_comet s c.hex).1 s'.participant_events_cache c
      (get_comet-IsValid s c.hex v))
