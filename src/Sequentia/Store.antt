-- ===== src/Sequentia/Store.antt =====
-- storage/store.go: what the graph asks of a store, and the store of storage/memory_store.go as one.
-- The part of the interface that keeps the state trie, and `Close`, are left out.
pub mod Laws
use paradigm.Prelude.{
  ℕ, String, Bool, Option, none, List, ℤ, nat_eq, int_eq, string_eq, pair_eq, Map,
}
use paradigm.Common.Errors.{Result, ok}
use paradigm.Storage.MemoryStore
use paradigm.Storage.MemoryStore.{InmemStore}
use paradigm.Types.Block.{Block}
use paradigm.Types.Comet.{Comet}
use paradigm.Types.Root.{Root}
use paradigm.Types.RoundInfo.{RoundInfo}

pub record Store (S : Type 0) : Type 0 where
  pub cache_size : S → ℕ
  pub get_comet : S → String → Result Comet × S
  pub set_comet : S → Comet → Result S
  pub participant_events : S → String → ℤ → Result (List String)
  pub participant_event : S → String → ℤ → Result String
  pub last_event_from : S → String → Result (String × Bool)
  pub known_events : S → Map ℤ ℤ × S
  pub consensus_events : S → List String
  pub consensus_events_count : S → ℕ
  pub add_consensus_event : S → String → Result S
  pub get_round : S → ℤ → Result RoundInfo × RoundInfo × S
  pub set_round : S → ℤ → RoundInfo → Result S
  pub last_round : S → ℤ
  pub round_witnesses : S → ℤ → List String × S
  pub round_events : S → ℤ → ℕ × S
  pub get_root : S → String → Result Root
  pub get_block : S → ℤ → Result Block × S
  pub set_block : S → Block → Result S
  pub reset : S → Map String Root → Result S
  -- `DbTopologicalEvents`, of a store that is a BadgerStore
  pub topological_events : S → Option (Result (List Comet))

abbrev pub inmem : Store InmemStore
inmem = record {
  cache_size = λ s. s.cache_size;
  get_comet = MemoryStore.get_comet;
  set_comet = MemoryStore.set_comet;
  participant_events = MemoryStore.participant_events;
  participant_event = MemoryStore.participant_event;
  last_event_from = MemoryStore.last_event_from;
  known_events = λ s. (MemoryStore.known_events s, s);
  consensus_events = MemoryStore.consensus_events;
  consensus_events_count = λ s. s.tot_consensus_events;
  add_consensus_event = MemoryStore.add_consensus_event;
  get_round = MemoryStore.get_round;
  set_round = λ s r info. ok (MemoryStore.set_round s r info);
  last_round = λ s. s.last_round;
  round_witnesses = MemoryStore.round_witnesses;
  round_events = MemoryStore.round_events;
  get_root = MemoryStore.get_root;
  get_block = MemoryStore.get_block;
  set_block = λ s b. ok (MemoryStore.set_block s b);
  reset = λ s roots. ok (MemoryStore.reset s roots);
  topological_events = λ s. none;
}
