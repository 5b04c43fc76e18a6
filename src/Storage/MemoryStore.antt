-- ===== src/Storage/MemoryStore.antt =====
-- storage/memory_store.go: the store of a node that keeps nothing on disk. A method returns its result
-- and the store that it leaves: a read refreshes the entry that it finds in its LRU.
pub mod Valid
pub mod Reads
pub mod Events
pub mod Consensus
use paradigm.Prelude.{
  ℕ, ◌+◌, String, Bool, true, false, Option, none, some, List, [], ◌∷◌, if◌then◌else◌, length, ℤ,
  pos, negsuc, ltb_ℤ, ◌==◌, nat_eq, int_eq, string_eq, pair_eq, Map, find, store,
}
use mathlib.Core.Option
use paradigm.Common.Errors.{
  Result, ok, err, panic, ◌>>=◌, new_store_err, key_not_found, no_root, itoa, text, is_err,
}
use paradigm.Common.Lru
use paradigm.Common.Lru.{Lru, new_lru}
use paradigm.Common.RollingIndex
use paradigm.Common.RollingIndex.{RollingIndex, new_rolling_index, get_last_window}
use paradigm.Storage.Caches
use paradigm.Storage.Caches.{ParticipantEventsCache, new_participant_cache, get_last_event}
use paradigm.Types.Block.{Block}
use paradigm.Types.Comet.{Comet}
use paradigm.Types.Root.{Root, new_base_root}
use paradigm.Types.RoundInfo.{RoundInfo, new_round_info, witnesses}

pub record InmemStore : Type 0 where
  pub cache_size : ℕ
  pub participants : Map String ℤ
  pub event_cache : Lru String Comet
  pub round_cache : Lru ℤ RoundInfo
  pub block_cache : Lru ℤ Block
  pub consensus_cache : RollingIndex String
  pub tot_consensus_events : ℕ
  pub participant_events_cache : ParticipantEventsCache
  pub roots : Map String Root
  pub last_round : ℤ

-- the loop over the participants of `NewInmemStore`
unfoldable pub base_roots : Map String ℤ → Map String Root
base_roots [] = []
base_roots ((pk, id) ∷ m) = store pk new_base_root (base_roots m)

-- `NewInmemStore`
unfoldable pub new_inmem_store : Map String ℤ → ℕ → InmemStore
unfolding base_roots
new_inmem_store participants cache_size = record {
  cache_size = cache_size;
  participants = participants;
  event_cache = new_lru cache_size;
  round_cache = new_lru cache_size;
  block_cache = new_lru cache_size;
  consensus_cache = new_rolling_index cache_size;
  tot_consensus_events = 0;
  participant_events_cache = new_participant_cache cache_size participants;
  roots = base_roots participants;
  last_round = negsuc 0;
}

-- `res, ok := s.eventCache.Get(key)`
abbrev found_or {ℓ κ} : {A : Type ℓ} {E : Type κ} → Option A → E → (A → E) → E
found_or none e f = e
found_or (some a) e f = f a

-- `GetComet`
unfoldable pub get_comet : InmemStore → String → Result Comet × InmemStore
get_comet s key =
    let (res, cache) = Lru.get s.event_cache key in
    (
      found_or res (err (new_store_err key_not_found (text key))) (λ c. ok c),
      record s { event_cache = cache },
    )

-- `addParticpantEvent`
unfoldable pub add_participant_event : InmemStore → String → String → ℤ → Result InmemStore
add_participant_event s participant hash i = do
  pec ← Caches.set_item s.participant_events_cache participant hash i
  ok (record s { participant_events_cache = pec })

-- `SetComet`: a comet that is not in the cache is also added to its creator's events
unfoldable pub set_comet : InmemStore → Comet → Result InmemStore
unfolding get_comet
set_comet s event =
    let (res, s') = get_comet s event.hex in
    do
      s'' ←
          (if is_err res key_not_found
            then add_participant_event s' event.creator event.hex event.body.index
            else ok s')
      ok (record s'' { event_cache = (Lru.add s''.event_cache event.hex event).1 })

-- `ParticipantEvents`
unfoldable pub participant_events : InmemStore → String → ℤ → Result (List String)
participant_events s participant skip = Caches.get s.participant_events_cache participant skip

-- `ParticipantEvent`
unfoldable pub participant_event : InmemStore → String → ℤ → Result String
participant_event s participant i = Caches.get_item s.participant_events_cache participant i

-- `LastEventFrom`: the hash, and whether it is that of the root
unfoldable pub last_event_from : InmemStore → String → Result (String × Bool)
last_event_from s participant = do
  last ← get_last_event s.participant_events_cache participant
  if last == ""
      then found_or (find participant s.roots) (err (new_store_err no_root (text participant)))
          (λ root. ok (root.x, true))
      else ok (last, false)

-- `KnownEvents`
unfoldable pub known_events : InmemStore → Map ℤ ℤ
known_events s = Caches.known s.participant_events_cache

-- `ConsensusEvents`
unfoldable pub consensus_events : InmemStore → List String
consensus_events s = (get_last_window s.consensus_cache).0

-- `AddConsensusEvent`: an error of the cache is ignored
unfoldable pub add_consensus_event : InmemStore → String → Result InmemStore
add_consensus_event s key =
    let n = s.tot_consensus_events in
    elim (RollingIndex.set_item s.consensus_cache key (pos n)) [
      | ok cache ↦ ok (record s { consensus_cache = cache; tot_consensus_events = n + 1 })
      | err e ↦ ok (record s { tot_consensus_events = n + 1 })
      | panic ↦ panic
    ]

-- `GetRound`: a missing round is given as a new one, with the error
unfoldable pub get_round : InmemStore → ℤ → Result RoundInfo × RoundInfo × InmemStore
get_round s r =
    let (res, cache) = Lru.get s.round_cache r in
    (
      found_or res (err (new_store_err key_not_found (itoa r))) (λ c. ok c),
      found_or res new_round_info (λ c. c),
      record s { round_cache = cache },
    )

-- `SetRound`
unfoldable pub set_round : InmemStore → ℤ → RoundInfo → InmemStore
set_round s r round = record s {
  round_cache = (Lru.add s.round_cache r round).1;
  last_round = if ltb_ℤ s.last_round r then r else s.last_round;
}

-- `RoundWitnesses`
unfoldable pub round_witnesses : InmemStore → ℤ → List String × InmemStore
unfolding get_round
round_witnesses s r =
    let (res, round, s') = get_round s r in
    let ws : List String = elim res [ ok info ↦ witnesses info | _ ↦ [] ] in (ws, s')

-- `RoundEvents`
unfoldable pub round_events : InmemStore → ℤ → ℕ × InmemStore
unfolding get_round
round_events s r =
    let (res, round, s') = get_round s r in
    let n : ℕ = elim res [ ok info ↦ length info.events | _ ↦ 0 ] in (n, s')

-- `GetRoot`
unfoldable pub get_root : InmemStore → String → Result Root
get_root s participant =
    found_or (find participant s.roots) (err (new_store_err key_not_found (text participant)))
      (λ root. ok root)

-- `GetBlock`
unfoldable pub get_block : InmemStore → ℤ → Result Block × InmemStore
get_block s i =
    let (res, cache) = Lru.get s.block_cache i in
    (
      found_or res (err (new_store_err key_not_found (itoa i))) (λ b. ok b),
      record s { block_cache = cache },
    )

-- `SetBlock`: the read before the write refreshes the block
unfoldable pub set_block : InmemStore → Block → InmemStore
unfolding get_block
set_block s block =
    let (res, s') = get_block s block.body.index in
    record s' { block_cache = (Lru.add s'.block_cache block.body.index block).1 }

-- `Reset`: the blocks and the count of the consensus events stay
unfoldable pub reset : InmemStore → Map String Root → InmemStore
reset s roots = record s {
  roots = roots;
  event_cache = new_lru s.cache_size;
  round_cache = new_lru s.cache_size;
  consensus_cache = new_rolling_index s.cache_size;
  participant_events_cache = Caches.reset s.participant_events_cache;
  last_round = negsuc 0;
}
