-- ===== src/Storage/Caches.antt =====
-- storage/caches.go: the events and the block signatures of each participant, by index. The map of
-- participants is read in the order of its entries.
pub mod Events
use paradigm.Prelude.{
  ℕ, String, Bool, false, none, some, List, map, ℤ, pos, negsuc, nat_eq, int_eq, string_eq, pair_eq,
  Map, find,
}
use paradigm.Common.Errors.{Result, ok, err, panic, ◌>>=◌, new_store_err, unknown_participant, text}
use paradigm.Common.RollingIndexMap
use paradigm.Common.RollingIndexMap.{RollingIndexMap}
use paradigm.Types.Block.{BlockSignature}

pub record ParentRoundInfo : Type 0 where
  pub round : ℤ
  pub is_root : Bool

-- `NewBaseParentRoundInfo`
abbrev pub new_base_parent_round_info : ParentRoundInfo
new_base_parent_round_info = record { round = negsuc 0; is_root = false }

-- `getValues`
unfoldable pub get_values : Map String ℤ → List ℤ
get_values m = map (λ p. p.1) m

-- ParticipantEventsCache (items are hashes) and ParticipantBlockSignaturesCache (items are
-- signatures) have the same fields and, but for `GetLast` and `Set`, the same methods.
pub record ParticipantCache (A : Type 0) : Type 0 where
  pub participants : Map String ℤ
  pub rim : RollingIndexMap A

module _ {A : Type 0} where
  -- `NewParticipantEventsCache`, `NewParticipantBlockSignaturesCache`
  unfoldable pub new_participant_cache : ℕ → Map String ℤ → ParticipantCache A
  unfolding get_values
  new_participant_cache size participants = record {
    participants = participants;
    rim = RollingIndexMap.new_rolling_index_map size (get_values participants);
  }

  -- `participantID`
  unfoldable pub participant_id : ParticipantCache A → String → Result ℤ
  participant_id pec participant = elim (find participant pec.participants) [
    | none ↦ err (new_store_err unknown_participant (text participant))
    | some id ↦ ok id
  ]

  -- `Get`
  unfoldable pub get : ParticipantCache A → String → ℤ → Result (List A)
  get pec participant skip = do
    id ← participant_id pec participant
    RollingIndexMap.get pec.rim id skip

  -- `GetItem`
  unfoldable pub get_item : ParticipantCache A → String → ℤ → Result A
  get_item pec participant i = do
    id ← participant_id pec participant
    RollingIndexMap.get_item pec.rim id i

  -- `Set` of an event; of a signature, at the signature's own index
  unfoldable pub set_item : ParticipantCache A → String → A → ℤ → Result (ParticipantCache A)
  set_item pec participant item i = do
    id ← participant_id pec participant
    rim ← RollingIndexMap.set_item pec.rim id item i
    ok (record pec { rim = rim })

  -- `Known`
  unfoldable pub known : ParticipantCache A → Map ℤ ℤ
  known pec = RollingIndexMap.known pec.rim

  -- `Reset`
  unfoldable pub reset : ParticipantCache A → ParticipantCache A
  reset pec = record pec { rim = RollingIndexMap.reset pec.rim }

abbrev pub ParticipantEventsCache : Type 0
ParticipantEventsCache = ParticipantCache String

abbrev pub ParticipantBlockSignaturesCache : Type 0
ParticipantBlockSignaturesCache = ParticipantCache BlockSignature

-- `GetLast` of the events: "" when there is none
unfoldable pub get_last_event : ParticipantEventsCache → String → Result String
get_last_event pec participant = do
  id ← participant_id pec participant
  last ← RollingIndexMap.get_last pec.rim id
  let found : String = elim last [ none ↦ "" | some h ↦ h ]
  ok found

-- `GetLast` of the signatures: the participant is not looked up with `participantID`, so an unknown
-- one has id 0, and the text "" of an empty index fails the assertion of its type
unfoldable pub get_last_signature : ParticipantBlockSignaturesCache → String → Result BlockSignature
get_last_signature psc participant = do
  let id : ℤ = elim (find participant psc.participants) [ none ↦ pos 0 | some i ↦ i ]
  last ← RollingIndexMap.get_last psc.rim id
  let out : Result BlockSignature = elim last [ none ↦ panic | some s ↦ ok s ]
  out

-- `Set` of a signature
unfoldable pub set_signature :
    ParticipantBlockSignaturesCache
    → String
    → BlockSignature
    → Result ParticipantBlockSignaturesCache
set_signature psc participant sig = set_item psc participant sig sig.index
