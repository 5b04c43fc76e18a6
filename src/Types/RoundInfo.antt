-- ===== src/Types/RoundInfo.antt =====
-- types/round_info.go: the events of a round, which of them are witnesses, and which are famous. The
-- map of events is read in the order of its entries; Go reads it in no fixed order.
pub mod Laws
use paradigm.Prelude.{
  String, Bool, true, false, not, ◌&&◌, none, some, List, [], ◌∷◌, if◌then◌else◌, nat_eq, int_eq,
  string_eq, pair_eq, Map, find, store,
}

pub data Trilean : Type 0 where
  undefined : Trilean
  true_fame : Trilean
  false_fame : Trilean

pub record RoundEvent : Type 0 where
  pub witness : Bool
  pub famous : Trilean

pub record RoundInfo : Type 0 where
  pub events : Map String RoundEvent
  pub queued : Bool

-- `NewRoundInfo`
abbrev pub new_round_info : RoundInfo
new_round_info = record { events = []; queued = false }

abbrev pub is_undefined : Trilean → Bool
is_undefined undefined = true
is_undefined _ = false

abbrev pub is_true_fame : Trilean → Bool
is_true_fame true_fame = true
is_true_fame _ = false

-- `AddEvent`: an event that is there stays as it is
unfoldable pub add_event : RoundInfo → String → Bool → RoundInfo
add_event r x witness = elim (find x r.events) [
  | some e ↦ r
  | none ↦ record r { events = store x (record { witness = witness; famous = undefined }) r.events }
]

-- `SetFame`
unfoldable pub set_fame : RoundInfo → String → Bool → RoundInfo
set_fame r x f =
    let old : RoundEvent = elim (find x r.events) [
      | some e ↦ e
      | none ↦ record { witness = true; famous = undefined }
    ] in
    let fame = if f then true_fame else false_fame in
    record r { events = store x (record old { famous = fame }) r.events }

-- the loop of `WitnessesDecided`
unfoldable pub all_decided : Map String RoundEvent → Bool
all_decided [] = true
all_decided ((x, e) ∷ m) = if e.witness && is_undefined e.famous then false else all_decided m

-- `WitnessesDecided`
unfoldable pub witnesses_decided : RoundInfo → Bool
unfolding all_decided
witnesses_decided r = all_decided r.events

-- the loop of `Witnesses`
unfoldable pub select_witnesses : Map String RoundEvent → List String
select_witnesses [] = []
select_witnesses ((x, e) ∷ m) =
    let rest = select_witnesses m in if e.witness then x ∷ rest else rest

-- `Witnesses`
unfoldable pub witnesses : RoundInfo → List String
unfolding select_witnesses
witnesses r = select_witnesses r.events

-- the loop of `FamousWitnesses`
unfoldable pub select_famous : Map String RoundEvent → List String
select_famous [] = []
select_famous ((x, e) ∷ m) =
    let rest = select_famous m in if e.witness && is_true_fame e.famous then x ∷ rest else rest

-- `FamousWitnesses`
unfoldable pub famous_witnesses : RoundInfo → List String
unfolding select_famous
famous_witnesses r = select_famous r.events

-- `IsDecided`
unfoldable pub is_decided : RoundInfo → String → Bool
is_decided r x = elim (find x r.events) [
  | some w ↦ w.witness && not (is_undefined w.famous)
  | none ↦ false
]
