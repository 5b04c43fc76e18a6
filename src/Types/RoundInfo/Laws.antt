-- ===== src/Types/RoundInfo/Laws.antt =====
-- When types/round_info.go counts a witness, and a round, as decided.
use paradigm.Prelude.{
  String, ◌≡◌, refl, ◌↔◌, inl, inr, Bool, true, false, ◌&&◌, ◌||◌, none, some, List, [], ◌∷◌, arith,
  Bool-cases, Option-cases, ◌==◌, nat_eq, int_eq, string_eq, pair_eq, ==_refl, eq_of_==, Map, find,
  find-store,
}
use paradigm.Types.RoundInfo.{
  RoundInfo, RoundEvent, Trilean, is_undefined, add_event, set_fame, all_decided, witnesses_decided,
  is_decided, is_true_fame, select_witnesses, select_famous, witnesses, famous_witnesses,
}

-- `SetFame` of a witness `x` of the round decides `x`, and changes no other decision.
pub is_decided-set_fame :
    (r : RoundInfo) (x y : String) (f : Bool) (e : RoundEvent)
    → find x r.events ≡ some e
    → e.witness ≡ true
    → is_decided (set_fame r x f) y ≡ (x == y || is_decided r y)
unfolding is_decided set_fame
is_decided-set_fame r x y true e h w =
    ground (arith, find-store x y (record e { famous = Trilean.true_fame }) r.events)
is_decided-set_fame r x y false e h w =
    ground (arith, find-store x y (record e { famous = Trilean.false_fame }) r.events)

-- `AddEvent` changes no decision: an event that it adds is undecided, and one that was there stays as
-- it was.
pub is_decided-add_event :
    (r : RoundInfo) (x y : String) (w : Bool) → is_decided (add_event r x w) y ≡ is_decided r y
unfolding is_decided add_event
is_decided-add_event r x y w = elim (Option-cases (find x r.events)) [
  | inl new ↦ ground (
    arith,
    find-store x y (record { witness = w; famous = Trilean.undefined }) r.events,
    eq_of_== x y,
  )
  | inr (e, old) ↦ ground arith
]

decided_entry :
    (m : Map String RoundEvent) (x : String) (e : RoundEvent)
    → all_decided m ≡ true
    → find x m ≡ some e
    → e.witness ≡ true
    → is_undefined e.famous ≡ false
unfolding all_decided find
decided_entry [] x e d h w = absurd (cc)
decided_entry ((y, u) ∷ m) x e d h w = ground (arith, decided_entry m x e)

famous_decided : (t : Trilean) → is_true_fame t ≡ true → is_undefined t ≡ false
famous_decided Trilean.undefined h = absurd (cc)
famous_decided Trilean.true_fame h = refl
famous_decided Trilean.false_fame h = absurd (cc)

decided_famous :
    (r : RoundInfo) (x : String) (e : RoundEvent)
    → find x r.events ≡ some e
    → (e.witness && is_true_fame e.famous) ≡ true
    → is_decided r x ≡ true
unfolding is_decided
decided_famous r x e f t = ground (arith, f, t, famous_decided e.famous)

-- No event has two entries.
abbrev pub IsMap : Map String RoundEvent → Type 0
IsMap [] = Unit
IsMap ((x, e) ∷ m) = (find x m ≡ none) × IsMap m

abbrev pub listed : String → List String → Bool
listed x [] = false
listed x (y ∷ l) = y == x || listed x l

abbrev witness_in : Map String RoundEvent → String → Bool
witness_in m x = elim (find x m) [ some e ↦ e.witness | none ↦ false ]

abbrev famous_in : Map String RoundEvent → String → Bool
famous_in m x = elim (find x m) [ some e ↦ e.witness && is_true_fame e.famous | none ↦ false ]

listed-select_witnesses :
    (m : Map String RoundEvent) (x : String)
    → IsMap m
    → listed x (select_witnesses m) ≡ witness_in m x
unfolding select_witnesses find
listed-select_witnesses [] x h = refl
listed-select_witnesses ((y, u) ∷ m) x (new, h) =
    let rest = listed-select_witnesses m x h in ground (arith, rest, new, eq_of_== y x)

listed-select_famous :
    (m : Map String RoundEvent) (x : String) → IsMap m → listed x (select_famous m) ≡ famous_in m x
unfolding select_famous find
listed-select_famous [] x h = refl
listed-select_famous ((y, u) ∷ m) x (new, h) =
    let rest = listed-select_famous m x h in ground (arith, rest, new, eq_of_== y x)

-- A round that is not decided has a witness that is not.
undecided_entry :
    (m : Map String RoundEvent)
    → IsMap m
    → all_decided m ≡ false
    → (x : String) × (e : RoundEvent) × (find x m ≡ some e)
      × (e.witness ≡ true)
      × (is_undefined e.famous ≡ true)
unfolding all_decided find
undecided_entry [] h d = absurd (cc)
undecided_entry ((y, u) ∷ m) (new, h) d = elim (Bool-cases (u.witness && is_undefined u.famous)) [
  | inl here ↦ (y, u, ground (arith, ==_refl y), ground (arith, here), ground (arith, here))
  | inr passed ↦
      let (x, e, f, w, un) = undecided_entry m h (ground (arith, passed, d)) in
      (x, e, ground (arith, f, new, eq_of_== y x), w, un)
]

-- In a round that has no event twice: `WitnessesDecided` holds exactly if `IsDecided` holds of
-- every event that `Witnesses` lists; and `IsDecided` holds only of such events, among them all
-- that `FamousWitnesses` lists.
pub witnesses_decided_lem :
    (r : RoundInfo)
    → IsMap r.events
    → (witnesses_decided r ≡ true
        ↔ ((x : String) → listed x (witnesses r) ≡ true → is_decided r x ≡ true))
      × ((x : String) → is_decided r x ≡ true → listed x (witnesses r) ≡ true)
      × ((x : String) → listed x (famous_witnesses r) ≡ true → is_decided r x ≡ true)
unfolding witnesses_decided is_decided witnesses famous_witnesses
witnesses_decided_lem r h = (
  (
    λ d x l. elim (Option-cases (find x r.events)) [
      | inl gone ↦ absurd (ground (arith, l, listed-select_witnesses r.events x h, gone))
      | inr (e, f) ↦
          let w : e.witness ≡ true = ground (arith, l, listed-select_witnesses r.events x h, f) in
          ground (arith, f, w, decided_entry r.events x e d f w)
    ],
    λ all. elim (Bool-cases (all_decided r.events)) [
      | inl all_are ↦ all_are
      | inr some_not ↦
          let (x, e, f, w, un) = undecided_entry r.events h some_not in
          let l : listed x (select_witnesses r.events) ≡ true =
            ground (arith, listed-select_witnesses r.events x h, f, w) in
          absurd (ground (arith, all x l, f, un))
    ],
  ),
  λ x d. ground (arith, d, listed-select_witnesses r.events x h),
  λ x l. elim (Option-cases (find x r.events)) [
    | inl gone ↦ absurd (ground (arith, l, listed-select_famous r.events x h, gone))
    | inr (e, f) ↦
        let t : (e.witness && is_true_fame e.famous) ≡ true =
          ground (arith, l, listed-select_famous r.events x h, f) in
        decided_famous r x e f t
  ],
)
