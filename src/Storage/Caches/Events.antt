-- ===== src/Storage/Caches/Events.antt =====
-- The events of a participant in storage/caches.go, against the sequence of their names.
use paradigm.Prelude.{
  ℕ, ◌+◌, ◌≤◌, String, ◌≡◌, ap, ◌∙◌, ◌≢◌, inl, inr, none, some, List, [], ◌∷◌, ◌++◌, arith, length,
  drop, ℤ, pos, ◌-ℤ◌, nat_eq, int_eq, string_eq, pair_eq, find,
}
use paradigm.Common.Errors.{ok, Result-cases}
use paradigm.Common.RollingIndexMap
use paradigm.Common.RollingIndexMap.{last_of}
use paradigm.Common.RollingIndexMap.History.{
  Holds, set_item-Holds, set_item-other, get_last-Holds, get-Holds,
}
use paradigm.Storage.Caches.{
  ParticipantCache, ParticipantEventsCache, participant_id, get, set_item, get_last_event,
}

-- The cache has been given the items `h` for the participant `p`, in this order.
pub record HasEvents {A : Type 0} (pec : ParticipantCache A) (p : String) (h : List A)
    : Type 0 where
  pub id : ℤ
  pub named : find p pec.participants ≡ some id
  pub holds : Holds pec.rim id h

-- The last name, "" when there is none.
abbrev pub last_name : List String → String
last_name h = elim (last_of h) [ none ↦ "" | some x ↦ x ]

module _ {A : Type 0} where
  -- A participant's next item is taken, and the participant then has it after the others.
  pub set_item-HasEvents :
      (pec : ParticipantCache A) (p : String) (h : List A) (a : A)
      → HasEvents pec p h
      → (pec' : ParticipantCache A) × (set_item pec p a (pos (length h)) ≡ ok pec')
        × HasEvents pec' p (h ++ (a ∷ []))
  unfolding set_item participant_id
  set_item-HasEvents pec p h a o =
      let (rim', ran, holds) = set_item-Holds pec.rim o.id h a o.holds in
      (
        record pec { rim = rim' },
        ground (arith, o.named),
        record { id = o.id; named = o.named; holds = holds },
      )

  -- An item of one participant leaves what the cache has for another, whose id is another number.
  pub set_item-HasEvents_ne :
      (pec pec' : ParticipantCache A) (p q : String) (h : List A) (a : A) (i j : ℤ)
      → (o : HasEvents pec q h) → find p pec.participants ≡ some j
      → j ≢ o.id
      → set_item pec p a i ≡ ok pec'
      → HasEvents pec' q h
  unfolding set_item participant_id
  set_item-HasEvents_ne pec pec' p q h a i j o named ne e =
      elim (Result-cases (RollingIndexMap.set_item pec.rim j a i)) [
        | inl (rim', ran) ↦
            let same : pec' ≡ record pec { rim = rim' } = ground arith in
            record {
              id = o.id;
              named = ap (λ (x : ParticipantCache A). find q x.participants) same ∙ o.named;
              holds = record {
                items = o.holds.items;
                found =
                    ap (λ (x : ParticipantCache A). find o.id x.rim.mapping) same
                    ∙ set_item-other pec.rim rim' j o.id a i ran ne
                    ∙ o.holds.found;
                tracks = o.holds.tracks;
              };
            }
        | inr (inl (x, bad)) ↦ absurd (ground arith)
        | inr (inr bad) ↦ absurd (ground arith)
      ]

  -- `Get` of a participant returns all its items from `n` on, where at most as many as the index's size
  -- stand at `n` or later.
  pub get-HasEvents :
      (pec : ParticipantCache A) (p : String) (h : List A) (n : ℕ) (o : HasEvents pec p h)
      → length h ≤ n + o.holds.items.size
      → get pec p (pos n -ℤ pos 1) ≡ ok (drop n h)
  unfolding get participant_id
  get-HasEvents pec p h n o near = ground (arith, o.named, get-Holds pec.rim o.id h n o.holds near)

-- `GetLast` of a participant that has been given the names `h` returns the last of them, or "".
pub get_last_event_lem :
    (pec : ParticipantEventsCache) (p : String) (h : List String)
    → HasEvents pec p h
    → get_last_event pec p ≡ ok (last_name h)
unfolding get_last_event participant_id
get_last_event_lem pec p h o = ground (arith, o.named, get_last-Holds pec.rim o.id h o.holds)
