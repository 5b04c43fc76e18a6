-- ===== src/Storage/Database/Laws.antt =====
-- What storage/badger_store.go relies on: a database returns what was last committed, and the encoding
-- of a comet can be read back but for its wire fields. What its own writes then leave.
use paradigm.Prelude.{
  String, ◌≡◌, ◌≢◌, inl, inr, Bool, true, false, some, List, [], ◌∷◌, ◌++◌, arith, if◌then◌else◌,
  Option-cases, nat_eq, int_eq, string_eq, pair_eq,
}
use paradigm.Storage.Database.{
  DbKey, comet_key, topological_event_key, participant_event_key, found, Database, Encodings, got,
  view, is_new, db_get_event, set_events, db_set_events,
}
use paradigm.Types.Comet.{Comet, persisted}
use paradigm.Types.RoundInfo.{RoundInfo}

-- A key that no entry of a list has.
abbrev pub NotSet : {B : Type 0} → DbKey → List (DbKey × B) → Type 0
NotSet k [] = Unit
NotSet k ((j, v) ∷ ws) = (j ≢ k) × NotSet k ws

module _ {D B : Type 0} where
  -- Reads after a commit: the last value that was set, and what was there under any other key.
  pub record IsFaithful (db : Database D B) : Type 0 where
    pub reads_set :
        (d d' : D) (pre post : List (DbKey × B)) (k : DbKey) (v : B)
        → db.commit d (pre ++ ((k, v) ∷ post)) ≡ some d'
        → NotSet k post
        → db.get d' k ≡ found v
    pub reads_other :
        (d d' : D) (ws : List (DbKey × B)) (k : DbKey)
        → db.commit d ws ≡ some d'
        → NotSet k ws
        → db.get d' k ≡ db.get d k

module _ {B : Type 0} where
  -- `Unmarshal` after `Marshal` gives the round again, and the comet without its wire fields.
  pub record IsReadable (enc : Encodings B) : Type 0 where
    pub comets :
        (c : Comet) (b : B) → enc.encode_comet c ≡ some b → enc.decode_comet b ≡ some (persisted c)
    pub rounds : (r : RoundInfo) (b : B) → enc.encode_round r ≡ some b → enc.decode_round b ≡ some r

  -- what a written comet leaves under the other keys
  indexed : Encodings B → Bool → Comet → List (DbKey × B)
  indexed enc fresh c =
      if fresh
      then (topological_event_key c.topological_index, enc.encode_name c.hex)
        ∷ (participant_event_key c.creator c.body.index, enc.encode_name c.hex)
        ∷ []
      else []

  NotSet-indexed :
      (enc : Encodings B) (k : String) (fresh : Bool) (c : Comet)
      → NotSet (comet_key k) (indexed enc fresh c)
  unfolding indexed
  NotSet-indexed enc k true c = ((λ h. cc), ((λ h. cc), tt))
  NotSet-indexed enc k false c = tt

module _ {D B : Type 0} where
  module _ (db : Database D B) (enc : Encodings B) (faithful : IsFaithful db)
      (readable : IsReadable enc) where
    db_set_events_ok :
        (d d' : D) (c : Comet)
        → db_set_events db enc d (c ∷ []) ≡ some d'
        → (b : B) × (enc.encode_comet c ≡ some b)
          × (db.commit d ((comet_key c.hex, b) ∷ indexed enc (is_new db enc d [] c.hex) c)
              ≡ some d')
    unfolding db_set_events set_events indexed
    db_set_events_ok d d' c e = elim (Option-cases (enc.encode_comet c)) [
      | inl bad ↦ absurd (ground arith)
      | inr (b, p) ↦ (b, p, ground arith)
    ]

    -- A comet that was written is read back without its wire fields.
    pub db_get_event-set_self :
        (d d' : D) (c : Comet)
        → db_set_events db enc d (c ∷ []) ≡ some d'
        → db_get_event db enc d' c.hex ≡ got (persisted c)
    unfolding db_get_event view
    db_get_event-set_self d d' c e =
        let (b, p, q) = db_set_events_ok d d' c e in
        let fresh = is_new db enc d [] c.hex in
        let read =
          faithful.reads_set d d' [] (indexed enc fresh c) (comet_key c.hex) b q
            (NotSet-indexed enc c.hex fresh c) in
        ground (arith, readable.comets c b p)

    -- Every other comet is read as before.
    pub db_get_event-set_ne :
        (d d' : D) (c : Comet) (k : String)
        → db_set_events db enc d (c ∷ []) ≡ some d'
        → c.hex ≢ k
        → db_get_event db enc d' k ≡ db_get_event db enc d k
    unfolding db_get_event view
    db_get_event-set_ne d d' c k e ne =
        let (b, p, q) = db_set_events_ok d d' c e in
        let fresh = is_new db enc d [] c.hex in
        let read =
          faithful.reads_other d d' ((comet_key c.hex, b) ∷ indexed enc fresh c) (comet_key k) q
            ((λ h. ne (key_name h)), NotSet-indexed enc k fresh c) in
        ground arith
      where
        key_name : {x y : String} → comet_key x ≡ comet_key y → x ≡ y
        key_name h = cc
