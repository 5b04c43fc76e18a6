-- ===== src/Storage/Database.antt =====
-- storage/badger_store.go: what the store asks of its database and of the encodings, both parameters, and
-- the methods that read and write it. A key is kept as what it is printed from: keys that are printed
-- from different data are different.
pub mod Laws
use paradigm.Prelude.{
  ℕ, zero, suc, ◌+◌, String, Bool, true, false, ◌||◌, Option, none, some, List, [], ◌∷◌, ◌++◌,
  if◌then◌else◌, ℤ, pos, ◌+ℤ◌, ◌==◌, nat_eq, int_eq, string_eq, pair_eq, Map, store,
}
use paradigm.Common.Errors.{Result, ok, err, panic, new_store_err, key_not_found, other_kind, text}
use paradigm.Types.Block.{Block}
use paradigm.Types.Comet.{Comet}
use paradigm.Types.Root.{Root}
use paradigm.Types.RoundInfo.{RoundInfo}

-- The keys: the first is the name of a comet, the others are made by the functions of their names.
pub data DbKey : Type 0 where
  comet_key : String → DbKey
  topological_event_key : ℕ → DbKey
  participant_key : String → DbKey
  participant_event_key : String → ℤ → DbKey
  participant_root_key : String → DbKey
  round_key : ℤ → DbKey
  block_key : ℤ → DbKey

-- What `txn.Get` and `item.Value` give, where `B` is the type of the bytes: a value, no such key, an error of the first, or an error of the
-- second.
pub data Found (B : Type 0) : Type 0 where
  found : B → Found B
  missing : Found B
  failing : Found B
  unreadable : Found B

pub record Database (D B : Type 0) : Type 0 where
  pub get : D → DbKey → Found B
  -- a transaction that sets the keys in order, and its commit: none on any error
  pub commit : D → List (DbKey × B) → Option D
  -- the entries under the participants' prefix, the prefix cut off
  pub participant_entries : D → Option (List (String × B))

-- `Marshal` and `Unmarshal`, and the bytes of names and numbers; `print` makes the text of a key.
pub record Encodings (B : Type 0) : Type 0 where
  pub encode_comet : Comet → Option B
  pub decode_comet : B → Option Comet
  pub encode_root : Root → Option B
  pub decode_root : B → Option Root
  pub encode_round : RoundInfo → Option B
  pub decode_round : B → Option RoundInfo
  pub encode_block : Block → Option B
  pub decode_block : B → Option Block
  pub encode_name : String → B
  pub decode_name : B → String
  pub encode_id : ℤ → B
  pub decode_id : B → Option ℤ
  pub print : DbKey → String

-- A result of a method of the database: a value, `badger.ErrKeyNotFound`, or another error.
pub data DbResult (A : Type 0) : Type 0 where
  got : A → DbResult A
  absent : DbResult A
  broken : DbResult A

abbrev pub broken_err {ℓ} : {A : Type ℓ} → Result A
broken_err = err (new_store_err other_kind (text ""))

-- `mapError`
unfoldable pub map_error : {A : Type 0} → DbResult A → String → Result A
map_error (got a) key = ok a
map_error absent key = err (new_store_err key_not_found (text key))
map_error broken key = broken_err

-- Whether a transaction has set the comet of that name.
unfoldable pub is_written : {B : Type 0} → String → List (DbKey × B) → Bool
is_written x [] = false
is_written x ((comet_key y, v) ∷ ws) = y == x || is_written x ws
is_written x ((k, v) ∷ ws) = is_written x ws

module _ {D B : Type 0} (db : Database D B) (enc : Encodings B) where
  -- a `View` of one key, and the decoding of its value
  unfoldable pub view : {A : Type 0} → (B → Option A) → D → DbKey → DbResult A
  view decode d k = elim (db.get d k) [
    | missing ↦ absent
    | failing ↦ broken
    | unreadable ↦ broken
    | found v ↦ elim (decode v) [ none ↦ broken | some a ↦ got a ]
  ]

  -- `dbGetEvent`
  unfoldable pub db_get_event : D → String → DbResult Comet
  db_get_event d key = view enc.decode_comet d (comet_key key)

  -- whether `tx.Get` of a comet's name says that there is no such key
  unfoldable pub is_new : D → List (DbKey × B) → String → Bool
  unfolding is_written
  is_new d ws x =
      if is_written x ws
      then false
      else elim (db.get d (comet_key x)) [ missing ↦ true | _ ↦ false ]

  -- the loop of `dbSetEvents`, with what the transaction has set
  unfoldable pub set_events : D → List (DbKey × B) → List Comet → Option (List (DbKey × B))
  unfolding is_new
  set_events d ws [] = some ws
  set_events d ws (c ∷ cs) = elim (enc.encode_comet c) [
    | none ↦ none
    | some val ↦
        let name = enc.encode_name c.hex in
        let indexed : List (DbKey × B) =
          if is_new d ws c.hex
          then (topological_event_key c.topological_index, name)
            ∷ (participant_event_key c.creator c.body.index, name)
            ∷ []
          else [] in
        set_events d (ws ++ ((comet_key c.hex, val) ∷ indexed)) cs
  ]

  -- `dbSetEvents`
  unfoldable pub db_set_events : D → List Comet → Option D
  unfolding set_events
  db_set_events d cs = elim (set_events d [] cs) [ none ↦ none | some ws ↦ db.commit d ws ]

  -- `DbTopologicalEvents` from the index `t` on. The loop ends at the first missing key; fuel bounds it.
  -- An index that cannot be read leaves the loop with a nil error, whose text is then asked for.
  unfoldable pub db_topological_events : ℕ → D → ℕ → Result (List Comet)
  unfolding db_get_event
  db_topological_events zero d t = panic
  db_topological_events (suc fuel) d t =
      let rest = db_topological_events fuel d (suc t) in
      elim (db.get d (topological_event_key t)) [
        | missing ↦ ok []
        | failing ↦ broken_err
        | unreadable ↦ panic
        | found v ↦ elim (db_get_event d (enc.decode_name v)) [
          | absent ↦ broken_err
          | broken ↦ broken_err
          | got c ↦ elim rest [ ok cs ↦ ok (c ∷ cs) | err e ↦ err e | panic ↦ panic ]
        ]
      ]

  -- the loop of `dbParticipantEvents` from the index `i` on
  unfoldable pub db_events_from : ℕ → D → String → ℤ → Result (List String)
  db_events_from zero d participant i = panic
  db_events_from (suc fuel) d participant i =
      let rest = db_events_from fuel d participant (i +ℤ pos 1) in
      elim (db.get d (participant_event_key participant i)) [
        | missing ↦ ok []
        | failing ↦ broken_err
        | unreadable ↦ panic
        | found v ↦ elim rest [
          | ok xs ↦ ok (enc.decode_name v ∷ xs)
          | err e ↦ err e
          | panic ↦ panic
        ]
      ]

  -- `dbParticipantEvents`
  unfoldable pub db_participant_events : ℕ → D → String → ℤ → Result (List String)
  unfolding db_events_from
  db_participant_events fuel d participant skip = db_events_from fuel d participant (skip +ℤ pos 1)

  -- `dbParticipantEvent`
  unfoldable pub db_participant_event : D → String → ℤ → DbResult String
  db_participant_event d participant i =
      view (λ v. some (enc.decode_name v)) d (participant_event_key participant i)

  -- the loop of `dbSetRoots`
  unfoldable pub root_entries : Map String Root → Option (List (DbKey × B))
  root_entries [] = some []
  root_entries ((p, root) ∷ m) = elim (enc.encode_root root) [
    | none ↦ none
    | some val ↦ elim (root_entries m) [
      | none ↦ none
      | some ws ↦ some ((participant_root_key p, val) ∷ ws)
    ]
  ]

  -- `dbSetRoots`
  unfoldable pub db_set_roots : D → Map String Root → Option D
  unfolding root_entries
  db_set_roots d roots = elim (root_entries roots) [ none ↦ none | some ws ↦ db.commit d ws ]

  -- `dbGetRoot`
  unfoldable pub db_get_root : D → String → DbResult Root
  db_get_root d participant = view enc.decode_root d (participant_root_key participant)

  -- `dbGetRound`
  unfoldable pub db_get_round : D → ℤ → DbResult RoundInfo
  db_get_round d i = view enc.decode_round d (round_key i)

  -- `dbSetRound`
  unfoldable pub db_set_round : D → ℤ → RoundInfo → Option D
  db_set_round d i round = elim (enc.encode_round round) [
    | none ↦ none
    | some val ↦ db.commit d ((round_key i, val) ∷ [])
  ]

  -- the loop of `dbGetParticipants`
  unfoldable pub parse_participants : List (String × B) → Option (Map String ℤ)
  parse_participants [] = some []
  parse_participants ((p, v) ∷ es) = elim (enc.decode_id v) [
    | none ↦ none
    | some id ↦ elim (parse_participants es) [ none ↦ none | some m ↦ some (store p id m) ]
  ]

  -- `dbGetParticipants`
  unfoldable pub db_get_participants : D → Option (Map String ℤ)
  unfolding parse_participants
  db_get_participants d = elim (db.participant_entries d) [
    | none ↦ none
    | some es ↦ parse_participants es
  ]

  -- the loop of `dbSetParticipants`
  unfoldable pub participant_entries_of : Map String ℤ → List (DbKey × B)
  participant_entries_of [] = []
  participant_entries_of ((p, id) ∷ m) =
      (participant_key p, enc.encode_id id) ∷ participant_entries_of m

  -- `dbSetParticipants`
  unfoldable pub db_set_participants : D → Map String ℤ → Option D
  unfolding participant_entries_of
  db_set_participants d participants = db.commit d (participant_entries_of participants)

  -- `dbGetBlock`
  unfoldable pub db_get_block : D → ℤ → DbResult Block
  db_get_block d i = view enc.decode_block d (block_key i)

  -- `dbSetBlock`
  unfoldable pub db_set_block : D → Block → Option D
  db_set_block d block = elim (enc.encode_block block) [
    | none ↦ none
    | some val ↦ db.commit d ((block_key block.body.index, val) ∷ [])
  ]
