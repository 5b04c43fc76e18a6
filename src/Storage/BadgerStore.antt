-- ===== src/Storage/BadgerStore.antt =====
-- storage/badger_store.go: the store of a node that keeps its data in a database, behind the caches of
-- an in-memory store. A method returns its result and the store that it leaves; opening and closing the
-- files, and logging, are left out. The loops over the database take fuel.
use paradigm.Prelude.{
  ℕ, String, Bool, Option, none, some, List, [], ◌∷◌, if◌then◌else◌, length, ℤ, pos, negsuc, nat_eq,
  int_eq, string_eq, pair_eq, Map, store,
}
pub mod Coherent
use mathlib.Core.Option
use paradigm.Common.Errors.{Result, ok, err, panic, new_store_err, key_not_found, other_kind, text}
use paradigm.Storage.Database.{
  DbKey, Database, Encodings, DbResult, got, absent, broken, broken_err, map_error,
  participant_event_key, participant_root_key, round_key, block_key, db_get_event, db_set_events,
  db_topological_events, db_participant_events, db_participant_event, db_set_roots, db_get_root,
  db_get_round, db_set_round, db_get_participants, db_set_participants, db_get_block, db_set_block,
}
use paradigm.Storage.MemoryStore
use paradigm.Storage.MemoryStore.{InmemStore, new_inmem_store}
use paradigm.Types.Block.{Block}
use paradigm.Types.Comet.{Comet}
use paradigm.Types.Root.{Root}
use paradigm.Types.RoundInfo.{RoundInfo, new_round_info, witnesses}

pub record BadgerStore (D : Type 0) : Type 0 where
  pub participants : Map String ℤ
  pub inmem_store : InmemStore
  pub db : D

-- a result, else that of the database
abbrev pub or_else : {A : Type 0} → Result A → Result A → Result A
or_else (ok a) other = ok a
or_else (err e) other = other
or_else panic other = panic

-- the round of a result, a new one if there is none
abbrev pub round_or_new : Result RoundInfo → RoundInfo
round_or_new (ok info) = info
round_or_new _ = new_round_info

-- the result of a write to the database
abbrev pub written : {D : Type 0} → BadgerStore D → Option D → Result (Unit {0}) × BadgerStore D
written s none = (broken_err, s)
written s (some d) = (ok tt, record s { db = d })

module _ {D B : Type 0} (db : Database D B) (enc : Encodings B) where
  -- `NewBadgerStore`, of a database that has been opened
  unfoldable pub new_badger_store : Map String ℤ → ℕ → D → Option (BadgerStore D)
  new_badger_store participants cache_size d =
      let m = new_inmem_store participants cache_size in
      elim (db_set_participants db enc d participants) [
        | none ↦ none
        | some d' ↦ elim (db_set_roots db enc d' m.roots) [
          | none ↦ none
          | some d'' ↦ some (record { participants = participants; inmem_store = m; db = d'' })
        ]
      ]

  -- the loop over the participants of `LoadBadgerStore`
  unfoldable pub load_roots : D → Map String ℤ → Option (Map String Root)
  load_roots d [] = some []
  load_roots d ((p, id) ∷ m) = elim (db_get_root db enc d p) [
    | got root ↦ elim (load_roots d m) [ none ↦ none | some roots ↦ some (store p root roots) ]
    | absent ↦ none
    | broken ↦ none
  ]

  -- `LoadBadgerStore`, of a database that has been opened
  unfoldable pub load_badger_store : ℕ → D → Option (BadgerStore D)
  unfolding load_roots
  load_badger_store cache_size d = elim (db_get_participants db enc d) [
    | none ↦ none
    | some participants ↦ elim (load_roots d participants) [
      | none ↦ none
      | some roots ↦ some (record {
        participants = participants;
        inmem_store = MemoryStore.reset (new_inmem_store participants cache_size) roots;
        db = d;
      })
    ]
  ]

  -- `GetComet`
  unfoldable pub get_comet : BadgerStore D → String → Result Comet × BadgerStore D
  get_comet s key =
      let (res, m) = MemoryStore.get_comet s.inmem_store key in
      (or_else res (map_error (db_get_event db enc s.db key) key), record s { inmem_store = m })

  -- `SetComet`
  unfoldable pub set_comet : BadgerStore D → Comet → Result (Unit {0}) × BadgerStore D
  set_comet s comet = elim (MemoryStore.set_comet s.inmem_store comet) [
    | panic ↦ (panic, s)
    | err e ↦ (err e, s)
    | ok m ↦ written (record s { inmem_store = m }) (db_set_events db enc s.db (comet ∷ []))
  ]

  -- `ParticipantEvents`
  unfoldable pub participant_events : ℕ → BadgerStore D → String → ℤ → Result (List String)
  participant_events fuel s participant skip =
      let other = db_participant_events db enc fuel s.db participant skip in
      or_else (MemoryStore.participant_events s.inmem_store participant skip) other

  -- `ParticipantEvent`
  unfoldable pub participant_event : BadgerStore D → String → ℤ → Result String
  participant_event s participant i =
      or_else (MemoryStore.participant_event s.inmem_store participant i) (
        map_error (db_participant_event db enc s.db participant i)
          (enc.print (participant_event_key participant i)))

  -- `LastEventFrom`
  unfoldable pub last_event_from : BadgerStore D → String → Result (String × Bool)
  last_event_from s participant = MemoryStore.last_event_from s.inmem_store participant

  -- the index that `KnownEvents` gives a participant: for a root it is set only if `GetRoot` fails, from
  -- the zero root; `LastEventFrom` does not panic
  unfoldable pub known_index_of : BadgerStore D → String → ℤ × BadgerStore D
  unfolding last_event_from get_comet
  known_index_of s p = elim (last_event_from s p) [
    | err e ↦ (negsuc 0, s)
    | panic ↦ (negsuc 0, s)
    | ok (last, is_root) ↦
        if is_root
        then (
          (elim (or_else (MemoryStore.get_root s.inmem_store p)
              (map_error (db_get_root db enc s.db p) (enc.print (participant_root_key p)))) [
                | ok root ↦ negsuc 0
                | _ ↦ pos 0
              ]),
          s,
        )
        else let (res, s') = get_comet s last in
          ((elim res [ ok c ↦ c.body.index | _ ↦ negsuc 0 ]), s')
  ]

  -- the loop of `KnownEvents`
  unfoldable pub known_of : BadgerStore D → Map String ℤ → Map ℤ ℤ × BadgerStore D
  unfolding known_index_of
  known_of s [] = ([], s)
  known_of s ((p, pid) ∷ ps) =
      let (i, s') = known_index_of s p in
      let (rest, s'') = known_of s' ps in (store pid i rest, s'')

  -- `KnownEvents`
  unfoldable pub known_events : BadgerStore D → Map ℤ ℤ × BadgerStore D
  unfolding known_of
  known_events s = known_of s s.participants

  -- `AddConsensusEvent`
  unfoldable pub add_consensus_event : BadgerStore D → String → Result (BadgerStore D)
  add_consensus_event s key = elim (MemoryStore.add_consensus_event s.inmem_store key) [
    | ok m ↦ ok (record s { inmem_store = m })
    | err e ↦ err e
    | panic ↦ panic
  ]

  -- `GetRound`: a missing round is given as a new one, with the error
  unfoldable pub get_round : BadgerStore D → ℤ → Result RoundInfo × RoundInfo × BadgerStore D
  get_round s r =
      let (res, old, m) = MemoryStore.get_round s.inmem_store r in
      let out = or_else res (map_error (db_get_round db enc s.db r) (enc.print (round_key r))) in
      (out, round_or_new out, record s { inmem_store = m })

  -- `SetRound`
  unfoldable pub set_round : BadgerStore D → ℤ → RoundInfo → Result (Unit {0}) × BadgerStore D
  set_round s r round =
      written (record s { inmem_store = MemoryStore.set_round s.inmem_store r round })
        (db_set_round db enc s.db r round)

  -- `RoundWitnesses`
  unfoldable pub round_witnesses : BadgerStore D → ℤ → List String × BadgerStore D
  unfolding get_round
  round_witnesses s r =
      let (res, round, s') = get_round s r in ((elim res [ ok info ↦ witnesses info | _ ↦ [] ]), s')

  -- `RoundEvents`
  unfoldable pub round_events : BadgerStore D → ℤ → ℕ × BadgerStore D
  unfolding get_round
  round_events s r =
      let (res, round, s') = get_round s r in
      ((elim res [ ok info ↦ length info.events | _ ↦ 0 ]), s')

  -- `GetRoot`
  unfoldable pub get_root : BadgerStore D → String → Result Root
  get_root s participant = or_else (MemoryStore.get_root s.inmem_store participant) (
      map_error (db_get_root db enc s.db participant)
        (enc.print (participant_root_key participant)))

  -- `GetBlock`
  unfoldable pub get_block : BadgerStore D → ℤ → Result Block × BadgerStore D
  get_block s rr =
      let (res, m) = MemoryStore.get_block s.inmem_store rr in
      (
        or_else res (map_error (db_get_block db enc s.db rr) (enc.print (block_key rr))),
        record s { inmem_store = m },
      )

  -- `SetBlock`
  unfoldable pub set_block : BadgerStore D → Block → Result (Unit {0}) × BadgerStore D
  set_block s block =
      written (record s { inmem_store = MemoryStore.set_block s.inmem_store block })
        (db_set_block db enc s.db block)

  -- `Reset`: the database stays as it is
  unfoldable pub reset : BadgerStore D → Map String Root → BadgerStore D
  reset s roots = record s { inmem_store = MemoryStore.reset s.inmem_store roots }
