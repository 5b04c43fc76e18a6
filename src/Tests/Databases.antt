-- ===== src/Tests/Databases.antt =====
-- storage/badger_store.go over a database that is a log of what was set.
use paradigm.Prelude.{
  ℕ, zero, suc, String, ◌≡◌, refl, sym, ap, ◌∙◌, ◌≢◌, inl, inr, Bool, true, false, none, some, List,
  [], ◌∷◌, ◌++◌, arith, if◌then◌else◌, Bool-cases, ℤ, pos, pos_part, ◌+ℤ◌, ◌==◌, nat_eq, int_eq,
  string_eq, pair_eq, ==_refl, eq_of_==, ne_of_==, find, store, discard,
}
use mathlib.Core.Path.{subst}
use paradigm.Common.Errors.{ok}
use paradigm.Common.Lru
use paradigm.Common.Lru.{Lru, new_lru}
use paradigm.Common.Lru.Elements.{list_remove, move_to_front, set_value, back, element_at}
use paradigm.Common.RollingIndex
use paradigm.Common.RollingIndexMap
use paradigm.Storage.BadgerStore.{BadgerStore, set_comet, get_comet}
use paradigm.Storage.BadgerStore.Coherent.{IsCoherent, kept, set_comet_refines, get_comet_refines}
use paradigm.Storage.Caches
use paradigm.Storage.Database.{
  DbKey, comet_key, topological_event_key, participant_key, participant_event_key,
  participant_root_key, round_key, block_key, Found, found, missing, failing, unreadable, Database,
  Encodings, got, map_error, db_get_event, db_set_events, set_events, is_new, is_written,
}
use paradigm.Storage.Database.Laws.{NotSet, IsFaithful, IsReadable}
use paradigm.Storage.MemoryStore
use paradigm.Storage.MemoryStore.{InmemStore, new_inmem_store}
use paradigm.Storage.MemoryStore.Valid.{new_inmem_store-IsValid}
use paradigm.Tests.Stores.{named, members}
use paradigm.Types.Comet.{Comet, persisted}
use paradigm.Types.RoundInfo.{RoundInfo}

data Bytes : Type 0 where
  of_comet : Comet → Bytes
  of_round : RoundInfo → Bytes
  of_name : String → Bytes
  other : Bytes

abbrev plain : Encodings Bytes
plain = record {
  encode_comet = λ c. some (of_comet c);
  decode_comet = λ b. elim b [
    | of_comet c ↦ some (persisted c)
    | of_round r ↦ none
    | of_name x ↦ none
    | other ↦ none
  ];
  encode_root = λ r. none;
  decode_root = λ b. none;
  encode_round = λ r. some (of_round r);
  decode_round =
      λ b. elim b [ of_comet c ↦ none | of_round r ↦ some r | of_name x ↦ none | other ↦ none ];
  encode_block = λ b. none;
  decode_block = λ b. none;
  encode_name = λ x. of_name x;
  decode_name = λ b. elim b [ of_comet c ↦ "" | of_round r ↦ "" | of_name x ↦ x | other ↦ "" ];
  encode_id = λ i. other;
  decode_id = λ b. none;
  print = λ k. "";
}

plain-IsReadable : IsReadable plain
plain-IsReadable = record {
  comets = λ c b e. ground (arith, e);
  rounds = λ r b e. ground (arith, e);
}

-- A key as a number for its kind, a name and a number.
abbrev code : DbKey → ℕ × (String × ℤ)
code (comet_key x) = (0, (x, pos 0))
code (topological_event_key i) = (1, ("", pos i))
code (participant_key x) = (2, (x, pos 0))
code (participant_event_key x i) = (3, (x, i))
code (participant_root_key x) = (4, (x, pos 0))
code (round_key i) = (5, ("", i))
code (block_key i) = (6, ("", i))

abbrev of_code : ℕ → String → ℤ → DbKey
of_code zero x i = comet_key x
of_code (suc zero) x i = topological_event_key (pos_part i)
of_code (suc (suc zero)) x i = participant_key x
of_code (suc (suc (suc zero))) x i = participant_event_key x i
of_code (suc (suc (suc (suc zero)))) x i = participant_root_key x
of_code (suc (suc (suc (suc (suc zero))))) x i = round_key i
of_code (suc (suc (suc (suc (suc (suc n)))))) x i = block_key i

of_code-code : (k : DbKey) → of_code (code k).0 (code k).1.0 (code k).1.1 ≡ k
of_code-code (comet_key x) = refl
of_code-code (topological_event_key i) = refl
of_code-code (participant_key x) = refl
of_code-code (participant_event_key x i) = refl
of_code-code (participant_root_key x) = refl
of_code-code (round_key i) = refl
of_code-code (block_key i) = refl

abbrev same_key : DbKey → DbKey → Bool
same_key j k = code j == code k

abbrev Log : Type 0
Log = List (DbKey × Bytes)

-- The last value that was set.
abbrev look : Log → DbKey → Found Bytes
look [] k = missing
look ((j, v) ∷ ws) k = elim (look ws k) [
  | missing ↦ if same_key j k then found v else missing
  | found w ↦ found w
  | failing ↦ failing
  | unreadable ↦ unreadable
]

same_key_sound : (j k : DbKey) → same_key j k ≡ true → j ≡ k
same_key_sound j k h =
    sym (of_code-code j)
    ∙ ap (λ (c : ℕ × (String × ℤ)). of_code c.0 c.1.0 c.1.1) (eq_of_== (code j) (code k) h)
    ∙ of_code-code k

same_key_ne : (j k : DbKey) → j ≢ k → same_key j k ≡ false
same_key_ne j k ne = elim (Bool-cases (same_key j k)) [
  | inl y ↦ absurd (ne (same_key_sound j k y))
  | inr n ↦ n
]

look-NotSet : (ws : Log) (k : DbKey) → NotSet k ws → look ws k ≡ missing
look-NotSet [] k n = refl
look-NotSet ((j, v) ∷ ws) k (ne, n) =
    let rest = look-NotSet ws k n in let other = same_key_ne j k ne in rw (rest, other) refl

look-found :
    (old ws : Log) (k : DbKey) (v : Bytes) → look ws k ≡ found v → look (old ++ ws) k ≡ found v
look-found [] ws k v h = h
look-found ((j, w) ∷ old) ws k v h = rw (look-found old ws k v h) refl

look-missing : (old ws : Log) (k : DbKey) → look ws k ≡ missing → look (old ++ ws) k ≡ look old k
look-missing [] ws k h = h
look-missing ((j, w) ∷ old) ws k h = rw (look-missing old ws k h) refl

look-set : (post : Log) (k : DbKey) (v : Bytes) → NotSet k post → look ((k, v) ∷ post) k ≡ found v
look-set post k v n =
    let rest = look-NotSet post k n in let same = ==_refl (code k) in rw (rest, same) refl

abbrev logged : Database Log Bytes
logged = record { get = look; commit = λ d ws. some (d ++ ws); participant_entries = λ d. some [] }

logged-IsFaithful : IsFaithful logged
logged-IsFaithful = record {
  reads_set = λ d d' pre post k v e n.
      let now : d ++ (pre ++ ((k, v) ∷ post)) ≡ d' = ground (arith, e) in
      subst (λ x. look x k ≡ found v) now
        (look-found d (pre ++ ((k, v) ∷ post)) k v
          (look-found pre ((k, v) ∷ post) k v (look-set post k v n)));
  reads_other = λ d d' ws k e n.
      let now : d ++ ws ≡ d' = ground (arith, e) in
      subst (λ x. look x k ≡ look d k) now (look-missing d ws k (look-NotSet ws k n));
}

-- A store with room for one comet in its cache.
abbrev empty_badger : BadgerStore Log
empty_badger = record { participants = members; inmem_store = new_inmem_store members 1; db = [] }

nothing_there :
    (k : String) (c : Comet) → (MemoryStore.get_comet empty_badger.inmem_store k).0 ≢ ok c
unfolding MemoryStore.get_comet new_inmem_store new_lru Lru.get find
nothing_there k c h = cc

empty-IsCoherent : IsCoherent logged plain empty_badger
empty-IsCoherent = record {
  valid = new_inmem_store-IsValid members 1 (omega arith);
  agrees = λ k c e. absurd (nothing_there k c e);
}

abbrev one_stored : BadgerStore Log
one_stored = (set_comet logged plain empty_badger (named "a" "p" (pos 0))).1

abbrev two_stored : BadgerStore Log
two_stored = (set_comet logged plain one_stored (named "b" "p" (pos 1))).1

stores_one : set_comet logged plain empty_badger (named "a" "p" (pos 0)) ≡ (ok tt, one_stored)
unfolding set_comet db_set_events set_events is_new is_written MemoryStore.set_comet
    MemoryStore.get_comet MemoryStore.add_participant_event new_inmem_store new_lru Lru.get Lru.add
    Lru.push_front Lru.remove_oldest Lru.remove_element list_remove move_to_front set_value back
    element_at find store discard Caches.set_item Caches.participant_id Caches.new_participant_cache
    Caches.get_values RollingIndexMap.new_rolling_index_map RollingIndexMap.fresh_mapping
    RollingIndexMap.set_item RollingIndex.new_rolling_index RollingIndex.set_item
    RollingIndex.append RollingIndex.roll
stores_one = refl

stores_two : set_comet logged plain one_stored (named "b" "p" (pos 1)) ≡ (ok tt, two_stored)
unfolding set_comet db_set_events set_events is_new is_written MemoryStore.set_comet
    MemoryStore.get_comet MemoryStore.add_participant_event new_inmem_store new_lru Lru.get Lru.add
    Lru.push_front Lru.remove_oldest Lru.remove_element list_remove move_to_front set_value back
    element_at find store discard Caches.set_item Caches.participant_id Caches.new_participant_cache
    Caches.get_values RollingIndexMap.new_rolling_index_map RollingIndexMap.fresh_mapping
    RollingIndexMap.set_item RollingIndex.new_rolling_index RollingIndex.set_item
    RollingIndex.append RollingIndex.roll ◌+ℤ◌
stores_two = refl

one-IsCoherent : IsCoherent logged plain one_stored
one-IsCoherent =
    (set_comet_refines logged plain logged-IsFaithful plain-IsReadable empty_badger one_stored
      (named "a" "p" (pos 0)) "b" empty-IsCoherent stores_one (ne_of_== "a" "b" refl)).0

-- The second comet takes the place of the first in the cache.
set_comet_refines_example :
    IsCoherent logged plain two_stored
    × ((get_comet logged plain two_stored "b").0 ≡ ok (named "b" "p" (pos 1)))
    × (db_get_event logged plain two_stored.db "b" ≡ got (persisted (named "b" "p" (pos 1))))
    × (kept (get_comet logged plain two_stored "a").0
        ≡ kept (get_comet logged plain one_stored "a").0)
set_comet_refines_example =
    set_comet_refines logged plain logged-IsFaithful plain-IsReadable one_stored two_stored
      (named "b" "p" (pos 1)) "a" one-IsCoherent stores_two (ne_of_== "b" "a" refl)

get_comet_refines_example :
    kept (get_comet logged plain one_stored "a").0
    ≡ kept (map_error (db_get_event logged plain one_stored.db "a") "a")
get_comet_refines_example = get_comet_refines logged plain one_stored "a" one-IsCoherent
