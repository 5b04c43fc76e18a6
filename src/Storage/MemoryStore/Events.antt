-- ===== src/Storage/MemoryStore/Events.antt =====
-- The events of a participant in storage/memory_store.go: a new comet becomes its creator's last event.
use paradigm.Prelude.{
  String, ◌≡◌, refl, ◌≢◌, false, List, [], ◌∷◌, ◌++◌, arith, length, pos, nat_eq, int_eq, string_eq,
  pair_eq, ==_ne,
}
use paradigm.Common.Errors.{ok, err, new_store_err, key_not_found, text}
use paradigm.Common.Lru
use paradigm.Common.RollingIndexMap.{last_of}
use paradigm.Storage.Caches.Events.{HasEvents, last_name, set_item-HasEvents, get_last_event_lem}
use paradigm.Storage.MemoryStore.{
  InmemStore, add_participant_event, get_comet, set_comet, last_event_from,
}
use paradigm.Types.Comet.{Comet}

last_name-append : (h : List String) (x : String) → last_name (h ++ (x ∷ [])) ≡ x
unfolding last_of
last_name-append [] x = refl
last_name-append (y ∷ []) x = refl
last_name-append (y ∷ z ∷ h) x = last_name-append (z ∷ h) x

last_event_from_lem :
    (s : InmemStore) (p x : String) (h : List String)
    → HasEvents s.participant_events_cache p (h ++ (x ∷ []))
    → x ≢ ""
    → last_event_from s p ≡ ok (x, false)
unfolding last_event_from
last_event_from_lem s p x h o ne = ground (
  arith,
  get_last_event_lem s.participant_events_cache p (h ++ (x ∷ [])) o,
  last_name-append h x,
  ==_ne x "" ne,
)

-- `SetComet` of a comet that is not in the cache, whose index is the next of its creator's and whose
-- name is not "", succeeds; the store then has its name after the others of the creator, and
-- `LastEventFrom` of the creator returns it, as a comet and not a root.
pub set_comet-last_event_from :
    (s : InmemStore) (c : Comet) (h : List String)
    → HasEvents s.participant_events_cache c.creator h
    → (get_comet s c.hex).0 ≡ err (new_store_err key_not_found (text c.hex))
    → c.body.index ≡ pos (length h)
    → c.hex ≢ ""
    → (s' : InmemStore) × (set_comet s c ≡ ok s')
      × HasEvents s'.participant_events_cache c.creator (h ++ (c.hex ∷ []))
      × (last_event_from s' c.creator ≡ ok (c.hex, false))
unfolding set_comet add_participant_event get_comet
set_comet-last_event_from s c h o new next ne =
    let (pec, ran, holds) = set_item-HasEvents s.participant_events_cache c.creator h c.hex o in
    let t = (get_comet s c.hex).1 in
    let s' : InmemStore = record t {
      participant_events_cache = pec;
      event_cache = (Lru.add t.event_cache c.hex c).1;
    } in
    (s', ground arith, holds, last_event_from_lem s' c.creator c.hex h holds ne)
