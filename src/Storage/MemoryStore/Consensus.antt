-- ===== src/Storage/MemoryStore/Consensus.antt =====
-- The consensus events of storage/memory_store.go.
use paradigm.Prelude.{
  ℕ, ◌+◌, ◌<◌, String, ◌≡◌, refl, List, [], ◌∷◌, ◌++◌, arith, length, length-append, ℤ, nat_eq,
  int_eq, string_eq, pair_eq, Map,
}
use paradigm.Common.Errors.{ok}
use paradigm.Storage.MemoryStore.{InmemStore, new_inmem_store, add_consensus_event}
use paradigm.Common.RollingIndex.History.{Tracks, set_item-Tracks, new-Tracks}

-- The store has been given the consensus events `h`, in this order.
pub record HasOrdered (s : InmemStore) (h : List String) : Type 0 where
  pub window : Tracks s.consensus_cache h
  pub counted : s.tot_consensus_events ≡ length h

pub new_inmem_store-HasOrdered :
    (participants : Map String ℤ) (size : ℕ)
    → 0 < size
    → HasOrdered (new_inmem_store participants size) []
unfolding new_inmem_store
new_inmem_store-HasOrdered participants size h = record {
  window = new-Tracks size h;
  counted = refl;
}

-- In a store that has been given `h`, `AddConsensusEvent` succeeds and the store has then been given
-- the event, too, after those of `h`.
pub add_consensus_event_lem :
    (s : InmemStore) (h : List String) (key : String)
    → HasOrdered s h
    → (s' : InmemStore) × (add_consensus_event s key ≡ ok s') × HasOrdered s' (h ++ (key ∷ []))
unfolding add_consensus_event
add_consensus_event_lem s h key o =
    let (cache, done, tracks) = set_item-Tracks s.consensus_cache h key o.window in
    (
      record s { consensus_cache = cache; tot_consensus_events = s.tot_consensus_events + 1 },
      ground (arith, o.counted),
      record { window = tracks; counted = omega (arith, length-append h (key ∷ []), o.counted) },
    )
