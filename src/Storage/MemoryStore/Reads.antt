-- ===== src/Storage/MemoryStore/Reads.antt =====
-- What a read of storage/memory_store.go returns after a write or another read.
use paradigm.Prelude.{
  String, ◌≡◌, sym, ap, ◌∙◌, ◌≢◌, ◌⊎◌, inl, inr, Option, arith, ℤ, ◌≤ℤ◌, nat_eq, int_eq, string_eq,
  pair_eq,
}
use paradigm.Common.Errors.{Result, ok, err, new_store_err, key_not_found, itoa, text}
use paradigm.Common.Lru
use paradigm.Common.Lru.{Lru, new_lru}
use paradigm.Types.Block.{Block}
use paradigm.Types.Comet.{Comet}
use paradigm.Types.RoundInfo.{RoundInfo}
use paradigm.Storage.MemoryStore.{
  InmemStore, get_comet, set_comet, get_round, set_round, get_block, set_block, found_or,
}
use paradigm.Common.Lru.Get.{get-IsValid}
use paradigm.Common.Lru.Reads.{get-get, get-add_self, get-add_ne}
use paradigm.Common.Lru.Runs.{size-get}
use mathlib.Core.Path.{subst}
use paradigm.Storage.MemoryStore.Valid.{IsValid, get_comet-IsValid, set_comet_ok}

-- In a valid store, a read of a comet changes no later read of a comet.
pub get_comet-get_comet :
    (s : InmemStore) (k j : String)
    → IsValid s
    → (get_comet (get_comet s k).1 j).0 ≡ (get_comet s j).0
unfolding get_comet
get_comet-get_comet s k j v =
    ap (λ r. found_or r (err (new_store_err key_not_found (text j))) (λ c. ok c))
      (get-get s.event_cache k j v.events)

-- The outcome of a read of `k` whose LRU gave `r`.
abbrev outcome : String → Option Comet → Result Comet
outcome k r = found_or r (err (new_store_err key_not_found (text k))) (λ c. ok c)

-- In a valid store, a comet that was stored is read back.
pub get_comet-set_comet_self :
    (s s' : InmemStore) (c : Comet)
    → IsValid s
    → set_comet s c ≡ ok s'
    → (get_comet s' c.hex).0 ≡ ok c
unfolding get_comet
get_comet-set_comet_self s s' c v e =
    let w = get_comet-IsValid s c.hex v in
    subst (λ (x : InmemStore). (get_comet x c.hex).0 ≡ ok c) (sym (set_comet_ok s s' c e))
      (ap (outcome c.hex) (
        get-add_self (get_comet s c.hex).1.event_cache c.hex c w.events
          (rw w.events_size w.positive)))

-- In a valid store, another comet is read as before a comet was stored, or is no longer found.
pub get_comet-set_comet_ne :
    (s s' : InmemStore) (c : Comet) (k : String)
    → IsValid s
    → set_comet s c ≡ ok s'
    → c.hex ≢ k
    → ((get_comet s' k).0 ≡ (get_comet s k).0)
      ⊎ ((get_comet s' k).0 ≡ err (new_store_err key_not_found (text k)))
unfolding get_comet
get_comet-set_comet_ne s s' c k v e ne =
    subst
      (λ (x : InmemStore).
        ((get_comet x k).0 ≡ (get_comet s k).0)
        ⊎ ((get_comet x k).0 ≡ err (new_store_err key_not_found (text k))))
      (sym (set_comet_ok s s' c e))
      (elim (get-add_ne (get_comet s c.hex).1.event_cache c.hex k c
        (get_comet-IsValid s c.hex v).events ne) [
          | inl same ↦ inl (ap (outcome k) (same ∙ get-get s.event_cache c.hex k v.events))
          | inr gone ↦ inr (ap (outcome k) gone)
        ])

-- In a valid store, a round that was stored is read back, and the last round is then the later of the
-- stored round and the last round before.
pub get_round-set_round :
    (s : InmemStore) (r : ℤ) (info : RoundInfo)
    → IsValid s
    → ((get_round (set_round s r info) r).0 ≡ ok info)
      × (r ≤ℤ (set_round s r info).last_round)
      × (s.last_round ≤ℤ (set_round s r info).last_round)
      × (((set_round s r info).last_round ≡ r) ⊎ ((set_round s r info).last_round ≡ s.last_round))
unfolding get_round set_round
get_round-set_round s r info v = (
  ap (λ q. found_or q (err (new_store_err key_not_found (itoa r))) (λ x. ok x))
      (get-add_self s.round_cache r info v.rounds (rw v.rounds_size v.positive)),
  ground arith,
  ground arith,
  ground arith,
)

-- In a valid store, a block that was stored is read back by its index.
pub get_block-set_block :
    (s : InmemStore) (b : Block) → IsValid s → (get_block (set_block s b) b.body.index).0 ≡ ok b
unfolding get_block set_block
get_block-set_block s b v =
    ap (λ q. found_or q (err (new_store_err key_not_found (itoa b.body.index))) (λ x. ok x))
      (get-add_self (Lru.get s.block_cache b.body.index).1 b.body.index b
        (get-IsValid s.block_cache b.body.index v.blocks) (rw (size-get, v.blocks_size) v.positive))
