-- ===== src/Sequentia/Store/Laws.antt =====
-- What the graph relies on of the comets of storage/store.go, and that the store of
-- storage/memory_store.go provides it.
use paradigm.Prelude.{
  String, ◌≡◌, sym, ap, ◌∙◌, ◌≢◌, ◌⊎◌, inl, inr, arith, Bool-cases, Option-cases, ◌==◌, nat_eq,
  int_eq, string_eq, pair_eq, eq_of_==, ne_of_==,
}
use paradigm.Common.Errors.{ok, panic, err, StoreErr, ok-injective}
use paradigm.Common.Lru
use paradigm.Sequentia.Store.{Store, inmem}
use paradigm.Storage.MemoryStore.{InmemStore, get_comet, set_comet}
use paradigm.Storage.MemoryStore.Reads.{
  get_comet-get_comet, get_comet-set_comet_self, get_comet-set_comet_ne,
}
use paradigm.Storage.MemoryStore.Valid.{IsValid, get_comet-IsValid, set_comet-IsValid}
use paradigm.Types.Comet.{Comet}

-- A comet that is read is one that was there or the one that was written.
pub record CometLaws {S : Type 0} (st : Store S) (IsGood : S → Type 0) : Type 0 where
  pub read-IsGood : (s : S) (k : String) → IsGood s → IsGood (st.get_comet s k).1
  pub read-read :
      (s : S) (k j : String)
      → IsGood s
      → (st.get_comet (st.get_comet s k).1 j).0 ≡ (st.get_comet s j).0
  pub write-IsGood : (s s' : S) (c : Comet) → IsGood s → st.set_comet s c ≡ ok s' → IsGood s'
  pub read-write :
      (s s' : S) (c d : Comet) (k : String)
      → IsGood s
      → st.set_comet s c ≡ ok s'
      → (st.get_comet s' k).0 ≡ ok d
      → ((c.hex ≡ k) × (c ≡ d)) ⊎ ((st.get_comet s k).0 ≡ ok d)
  pub answers : (s : S) (k : String) → (st.get_comet s k).0 ≢ panic
  -- what is there can be written again
  pub overwrite :
      (s : S) (c d : Comet)
      → IsGood s
      → (st.get_comet s c.hex).0 ≡ ok d
      → (s' : S) × (st.set_comet s c ≡ ok s')

err-ne-ok : {x : StoreErr} {c : Comet} → err x ≢ ok c
err-ne-ok h = cc

inmem-read-write :
    (s s' : InmemStore) (c d : Comet) (k : String)
    → IsValid s
    → inmem.set_comet s c ≡ ok s'
    → (inmem.get_comet s' k).0 ≡ ok d
    → ((c.hex ≡ k) × (c ≡ d)) ⊎ ((inmem.get_comet s k).0 ≡ ok d)
inmem-read-write s s' c d k v e h = elim (Bool-cases (c.hex == k)) [
  | inl same ↦
      let name = eq_of_== c.hex k same in
      inl (
        name,
        ok-injective (
            sym (get_comet-set_comet_self s s' c v e)
            ∙ ap (λ j. (inmem.get_comet s' j).0) name
            ∙ h),
      )
  | inr other ↦ elim (get_comet-set_comet_ne s s' c k v e (ne_of_== c.hex k other)) [
    | inl as_before ↦ inr (sym as_before ∙ h)
    | inr gone ↦ absurd (err-ne-ok (sym gone ∙ h))
  ]
]

inmem-overwrite :
    (s : InmemStore) (c d : Comet)
    → IsValid s
    → (inmem.get_comet s c.hex).0 ≡ ok d
    → (s' : InmemStore) × (inmem.set_comet s c ≡ ok s')
unfolding set_comet
inmem-overwrite s c d v h =
    let t = (inmem.get_comet s c.hex).1 in
    (record t { event_cache = (Lru.add t.event_cache c.hex c).1 }, ground (arith, h))

inmem-answers : (s : InmemStore) (k : String) → (inmem.get_comet s k).0 ≢ panic
unfolding get_comet
inmem-answers s k h = elim (Option-cases (Lru.get s.event_cache k).0) [
  | inl gone ↦ absurd (ground arith)
  | inr (c, here) ↦ absurd (ground arith)
]

pub inmem-CometLaws : CometLaws inmem IsValid
inmem-CometLaws = record {
  read-IsGood = get_comet-IsValid;
  read-read = get_comet-get_comet;
  write-IsGood = set_comet-IsValid;
  read-write = inmem-read-write;
  overwrite = inmem-overwrite;
  answers = inmem-answers;
}
