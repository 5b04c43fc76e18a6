-- ===== src/Storage/BadgerStore/Coherent.antt =====
-- storage/badger_store.go: the cache in front of the database is seen in what is read of comets only by
-- their wire fields, which the database does not keep.
use paradigm.Prelude.{
  String, ◌≡◌, refl, sym, ap, ◌∙◌, ◌≢◌, ◌⊎◌, inl, inr, some, [], ◌∷◌, arith, Bool-cases,
  Option-cases, ◌==◌, nat_eq, int_eq, string_eq, pair_eq, eq_of_==, ne_of_==,
}
use mathlib.Core.Path.{subst}
use paradigm.Common.Errors.{
  Result, ok, err, panic, Result-cases, ok-injective, new_store_err, StoreErr, key_not_found, text,
}
use paradigm.Common.Lru
use paradigm.Storage.BadgerStore.{BadgerStore, get_comet, set_comet}
use paradigm.Storage.Database.{Database, Encodings, got, map_error, db_get_event, db_set_events}
use paradigm.Storage.Database.Laws.{
  IsFaithful, IsReadable, db_get_event-set_self, db_get_event-set_ne,
}
use paradigm.Storage.MemoryStore
use paradigm.Storage.MemoryStore.{InmemStore}
use paradigm.Storage.MemoryStore.Reads.{
  get_comet-get_comet, get_comet-set_comet_self, get_comet-set_comet_ne,
}
use paradigm.Storage.MemoryStore.Valid.{IsValid, get_comet-IsValid, set_comet-IsValid}
use paradigm.Types.Comet.{Comet, persisted}

err-ne-ok : {A : Type 0} {x : StoreErr} {a : A} → err x ≢ ok a
err-ne-ok h = cc

-- What is read of a comet, without its wire fields.
abbrev pub kept : Result Comet → Result Comet
kept (ok c) = ok (persisted c)
kept (err e) = err e
kept panic = panic

persisted-persisted : (c : Comet) → persisted (persisted c) ≡ persisted c
unfolding persisted
persisted-persisted c = refl

module _ {D B : Type 0} (db : Database D B) (enc : Encodings B) where
  -- Every comet of the cache is in the database, but for its wire fields.
  pub record IsCoherent (s : BadgerStore D) : Type 0 where
    pub valid : IsValid s.inmem_store
    pub agrees :
        (k : String) (c : Comet)
        → (MemoryStore.get_comet s.inmem_store k).0 ≡ ok c
        → db_get_event db enc s.db k ≡ got (persisted c)

  missing_comet :
      (m : InmemStore) (k : String)
      → ((c : Comet) × ((MemoryStore.get_comet m k).0 ≡ ok c))
        ⊎ ((MemoryStore.get_comet m k).0 ≡ err (new_store_err key_not_found (text k)))
  unfolding MemoryStore.get_comet
  missing_comet m k = elim (Option-cases (Lru.get m.event_cache k).0) [
    | inl gone ↦ inr (ground arith)
    | inr (c, here) ↦ inl (c, ground arith)
  ]

  -- In a coherent store, one whose cached comets are in the database but for their wire fields,
  -- `GetComet` returns what the database has, or its error, but for the wire fields.
  pub get_comet_refines :
      (s : BadgerStore D) (k : String)
      → IsCoherent s
      → kept (get_comet db enc s k).0 ≡ kept (map_error (db_get_event db enc s.db k) k)
  unfolding get_comet map_error
  get_comet_refines s k v = elim (missing_comet s.inmem_store k) [
    | inl (c, p) ↦ ground (arith, v.agrees k c p, persisted-persisted c)
    | inr p ↦ ground arith
  ]

  -- A read leaves a coherent store coherent, over the same database.
  pub get_comet-IsCoherent :
      (s : BadgerStore D) (k : String)
      → IsCoherent s
      → IsCoherent (get_comet db enc s k).1 × ((get_comet db enc s k).1.db ≡ s.db)
  unfolding get_comet
  get_comet-IsCoherent s k v = (
    record {
      valid = get_comet-IsValid s.inmem_store k v.valid;
      agrees = λ j c p. v.agrees j c (sym (get_comet-get_comet s.inmem_store k j v.valid) ∙ p);
    },
    refl,
  )

  module _ (faithful : IsFaithful db) (readable : IsReadable enc) where
    set_comet_ok :
        (s s' : BadgerStore D) (c : Comet)
        → set_comet db enc s c ≡ (ok tt, s')
        → (m : InmemStore) × (d : D) × (MemoryStore.set_comet s.inmem_store c ≡ ok m)
          × (db_set_events db enc s.db (c ∷ []) ≡ some d)
          × (s' ≡ record s { inmem_store = m; db = d })
    unfolding set_comet
    set_comet_ok s s' c e = elim (Result-cases (MemoryStore.set_comet s.inmem_store c)) [
      | inr (inl (x, p)) ↦ absurd (ground arith)
      | inr (inr p) ↦ absurd (ground arith)
      | inl (m, p) ↦ elim (Option-cases (db_set_events db enc s.db (c ∷ []))) [
        | inl q ↦ absurd (ground arith)
        | inr (d, q) ↦ (m, d, p, q, ground arith)
      ]
    ]

    set_comet-agrees :
        (s : BadgerStore D) (m : InmemStore) (d : D) (c : Comet) (k : String) (x : Comet)
        → IsCoherent s
        → MemoryStore.set_comet s.inmem_store c ≡ ok m
        → db_set_events db enc s.db (c ∷ []) ≡ some d
        → (MemoryStore.get_comet m k).0 ≡ ok x
        → db_get_event db enc d k ≡ got (persisted x)
    set_comet-agrees s m d c k x v p q h = elim (Bool-cases (c.hex == k)) [
      | inl same ↦
          let name = eq_of_== c.hex k same in
          let kept : c ≡ x = ok-injective (
            sym (get_comet-set_comet_self s.inmem_store m c v.valid p)
            ∙ ap (λ j. (MemoryStore.get_comet m j).0) name
            ∙ h) in
          ap (db_get_event db enc d) (sym name)
          ∙ db_get_event-set_self db enc faithful readable s.db d c q
          ∙ ap (λ y. got (persisted y)) kept
      | inr other ↦
          let ne = ne_of_== c.hex k other in
          elim (get_comet-set_comet_ne s.inmem_store m c k v.valid p ne) [
            | inl same ↦
                db_get_event-set_ne db enc faithful readable s.db d c k q ne
                ∙ v.agrees k x (sym same ∙ h)
            | inr gone ↦ absurd (err-ne-ok (sym gone ∙ h))
          ]
    ]

    get_comet-cached :
        (s : BadgerStore D) (k : String) (c : Comet)
        → (MemoryStore.get_comet s.inmem_store k).0 ≡ ok c
        → (get_comet db enc s k).0 ≡ ok c
    unfolding get_comet
    get_comet-cached s k c h = ground (arith, h)

    -- With a database that returns what was committed, and comets that are decoded as they were
    -- encoded but for their wire fields, which the encoding does not have: when `SetComet`
    -- succeeds on a coherent store, one whose cached comets are in the database but for their wire
    -- fields, the store is coherent, the comet is read back as it is from the store, and without
    -- its wire fields from the database, and every other comet is read as before, but for its
    -- wire fields, whether or not it was put out of the cache.
    pub set_comet_refines :
        (s s' : BadgerStore D) (c : Comet) (k : String)
        → IsCoherent s
        → set_comet db enc s c ≡ (ok tt, s')
        → c.hex ≢ k
        → IsCoherent s'
          × ((get_comet db enc s' c.hex).0 ≡ ok c)
          × (db_get_event db enc s'.db c.hex ≡ got (persisted c))
          × (kept (get_comet db enc s' k).0 ≡ kept (get_comet db enc s k).0)
    set_comet_refines s s' c k v e ne =
        let (m, d, p, q, left) = set_comet_ok s s' c e in
        let w : IsCoherent (record s { inmem_store = m; db = d }) = record {
          valid = set_comet-IsValid s.inmem_store m c v.valid p;
          agrees = λ j x h. set_comet-agrees s m d c j x v p q h;
        } in
        let v' = subst IsCoherent (sym left) w in
        let at_db : s'.db ≡ d = ap (λ (t : BadgerStore D). t.db) left in
        let at_cache =
          ap (λ (t : BadgerStore D). (MemoryStore.get_comet t.inmem_store c.hex).0) left in
        (
          v',
          get_comet-cached s' c.hex c
              (at_cache ∙ get_comet-set_comet_self s.inmem_store m c v.valid p),
          ap (λ t. db_get_event db enc t c.hex) at_db
              ∙ db_get_event-set_self db enc faithful readable s.db d c q,
          get_comet_refines s' k v'
              ∙ ap (λ r. kept (map_error r k))
                  (ap (λ t. db_get_event db enc t k) at_db
                    ∙ db_get_event-set_ne db enc faithful readable s.db d c k q ne)
              ∙ sym (get_comet_refines s k v),
        )
