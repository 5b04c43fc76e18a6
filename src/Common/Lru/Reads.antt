-- ===== src/Common/Lru/Reads.antt =====
-- What `Get` of common/lru.go returns after another call.
use paradigm.Prelude.{
  ℕ, zero, suc, ◌-◌, ◌<◌, ◌≡◌, refl, ◌≢◌, ◌⊎◌, inl, inr, none, some, [], ◌∷◌, arith, Bool-cases,
  take, Comparable, ◌==◌, nat_eq, int_eq, string_eq, pair_eq, ==_refl, Map, find, find-discard,
}
use paradigm.Common.Lru.{Lru, add, get}
use paradigm.Common.Lru.Valid.{IsValid}
use paradigm.Common.Lru.Spec.{view, touch}
use paradigm.Common.Lru.Get.{get_refines, get-IsValid}
use paradigm.Common.Lru.Add.{add_refines, add-IsValid}

module _ {ℓ} {K V : Type ℓ} ⦃e : Comparable K⦄ where
  find-take :
      (j : K) (n : ℕ) (m : Map K V) → (find j (take n m) ≡ find j m) ⊎ (find j (take n m) ≡ none)
  unfolding find
  find-take j zero m = inr refl
  find-take j (suc n) [] = inl refl
  find-take j (suc n) ((i, w) ∷ m) = elim (Bool-cases (i == j)) [
    | inl p ↦ inl (rw p)
    | inr p ↦ elim (find-take j n m) [ inl q ↦ inl (rw p q) | inr q ↦ inr (rw p q) ]
  ]

  pub get-find : (c : Lru K V) (k : K) → IsValid c → (get c k).0 ≡ find k (view c)
  get-find c k v = ground (arith, get_refines c k v)

  -- A `Get` leaves what a later `Get` of any key returns.
  pub get-get : (c : Lru K V) (k j : K) → IsValid c → (get (get c k).1 j).0 ≡ (get c j).0
  unfolding find
  get-get c k j v =
      rw (get-find (get c k).1 j (get-IsValid c k v), get-find c j v)
        (ground (arith, get_refines c k v, find-discard k j (view c), e.equal_iff k j))

  -- A `Get` after an `Add` of the key returns the value, unless nothing is ever kept.
  pub get-add_self :
      (c : Lru K V) (k : K) (w : V) → IsValid c → 0 < c.size → (get (add c k w).1 k).0 ≡ some w
  unfolding find
  get-add_self c k w v pos_size =
      rw (get-find (add c k w).1 k (add-IsValid c k w v), (add_refines c k w v).0)
        (let q : c.size ≡ suc (c.size - 1) = omega arith in rw (q, ==_refl k))

  -- A `Get` of another key returns what it did, or nothing, if its entry was evicted.
  pub get-add_ne :
      (c : Lru K V) (k j : K) (w : V)
      → IsValid c
      → k ≢ j
      → ((get (add c k w).1 j).0 ≡ (get c j).0) ⊎ ((get (add c k w).1 j).0 ≡ none)
  unfolding find
  get-add_ne c k j w v ne =
      rw (get-find (add c k w).1 j (add-IsValid c k w v), (add_refines c k w v).0, get-find c j v)
        (let same : find j (touch k w (view c)) ≡ find j (view c) =
            ground (arith, find-discard k j (view c), e.equal_iff k j) in
          rw (← same) (find-take j c.size (touch k w (view c))))
