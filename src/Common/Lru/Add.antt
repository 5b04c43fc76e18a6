-- ===== src/Common/Lru/Add.antt =====
-- `Add` of common/lru.go against its specification.
use paradigm.Prelude.{
  ◌≤◌, ◌<◌, ◌≡◌, refl, inl, inr, true, false, some, List, [], ◌∷◌, arith, ltb, length, Comparable,
  nat_eq, int_eq, string_eq, pair_eq,
}
use paradigm.Common.Lru.{Lru, remove_element, remove_oldest, push_front, add}
use paradigm.Common.Lru.Valid.{
  IsValid, IsLinked-of, remove_element-IsLinked, push_front-IsLinked, find_cases, Miss, Hit,
  in_front, in_front-IsLinked,
}
use paradigm.Common.Lru.Elements.{
  Element, set_value, back, length-list_remove, back_lem, length-entries,
}
use native.Mathlib.Decide.{dec_lt}
use paradigm.Common.Lru.Spec.{view, touch, spec_add, length-discard, take-all}
use paradigm.Common.Lru.Get.{IsValid-of}

module _ {ℓ} {K V : Type ℓ} ⦃e : Comparable K⦄ where
  abbrev with_value : Element K V → V → Element K V
  with_value x v = record x { value = v }

  add-Hit :
      (c : Lru K V) (k : K) (v : V) (h : Hit c k)
      → add c k v ≡ (false, in_front c (with_value h.elem v))
  unfolding add set_value
  add-Hit c k v h = ground arith

  add-Miss_fits :
      (c : Lru K V) (k : K) (v : V)
      → Miss c k
      → length c.evict_list < c.size
      → add c k v ≡ (false, push_front c k v)
  unfolding add push_front
  add-Miss_fits c k v h fits = ground arith

  back-some :
      (x : Element K V) (l : List (Element K V)) → (y : Element K V) × (back (x ∷ l) ≡ some y)
  unfolding back
  back-some x [] = (x, refl)
  back-some x (z ∷ l) = back-some z l

  -- The last element goes when the new one does not fit.
  add-Miss_full :
      (c : Lru K V) (k : K) (v : V)
      → Miss c k
      → c.size ≤ length c.evict_list
      → (y : Element K V) × (add c k v ≡ (true, remove_element (push_front c k v) y))
        × (back (push_front c k v).evict_list ≡ some y)
  unfolding add remove_oldest push_front
  add-Miss_full c k v h full =
      let (y, last) = back-some (record { addr = c.fresh; key = k; value = v }) c.evict_list in
      (y, ground arith, last)

  -- In a valid cache, `Add` leaves the pair in front of the other pairs, of which the oldest goes if there are more than
  -- `size`, and says whether one went.
  pub add_refines :
      (c : Lru K V) (k : K) (v : V)
      → IsValid c
      → let (evicted, c') = add c k v in
        (view c' ≡ spec_add c.size (view c) k v)
        × (evicted ≡ ltb c.size (length (touch k v (view c))))
  unfolding push_front remove_element
  add_refines c k v valid = elim (find_cases c k (IsLinked-of valid)) [
    | inl miss ↦ elim (dec_lt (length c.evict_list) c.size) [
      | yes fits ↦
          rw (add-Miss_fits c k v miss fits)
            (ground (arith, take-all c.size (touch k v (view c)), length-entries c.evict_list))
      | no full ↦
          let (y, done, last) = add-Miss_full c k v miss (omega arith) in
          let linked = push_front-IsLinked c k v (IsLinked-of valid) miss.unnamed in
          let e : length c.evict_list ≡ c.size = omega (arith, valid.bounded) in
          rw done (
            ground (
              arith,
              back_lem (push_front c k v).evict_list {x = y} linked.distinct last,
              length-entries c.evict_list,
            ))
    ]
    | inr hit ↦ rw (add-Hit c k v hit) (
        ground (
          arith,
          take-all c.size (touch k v (view c)),
          length-discard k hit.elem.value c.evict_list valid.distinct hit.bound,
          valid.bounded,
        ))
  ]

  -- `Add` preserves validity.
  pub add-IsValid : (c : Lru K V) (k : K) (v : V) → IsValid c → IsValid (add c k v).1
  unfolding push_front remove_element
  add-IsValid c k v valid = elim (find_cases c k (IsLinked-of valid)) [
    | inl miss ↦
        let linked = push_front-IsLinked c k v (IsLinked-of valid) miss.unnamed in
        elim (dec_lt (length c.evict_list) c.size) [
          | yes fits ↦
              rw (add-Miss_fits c k v miss fits) (IsValid-of (push_front c k v) linked fits)
          | no full ↦
              let (y, done, last) = add-Miss_full c k v miss (omega arith) in
              let (named, at, rest) =
                back_lem (push_front c k v).evict_list {x = y} linked.distinct last in
              rw done (
                IsValid-of (remove_element (push_front c k v) y)
                  (remove_element-IsLinked (push_front c k v) y linked named)
                  (omega (
                    arith,
                    length-list_remove y.addr y (push_front c k v).evict_list at,
                    valid.bounded,
                  )))
        ]
    | inr hit ↦ rw (add-Hit c k v hit) (
        IsValid-of (in_front c (with_value hit.elem v))
          (in_front-IsLinked c k (with_value hit.elem v) (IsLinked-of valid) hit.named hit.keyed)
          (omega
            (arith, length-list_remove hit.elem.addr hit.elem c.evict_list hit.at, valid.bounded)))
  ]
