-- ===== src/Common/Lru/Get.antt =====
-- `Get` and `Peek` of common/lru.go against their specification.
use paradigm.Prelude.{
  ◌≤◌, ◌≡◌, inl, inr, none, some, arith, length, Comparable, nat_eq, int_eq, string_eq, pair_eq,
  find,
}
use paradigm.Common.Lru.{Lru, get, peek}
use paradigm.Common.Lru.Valid.{
  IsValid, IsLinked, IsLinked-of, find_cases, Hit, in_front, in_front-IsLinked,
}
use paradigm.Common.Lru.Elements.{element_at, length-list_remove}
use paradigm.Common.Lru.Spec.{view, spec_get}

module _ {ℓ} {K V : Type ℓ} ⦃e : Comparable K⦄ where
  pub IsValid-of : (c : Lru K V) → IsLinked c → length c.evict_list ≤ c.size → IsValid c
  IsValid-of c v h = record {
    distinct = v.distinct;
    indexed = v.indexed;
    placed = v.placed;
    bounded = h;
  }

  -- `Peek` reads the view.
  pub peek_lem : (c : Lru K V) (k : K) → IsValid c → peek c k ≡ find k (view c)
  unfolding peek
  peek_lem c k v = elim (find_cases c k (IsLinked-of v)) [
    | inl miss ↦ ground arith
    | inr hit ↦ ground arith
  ]

  get-Hit : (c : Lru K V) (k : K) (h : Hit c k) → get c k ≡ (some h.elem.value, in_front c h.elem)
  unfolding get element_at
  get-Hit c k h = ground arith

  get_miss : (c : Lru K V) (k : K) → find k c.items ≡ none → get c k ≡ (none, c)
  unfolding get
  get_miss c k h = ground arith

  -- `Get` returns what the key is bound to, and moves its pair to the front.
  pub get_refines :
      (c : Lru K V) (k : K)
      → IsValid c
      → let (r, c') = get c k in (r, view c') ≡ spec_get (view c) k
  get_refines c k v = elim (find_cases c k (IsLinked-of v)) [
    | inl miss ↦ rw (get_miss c k miss.unstored) (ground arith)
    | inr hit ↦ rw (get-Hit c k hit) (ground arith)
  ]

  pub get-IsValid : (c : Lru K V) (k : K) → IsValid c → IsValid (get c k).1
  get-IsValid c k v = elim (find_cases c k (IsLinked-of v)) [
    | inl miss ↦ rw (get_miss c k miss.unstored) v
    | inr hit ↦ rw (get-Hit c k hit) (
        IsValid-of (in_front c hit.elem)
          (in_front-IsLinked c k hit.elem (IsLinked-of v) hit.named hit.keyed)
          (omega (arith, length-list_remove hit.elem.addr hit.elem c.evict_list hit.at, v.bounded)))
  ]
