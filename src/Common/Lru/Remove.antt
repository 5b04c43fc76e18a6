-- ===== src/Common/Lru/Remove.antt =====
-- `Remove`, `RemoveOldest` and `Purge` of common/lru.go against their specification.
use paradigm.Prelude.{
  ◌-◌, ◌≡◌, refl, sym, ap, inl, inr, true, false, Option, none, some, List, [], ◌∷◌, arith,
  Option-cases, length, take, Comparable, nat_eq, int_eq, string_eq, pair_eq, Map, find, discard,
}
use mathlib.Core.Option
use paradigm.Common.Lru.{Lru, purge, remove_element, contains, remove, pop_oldest}
use paradigm.Common.Lru.Valid.{IsValid, IsLinked-of, remove_element-IsLinked, find_cases, Miss, Hit}
use paradigm.Common.Lru.Elements.{
  Element, element_at, back, entries, addr_of, length-list_remove, back_lem, length-entries,
}
use paradigm.Common.Lru.Spec.{view}
use paradigm.Common.Lru.Get.{IsValid-of}

module _ {ℓ} {K V : Type ℓ} ⦃e : Comparable K⦄ where
  remove-Hit : (c : Lru K V) (k : K) (h : Hit c k) → remove c k ≡ (true, remove_element c h.elem)
  unfolding remove
  remove-Hit c k h = ground arith

  remove-Miss : (c : Lru K V) (k : K) → Miss c k → remove c k ≡ (false, c)
  unfolding remove
  remove-Miss c k h = ground arith

  remove_element-IsValid :
      (c : Lru K V) (x : Element K V)
      → IsValid c
      → addr_of x.key c.evict_list ≡ some x.addr
      → element_at x.addr c.evict_list ≡ some x
      → IsValid (remove_element c x)
  unfolding remove_element
  remove_element-IsValid c x v named at =
      IsValid-of (remove_element c x) (remove_element-IsLinked c x (IsLinked-of v) named)
        (omega (arith, length-list_remove x.addr x c.evict_list at, v.bounded))

  -- In a valid cache, `Remove` discards the key's pair, says whether there was one, and leaves a valid
  -- cache.
  pub remove_refines :
      (c : Lru K V) (k : K)
      → IsValid c
      → let (found, c') = remove c k in
        (view c' ≡ discard k (view c)) × (found ≡ contains c k) × IsValid c'
  unfolding remove_element contains
  remove_refines c k v = elim (find_cases c k (IsLinked-of v)) [
    | inl miss ↦ rw (remove-Miss c k miss) (sym miss.kept, ground arith, v)
    | inr hit ↦ rw (remove-Hit c k hit) (
      hit.removed,
      ground arith,
      remove_element-IsValid c hit.elem v (rw hit.keyed hit.named) hit.at,
    )
  ]

  -- The last pair of a list.
  abbrev pub last : Map K V → Option (K × V)
  last [] = none
  last (p ∷ []) = some p
  last (p ∷ q ∷ m) = last (q ∷ m)

  last-entries :
      (l : List (Element K V)) → last (entries l) ≡ Option.map (λ x. (x.key, x.value)) (back l)
  unfolding back
  last-entries [] = refl
  last-entries (x ∷ []) = refl
  last-entries (x ∷ y ∷ l) = last-entries (y ∷ l)

  pop_some :
      (c : Lru K V) (x : Element K V)
      → back c.evict_list ≡ some x
      → pop_oldest c ≡ (some (x.key, x.value), remove_element c x)
  unfolding pop_oldest
  pop_some c x h = ground arith

  pop_none : (c : Lru K V) → back c.evict_list ≡ none → pop_oldest c ≡ (none, c)
  unfolding pop_oldest
  pop_none c h = ground arith

  back-none : (l : List (Element K V)) → back l ≡ none → l ≡ []
  unfolding back
  back-none [] h = refl
  back-none (x ∷ []) h = cc
  back-none (x ∷ y ∷ l) h = absurd (cc (back-none (y ∷ l) h))

  -- In a valid cache, `RemoveOldest` returns the least recently used pair and leaves the others, in a
  -- valid cache.
  pub pop_oldest_refines :
      (c : Lru K V)
      → IsValid c
      → let (oldest, c') = pop_oldest c in
        (oldest ≡ last (view c)) × (view c' ≡ take (length (view c) - 1) (view c)) × IsValid c'
  unfolding remove_element
  pop_oldest_refines c v = elim (Option-cases (back c.evict_list)) [
    | inl empty ↦
        let e : view c ≡ [] = ap entries (back-none c.evict_list empty) in
        rw (pop_none c empty) (rw (last-entries c.evict_list) (ground arith), ground arith, v)
    | inr (x, found) ↦
        let (named, at, rest) = back_lem c.evict_list {x = x} v.distinct found in
        rw (pop_some c x found) (
          rw (last-entries c.evict_list) (ground arith),
          rw (length-entries c.evict_list) rest,
          remove_element-IsValid c x v named at,
        )
  ]

  pub purge_refines : (c : Lru K V) → IsValid c → (view (purge c) ≡ []) × IsValid (purge c)
  unfolding purge find addr_of element_at
  purge_refines c v = (
    refl,
    record { distinct = tt; indexed = λ k. refl; placed = λ n h. refl; bounded = omega arith },
  )
