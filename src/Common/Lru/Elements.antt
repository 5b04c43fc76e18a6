-- ===== src/Common/Lru/Elements.antt =====
-- The linked list of an LRU, as common/lru.go uses container/list: elements named by an address,
-- their lookup, removal and move to the front, and what these do to the entries of the list.
use paradigm.Prelude.{
  ℕ, suc, ◌+◌, ◌-◌, ◌≡◌, refl, ap, inl, inr, Option, none, some, List, [], ◌∷◌, arith, eqb,
  if◌then◌else◌, Bool-cases, length, take, Comparable, ◌==◌, nat_eq, int_eq, string_eq, pair_eq,
  ==_refl, eq_of_==, Map, find, discard,
}

pub record Element {ℓ} (K V : Type ℓ) : Type ℓ where
  pub addr : ℕ
  pub key : K
  pub value : V

module _ {ℓ} {K V : Type ℓ} where
  -- the element that a pointer stands for
  unfoldable pub element_at : ℕ → List (Element K V) → Option (Element K V)
  element_at a [] = none
  element_at a (x ∷ l) = if eqb x.addr a then some x else element_at a l

  -- `l.Remove(e)`
  unfoldable pub list_remove : ℕ → List (Element K V) → List (Element K V)
  list_remove a [] = []
  list_remove a (x ∷ l) = if eqb x.addr a then l else x ∷ list_remove a l

  -- `l.MoveToFront(e)`: an element of another list is ignored
  unfoldable pub move_to_front : ℕ → List (Element K V) → List (Element K V)
  move_to_front a l = elim (element_at a l) [ none ↦ l | some x ↦ x ∷ list_remove a l ]

  -- `e.Value.(*entry).value = v`
  unfoldable pub set_value : ℕ → V → List (Element K V) → List (Element K V)
  set_value a v [] = []
  set_value a v (x ∷ l) = if eqb x.addr a then record x { value = v } ∷ l else x ∷ set_value a v l

  -- `l.Back()`
  unfoldable pub back : List (Element K V) → Option (Element K V)
  back [] = none
  back (x ∷ []) = some x
  back (x ∷ y ∷ l) = back (y ∷ l)

  -- The keys and values of a list of elements.
  abbrev pub entries : List (Element K V) → Map K V
  entries [] = []
  entries (x ∷ l) = (x.key, x.value) ∷ entries l

  pub length-entries : (l : List (Element K V)) → length (entries l) ≡ length l
  length-entries [] = refl
  length-entries (x ∷ l) = ap suc (length-entries l)

module _ {ℓ} {K V : Type ℓ} ⦃e : Comparable K⦄ where
  -- The address of the first element with a key.
  unfoldable pub addr_of : K → List (Element K V) → Option ℕ
  addr_of k [] = none
  addr_of k (x ∷ l) = if x.key == k then some x.addr else addr_of k l

  -- No two elements share a key or an address.
  abbrev pub Distinct : List (Element K V) → Type ℓ
  Distinct [] = Unit
  Distinct (x ∷ l) = (addr_of x.key l ≡ none) × (element_at x.addr l ≡ none) × Distinct l

  pub element_at-addr_of :
      (k : K) (a : ℕ) (l : List (Element K V))
      → Distinct l
      → addr_of k l ≡ some a
      → (x : Element K V) × (element_at a l ≡ some x)
        × (x.key ≡ k)
        × (x.addr ≡ a)
        × (find k (entries l) ≡ some x.value)
  unfolding addr_of element_at find
  element_at-addr_of k a [] d h = cc
  element_at-addr_of k a (x ∷ l) d h = elim (Bool-cases (x.key == k)) [
    | inl p ↦ (x, ground arith, ground (arith, eq_of_== x.key k p), ground arith, ground arith)
    | inr p ↦
        let (y, at, key, addr, found) = element_at-addr_of k a l d.2 (ground arith) in
        (y, ground arith, key, addr, ground arith)
  ]

  pub find_of_addr_of-none :
      (k : K) (l : List (Element K V)) → addr_of k l ≡ none → find k (entries l) ≡ none
  unfolding addr_of find
  find_of_addr_of-none k [] h = refl
  find_of_addr_of-none k (x ∷ l) h = ground (arith, find_of_addr_of-none k l)

  pub discard_of_addr_of-none :
      (k : K) (l : List (Element K V)) → addr_of k l ≡ none → discard k (entries l) ≡ entries l
  unfolding addr_of discard
  discard_of_addr_of-none k [] h = refl
  discard_of_addr_of-none k (x ∷ l) h = ground (arith, discard_of_addr_of-none k l)

  -- Removing the element that a key names discards the key's entry.
  pub entries-list_remove :
      (k : K) (a : ℕ) (l : List (Element K V))
      → Distinct l
      → addr_of k l ≡ some a
      → entries (list_remove a l) ≡ discard k (entries l)
  unfolding addr_of list_remove discard
  entries-list_remove k a [] d h = cc
  entries-list_remove k a (x ∷ l) d h = elim (Bool-cases (x.key == k)) [
    | inl p ↦ ground (arith, eq_of_== x.key k p, discard_of_addr_of-none k l)
    | inr p ↦
        let (y, at, key, addr, found) = element_at-addr_of k a l d.2 (ground arith) in
        ground (arith, entries-list_remove k a l)
  ]

  pub addr_of-list_remove :
      (k j : K) (a : ℕ) (l : List (Element K V))
      → Distinct l
      → addr_of k l ≡ some a
      → addr_of j (list_remove a l) ≡ (if k == j then none else addr_of j l)
  unfolding addr_of list_remove
  addr_of-list_remove k j a [] d h = cc
  addr_of-list_remove k j a (x ∷ l) d h = elim (Bool-cases (x.key == k)) [
    | inl p ↦ ground (arith, eq_of_== x.key k p, e.equal_iff k j, e.equal_iff x.key j)
    | inr p ↦
        let (y, at, key, addr, found) = element_at-addr_of k a l d.2 (ground arith) in
        ground (
          arith,
          addr_of-list_remove k j a l,
          e.equal_iff k j,
          e.equal_iff x.key j,
          e.equal_iff x.key k,
        )
  ]

  pub element_at-list_remove :
      (a b : ℕ) (l : List (Element K V))
      → Distinct l
      → element_at b (list_remove a l) ≡ (if eqb a b then none else element_at b l)
  unfolding element_at list_remove
  element_at-list_remove a b [] d = ground arith
  element_at-list_remove a b (x ∷ l) d = ground (arith, element_at-list_remove a b l)

  pub list_remove-Distinct :
      (k : K) (a : ℕ) (l : List (Element K V))
      → Distinct l
      → addr_of k l ≡ some a
      → Distinct (list_remove a l)
  unfolding addr_of element_at list_remove
  list_remove-Distinct k a [] d h = cc
  list_remove-Distinct k a (x ∷ l) d h = elim (Bool-cases (x.key == k)) [
    | inl p ↦ ground arith
    | inr p ↦
        let (y, at, key, addr, found) = element_at-addr_of k a l d.2 (ground arith) in
        ground (
          arith,
          list_remove-Distinct k a l,
          addr_of-list_remove k x.key a l,
          element_at-list_remove a x.addr l,
        )
  ]

  pub length-list_remove :
      (a : ℕ) (x : Element K V) (l : List (Element K V))
      → element_at a l ≡ some x
      → length (list_remove a l) + 1 ≡ length l
  unfolding element_at list_remove
  length-list_remove a x [] h = cc
  length-list_remove a x (y ∷ l) h = ground (arith, length-list_remove a x l)

  -- The last element is named by its own key and address, and without it the list is one shorter.
  pub back_lem :
      (l : List (Element K V)) {x : Element K V}
      → Distinct l
      → back l ≡ some x
      → (addr_of x.key l ≡ some x.addr)
        × (element_at x.addr l ≡ some x)
        × (entries (list_remove x.addr l) ≡ take (length l - 1) (entries l))
  unfolding addr_of element_at list_remove back
  back_lem [] d h = cc
  back_lem (y ∷ []) {x} d h = ground (arith, ==_refl y.key)
  back_lem (y ∷ z ∷ l) {x} d h =
      let (named, at, rest) = back_lem (z ∷ l) d.2 h in ground (arith, e.equal_iff y.key x.key)
