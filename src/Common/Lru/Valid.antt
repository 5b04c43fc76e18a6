-- ===== src/Common/Lru/Valid.antt =====
-- The invariant of common/lru.go: the map and the list describe the same entries, at most `size`.
use paradigm.Prelude.{
  ℕ, ◌≤◌, ◌≡◌, refl, ◌⊎◌, inl, inr, none, some, ◌∷◌, arith, Option-cases, length, Comparable,
  nat_eq, int_eq, string_eq, pair_eq, ==_refl, find, discard, find-store, find-discard,
}
use paradigm.Common.Lru.{Lru, new_lru, remove_element, push_front}
use paradigm.Common.Lru.Elements.{
  Element, element_at, list_remove, move_to_front, entries, addr_of, Distinct, element_at-addr_of,
  entries-list_remove, addr_of-list_remove, element_at-list_remove, find_of_addr_of-none,
  discard_of_addr_of-none, list_remove-Distinct,
}

pub record IsValid {ℓ} {K V : Type ℓ} ⦃e : Comparable K⦄ (c : Lru K V) : Type ℓ where
  pub distinct : Distinct c.evict_list
  pub indexed : (k : K) → find k c.items ≡ addr_of k c.evict_list
  pub placed : (n : ℕ) → c.fresh ≤ n → element_at n c.evict_list ≡ none
  pub bounded : length c.evict_list ≤ c.size

-- As IsValid, with no bound: what holds between `PushFront` and the eviction.
pub record IsLinked {ℓ} {K V : Type ℓ} ⦃e : Comparable K⦄ (c : Lru K V) : Type ℓ where
  pub distinct : Distinct c.evict_list
  pub indexed : (k : K) → find k c.items ≡ addr_of k c.evict_list
  pub placed : (n : ℕ) → c.fresh ≤ n → element_at n c.evict_list ≡ none

-- What a miss knows of the list.
pub record Miss {ℓ} {K V : Type ℓ} ⦃e : Comparable K⦄ (c : Lru K V) (k : K) : Type ℓ where
  pub unstored : find k c.items ≡ none
  pub unnamed : addr_of k c.evict_list ≡ none
  pub unbound : find k (entries c.evict_list) ≡ none
  pub kept : discard k (entries c.evict_list) ≡ entries c.evict_list

-- What a hit knows: the element of the key, which goes to the front.
pub record Hit {ℓ} {K V : Type ℓ} ⦃e : Comparable K⦄ (c : Lru K V) (k : K) : Type ℓ where
  pub elem : Element K V
  pub stored : find k c.items ≡ some elem.addr
  pub keyed : elem.key ≡ k
  pub named : addr_of k c.evict_list ≡ some elem.addr
  pub at : element_at elem.addr c.evict_list ≡ some elem
  pub front : move_to_front elem.addr c.evict_list ≡ elem ∷ list_remove elem.addr c.evict_list
  pub bound : find k (entries c.evict_list) ≡ some elem.value
  pub removed : entries (list_remove elem.addr c.evict_list) ≡ discard k (entries c.evict_list)

module _ {ℓ} {K V : Type ℓ} ⦃e : Comparable K⦄ where
  pub new_lru-IsValid : (size : ℕ) → IsValid {K = K} {V = V} (new_lru size)
  unfolding new_lru find addr_of element_at
  new_lru-IsValid size = record {
    distinct = tt;
    indexed = λ k. refl;
    placed = λ n h. refl;
    bounded = omega arith;
  }

  pub IsLinked-of : {c : Lru K V} → IsValid c → IsLinked c
  IsLinked-of v = record { distinct = v.distinct; indexed = v.indexed; placed = v.placed }

  pub remove_element-IsLinked :
      (c : Lru K V) (x : Element K V)
      → IsLinked c
      → addr_of x.key c.evict_list ≡ some x.addr
      → IsLinked (remove_element c x)
  unfolding remove_element
  remove_element-IsLinked c x v h = record {
    distinct = list_remove-Distinct x.key x.addr c.evict_list v.distinct h;
    indexed = λ k.
        rw (find-discard, v.indexed, addr_of-list_remove x.key k x.addr c.evict_list v.distinct h);
    placed = λ n p.
        ground (arith, element_at-list_remove x.addr n c.evict_list v.distinct, v.placed n p);
  }

  pub push_front-IsLinked :
      (c : Lru K V) (k : K) (v : V)
      → IsLinked c
      → addr_of k c.evict_list ≡ none
      → IsLinked (push_front c k v)
  unfolding push_front addr_of element_at
  push_front-IsLinked c k v h new = record {
    distinct = (new, h.placed c.fresh (omega arith), h.distinct);
    indexed = λ j. rw (find-store, h.indexed);
    placed = λ n p. ground (arith, h.placed n (omega arith));
  }

  hit_lem : (c : Lru K V) (k : K) (a : ℕ) → IsLinked c → find k c.items ≡ some a → Hit c k
  unfolding move_to_front
  hit_lem c k a v h =
      let named : addr_of k c.evict_list ≡ some a = rw (← v.indexed k) h in
      let (x, at, key, addr, found) = element_at-addr_of k a c.evict_list v.distinct named in
      record {
        elem = x;
        stored = rw addr h;
        keyed = key;
        named = rw addr named;
        at = rw addr at;
        front = ground arith;
        bound = found;
        removed = rw addr (entries-list_remove k a c.evict_list v.distinct named);
      }

  pub find_cases : (c : Lru K V) (k : K) → IsLinked c → Miss c k ⊎ Hit c k
  find_cases c k v = elim (Option-cases (find k c.items)) [
    | inl miss ↦
        let new : addr_of k c.evict_list ≡ none = rw (← v.indexed k) miss in
        inl (record {
          unstored = miss;
          unnamed = new;
          unbound = find_of_addr_of-none k c.evict_list new;
          kept = discard_of_addr_of-none k c.evict_list new;
        })
    | inr (a, hit) ↦ inr (hit_lem c k a v hit)
  ]

  -- The entry of `k` with the value `w` in front, the others as they were.
  abbrev pub in_front : Lru K V → Element K V → Lru K V
  in_front c x = record c { evict_list = x ∷ list_remove x.addr c.evict_list }

  pub in_front-IsLinked :
      (c : Lru K V) (k : K) (x : Element K V)
      → IsLinked c
      → addr_of k c.evict_list ≡ some x.addr
      → x.key ≡ k
      → IsLinked (in_front c x)
  unfolding addr_of element_at
  in_front-IsLinked c k x v named key = record {
    distinct = (
      ground (arith, addr_of-list_remove k x.key x.addr c.evict_list v.distinct named, ==_refl k),
      ground (arith, element_at-list_remove x.addr x.addr c.evict_list v.distinct),
      list_remove-Distinct k x.addr c.evict_list v.distinct named,
    );
    indexed = λ j. ground (
      arith,
      v.indexed j,
      addr_of-list_remove k j x.addr c.evict_list v.distinct named,
      e.equal_iff k j,
      e.equal_iff x.key j,
    );
    placed = λ n p.
        let (y, at, key', addr, found) =
          element_at-addr_of k x.addr c.evict_list v.distinct named in
        ground (arith, element_at-list_remove x.addr n c.evict_list v.distinct, v.placed n p);
  }
