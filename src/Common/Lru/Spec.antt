-- ===== src/Common/Lru/Spec.antt =====
-- The specification of common/lru.go: a list of key and value pairs, most recently used first.
-- `Add` puts a pair in front and keeps `size` pairs, `Get` puts the pair that it finds in front.
use paradigm.Prelude.{
  ℕ, zero, suc, ◌+◌, ◌≤◌, ◌≡◌, refl, ap, Option, none, some, List, [], ◌∷◌, arith, length, take,
  Comparable, nat_eq, int_eq, string_eq, pair_eq, eq_of_==, Map, find, discard,
}
use paradigm.Common.Lru.{Lru}
use paradigm.Common.Lru.Elements.{
  Element, entries, addr_of, Distinct, length-entries, discard_of_addr_of-none,
}

-- The pairs that a cache holds, most recently used first.
abbrev pub view {ℓ} : {K V : Type ℓ} → Lru K V → Map K V
view c = entries c.evict_list

module _ {ℓ} {K V : Type ℓ} ⦃e : Comparable K⦄ where
  abbrev pub touch : K → V → Map K V → Map K V
  touch k v m = (k, v) ∷ discard k m

  -- What `Get` returns and leaves.
  abbrev pub spec_get : Map K V → K → Option V × Map K V
  spec_get m k = elim (find k m) [ some v ↦ (some v, touch k v m) | none ↦ (none, m) ]

  -- What `Add` leaves, in a cache of `n` entries at most.
  abbrev pub spec_add : ℕ → Map K V → K → V → Map K V
  spec_add n m k v = take n (touch k v m)

  pub length-discard :
      (k : K) (v : V) (l : List (Element K V))
      → Distinct l
      → find k (entries l) ≡ some v
      → length (discard k (entries l)) + 1 ≡ length l
  unfolding find discard addr_of
  length-discard k v [] d h = cc
  length-discard k v (x ∷ l) d h =
      ground (
        arith,
        length-discard k v l,
        discard_of_addr_of-none k l,
        length-entries l,
        eq_of_== x.key k,
      )

  pub take-all : (n : ℕ) (m : Map K V) → length m ≤ n → take n m ≡ m
  take-all zero [] h = refl
  take-all zero (x ∷ m) h = absurd (omega arith)
  take-all (suc n) [] h = refl
  take-all (suc n) (x ∷ m) h = ap (◌∷◌ x) (take-all n m (omega arith))
