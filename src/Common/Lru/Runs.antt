-- ===== src/Common/Lru/Runs.antt =====
-- Any sequence of calls of common/lru.go, against the list of pairs.
use paradigm.Prelude.{
  ℕ, ◌-◌, ◌≡◌, refl, Option, List, [], ◌∷◌, arith, length, take, Comparable, nat_eq, int_eq,
  string_eq, pair_eq, Map, find, discard,
}
use paradigm.Common.Lru.{
  Lru, purge, remove_element, remove_oldest, push_front, add, get, peek, remove, pop_oldest,
}
use paradigm.Common.Lru.Valid.{IsValid}
use paradigm.Common.Lru.Spec.{view, spec_get, spec_add}
use paradigm.Common.Lru.Get.{get_refines, get-IsValid, peek_lem}
use paradigm.Common.Lru.Add.{add_refines, add-IsValid}
use paradigm.Common.Lru.Remove.{remove_refines, pop_oldest_refines, purge_refines}

-- A client's call.
pub data Call {ℓ} (K V : Type ℓ) : Type ℓ where
  add_call : K → V → Call K V
  get_call : K → Call K V
  peek_call : K → Call K V
  remove_call : K → Call K V
  pop_call : Call K V
  purge_call : Call K V

module _ {ℓ} {K V : Type ℓ} ⦃e : Comparable K⦄ where
  -- The calls in order, with the values that the reads return.
  unfoldable pub run : Lru K V → List (Call K V) → List (Option V)
  run c [] = []
  run c (add_call k v ∷ calls) = run (add c k v).1 calls
  run c (get_call k ∷ calls) = (get c k).0 ∷ run (get c k).1 calls
  run c (peek_call k ∷ calls) = peek c k ∷ run c calls
  run c (remove_call k ∷ calls) = run (remove c k).1 calls
  run c (pop_call ∷ calls) = run (pop_oldest c).1 calls
  run c (purge_call ∷ calls) = run (purge c) calls

  -- The same on a list of pairs, most recently used first, of which `n` are kept.
  unfoldable pub spec_run : ℕ → Map K V → List (Call K V) → List (Option V)
  spec_run n m [] = []
  spec_run n m (add_call k v ∷ calls) = spec_run n (spec_add n m k v) calls
  spec_run n m (get_call k ∷ calls) = (spec_get m k).0 ∷ spec_run n (spec_get m k).1 calls
  spec_run n m (peek_call k ∷ calls) = find k m ∷ spec_run n m calls
  spec_run n m (remove_call k ∷ calls) = spec_run n (discard k m) calls
  spec_run n m (pop_call ∷ calls) = spec_run n (take (length m - 1) m) calls
  spec_run n m (purge_call ∷ calls) = spec_run n [] calls

  pub size-add : (c : Lru K V) (k : K) (v : V) → (add c k v).1.size ≡ c.size
  unfolding add push_front remove_oldest remove_element
  size-add c k v = ground arith

  pub size-get : (c : Lru K V) (k : K) → (get c k).1.size ≡ c.size
  unfolding get
  size-get c k = ground arith

  size-remove : (c : Lru K V) (k : K) → (remove c k).1.size ≡ c.size
  unfolding remove remove_element
  size-remove c k = ground arith

  size-pop_oldest : (c : Lru K V) → (pop_oldest c).1.size ≡ c.size
  unfolding pop_oldest remove_element
  size-pop_oldest c = ground arith

  -- For every sequence of calls on a valid cache, the reads return what they return on the list of its
  -- pairs.
  pub run_refines :
      (calls : List (Call K V)) (c : Lru K V)
      → IsValid c
      → run c calls ≡ spec_run c.size (view c) calls
  unfolding run spec_run purge
  run_refines [] c v = refl
  run_refines (add_call k w ∷ calls) c v =
      rw (run_refines calls (add c k w).1 (add-IsValid c k w v), size-add, (add_refines c k w v).0)
        refl
  run_refines (get_call k ∷ calls) c v =
      rw (run_refines calls (get c k).1 (get-IsValid c k v), size-get, ← get_refines c k v) refl
  run_refines (peek_call k ∷ calls) c v = rw (run_refines calls c v, peek_lem c k v) refl
  run_refines (remove_call k ∷ calls) c v =
      let (seen, found, valid) = remove_refines c k v in
      rw (run_refines calls (remove c k).1 valid, size-remove, seen) refl
  run_refines (pop_call ∷ calls) c v =
      let (oldest, seen, valid) = pop_oldest_refines c v in
      rw (run_refines calls (pop_oldest c).1 valid, size-pop_oldest, seen) refl
  run_refines (purge_call ∷ calls) c v = run_refines calls (purge c) (purge_refines c v).1
