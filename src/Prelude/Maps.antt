-- ===== src/Prelude/Maps.antt =====
-- Go maps as association lists with at most one entry to a key. A Go map is read in no fixed order;
-- the list is read from its head.
use mathlib.Core.List.{List, [], ◌∷◌}
use mathlib.Core.Option.{Option, none, some}
use mathlib.Core.Path.{◌≡◌, refl}
use native.Mathlib.Omega.{arith}
use paradigm.Prelude.Equality.{Comparable, ◌==◌}
use paradigm.Prelude.Tests.{if◌then◌else◌}

abbrev pub Map {ℓ κ} : Type ℓ → Type κ → Type (ℓ ⊔ κ)
Map K V = List (K × V)

module _ {ℓ κ} {K : Type ℓ} {V : Type κ} ⦃e : Comparable K⦄ where
  -- `v, ok := m[k]`
  unfoldable pub find : K → Map K V → Option V
  find k [] = none
  find k ((j, v) ∷ m) = if j == k then some v else find k m

  -- `m[k] = v`
  unfoldable pub store : K → V → Map K V → Map K V
  store k v [] = (k, v) ∷ []
  store k v ((j, w) ∷ m) = if j == k then (k, v) ∷ m else (j, w) ∷ store k v m

  -- `delete(m, k)`
  unfoldable pub discard : K → Map K V → Map K V
  discard k [] = []
  discard k ((j, w) ∷ m) = if j == k then discard k m else (j, w) ∷ discard k m

  pub find-store :
      (k j : K) (v : V) (m : Map K V) → find j (store k v m) ≡ (if k == j then some v else find j m)
  unfolding find store
  find-store k j v [] = refl
  find-store k j v ((i, w) ∷ m) =
      ground (arith, e.equal_iff k j, e.equal_iff i k, e.equal_iff i j, find-store k j v m)

  pub find-discard :
      (k j : K) (m : Map K V) → find j (discard k m) ≡ (if k == j then none else find j m)
  unfolding find discard
  find-discard k j [] = ground arith
  find-discard k j ((i, w) ∷ m) =
      ground (arith, e.equal_iff k j, e.equal_iff i k, e.equal_iff i j, find-discard k j m)
