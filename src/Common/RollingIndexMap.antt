-- ===== src/Common/RollingIndexMap.antt =====
-- common/rolling_index_map.go: a rolling index for each participant id. A `*RollingIndex` is kept in
-- the map by value, and written back after it changes; a read through the nil pointer of a missing
-- key panics. The text "" that `GetLast` returns for an empty index is `none`.
pub mod History
use paradigm.Prelude.{
  ℕ, Option, none, some, List, [], ◌∷◌, map, ℤ, nat_eq, int_eq, string_eq, pair_eq, Map, find,
  store,
}
use paradigm.Common.Errors.{Result, ok, err, panic, ◌>>=◌, new_store_err, key_not_found, itoa}
use paradigm.Common.RollingIndex
use paradigm.Common.RollingIndex.{RollingIndex, new_rolling_index, get_last_window}

pub record RollingIndexMap {ℓ} (A : Type ℓ) : Type ℓ where
  pub size : ℕ
  pub keys : List ℤ
  pub mapping : Map ℤ (RollingIndex A)

module _ {ℓ} {A : Type ℓ} where
  -- the loop over `keys` of `NewRollingIndexMap` and `Reset`
  unfoldable pub fresh_mapping : ℕ → List ℤ → Map ℤ (RollingIndex A)
  fresh_mapping size [] = []
  fresh_mapping size (k ∷ ks) = store k (new_rolling_index size) (fresh_mapping size ks)

  -- `NewRollingIndexMap`
  unfoldable pub new_rolling_index_map : ℕ → List ℤ → RollingIndexMap A
  unfolding fresh_mapping
  new_rolling_index_map size keys = record {
    size = size;
    keys = keys;
    mapping = fresh_mapping size keys;
  }

  -- `Get`
  unfoldable pub get : RollingIndexMap A → ℤ → ℤ → Result (List A)
  get rim key skip = elim (find key rim.mapping) [
    | none ↦ err (new_store_err key_not_found (itoa key))
    | some items ↦ RollingIndex.get items skip
  ]

  -- `GetItem`
  unfoldable pub get_item : RollingIndexMap A → ℤ → ℤ → Result A
  get_item rim key i = elim (find key rim.mapping) [
    | none ↦ panic
    | some items ↦ RollingIndex.get_item items i
  ]

  -- `cached[len(cached)-1]`
  unfoldable pub last_of : List A → Option A
  last_of [] = none
  last_of (x ∷ []) = some x
  last_of (x ∷ y ∷ xs) = last_of (y ∷ xs)

  -- `GetLast`
  unfoldable pub get_last : RollingIndexMap A → ℤ → Result (Option A)
  unfolding last_of
  get_last rim key = elim (find key rim.mapping) [
    | none ↦ err (new_store_err key_not_found (itoa key))
    | some pe ↦ ok (last_of (get_last_window pe).0)
  ]

  -- `Set`: a missing key gets a new index, which takes any first item
  unfoldable pub set_item : RollingIndexMap A → ℤ → A → ℤ → Result (RollingIndexMap A)
  set_item rim key item i = do
    let items : RollingIndex A = elim (find key rim.mapping) [
      | none ↦ new_rolling_index rim.size
      | some r ↦ r
    ]
    items' ← RollingIndex.set_item items item i
    ok (record rim { mapping = store key items' rim.mapping })

  -- `Known`: the last index of each key
  unfoldable pub known : RollingIndexMap A → Map ℤ ℤ
  known rim = map (λ p. (p.0, (get_last_window p.1).1)) rim.mapping

  -- `Reset`
  unfoldable pub reset : RollingIndexMap A → RollingIndexMap A
  unfolding fresh_mapping
  reset rim = record rim { mapping = fresh_mapping rim.size rim.keys }
