-- ===== src/Common/RollingIndex.antt =====
-- common/rolling_index.go: the last items of a sequence, found by their index in it.
pub mod Valid
pub mod Set
pub mod History
use paradigm.Prelude.{
  ℕ, ◌+◌, ◌-◌, ◌*◌, ◌&&◌, ◌||◌, List, [], ◌∷◌, ◌++◌, leb, if◌then◌else◌, length, ℤ, pos, negsuc,
  ltb_ℤ, leb_ℤ, eqb_ℤ, ◌+ℤ◌, ◌-ℤ◌, nat_eq, int_eq, string_eq, pair_eq,
}
use paradigm.Common.Errors.{
  Result, ok, err, panic, ◌>>=◌, new_store_err, too_late, skipped_index, key_not_found, itoa, index,
  assign, slice_from,
}

pub record RollingIndex {ℓ} (A : Type ℓ) : Type ℓ where
  pub size : ℕ
  pub last_index : ℤ
  pub items : List A

-- `NewRollingIndex`
unfoldable pub new_rolling_index {ℓ} : {A : Type ℓ} → ℕ → RollingIndex A
new_rolling_index size = record { size = size; last_index = negsuc 0; items = [] }

module _ {ℓ} {A : Type ℓ} where
  -- `GetLastWindow`
  abbrev pub get_last_window : RollingIndex A → List A × ℤ
  get_last_window r = (r.items, r.last_index)

  -- `oldestCachedIndex`, the index of the first item
  unfoldable pub oldest : RollingIndex A → ℤ
  oldest r = r.last_index -ℤ pos (length r.items) +ℤ pos 1

  -- `Get`: the items after `skip`
  unfoldable pub get : RollingIndex A → ℤ → Result (List A)
  get r skip =
      if ltb_ℤ r.last_index skip
      then ok []
      else if ltb_ℤ (skip +ℤ pos 1) (oldest r)
      then err (new_store_err too_late (itoa skip))
      else slice_from r.items (skip -ℤ oldest r +ℤ pos 1)

  -- `GetItem`
  unfoldable pub get_item : RollingIndex A → ℤ → Result A
  get_item r i =
      if ltb_ℤ i (oldest r)
      then err (new_store_err too_late (itoa i))
      else if leb_ℤ (pos (length r.items)) (i -ℤ oldest r)
      then err (new_store_err key_not_found (itoa i))
      else index r.items (i -ℤ oldest r)

  -- `Roll`
  unfoldable pub roll : RollingIndex A → Result (RollingIndex A)
  roll r = do items ← slice_from r.items (pos r.size); ok (record r { items = items })

  -- the new item of `Set`, after a roll if there is no room
  unfoldable pub append : RollingIndex A → A → ℤ → Result (RollingIndex A)
  append r item i = do
    rolled ← if leb (2 * r.size) (length r.items) then roll r else ok r
    ok (record rolled { items = rolled.items ++ (item ∷ []); last_index = i })

  -- `Set`
  unfoldable pub set_item : RollingIndex A → A → ℤ → Result (RollingIndex A)
  unfolding append
  set_item r item i =
      if leb_ℤ (pos 0) r.last_index && ltb_ℤ (r.last_index +ℤ pos 1) i
      then err (new_store_err skipped_index (itoa i))
      else if ltb_ℤ r.last_index (pos 0) || eqb_ℤ i (r.last_index +ℤ pos 1)
      then append r item i
      else if ltb_ℤ i (oldest r)
      then err (new_store_err too_late (itoa i))
      else do items ← assign r.items (i -ℤ oldest r) item; ok (record r { items = items })
