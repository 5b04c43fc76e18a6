-- ===== src/Common/RollingIndexMap/History.antt =====
-- common/rolling_index_map.go against the sequence of the items of each key.
use paradigm.Prelude.{
  ℕ, zero, suc, ◌+◌, ◌-◌, ◌≤◌, ◌<◌, ◌≡◌, refl, ap, ◌∙◌, ◌≢◌, inl, inr, none, some, List, [], ◌∷◌,
  ◌++◌, arith, length, drop, drop_all, ℤ, pos, ◌-ℤ◌, nat_eq, int_eq, string_eq, pair_eq, ==_refl,
  ==_ne, find, store, find-store,
}
use paradigm.Common.Errors.{ok, Result-cases}
use paradigm.Common.RollingIndex
use paradigm.Common.RollingIndex.{RollingIndex, new_rolling_index, get_last_window}
use paradigm.Common.RollingIndex.History.{Tracks, set_item-Tracks, get-Tracks}
use paradigm.Common.RollingIndexMap.{RollingIndexMap, get, get_last, last_of, set_item}

-- The index of the key `k` tracks the sequence `h`.
pub record Holds {A : Type 0} (rim : RollingIndexMap A) (k : ℤ) (h : List A) : Type 0 where
  pub items : RollingIndex A
  pub found : find k rim.mapping ≡ some items
  pub tracks : Tracks items h

module _ {A : Type 0} where
  last_of-drop : (n : ℕ) (h : List A) → n < length h → last_of (drop n h) ≡ last_of h
  unfolding last_of
  last_of-drop n [] l = absurd (omega arith)
  last_of-drop zero (x ∷ h) l = refl
  last_of-drop (suc n) (x ∷ []) l = absurd (omega arith)
  last_of-drop (suc n) (x ∷ y ∷ h) l = last_of-drop n (y ∷ h) (omega arith)

  last_of-window : (r : RollingIndex A) (h : List A) → Tracks r h → last_of r.items ≡ last_of h
  last_of-window r [] t =
      ap last_of (t.window ∙ drop_all (length {A = A} [] - length r.items) [] (omega arith))
  last_of-window r (x ∷ h) t =
      ap last_of t.window
      ∙ last_of-drop (suc (length h) - length r.items) (x ∷ h)
          (omega (arith, t.recent, t.valid.positive))

  -- A key whose index tracks a sequence takes the next item of it, and then tracks the longer sequence.
  pub set_item-Holds :
      (rim : RollingIndexMap A) (k : ℤ) (h : List A) (a : A)
      → Holds rim k h
      → (rim' : RollingIndexMap A) × (set_item rim k a (pos (length h)) ≡ ok rim')
        × Holds rim' k (h ++ (a ∷ []))
  unfolding set_item
  set_item-Holds rim k h a o =
      let (items', ran, tracks) = set_item-Tracks o.items h a o.tracks in
      (
        record rim { mapping = store k items' rim.mapping },
        ground (arith, o.found),
        record {
          items = items';
          found = ground (arith, find-store k k items' rim.mapping, ==_refl k);
          tracks = tracks;
        },
      )

  -- An item of one key leaves the index of every other key as it was.
  pub set_item-other :
      (rim rim' : RollingIndexMap A) (k j : ℤ) (a : A) (i : ℤ)
      → set_item rim k a i ≡ ok rim'
      → k ≢ j
      → find j rim'.mapping ≡ find j rim.mapping
  unfolding set_item
  set_item-other rim rim' k j a i e ne =
      let items : RollingIndex A = elim (find k rim.mapping) [
        | none ↦ new_rolling_index rim.size
        | some r ↦ r
      ] in
      elim (Result-cases (RollingIndex.set_item items a i)) [
        | inl (items', p) ↦ ground (arith, find-store k j items' rim.mapping, ==_ne k j ne)
        | inr (inl (x, p)) ↦ absurd (ground arith)
        | inr (inr p) ↦ absurd (ground arith)
      ]

  -- `GetLast` of a key returns the last item of its sequence.
  pub get_last-Holds :
      (rim : RollingIndexMap A) (k : ℤ) (h : List A)
      → Holds rim k h
      → get_last rim k ≡ ok (last_of h)
  unfolding get_last
  get_last-Holds rim k h o = ground (arith, o.found, last_of-window o.items h o.tracks)

  -- `Get` of a key returns all its items from `n` on, where at most as many as the index's size stand
  -- at `n` or later.
  pub get-Holds :
      (rim : RollingIndexMap A) (k : ℤ) (h : List A) (n : ℕ) (o : Holds rim k h)
      → length h ≤ n + o.items.size
      → get rim k (pos n -ℤ pos 1) ≡ ok (drop n h)
  unfolding get
  get-Holds rim k h n o near = ground (arith, o.found, get-Tracks o.items h n o.tracks near)
