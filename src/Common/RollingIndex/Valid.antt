-- ===== src/Common/RollingIndex/Valid.antt =====
-- The invariant of common/rolling_index.go, and that no index or slice is out of range.
use paradigm.Prelude.{
  ℕ, ◌+◌, ◌*◌, ◌≤◌, ◌<◌, min, ◌≡◌, ◌≢◌, inl, inr, List, [], ◌∷◌, ◌++◌, arith, leb, if◌then◌else◌,
  Bool-cases, length, drop, length-drop, get_elem?_in, ℤ, pos, negsuc, pos_part, neg_part, ◌≤ℤ◌,
  ltb_ℤ, leb_ℤ, ◌+ℤ◌, ◌-ℤ◌, int_laws, int_tests, nat_eq, int_eq, string_eq, pair_eq,
}
use paradigm.Common.Errors.{ok, panic, index, assign, slice_from}
use paradigm.Common.RollingIndex.{
  RollingIndex, new_rolling_index, oldest, get, get_item, roll, append,
}

-- There is no item before index 0, and room for 2 * size items.
pub record IsValid {ℓ} {A : Type ℓ} (r : RollingIndex A) : Type ℓ where
  pub positive : 0 < r.size
  pub held : length r.items + neg_part r.last_index ≤ pos_part r.last_index + 1
  pub roomy : length r.items ≤ 2 * r.size

module _ {ℓ} {A : Type ℓ} where
  new_rolling_index-IsValid : (size : ℕ) → 0 < size → IsValid {A = A} (new_rolling_index size)
  unfolding new_rolling_index
  new_rolling_index-IsValid size h = omega arith

  slice_from-ne-panic :
      (xs : List A) (n : ℤ) → pos 0 ≤ℤ n → n ≤ℤ pos (length xs) → slice_from xs n ≢ panic
  unfolding slice_from
  slice_from-ne-panic xs (pos n) h k = ground arith
  slice_from-ne-panic xs (negsuc n) h k = absurd (omega arith)

  index-ne-panic :
      (xs : List A) (n : ℤ) → pos 0 ≤ℤ n → n +ℤ pos 1 ≤ℤ pos (length xs) → index xs n ≢ panic
  unfolding index ◌+ℤ◌
  index-ne-panic xs (pos n) h k = ground (arith, get_elem?_in xs n)
  index-ne-panic xs (negsuc n) h k = absurd (omega arith)

  pub assign-ne-panic :
      (xs : List A) (n : ℤ) (a : A)
      → pos 0 ≤ℤ n
      → n +ℤ pos 1 ≤ℤ pos (length xs)
      → assign xs n a ≢ panic
  unfolding assign ◌+ℤ◌
  assign-ne-panic xs (pos n) a h k = ground arith
  assign-ne-panic xs (negsuc n) a h k = absurd (omega arith)

  pub oldest_parts :
      (r : RollingIndex A)
      → pos_part (oldest r) + neg_part r.last_index + length r.items
        ≡ neg_part (oldest r) + pos_part r.last_index + 1
  unfolding oldest
  oldest_parts r = omega int_laws

  get-ne-panic : (r : RollingIndex A) (skip : ℤ) → IsValid r → get r skip ≢ panic
  unfolding get
  get-ne-panic r skip v = elim (Bool-cases (ltb_ℤ r.last_index skip)) [
    | inl p ↦ ground arith
    | inr p ↦ elim (Bool-cases (ltb_ℤ (skip +ℤ pos 1) (oldest r))) [
      | inl q ↦ ground arith
      | inr q ↦
          let n = skip -ℤ oldest r +ℤ pos 1 in
          let fits =
            slice_from-ne-panic r.items n (omega (int_tests, oldest_parts r))
              (omega (int_tests, oldest_parts r)) in
          ground arith
    ]
  ]

  get_item-ne-panic : (r : RollingIndex A) (i : ℤ) → IsValid r → get_item r i ≢ panic
  unfolding get_item
  get_item-ne-panic r i v = elim (Bool-cases (ltb_ℤ i (oldest r))) [
    | inl p ↦ ground arith
    | inr p ↦ elim (Bool-cases (leb_ℤ (pos (length r.items)) (i -ℤ oldest r))) [
      | inl q ↦ ground arith
      | inr q ↦
          let fits =
            index-ne-panic r.items (i -ℤ oldest r) (omega (int_tests, oldest_parts r))
              (omega (int_tests, oldest_parts r)) in
          ground arith
    ]
  ]

  -- What a new item keeps of the others.
  abbrev pub kept : RollingIndex A → List A
  kept r = if leb (2 * r.size) (length r.items) then drop r.size r.items else r.items

  pub append_lem :
      (r : RollingIndex A) (a : A) (i : ℤ)
      → append r a i ≡ ok (record r { items = kept r ++ (a ∷ []); last_index = i })
  unfolding append roll slice_from
  append_lem r a i = ground arith

  pub length-kept :
      (r : RollingIndex A)
      → IsValid r
      → (length (kept r) + 1 ≤ 2 * r.size) × (min r.size (length r.items) ≤ length (kept r))
  length-kept r v = ground (arith, length-drop r.size r.items)
