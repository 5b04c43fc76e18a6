-- ===== src/Common/RollingIndex/Set.antt =====
-- `Set` of common/rolling_index.go, branch by branch.
use paradigm.Prelude.{
  ◌≡◌, ◌⊎◌, inl, inr, List, [], ◌∷◌, ◌++◌, arith, Bool-cases, length, set, ℤ, pos, negsuc, pos_part,
  ◌≤ℤ◌, ltb_ℤ, leb_ℤ, eqb_ℤ, ◌+ℤ◌, ◌-ℤ◌, +ℤ_parts, int_tests, nat_eq, int_eq, string_eq, pair_eq,
}
use paradigm.Common.Errors.{ok, err, new_store_err, too_late, skipped_index, itoa, assign}
use paradigm.Common.RollingIndex.{RollingIndex, oldest, set_item}
use paradigm.Common.RollingIndex.Valid.{oldest_parts, kept, append_lem}

-- What `Set` may do at an index.
pub data Outcome {A : Type 0} (r : RollingIndex A) (a : A) (i : ℤ) : Type 0 where
  -- past the index after the last: refused
  skipped :
      pos 0 ≤ℤ r.last_index
      → r.last_index +ℤ pos 2 ≤ℤ i
      → set_item r a i ≡ err (new_store_err skipped_index (itoa i))
      → Outcome r a i
  -- at the index after the last, or anywhere in an index not started: appended
  appended :
      (r.last_index ≤ℤ negsuc 0) ⊎ (i ≡ r.last_index +ℤ pos 1)
      → set_item r a i ≡ ok (record r { items = kept r ++ (a ∷ []); last_index = i })
      → Outcome r a i
  -- before the items: refused
  late :
      pos 0 ≤ℤ r.last_index
      → i +ℤ pos 1 ≤ℤ oldest r
      → set_item r a i ≡ err (new_store_err too_late (itoa i))
      → Outcome r a i
  -- among the items: replaced
  replaced :
      pos 0 ≤ℤ r.last_index
      → oldest r ≤ℤ i
      → i ≤ℤ r.last_index
      → set_item r a i ≡ ok (record r { items = set r.items (pos_part (i -ℤ oldest r)) a })
      → Outcome r a i

module _ {A : Type 0} where
  assign_lem :
      (xs : List A) (n : ℤ) (a : A)
      → pos 0 ≤ℤ n
      → n +ℤ pos 1 ≤ℤ pos (length xs)
      → assign xs n a ≡ ok (set xs (pos_part n) a)
  unfolding assign ◌+ℤ◌
  assign_lem xs (pos n) a h k = ground arith
  assign_lem xs (negsuc n) a h k = absurd (omega arith)

  set_started :
      (r : RollingIndex A) (a : A) (i : ℤ)
      → pos 0 ≤ℤ r.last_index
      → i ≤ℤ r.last_index
      → Outcome r a i
  unfolding set_item
  set_started r a i started before = elim (Bool-cases (ltb_ℤ i (oldest r))) [
    | inl p ↦ late started (omega int_tests) (ground (arith, +ℤ_parts r.last_index (pos 1)))
    | inr p ↦
        let fits =
          assign_lem r.items (i -ℤ oldest r) a (omega int_tests)
            (omega (int_tests, oldest_parts r)) in
        replaced started (omega int_tests) before (ground (arith, +ℤ_parts r.last_index (pos 1)))
  ]

  -- `Set` does one of four things at any index: it refuses a skipped index or one that is too late, or
  -- it appends, or it replaces an item. It never writes out of range.
  pub set_item_cases : (r : RollingIndex A) (a : A) (i : ℤ) → Outcome r a i
  unfolding set_item
  set_item_cases r a i = elim (Bool-cases (leb_ℤ (pos 0) r.last_index)) [
    | inl p ↦ elim (Bool-cases (ltb_ℤ (r.last_index +ℤ pos 1) i)) [
      | inl q ↦ skipped (omega int_tests) (omega int_tests) (ground arith)
      | inr q ↦ elim (Bool-cases (eqb_ℤ i (r.last_index +ℤ pos 1))) [
        | inl e ↦ appended (inr (omega int_tests)) (ground (arith, append_lem r a i))
        | inr e ↦ set_started r a i (omega int_tests) (omega int_tests)
      ]
    ]
    | inr p ↦ appended (inl (omega int_tests)) (ground (arith, append_lem r a i))
  ]
