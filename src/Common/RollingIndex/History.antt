-- ===== src/Common/RollingIndex/History.antt =====
-- common/rolling_index.go against the whole sequence of items: what it keeps, and what it returns.
use paradigm.Prelude.{
  ℕ, ◌+◌, ◌-◌, ◌*◌, ◌≤◌, ◌<◌, min, ◌≡◌, refl, sym, ap, ◌∙◌, ◌≢◌, ◌⊎◌, inl, inr, false, List, [],
  ◌∷◌, ◌++◌, arith, leb, tests, Bool-cases, length, set, drop, length-append, length-set,
  length-drop, drop-append, drop-drop, drop_all, ℤ, pos, negsuc, pos_part, neg_part, ◌≤ℤ◌, ltb_ℤ,
  ◌+ℤ◌, ◌-ℤ◌, int_laws, int_tests, ltb_ℤ_of_le, nat_eq, int_eq, string_eq, pair_eq,
}
use paradigm.Common.Errors.{ok, panic, slice_from, ok-injective}
use paradigm.Common.RollingIndex.{RollingIndex, new_rolling_index, oldest, get, set_item}
use paradigm.Common.RollingIndex.Valid.{IsValid, oldest_parts, kept, length-kept}
use mathlib.Core.Path.{subst}
use paradigm.Common.RollingIndex.Set.{set_item_cases, skipped, appended, late, replaced}

-- The index holds the last items of a sequence that began at index 0, and not fewer than `size` of
-- them if there are so many.
pub record Tracks {A : Type 0} (r : RollingIndex A) (h : List A) : Type 0 where
  pub valid : IsValid r
  pub last : pos_part r.last_index + 1 ≡ length h + neg_part r.last_index
  pub window : r.items ≡ drop (length h - length r.items) h
  pub recent : min r.size (length h) ≤ length r.items

module _ {A : Type 0} where
  -- The index after a new item.
  abbrev pushed : RollingIndex A → A → ℤ → RollingIndex A
  pushed r a i = record r { items = kept r ++ (a ∷ []); last_index = i }

  length-kept-le : (r : RollingIndex A) → length (kept r) ≤ length r.items
  length-kept-le r = ground (arith, length-drop r.size r.items)

  length-pushed : (r : RollingIndex A) (a : A) → length (kept r ++ (a ∷ [])) ≡ length (kept r) + 1
  length-pushed r a = length-append (kept r) (a ∷ [])

  pushed-IsValid :
      (r : RollingIndex A) (a : A) (i : ℤ)
      → IsValid r
      → pos 0 ≤ℤ i
      → (r.last_index ≤ℤ negsuc 0) ⊎ (i ≡ r.last_index +ℤ pos 1)
      → IsValid (pushed r a i)
  pushed-IsValid r a i v h (inl s) = record {
    positive = v.positive;
    held = omega (arith, length-pushed r a, length-kept-le r, v.held);
    roomy = omega (arith, length-pushed r a, length-kept r v);
  }
  pushed-IsValid r a i v h (inr s) = record {
    positive = v.positive;
    held =
        let e : pos_part i + neg_part (r.last_index +ℤ pos 1)
            ≡ neg_part i + pos_part (r.last_index +ℤ pos 1) =
          rw s (omega arith) in
        omega (int_laws, length-pushed r a, length-kept-le r, v.held);
    roomy = omega (arith, length-pushed r a, length-kept r v);
  }

  replaced-IsValid :
      (r : RollingIndex A) (a : A) (n : ℕ)
      → IsValid r
      → IsValid (record r { items = set r.items n a })
  replaced-IsValid r a n v = record {
    positive = v.positive;
    held = omega (arith, length-set r.items n a, v.held);
    roomy = omega (arith, length-set r.items n a, v.roomy);
  }

  kept_window :
      (r : RollingIndex A) (h : List A) → Tracks r h → kept r ≡ drop (length h - length (kept r)) h
  kept_window r h t = elim (Bool-cases (leb (2 * r.size) (length r.items))) [
    | inl full ↦ rw full (
        ap (drop r.size) t.window
        ∙ drop-drop r.size (length h - length r.items) h
        ∙ ap (λ n. drop n h) {x = length h - length r.items + r.size}
            {y = length h - length (drop r.size r.items)}
            (omega (tests, length-drop r.size r.items, t.last, t.valid.held, t.valid.roomy)))
    | inr room ↦ rw room t.window
  ]

  -- `Set` of a valid index panics at no index, and what it leaves is valid.
  pub set_item-IsValid :
      (r : RollingIndex A) (a : A) (i : ℤ)
      → IsValid r
      → pos 0 ≤ℤ i
      → (set_item r a i ≢ panic) × ((r' : RollingIndex A) → set_item r a i ≡ ok r' → IsValid r')
  set_item-IsValid r a i v h = elim (set_item_cases r a i) [
    | skipped s t e ↦ (ground arith, λ r' k. absurd (ground arith))
    | late s t e ↦ (ground arith, λ r' k. absurd (ground arith))
    | appended s e ↦ (
      ground arith,
      λ r' k. subst IsValid (ok-injective (sym e ∙ k)) (pushed-IsValid r a i v h s),
    )
    | replaced s t u e ↦ (
      ground arith,
      λ r' k.
          subst IsValid (ok-injective (sym e ∙ k))
            (replaced-IsValid r a (pos_part (i -ℤ oldest r)) v),
    )
  ]

  pub new-Tracks : (size : ℕ) → 0 < size → Tracks {A = A} (new_rolling_index size) []
  unfolding new_rolling_index
  new-Tracks size h = record {
    valid = omega arith;
    last = refl;
    window = refl;
    recent = omega arith;
  }

  -- An index that tracks a sequence takes the next item of it, and then tracks the longer sequence.
  pub set_item-Tracks :
      (r : RollingIndex A) (h : List A) (a : A)
      → Tracks r h
      → (r' : RollingIndex A) × (set_item r a (pos (length h)) ≡ ok r') × Tracks r' (h ++ (a ∷ []))
  set_item-Tracks r h a t = elim (set_item_cases r a (pos (length h))) [
    | skipped s u e ↦ absurd (omega (int_tests, t.last))
    | late s u e ↦ absurd (omega (int_tests, t.last, oldest_parts r))
    | replaced s u w e ↦ absurd (omega (int_tests, t.last))
    | appended s e ↦ (
      record r { items = kept r ++ (a ∷ []); last_index = pos (length h) },
      e,
      record {
        valid = pushed-IsValid r a (pos (length h)) t.valid (omega arith) s;
        last = omega (arith, length-append h (a ∷ []));
        window =
            ap (λ xs. xs ++ (a ∷ [])) (kept_window r h t)
            ∙ sym (drop-append (length h - length (kept r)) h (a ∷ []) (omega arith))
            ∙ ap (λ n. drop n (h ++ (a ∷ []))) {x = length h - length (kept r)}
                {y = length (h ++ (a ∷ [])) - length (kept r ++ (a ∷ []))}
                (omega (arith, length-append h (a ∷ []), length-pushed r a));
        recent =
            omega
              (arith, length-append h (a ∷ []), length-pushed r a, length-kept r t.valid, t.recent);
      },
    )
  ]

  slice_from_lem : (xs : List A) (n : ℕ) → n ≤ length xs → slice_from xs (pos n) ≡ ok (drop n xs)
  unfolding slice_from
  slice_from_lem xs n h = ground arith

  -- Where the index tracks a sequence, and at most `size` items of it stand at `k` or later, `Get` of
  -- what follows `k - 1` returns all the items from `k` on.
  pub get-Tracks :
      (r : RollingIndex A) (h : List A) (k : ℕ)
      → Tracks r h
      → length h ≤ k + r.size
      → get r (pos k -ℤ pos 1) ≡ ok (drop k h)
  unfolding get
  get-Tracks r h k t near = elim (Bool-cases (ltb_ℤ r.last_index (pos k -ℤ pos 1))) [
    | inl p ↦ rw p (ap ok (sym (drop_all k h (omega (int_tests, t.last)))))
    | inr p ↦
        let m = k - (length h - length r.items) in
        let e : pos k -ℤ pos 1 -ℤ oldest r +ℤ pos 1 ≡ pos m =
          omega (int_tests, oldest_parts r, t.last, t.recent, t.valid.held) in
        let q : ltb_ℤ (pos k -ℤ pos 1 +ℤ pos 1) (oldest r) ≡ false =
          ltb_ℤ_of_le (pos k -ℤ pos 1 +ℤ pos 1) (oldest r)
            (omega (int_tests, oldest_parts r, t.last, t.recent, t.valid.held)) in
        rw (p, q, e)
          (slice_from_lem r.items m (omega (int_tests, oldest_parts r, t.last, t.valid.held))
            ∙ ap (λ xs. ok (drop m xs)) t.window
            ∙ ap ok (drop-drop m (length h - length r.items) h)
            ∙ ap (λ n. ok (drop n h)) {x = length h - length r.items + m} {y = k}
                (omega (arith, t.recent)))
  ]
