-- ===== src/Tests/Sorts.antt =====
-- A sort by insertion sorts by timestamps.
use paradigm.Prelude.{
  ℕ, zero, suc, ◌≤◌, ◌≡◌, refl, ap, ◌∙◌, inl, inr, Bool, some, List, [], ◌∷◌, arith, if◌then◌else◌,
  Bool-cases, get_elem?, ℤ, ◌≤ℤ◌, ltb_ℤ-false→le, nat_eq, int_eq, string_eq, pair_eq,
}
use paradigm.Sequentia.Order.{by_timestamp}
use paradigm.Sequentia.Order.Median.{SortsByTime, count}
use paradigm.Tests.Graphs.{inserted, sorted}
use paradigm.Types.Comet.{Comet}

-- No timestamp is before `lo`.
abbrev AllFrom : ℤ → List Comet → Type 0
AllFrom lo [] = Unit {0}
AllFrom lo (c ∷ cs) = (lo ≤ℤ c.body.timestamp) × AllFrom lo cs

abbrev Ascending : List Comet → Type 0
Ascending [] = Unit {0}
Ascending (c ∷ cs) = AllFrom c.body.timestamp cs × Ascending cs

AllFrom-later : (lo hi : ℤ) (cs : List Comet) → lo ≤ℤ hi → AllFrom hi cs → AllFrom lo cs
AllFrom-later lo hi [] h a = tt
AllFrom-later lo hi (c ∷ cs) h (b, a) = (ground (arith, h, b), AllFrom-later lo hi cs h a)

AllFrom-get :
    (lo : ℤ) (cs : List Comet) (i : ℕ) (c : Comet)
    → AllFrom lo cs
    → get_elem? cs i ≡ some c
    → lo ≤ℤ c.body.timestamp
AllFrom-get lo [] i c a e = absurd (cc)
AllFrom-get lo (d ∷ cs) zero c (b, a) e = ground (arith, b, e)
AllFrom-get lo (d ∷ cs) (suc i) c (b, a) e = AllFrom-get lo cs i c a e

Ascending-get :
    (cs : List Comet) (i j : ℕ) (a b : Comet)
    → Ascending cs
    → i ≤ j
    → get_elem? cs i ≡ some a
    → get_elem? cs j ≡ some b
    → a.body.timestamp ≤ℤ b.body.timestamp
Ascending-get [] i j a b s h e f = absurd (cc)
Ascending-get (c ∷ cs) zero zero a b s h e f = ground (arith, e, f)
Ascending-get (c ∷ cs) zero (suc j) a b (from, s) h e f =
    let low = AllFrom-get c.body.timestamp cs j b from f in ground (arith, e, low)
Ascending-get (c ∷ cs) (suc i) zero a b s h e f = absurd (omega (arith, h))
Ascending-get (c ∷ cs) (suc i) (suc j) a b (from, s) h e f =
    Ascending-get cs i j a b s (omega (arith, h)) e f

AllFrom-inserted :
    (lo : ℤ) (c : Comet) (cs : List Comet)
    → lo ≤ℤ c.body.timestamp
    → AllFrom lo cs
    → AllFrom lo (inserted by_timestamp c cs)
AllFrom-inserted lo c [] h a = (h, tt)
AllFrom-inserted lo c (d ∷ cs) h (b, a) = elim (Bool-cases (by_timestamp c d)) [
  | inl y ↦ rw y (h, (b, a))
  | inr n ↦ rw n (b, AllFrom-inserted lo c cs h a)
]

Ascending-inserted :
    (c : Comet) (cs : List Comet) → Ascending cs → Ascending (inserted by_timestamp c cs)
Ascending-inserted c [] s = (tt, tt)
Ascending-inserted c (d ∷ cs) (from, s) = elim (Bool-cases (by_timestamp c d)) [
  | inl y ↦
      let before : c.body.timestamp ≤ℤ d.body.timestamp = ground (arith, y) in
      rw y ((before, AllFrom-later c.body.timestamp d.body.timestamp cs before from), (from, s))
  | inr n ↦
      let after = ltb_ℤ-false→le c.body.timestamp d.body.timestamp n in
      rw n (AllFrom-inserted d.body.timestamp c cs after from, Ascending-inserted c cs s)
]

Ascending-sorted : (cs : List Comet) → Ascending (sorted by_timestamp cs)
Ascending-sorted [] = tt
Ascending-sorted (c ∷ cs) = Ascending-inserted c (sorted by_timestamp cs) (Ascending-sorted cs)

count-inserted :
    (p : Comet → Bool) (c : Comet) (cs : List Comet)
    → count p (inserted by_timestamp c cs) ≡ count p (c ∷ cs)
unfolding count
count-inserted p c [] = refl
count-inserted p c (d ∷ cs) = elim (Bool-cases (by_timestamp c d)) [
  | inl y ↦ rw y refl
  | inr n ↦
      let rest = count-inserted p c cs in
      elim (Bool-cases (p c)) [
        | inl a ↦ elim (Bool-cases (p d)) [
          | inl b ↦ rw (n, b, rest, a) refl
          | inr b ↦ rw (n, b, rest, a) refl
        ]
        | inr a ↦ elim (Bool-cases (p d)) [
          | inl b ↦ rw (n, b, rest, a) refl
          | inr b ↦ rw (n, b, rest, a) refl
        ]
      ]
]

count-sorted : (p : Comet → Bool) (cs : List Comet) → count p (sorted by_timestamp cs) ≡ count p cs
unfolding count
count-sorted p [] = refl
count-sorted p (c ∷ cs) =
    count-inserted p c (sorted by_timestamp cs)
    ∙ ap (λ n. if p c then suc n else n) (count-sorted p cs)

pub sorted-SortsByTime : SortsByTime sorted
sorted-SortsByTime = record {
  ordered = λ cs i j a b h e f.
      Ascending-get (sorted by_timestamp cs) i j a b (Ascending-sorted cs) h e f;
  permutes = count-sorted;
}
