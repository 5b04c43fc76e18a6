-- ===== src/Sequentia/Order/Median.antt =====
-- The median timestamp of core/sequentia/sequentia.go lies among the timestamps of any majority.
use paradigm.Prelude.{
  ℕ, zero, suc, ◌+◌, ◌*◌, ◌/◌, ◌≤◌, ◌<◌, String, ◌≡◌, refl, sym, ap, ◌∙◌, inl, inr, Bool, true,
  false, some, List, [], ◌∷◌, arith, if◌then◌else◌, Bool-cases, length, get_elem?, get_elem?_in, ℤ,
  ◌≤ℤ◌, leb_ℤ, leb_ℤ→le, nat_eq, int_eq, string_eq, pair_eq,
}
use paradigm.Sequentia.Graph.{Graph, done, get_comet}
use paradigm.Sequentia.Graph.Frame.{>>=-eq-done, done-value}
use paradigm.Sequentia.Order.{Sort, by_timestamp, comets_of, median_timestamp}
use paradigm.Sequentia.Store.{Store}
use paradigm.Types.Comet.{Comet}

-- How many of the comets pass a test.
unfoldable pub count : (Comet → Bool) → List Comet → ℕ
count p [] = 0
count p (c ∷ cs) = let rest = count p cs in if p c then suc rest else rest

-- What `sort.Sort` promises of the order by timestamps.
pub record SortsByTime (sort : Sort) : Type 0 where
  pub ordered :
      (cs : List Comet) (i j : ℕ) (a b : Comet)
      → i ≤ j
      → get_elem? (sort by_timestamp cs) i ≡ some a
      → get_elem? (sort by_timestamp cs) j ≡ some b
      → a.body.timestamp ≤ℤ b.body.timestamp
  pub permutes : (p : Comet → Bool) (cs : List Comet) → count p (sort by_timestamp cs) ≡ count p cs

count-all : (cs : List Comet) → count (λ c. true) cs ≡ length cs
unfolding count
count-all [] = refl
count-all (c ∷ cs) = ap suc (count-all cs)

-- Where the first `k` fail the test, the others are all that can pass it.
count-prefix :
    (p : Comet → Bool) (cs : List Comet) (k : ℕ)
    → k ≤ length cs
    → ((i : ℕ) (c : Comet) → i < k → get_elem? cs i ≡ some c → p c ≡ false)
    → count p cs + k ≤ length cs
unfolding count
count-prefix p [] k h f = omega (arith, h)
count-prefix p (c ∷ cs) zero h f =
    let rest = count-prefix p cs zero (omega arith) (λ i d j e. absurd (omega (arith, j))) in
    elim (Bool-cases (p c)) [
      | inl y ↦ rw y (omega (arith, rest))
      | inr n ↦ rw n (omega (arith, rest))
    ]
count-prefix p (c ∷ cs) (suc k) h f =
    let rest =
      count-prefix p cs k (omega (arith, h)) (λ i d j e. f (suc i) d (omega (arith, j)) e) in
    let fails = f 0 c (omega arith) refl in rw fails (omega (arith, rest))

-- Where those from the `k`-th on fail the test, at most `k` pass it.
count-suffix :
    (p : Comet → Bool) (cs : List Comet) (k : ℕ)
    → ((i : ℕ) (c : Comet) → k ≤ i → get_elem? cs i ≡ some c → p c ≡ false)
    → count p cs ≤ k
unfolding count
count-suffix p [] k f = omega arith
count-suffix p (c ∷ cs) zero f =
    let rest = count-suffix p cs zero (λ i d j e. f (suc i) d (omega arith) e) in
    let fails = f 0 c (omega arith) refl in rw fails (omega (arith, rest))
count-suffix p (c ∷ cs) (suc k) f =
    let rest = count-suffix p cs k (λ i d j e. f (suc i) d (omega (arith, j)) e) in
    elim (Bool-cases (p c)) [
      | inl y ↦ rw y (omega (arith, rest))
      | inr n ↦ rw n (omega (arith, rest))
    ]

not_after : (lo t s : ℤ) → leb_ℤ lo t ≡ false → s ≤ℤ t → leb_ℤ lo s ≡ false
not_after lo t s h j = ground (arith, h, j)

not_before : (t hi s : ℤ) → leb_ℤ t hi ≡ false → t ≤ℤ s → leb_ℤ s hi ≡ false
not_before t hi s h j = ground (arith, h, j)

-- The comet in the middle of the sorted ones, and what a majority says of its timestamp.
middle_lem :
    (sort : Sort) (es : List Comet)
    → SortsByTime sort
    → 0 < length es
    → (c : Comet) × (get_elem? (sort by_timestamp es) (length es / 2) ≡ some c)
      × ((lo : ℤ)
          → length es < 2 * count (λ e. leb_ℤ lo e.body.timestamp) es
          → lo ≤ℤ c.body.timestamp)
      × ((hi : ℤ)
          → length es < 2 * count (λ e. leb_ℤ e.body.timestamp hi) es
          → c.body.timestamp ≤ℤ hi)
middle_lem sort es s some_comet =
    let cs = sort by_timestamp es in
    let same : length cs ≡ length es =
      sym (count-all cs) ∙ s.permutes (λ c. true) es ∙ count-all es in
    let (c, at) = get_elem?_in cs (length es / 2) (omega (arith, same, some_comet)) in
    (
      c,
      at,
      λ lo most. elim (Bool-cases (leb_ℤ lo c.body.timestamp)) [
        | inl y ↦ leb_ℤ→le lo c.body.timestamp y
        | inr n ↦
            let few =
              count-prefix (λ e. leb_ℤ lo e.body.timestamp) cs (suc (length es / 2))
                (omega (arith, same, some_comet))
                (λ i e j q.
                  not_after lo c.body.timestamp e.body.timestamp n
                    (s.ordered es i (length es / 2) e c (omega (arith, j)) q at)) in
            absurd (omega (arith, few, most, same, s.permutes (λ e. leb_ℤ lo e.body.timestamp) es))
      ],
      λ hi most. elim (Bool-cases (leb_ℤ c.body.timestamp hi)) [
        | inl y ↦ leb_ℤ→le c.body.timestamp hi y
        | inr n ↦
            let few =
              count-suffix (λ e. leb_ℤ e.body.timestamp hi) cs (length es / 2)
                (λ i e j q.
                  not_before c.body.timestamp hi e.body.timestamp n
                    (s.ordered es (length es / 2) i c e j at q)) in
            absurd (omega (arith, few, most, s.permutes (λ e. leb_ℤ e.body.timestamp hi) es))
      ],
    )

module _ {S : Type 0} (st : Store S) (sort : Sort) where
  length-comets_of :
      (empty : Comet) (hashes : List String) (g g' : Graph S) (es : List Comet)
      → comets_of st sort empty hashes g ≡ done es g'
      → length es ≡ length hashes
  unfolding comets_of
  length-comets_of empty [] g g' es e = ap length (sym (done-value e))
  length-comets_of empty (x ∷ xs) g g' es e =
      let (c, h, p, q) = >>=-eq-done (get_comet st x) _ g g' es e in
      let (rest, k, p', q') = >>=-eq-done (comets_of st sort empty xs) _ h g' es q in
      ap length (sym (done-value q')) ∙ ap suc (length-comets_of empty xs h k rest p')

  -- Of one name or more, with a sort by timestamps, `MedianTimestamp` gives a timestamp without a panic:
  -- one that is not before `lo` if a majority of the comets is not, and not after `hi` if a majority is
  -- not.
  pub median_timestamp_lem :
      (empty : Comet) (hashes : List String) (g g' : Graph S) (es : List Comet)
      → SortsByTime sort
      → 0 < length hashes
      → comets_of st sort empty hashes g ≡ done es g'
      → (t : ℤ) × (median_timestamp st sort empty hashes g ≡ done t g')
        × ((lo : ℤ) → length es < 2 * count (λ c. leb_ℤ lo c.body.timestamp) es → lo ≤ℤ t)
        × ((hi : ℤ) → length es < 2 * count (λ c. leb_ℤ c.body.timestamp hi) es → t ≤ℤ hi)
  unfolding median_timestamp
  median_timestamp_lem empty hashes g g' es s one e =
      let (c, at, lo, hi) =
        middle_lem sort es s (omega (arith, one, length-comets_of empty hashes g g' es e)) in
      (c.body.timestamp, ground (arith, e, at), lo, hi)
