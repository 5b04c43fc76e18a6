-- ===== src/Sequentia/Queries/Quorum.antt =====
-- When core/sequentia/sequentia.go says that a comet strongly sees another, and that two such quorums
-- share a participant.
use paradigm.Prelude.{
  ℕ, suc, ◌+◌, ◌≤◌, ◌<◌, String, ◌≡◌, refl, sym, ap, ◌∙◌, inl, inr, true, ◌&&◌, some, List, [], ◌∷◌,
  arith, Bool-cases, Option-cases, length, get_elem?, ◌≤ℤ◌, leb_ℤ, nat_eq, int_eq, string_eq,
  pair_eq,
}
use paradigm.Common.Errors.{ok, Result-cases, ok-injective}
use paradigm.Sequentia.Graph.{Graph, done, plurality, get_comet, most_plurality}
use paradigm.Sequentia.Store.{Store}
use paradigm.Sequentia.Queries.{count_between, strongly_see_uncached}
use paradigm.Types.Comet.{Comet, EventCoordinates}

-- Between x and y there is a comet of participant `i`.
pub record Between (las fds : List EventCoordinates) (i : ℕ) : Type 0 where
  pub la : EventCoordinates
  pub fd : EventCoordinates
  pub last : get_elem? las i ≡ some la
  pub first : get_elem? fds i ≡ some fd
  pub ordered : fd.index ≤ℤ la.index

Between-cons :
    {las fds : List EventCoordinates} {i : ℕ} (x y : EventCoordinates)
    → Between las fds i
    → Between (x ∷ las) (y ∷ fds) (suc i)
Between-cons x y b = record {
  la = b.la;
  fd = b.fd;
  last = b.last;
  first = b.first;
  ordered = b.ordered;
}

-- More than all participants counted together leaves one that is counted twice.
overlap :
    (l₁ f₁ l₂ f₂ : List EventCoordinates) (c₁ c₂ : ℕ)
    → length l₁ ≡ length l₂
    → count_between l₁ f₁ ≡ some c₁
    → count_between l₂ f₂ ≡ some c₂
    → length l₁ < c₁ + c₂
    → (i : ℕ) × (i < length l₁) × Between l₁ f₁ i × Between l₂ f₂ i
unfolding count_between
overlap [] f₁ [] f₂ c₁ c₂ n e₁ e₂ h = absurd (ground arith)
overlap [] f₁ (y ∷ l₂) f₂ c₁ c₂ n e₁ e₂ h = absurd (omega arith)
overlap (x ∷ l₁) f₁ [] f₂ c₁ c₂ n e₁ e₂ h = absurd (omega arith)
overlap (x ∷ l₁) [] (y ∷ l₂) f₂ c₁ c₂ n e₁ e₂ h = absurd (cc)
overlap (x ∷ l₁) (u ∷ f₁) (y ∷ l₂) [] c₁ c₂ n e₁ e₂ h = absurd (cc)
overlap (x ∷ l₁) (u ∷ f₁) (y ∷ l₂) (w ∷ f₂) c₁ c₂ n e₁ e₂ h =
    elim (Option-cases (count_between l₁ f₁)) [
      | inl bad ↦ absurd (ground arith)
      | inr (d₁, k₁) ↦ elim (Option-cases (count_between l₂ f₂)) [
        | inl bad ↦ absurd (ground arith)
        | inr (d₂, k₂) ↦ elim (Bool-cases (leb_ℤ u.index x.index && leb_ℤ w.index y.index)) [
          | inl both ↦ (
            0,
            omega arith,
            record { la = x; fd = u; last = refl; first = refl; ordered = ground arith },
            record { la = y; fd = w; last = refl; first = refl; ordered = ground arith },
          )
          | inr other ↦
              let (i, below, b₁, b₂) =
                overlap l₁ f₁ l₂ f₂ d₁ d₂ (omega arith) k₁ k₂ (ground arith) in
              (suc i, omega arith, Between-cons x u b₁, Between-cons y w b₂)
        ]
      ]
    ]

-- What a positive answer rests on: the comets that were read, and a quorum of participants.
pub record Seen {S : Type 0} (st : Store S) (x y : String) (g : Graph S) : Type 0 where
  pub seer : Comet
  pub target : Comet
  pub count : ℕ
  pub read_seer : (st.get_comet g.store x).0 ≡ ok seer
  pub read_target : (st.get_comet (st.get_comet g.store x).1 y).0 ≡ ok target
  pub counted : count_between seer.last_ancestors target.first_descendants ≡ some count
  pub enough : g.most_plurality ≤ count

module _ {S : Type 0} (st : Store S) where
  strongly_see-Seen :
      (x y : String) (g g' : Graph S)
      → strongly_see_uncached st x y g ≡ done true g'
      → Seen st x y g
  unfolding strongly_see_uncached get_comet most_plurality
  strongly_see-Seen x y g g' h = elim (Result-cases (st.get_comet g.store x).0) [
    | inr (inl (bad, eb)) ↦ absurd (ground arith)
    | inr (inr eb) ↦ absurd (ground arith)
    | inl (cx, ex) ↦ elim (Result-cases (st.get_comet (st.get_comet g.store x).1 y).0) [
      | inr (inl (bad, eb)) ↦ absurd (ground arith)
      | inr (inr eb) ↦ absurd (ground arith)
      | inl (cy, ey) ↦ elim (Option-cases (count_between cx.last_ancestors cy.first_descendants)) [
        | inl short ↦ absurd (ground arith)
        | inr (c, ec) ↦ record {
          seer = cx;
          target = cy;
          count = c;
          read_seer = ex;
          read_target = ey;
          counted = ec;
          enough = ground arith;
        }
      ]
    ]
  ]

  seer_lem :
      (x y : String) (g : Graph S) (c : Comet)
      → (st.get_comet g.store x).0 ≡ ok c
      → (a : Seen st x y g) → length a.seer.last_ancestors ≡ length c.last_ancestors
  seer_lem x y g c h a =
      ap (λ (d : Comet). length d.last_ancestors) (ok-injective (sym a.read_seer ∙ h))

  -- Any two comets with coordinates for all `n` participants that strongly see another, in graphs
  -- whose quorum is that of `n` participants, do so through a common participant.
  pub strongly_see_overlap :
      (n : ℕ) (x₁ y₁ x₂ y₂ : String) (g₁ g₂ h₁ h₂ : Graph S) (c₁ c₂ : Comet)
      → (st.get_comet g₁.store x₁).0 ≡ ok c₁
      → (st.get_comet g₂.store x₂).0 ≡ ok c₂
      → length c₁.last_ancestors ≡ n
      → length c₂.last_ancestors ≡ n
      → g₁.most_plurality ≡ plurality n
      → g₂.most_plurality ≡ plurality n
      → strongly_see_uncached st x₁ y₁ g₁ ≡ done true h₁
      → strongly_see_uncached st x₂ y₂ g₂ ≡ done true h₂
      → (a : Seen st x₁ y₁ g₁) × (b : Seen st x₂ y₂ g₂) × (i : ℕ) × (i < n)
        × Between a.seer.last_ancestors a.target.first_descendants i
        × Between b.seer.last_ancestors b.target.first_descendants i
  strongly_see_overlap n x₁ y₁ x₂ y₂ g₁ g₂ h₁ h₂ c₁ c₂ r₁ r₂ l₁ l₂ q₁ q₂ e₁ e₂ =
      let a = strongly_see-Seen x₁ y₁ g₁ h₁ e₁ in
      let b = strongly_see-Seen x₂ y₂ g₂ h₂ e₂ in
      let m₁ = seer_lem x₁ y₁ g₁ c₁ r₁ a ∙ l₁ in
      let m₂ = seer_lem x₂ y₂ g₂ c₂ r₂ b ∙ l₂ in
      let (i, below, u, v) =
        overlap a.seer.last_ancestors a.target.first_descendants b.seer.last_ancestors
          b.target.first_descendants a.count b.count (omega arith) a.counted b.counted
          (omega (arith, a.enough, b.enough)) in
      (a, b, i, omega arith, u, v)
