-- ===== src/Sequentia/Fame/Votes.antt =====
-- The arithmetic of the votes of core/sequentia/sequentia.go: two large majorities of one round meet.
use paradigm.Prelude.{
  ℕ, ◌+◌, ◌*◌, ◌≤◌, String, ◌≡◌, refl, Bool, true, List, [], ◌∷◌, arith, length, nat_eq, int_eq,
  string_eq, pair_eq,
}
use paradigm.Sequentia.Graph.{plurality}
use paradigm.Sequentia.Fame.{Votes, count_votes, majority, ballot}

-- A list that is some of the entries of another, in order.
pub data Part {A : Type 0} : List A → List A → Type 0 where
  empty : Part [] []
  take_one : {ss ws : List A} → (w : A) → Part ss ws → Part (w ∷ ss) (w ∷ ws)
  leave_one : {ss ws : List A} → (w : A) → Part ss ws → Part ss (w ∷ ws)

pub count_votes-total :
    (votes : Votes) (x : String) (ws : List String)
    → (count_votes votes x ws).0 + (count_votes votes x ws).1 ≡ length ws
unfolding count_votes
count_votes-total votes x [] = refl
count_votes-total votes x (w ∷ ws) = ground (arith, count_votes-total votes x ws)

pub count_votes-Part :
    (votes : Votes) (x : String) {ss ws : List String}
    → Part ss ws
    → ((count_votes votes x ss).0 ≤ (count_votes votes x ws).0)
      × ((count_votes votes x ss).1 ≤ (count_votes votes x ws).1)
unfolding count_votes
count_votes-Part votes x empty = omega arith
count_votes-Part votes x (take_one w p) = ground (arith, count_votes-Part votes x p)
count_votes-Part votes x (leave_one w p) = ground (arith, count_votes-Part votes x p)

-- Two thirds of the participants are fewer than a quorum.
pub plurality_bounds : (n : ℕ) → (2 * n + 1 ≤ 3 * plurality n) × (n + 1 ≤ 2 * plurality n)
plurality_bounds n = omega arith

module _ (votes : Votes) (x : String) (n : ℕ) {ws s₁ s₂ : List String} where
  -- Of a round of at most `n` witnesses, for `n` participants: two ballots on `x`, each counted over
  -- some of those witnesses, that both decide the fame of `x` decide it alike.
  pub decisions_agree :
      length ws ≤ n
      → Part s₁ ws
      → Part s₂ ws
      → (d₁ d₂ : ℕ) (c₁ c₂ : Bool)
      → let b₁ = ballot n (plurality n) d₁ (majority (count_votes votes x s₁)) c₁ in
        let b₂ = ballot n (plurality n) d₂ (majority (count_votes votes x s₂)) c₂ in
        b₁.decides ≡ true → b₂.decides ≡ true → b₁.vote ≡ b₂.vote
  unfolding ballot majority
  decisions_agree fits p₁ p₂ d₁ d₂ c₁ c₂ h₁ h₂ = ground (
    arith,
    plurality_bounds n,
    count_votes-total votes x ws,
    count_votes-Part votes x p₁,
    count_votes-Part votes x p₂,
  )

  -- Of a round of at most `n` witnesses, for `n` participants: when a ballot on `x`, counted over some
  -- of those witnesses, decides, every ballot of the same round that is counted over a quorum of them
  -- has the same vote.
  pub decision_spreads :
      length ws ≤ n
      → Part s₁ ws
      → Part s₂ ws
      → plurality n ≤ length s₂
      → (d : ℕ) (c₁ c₂ : Bool)
      → let b₁ = ballot n (plurality n) d (majority (count_votes votes x s₁)) c₁ in
        let b₂ = ballot n (plurality n) d (majority (count_votes votes x s₂)) c₂ in
        b₁.decides ≡ true → b₂.vote ≡ b₁.vote
  unfolding ballot majority
  decision_spreads fits p₁ p₂ quorum d c₁ c₂ h = ground (
    arith,
    plurality_bounds n,
    count_votes-total votes x ws,
    count_votes-total votes x s₂,
    count_votes-Part votes x p₁,
    count_votes-Part votes x p₂,
  )
