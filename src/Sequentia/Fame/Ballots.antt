-- ===== src/Sequentia/Fame/Ballots.antt =====
-- The ballots that witnesses cast in core/sequentia/sequentia.go: those that decide agree.
use paradigm.Prelude.{
  ℕ, ◌≤◌, ◌<◌, String, ◌≡◌, sym, ap, ◌∙◌, inl, inr, Bool, true, false, List, [], ◌∷◌, arith,
  if◌then◌else◌, Option-cases, length, ℤ, pos, ◌-ℤ◌, nat_eq, int_eq, string_eq, pair_eq,
}
use mathlib.Core.Path.{subst}
use paradigm.Common.Errors.{Result-cases}
use paradigm.Common.Lru
use paradigm.Sequentia.Fame.{
  Votes, Ballot, ballot, majority, count_votes, strongly_seen_by, round_witnesses, vote_on,
}
use paradigm.Sequentia.Fame.Votes.{Part, empty, take_one, leave_one, decisions_agree}
use paradigm.Sequentia.Graph.{
  Graph, done, ◌>>=◌, return, state, plurality, get_comet, most_plurality,
}
use paradigm.Sequentia.Graph.Frame.{>>=-eq-done, done-value, done-graph, Outcome-cases}
use paradigm.Sequentia.Queries.{cached, count_between, strongly_see, strongly_see_uncached}
use paradigm.Sequentia.Store.{Store}

-- A graph with the participants and the quorum of another.
pub record SameMembers {S : Type 0} (g g' : Graph S) : Type 0 where
  pub participants : g'.participants ≡ g.participants
  pub quorum : g'.most_plurality ≡ g.most_plurality

module _ {S : Type 0} (st : Store S) where
  SameMembers-trans : (f g h : Graph S) → SameMembers f g → SameMembers g h → SameMembers f h
  SameMembers-trans f g h p q = record {
    participants = q.participants ∙ p.participants;
    quorum = q.quorum ∙ p.quorum;
  }

  uncached-SameMembers :
      (x y : String) (g g' : Graph S) (v : Bool)
      → strongly_see_uncached st x y g ≡ done v g'
      → SameMembers g g'
  unfolding strongly_see_uncached get_comet most_plurality
  uncached-SameMembers x y g g' v e = elim (Result-cases (st.get_comet g.store x).0) [
    | inr (inl (b, eb)) ↦ record { participants = ground arith; quorum = ground arith }
    | inr (inr eb) ↦ absurd (ground arith)
    | inl (cx, ex) ↦ elim (Result-cases (st.get_comet (st.get_comet g.store x).1 y).0) [
      | inr (inl (b, eb)) ↦ record { participants = ground arith; quorum = ground arith }
      | inr (inr eb) ↦ absurd (ground arith)
      | inl (cy, ey) ↦ elim (Option-cases (count_between cx.last_ancestors cy.first_descendants)) [
        | inl short ↦ absurd (ground arith)
        | inr (c, ec) ↦ record { participants = ground arith; quorum = ground arith }
      ]
    ]
  ]

  strongly_see-SameMembers :
      (x y : String) (g g' : Graph S) (v : Bool)
      → strongly_see st x y g ≡ done v g'
      → SameMembers g g'
  unfolding strongly_see cached
  strongly_see-SameMembers x y g g' v e =
      let asked : Graph S = record g {
        strongly_see_cache = (Lru.get g.strongly_see_cache (x, y)).1;
      } in
      elim (Option-cases (Lru.get g.strongly_see_cache (x, y)).0) [
        | inr (w, hit) ↦ record { participants = ground arith; quorum = ground arith }
        | inl miss ↦ elim (Outcome-cases (strongly_see_uncached st x y asked)) [
          | inl (w, h, p) ↦
              let same = uncached-SameMembers x y asked h w p in
              record {
                participants = ground (arith, same.participants);
                quorum = ground (arith, same.quorum);
              }
          | inr (inl (b, h, p)) ↦ absurd (ground arith)
          | inr (inr p) ↦ absurd (ground arith)
        ]
      ]

  Part-cons :
      (b : Bool) (w : String) (ss ws : List String)
      → Part ss ws
      → Part (if b then w ∷ ss else ss) (w ∷ ws)
  Part-cons true w ss ws p = take_one w p
  Part-cons false w ss ws p = leave_one w p

  module _ (middle_bit : String → Bool) where
    -- The witnesses that are strongly seen are some of those asked about, and asking keeps the
    -- members.
    strongly_seen_by-Part :
        (y : String) (ws ss : List String) (g g' : Graph S)
        → strongly_seen_by st middle_bit y ws g ≡ done ss g'
        → Part ss ws × SameMembers g g'
    unfolding strongly_seen_by
    strongly_seen_by-Part y [] ss g g' e = (
      subst (λ xs. Part xs []) (done-value e) empty,
      record {
        participants = ap (λ (h : Graph S). h.participants) (sym (done-graph e));
        quorum = ap (λ (h : Graph S). h.most_plurality) (sym (done-graph e));
      },
    )
    strongly_seen_by-Part y (w ∷ ws) ss g g' e =
        let (seen, g₁, p₁, e₁) = >>=-eq-done (strongly_see st y w) _ g g' ss e in
        let (rest, g₂, p₂, e₂) = >>=-eq-done (strongly_seen_by st middle_bit y ws) _ g₁ g' ss e₁ in
        let (part, same) = strongly_seen_by-Part y ws rest g₁ g₂ p₂ in
        (
          subst (λ xs. Part xs (w ∷ ws)) (done-value e₂) (Part-cons seen w rest ws part),
          SameMembers-trans g g₁ g' (strongly_see-SameMembers y w g g₁ seen p₁)
              (subst (λ h. SameMembers g₁ h) (done-graph e₂) same),
        )

    -- What a ballot that was cast after the first round of votes rests on.
    record Cast (diff : ℕ) (votes : Votes) (x y : String) (ws : List String) (g : Graph S)
        (b : Ballot) : Type 0 where
      ss : List String
      part : Part ss ws
      counted :
          b
          ≡ ballot
              (length g.participants)
              g.most_plurality
              diff
              (majority (count_votes votes x ss))
              (middle_bit y)

    vote_on-Cast :
        (diff : ℕ) (j : ℤ) (votes : Votes) (x y : String) (g g' : Graph S) (b : Ballot)
        → 1 < diff
        → vote_on st middle_bit diff j votes x y g ≡ done b g'
        → Cast diff votes x y (st.round_witnesses g.store (j -ℤ pos 1)).0 g b
    unfolding vote_on round_witnesses most_plurality
    vote_on-Cast diff j votes x y g g' b later e =
        let ws = (st.round_witnesses g.store (j -ℤ pos 1)).0 in
        let g₀ : Graph S = record g { store = (st.round_witnesses g.store (j -ℤ pos 1)).1 } in
        let (ss, g₁, p₁, e₁) =
          >>=-eq-done (strongly_seen_by st middle_bit y ws)
            (λ ss.
              (state >>= λ h. most_plurality >>= λ q. return (
                ballot (length h.participants) q diff (majority (count_votes votes x ss))
                  (middle_bit y))))
            g₀ g' b (ground arith) in
        let (part, same) = strongly_seen_by-Part y ws ss g₀ g₁ p₁ in
        record {
          ss = ss;
          part = part;
          counted =
              sym (done-value e₁)
              ∙ ap
                  (λ q.
                    ballot (length g₁.participants) q diff (majority (count_votes votes x ss))
                      (middle_bit y))
                  same.quorum
              ∙ ap
                  (λ m.
                    ballot (length m) g.most_plurality diff (majority (count_votes votes x ss))
                      (middle_bit y))
                  same.participants;
        }

    -- In graphs of `n` participants with their quorum, whose stores give the same witnesses, at most
    -- `n`, for the round before: two witnesses that vote on `x` with the same votes of that round, at
    -- least two rounds after `x`, and that both decide its fame, decide it alike.
    pub vote_on_agree :
        (n d₁ d₂ : ℕ) (j : ℤ) (votes : Votes) (x y₁ y₂ : String) (ws : List String)
        (g₁ g₂ h₁ h₂ : Graph S) (b₁ b₂ : Ballot)
        → (length g₁.participants ≡ n) × (length g₂.participants ≡ n)
        → (g₁.most_plurality ≡ plurality n) × (g₂.most_plurality ≡ plurality n)
        → ((st.round_witnesses g₁.store (j -ℤ pos 1)).0 ≡ ws)
          × ((st.round_witnesses g₂.store (j -ℤ pos 1)).0 ≡ ws)
        → length ws ≤ n
        → (1 < d₁) × (1 < d₂)
        → vote_on st middle_bit d₁ j votes x y₁ g₁ ≡ done b₁ h₁
        → vote_on st middle_bit d₂ j votes x y₂ g₂ ≡ done b₂ h₂
        → b₁.decides ≡ true
        → b₂.decides ≡ true
        → b₁.vote ≡ b₂.vote
    vote_on_agree n d₁ d₂ j votes x y₁ y₂ ws g₁ g₂ h₁ h₂ b₁ b₂ (m₁, m₂) (q₁, q₂) (w₁, w₂) fits
          (l₁, l₂) e₁ e₂ k₁ k₂ =
        let c₁ = vote_on-Cast d₁ j votes x y₁ g₁ h₁ b₁ l₁ e₁ in
        let c₂ = vote_on-Cast d₂ j votes x y₂ g₂ h₂ b₂ l₂ e₂ in
        let t₁ = rw (m₁, q₁) at c₁.counted in
        let t₂ = rw (m₂, q₂) at c₂.counted in
        ap (λ (b : Ballot). b.vote) t₁
        ∙ decisions_agree votes x n fits (subst (λ u. Part c₁.ss u) w₁ c₁.part)
            (subst (λ u. Part c₂.ss u) w₂ c₂.part) d₁ d₂ (middle_bit y₁) (middle_bit y₂)
            (ap (λ (b : Ballot). b.decides) (sym t₁) ∙ k₁)
            (ap (λ (b : Ballot). b.decides) (sym t₂) ∙ k₂)
        ∙ ap (λ (b : Ballot). b.vote) (sym t₂)
