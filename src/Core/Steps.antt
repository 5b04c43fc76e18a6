-- ===== src/Core/Steps.antt =====
-- What a step of core/core.go that ended with a value went through.
use paradigm.Prelude.{
  ℕ, String, ◌≡◌, refl, sym, ap, ◌∙◌, ◌⊎◌, inl, inr, Bool, arith, Bool-cases, Option-cases, ℤ, pos,
  leb_ℤ, nat_eq, int_eq, string_eq, pair_eq, find,
}
use mathlib.Core.Path.{subst}
use paradigm.Common.Errors.{Result-cases}
use paradigm.Core.{
  Core, CoreM, CoreOutcome, Keys, ended, refused, crashed, ◌>>=◌, in_graph, insert_event, follow,
}
use paradigm.Sequentia.Graph.{Graph, M, GraphErr, done}
use paradigm.Sequentia.Graph.Frame.{Outcome-cases}
use paradigm.Sequentia.Insert.{Crypto, insert_comet, name_of}
use paradigm.Sequentia.Insert.Laws.{Inserted, insert_comet_lem}
use paradigm.Sequentia.Store.{Store}
use paradigm.Sequentia.Wire.{read_wire_info, parent_at, known_name}
use paradigm.Types.Comet.{Comet, CometBody, WireEvent}

module _ {S : Type 0} where
  pub CoreOutcome-cases :
      {A : Type 0} (o : CoreOutcome S A)
      → ((a : A) × (c : Core S) × (o ≡ ended a c))
        ⊎ (((x : GraphErr) × (c : Core S) × (o ≡ refused x c)) ⊎ (o ≡ crashed))
  CoreOutcome-cases (ended a c) = inl (a, c, refl)
  CoreOutcome-cases (refused x c) = inr (inl (x, c, refl))
  CoreOutcome-cases crashed = inr (inr refl)

  pub ended-state : {A : Type 0} {a b : A} {c d : Core S} → ended a c ≡ ended b d → c ≡ d
  ended-state q = cc

  pub ended-value : {A : Type 0} {a b : A} {c d : Core S} → ended a c ≡ ended b d → a ≡ b
  ended-value q = cc

  pub >>=-eq-ended :
      {A B : Type 0} (m : CoreM S A) (f : A → CoreM S B) (c d : Core S) (b : B)
      → (m >>= f) c ≡ ended b d
      → (a : A) × (c' : Core S) × (m c ≡ ended a c') × (f a c' ≡ ended b d)
  >>=-eq-ended m f c d b e = elim (CoreOutcome-cases (m c)) [
    | inl (a, c', p) ↦ (a, c', p, ground arith)
    | inr (inl (x, c', p)) ↦ absurd (ground arith)
    | inr (inr p) ↦ absurd (ground arith)
  ]

  -- A method of the graph changes the graph alone.
  pub in_graph-eq-ended :
      {A : Type 0} (m : M S A) (c d : Core S) (a : A)
      → in_graph m c ≡ ended a d
      → (g : Graph S) × (m c.graph ≡ done a g) × (d ≡ record c { graph = g })
  in_graph-eq-ended m c d a e = elim (Outcome-cases (m c.graph)) [
    | inl (b, g, p) ↦ (g, ground arith, ground arith)
    | inr (inl (x, g, p)) ↦ absurd (ground arith)
    | inr (inr p) ↦ absurd (ground arith)
  ]

module _ {S : Type 0} (st : Store S) (crypto : Crypto) where
  parent_at-stays :
      (creator p : String) (i : ℤ) (g g' : Graph S)
      → parent_at st crypto creator i g ≡ done p g'
      → g' ≡ g
  unfolding parent_at
  parent_at-stays creator p i g g' e = elim (Bool-cases (leb_ℤ (pos 0) i)) [
    | inr root ↦ ground arith
    | inl inside ↦ elim (Result-cases (st.participant_event g.store creator i)) [
      | inl (a, q) ↦ ground arith
      | inr (inl (x, q)) ↦ absurd (ground arith)
      | inr (inr q) ↦ absurd (ground arith)
    ]
  ]

  -- Reading a comet from the wire leaves the graph as it is.
  pub read_wire_info-stays :
      (hash : CometBody → String) (we : WireEvent) (g g' : Graph S) (ev : Comet)
      → read_wire_info st crypto hash we g ≡ done ev g'
      → g' ≡ g
  unfolding read_wire_info known_name
  read_wire_info-stays hash we g g' ev e =
      elim (Option-cases (find we.body.creator_id g.reverse_participants)) [
        | inl bad ↦ absurd (ground arith)
        | inr (creator, p) ↦ elim (Option-cases (crypto.from_hex creator)) [
          | inl bad ↦ absurd (ground arith)
          | inr (bytes, q) ↦
              elim (Outcome-cases (parent_at st crypto creator we.body.self_parent_index g)) [
                | inr (inl (x, h, bad)) ↦ absurd (ground arith)
                | inr (inr bad) ↦ absurd (ground arith)
                | inl (self, h, r) ↦
                    let same = parent_at-stays creator self we.body.self_parent_index g h r in
                    elim (Outcome-cases (
                      parent_at st crypto
                        (name_of g.reverse_participants we.body.other_parent_creator_id)
                        we.body.other_parent_index h)) [
                          | inr (inl (x, k, bad)) ↦ absurd (ground arith)
                          | inr (inr bad) ↦ absurd (ground arith)
                          | inl (other, k, t) ↦
                              let same' =
                                parent_at-stays
                                  (name_of g.reverse_participants we.body.other_parent_creator_id)
                                  other we.body.other_parent_index h k t in
                              ground arith
                        ]
              ]
        ]
      ]

  follow-fields :
      (keys : Keys) (ev : Comet) (c : Core S)
      → ((follow st crypto keys ev c).graph ≡ c.graph)
        × ((follow st crypto keys ev c).transaction_pool ≡ c.transaction_pool)
        × ((follow st crypto keys ev c).block_signature_pool ≡ c.block_signature_pool)
  unfolding follow
  follow-fields keys ev c = ground arith

  -- A comet that `InsertEvent` took is in the graph, and the node follows it; the pools stay.
  pub insert_event_lem :
      (keys : Keys) (fuel : ℕ) (ev : Comet) (wire : Bool) (c d : Core S)
      → insert_event st crypto keys fuel ev wire c ≡ ended tt d
      → Inserted st ev c.graph d.graph
        × (d ≡ follow st crypto keys ev (record c { graph = d.graph }))
        × (d.transaction_pool ≡ c.transaction_pool)
        × (d.block_signature_pool ≡ c.block_signature_pool)
  unfolding insert_event follow
  insert_event_lem keys fuel ev wire c d e =
      let (u, c', p, q) =
        >>=-eq-ended (in_graph (insert_comet st crypto fuel ev wire)) _ c d tt e in
      let (g, r, s) = in_graph-eq-ended (insert_comet st crypto fuel ev wire) c c' u p in
      let followed : d ≡ follow st crypto keys ev (record c { graph = g }) =
        sym (ended-state q) ∙ ap (follow st crypto keys ev) s in
      let kept = follow-fields keys ev (record c { graph = g }) in
      let same : d.graph ≡ g = ap (λ (x : Core S). x.graph) followed ∙ kept.0 in
      (
        subst (Inserted st ev c.graph) (sym same)
            (insert_comet_lem st crypto fuel ev wire c.graph g r).2,
        followed ∙ ap (λ h. follow st crypto keys ev (record c { graph = h })) (sym same),
        ap (λ (x : Core S). x.transaction_pool) followed ∙ kept.1,
        ap (λ (x : Core S). x.block_signature_pool) followed ∙ kept.2,
      )
