-- ===== src/Sequentia/Insert/Laws.antt =====
-- What an insertion in core/sequentia/sequentia.go has checked and done when it succeeds.
use paradigm.Prelude.{
  ℕ, suc, ◌≡◌, refl, sym, ap, ◌∙◌, inl, inr, Bool, true, Option, none, some, List, [], ◌∷◌, ◌++◌,
  arith, if◌then◌else◌, Bool-cases, length, replicate, ℤ, pos, ◌+ℤ◌, nat_eq, int_eq, string_eq,
  pair_eq, eq_of_==, find,
}
use paradigm.Common.Errors.{ok, Result-cases}
use paradigm.Sequentia.Coordinates.{
  init_event_coordinates, update_ancestor_first_descendant, placed, merged, put_at, no_descendant,
}
use paradigm.Sequentia.Coordinates.Frame.{Keeps-init, Keeps-update}
use paradigm.Sequentia.Graph.{Graph, M, done, ◌>>◌, return, state, id_of, get_comet}
use paradigm.Sequentia.Graph.Frame.{
  Keeps, Keeps-if, Keeps-return, done-graph, OnlyStore-fields, >>=-eq-done, Yields, Yields-return,
  Yields-fail, Yields-crash, Yields-bind, Yields-if,
}
use paradigm.Sequentia.Insert.{
  Crypto, is_valid, check_self_parent, check_other_parent, stamp, store_comet, enqueue,
  insert_checked, insert_comet, record_block_signatures, set_wire_info_of, self_parent_index_of,
  other_parent_info_of,
}
use paradigm.Sequentia.Insert.Frame.{
  Keeps-check_self_parent, Keeps-check_other_parent, Keeps-store_comet,
  Keeps-record_block_signatures, Keeps-set_wire_info,
}
use paradigm.Sequentia.Store.{Store}
use paradigm.Types.Comet.{Comet, EventCoordinates, set_wire_info, is_loaded}

-- Two comets with the same name, payload and place in their creator's sequence.
pub record SameContent (c d : Comet) : Type 0 where
  pub hex : c.hex ≡ d.hex
  pub loaded : is_loaded c ≡ is_loaded d

module _ {S : Type 0} (st : Store S) where
  Yields-placed :
      (c : Comet) (n : ℕ) (m : Option (List EventCoordinates)) (o : Option ℤ)
      → Yields (λ d. SameContent d c) (placed st c n m o)
  unfolding placed is_loaded
  Yields-placed c n none o = Yields-crash _
  Yields-placed c n (some las) none = Yields-fail _ _
  Yields-placed c n (some las) (some id) =
      let own : EventCoordinates = record { hash = c.hex; index = c.body.index } in
      Yields-bind _ (put_at {S = S} (replicate n no_descendant) id own) _ λ fds.
        Yields-bind _ (put_at {S = S} las id own) _ λ l.
          Yields-return _ (record c { first_descendants = fds; last_ancestors = l })
            (record { hex = refl; loaded = refl })

  Yields-init : (c : Comet) → Yields (λ d. SameContent d c) (init_event_coordinates st c)
  unfolding init_event_coordinates
  Yields-init c = Yields-bind _ state _ λ g.
      Yields-bind _ (get_comet st c.body.self_parent) _ λ self.
        Yields-bind _ (get_comet st c.body.other_parent) _ λ other.
          Yields-placed c (length g.participants) (merged (length g.participants) self other)
            (find c.creator g.participants)

  Yields-wire : (c : Comet) → Yields (λ d. SameContent d c) (set_wire_info_of st c)
  unfolding set_wire_info_of set_wire_info is_loaded
  Yields-wire c = Yields-bind _ (self_parent_index_of st c) _ λ i.
      Yields-bind _ (other_parent_info_of st c) _ λ p. Yields-bind _ state _ λ g.
        Yields-return _ (set_wire_info c i p.0 p.1 (id_of g.participants c.creator))
          (record { hex = refl; loaded = refl })

  -- what a successful check of the self-parent has found
  check_self_parent_lem :
      (c : Comet) (g g' : Graph S)
      → check_self_parent st c g ≡ done tt g'
      → (is_root : Bool) × (st.last_event_from g.store c.creator ≡ ok (c.body.self_parent, is_root))
  unfolding check_self_parent
  check_self_parent_lem c g g' e = elim (Result-cases (st.last_event_from g.store c.creator)) [
    | inl ((last, is_root), p) ↦ (is_root, ground (arith, eq_of_== c.body.self_parent last))
    | inr (inl (x, p)) ↦ absurd (ground arith)
    | inr (inr p) ↦ absurd (ground arith)
  ]

  -- What an insertion did: the changes of the graph but for its store and its caches.
  pub record Inserted (c : Comet) (g g' : Graph S) : Type 0 where
    pub queued : g'.undetermined_events ≡ g.undetermined_events ++ (c.hex ∷ [])
    pub numbered : g'.topological_index ≡ suc g.topological_index
    pub pending :
        g'.pending_loaded_events
        ≡ (if is_loaded c then g.pending_loaded_events +ℤ pos 1 else g.pending_loaded_events)

  module _ (crypto : Crypto) where
    -- what is done with a comet that has its coordinates
    rest : ℕ → Comet → M S (Unit {0})
    rest fuel ready = do
      store_comet st crypto ready
      update_ancestor_first_descendant st fuel ready
      enqueue st crypto ready
      record_block_signatures st crypto ready.body.block_signatures

    rest_lem :
        (fuel : ℕ) (c : Comet) (g g' : Graph S)
        → rest fuel c g ≡ done tt g'
        → (g'.undetermined_events ≡ g.undetermined_events ++ (c.hex ∷ []))
          × (g'.topological_index ≡ g.topological_index)
          × (g'.pending_loaded_events
              ≡ (if is_loaded c then g.pending_loaded_events +ℤ pos 1 else g.pending_loaded_events))
    unfolding rest enqueue
    rest_lem fuel c g g' e =
        let (u₁, g₁, p₁, e₁) = >>=-eq-done (store_comet st crypto c) _ g g' tt e in
        let (u₂, g₂, p₂, e₂) =
          >>=-eq-done (update_ancestor_first_descendant st fuel c) _ g₁ g' tt e₁ in
        let (u₃, g₃, p₃, e₃) =
          >>=-eq-done (enqueue st crypto c)
            (λ u. record_block_signatures st crypto c.body.block_signatures) g₂ g' tt e₂ in
        let f₁ = OnlyStore-fields g g₁ ((Keeps-store_comet st crypto c).keeps g g₁ u₁ p₁) in
        let f₂ = OnlyStore-fields g₁ g₂ ((Keeps-update st fuel c).keeps g₁ g₂ u₂ p₂) in
        let f₄ =
          OnlyStore-fields g₃ g'
            ((Keeps-record_block_signatures st crypto c.body.block_signatures).keeps g₃ g' tt e₃) in
        let enqueued = done-graph p₃ in
        (
          f₄.0
              ∙ sym (ap (λ (h : Graph S). h.undetermined_events) enqueued)
              ∙ ap (λ xs. xs ++ (c.hex ∷ [])) (f₂.0 ∙ f₁.0),
          f₄.1 ∙ sym (ap (λ (h : Graph S). h.topological_index) enqueued) ∙ f₂.1 ∙ f₁.1,
          f₄.2
              ∙ sym (ap (λ (h : Graph S). h.pending_loaded_events) enqueued)
              ∙ ap (λ n. if is_loaded c then n +ℤ pos 1 else n) (f₂.2 ∙ f₁.2),
        )

    Yields-wired :
        (c : Comet) (wire : Bool)
        → Yields (λ d. SameContent d c) (if wire then set_wire_info_of st c else return c)
    unfolding is_loaded
    Yields-wired c wire =
        Yields-if _ wire _ _ (Yields-wire c)
          (Yields-return _ c (record { hex = refl; loaded = refl }))

    Keeps-wired :
        (c : Comet) (wire : Bool) → Keeps (if wire then set_wire_info_of st c else return c)
    Keeps-wired c wire = Keeps-if wire _ _ (Keeps-set_wire_info st c) (Keeps-return c)

    insert_checked_lem :
        (fuel : ℕ) (c : Comet) (wire : Bool) (g g' : Graph S)
        → insert_checked st crypto fuel c wire g ≡ done tt g'
        → Inserted c g g'
    unfolding insert_checked stamp rest is_loaded
    insert_checked_lem fuel c wire g g' e =
        let placed : Comet = record c { topological_index = g.topological_index } in
        let g₀ : Graph S = record g { topological_index = suc g.topological_index } in
        let (wired, g₁, p₁, e₁) =
          >>=-eq-done (if wire then set_wire_info_of st placed else return placed) _ g₀ g' tt e in
        let (ready, g₂, p₂, e₂) = >>=-eq-done (init_event_coordinates st wired) _ g₁ g' tt e₁ in
        let f₁ = OnlyStore-fields g₀ g₁ ((Keeps-wired placed wire).keeps g₀ g₁ wired p₁) in
        let f₂ = OnlyStore-fields g₁ g₂ ((Keeps-init st wired).keeps g₁ g₂ ready p₂) in
        let s₁ = (Yields-wired placed wire).yields g₀ g₁ wired p₁ in
        let s₂ = (Yields-init wired).yields g₁ g₂ ready p₂ in
        let last = rest_lem fuel ready g₂ g' e₂ in
        record {
          queued =
              last.0
              ∙ ap (λ x. g₂.undetermined_events ++ (x ∷ [])) (s₂.hex ∙ s₁.hex)
              ∙ ap (λ xs. xs ++ (c.hex ∷ [])) (f₂.0 ∙ f₁.0);
          numbered = last.1 ∙ f₂.1 ∙ f₁.1;
          pending =
              last.2
              ∙ ap (λ b. if b then g₂.pending_loaded_events +ℤ pos 1 else g₂.pending_loaded_events)
                  (s₂.loaded ∙ s₁.loaded)
              ∙ ap (λ n. if is_loaded c then n +ℤ pos 1 else n) (f₂.2 ∙ f₁.2);
        }

    -- When `InsertComet` succeeds, the comet's signature is valid and its self-parent is the last known
    -- comet of its creator; the comet has been queued as undetermined, after the others, the
    -- topological index has gone up by one, and the comet is counted as pending exactly if it is loaded.
    pub insert_comet_lem :
        (fuel : ℕ) (c : Comet) (wire : Bool) (g g' : Graph S)
        → insert_comet st crypto fuel c wire g ≡ done tt g'
        → (crypto.verify_comet c ≡ some true)
          × ((is_root : Bool) × (st.last_event_from g.store c.creator
                ≡ ok (c.body.self_parent, is_root)))
          × Inserted c g g'
    unfolding insert_comet
    insert_comet_lem fuel c wire g g' e = elim (Bool-cases (is_valid (crypto.verify_comet c))) [
      | inr bad ↦ absurd (ground arith)
      | inl valid ↦
          let e' : (check_self_parent st c
                  >> (check_other_parent st c >> insert_checked st crypto fuel c wire))
                g
              ≡ done tt g' =
            rw valid at e in
          let (u₁, g₁, p₁, e₁) = >>=-eq-done (check_self_parent st c) _ g g' tt e' in
          let (u₂, g₂, p₂, e₂) = >>=-eq-done (check_other_parent st c) _ g₁ g' tt e₁ in
          let f₁ = OnlyStore-fields g g₁ ((Keeps-check_self_parent st c).keeps g g₁ u₁ p₁) in
          let f₂ = OnlyStore-fields g₁ g₂ ((Keeps-check_other_parent st c).keeps g₁ g₂ u₂ p₂) in
          let i = insert_checked_lem fuel c wire g₂ g' e₂ in
          (
            ground arith,
            check_self_parent_lem c g g₁ p₁,
            record {
              queued = i.queued ∙ ap (λ xs. xs ++ (c.hex ∷ [])) (f₂.0 ∙ f₁.0);
              numbered = i.numbered ∙ ap suc (f₂.1 ∙ f₁.1);
              pending = i.pending ∙ ap (λ n. if is_loaded c then n +ℤ pos 1 else n) (f₂.2 ∙ f₁.2);
            },
          )
    ]
