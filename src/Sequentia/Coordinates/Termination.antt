-- ===== src/Sequentia/Coordinates/Termination.antt =====
-- The walk to the self-parents in core/sequentia/sequentia.go ends: with enough fuel the fuel is not
-- seen.
use paradigm.Prelude.{
  ℕ, zero, suc, ◌<◌, String, ◌≡◌, refl, sym, ap, ◌∙◌, inl, inr, true, false, some, List, [], ◌∷◌,
  arith, ltb, lt→ltb, Bool-cases, length, get_elem?, set, length-set, get_elem?_in, pos, eqb_ℤ,
  ◌==◌, nat_eq, int_eq, string_eq, pair_eq, find,
}
use mathlib.Core.Path.{subst}
use paradigm.Common.Errors.{ok, Result-cases}
use paradigm.Sequentia.Coordinates.{
  max_int32, put_at, visit_ancestor, mark_descendant, mark_each, mark_known,
  update_ancestor_first_descendant,
}
use paradigm.Sequentia.Graph.{Graph, M, done, ◌>>=◌, at_index, get_comet}
use paradigm.Sequentia.Store.{Store}
use paradigm.Sequentia.Store.Laws.{CometLaws}
use paradigm.Types.Comet.{Comet, EventCoordinates}

module _ {S : Type 0} (I : S → Type 0) where
  -- Two methods end with the same value on `g`, and leave the same graph with a store as `I` says.
  abbrev pub Ends : {A : Type 0} → M S A → M S A → Graph S → Type 0
  Ends {A} m m' g = (a : A) × (g' : Graph S) × (m g ≡ done a g') × (m' g ≡ done a g') × I g'.store

  >>=-step :
      {A B : Type 0} (m : M S A) (f : A → M S B) (a : A) (g h : Graph S)
      → m g ≡ done a h
      → (m >>= f) g ≡ f a h
  >>=-step m f a g h e = ground (arith, e)

  put_at_in :
      (xs : List EventCoordinates) (n : ℕ) (c : EventCoordinates) (g : Graph S)
      → ltb n (length xs) ≡ true
      → put_at xs (pos n) c g ≡ done (set xs n c) g
  put_at_in xs n c g e = rw e refl

  Ends-bind :
      {A B : Type 0} (m m' : M S A) (f f' : A → M S B) (g : Graph S)
      → Ends m m' g
      → ((a : A) (h : Graph S) → I h.store → Ends (f a) (f' a) h)
      → Ends (m >>= f) (m' >>= f') g
  Ends-bind m m' f f' g (a, h, p, q, i) hf =
      let (b, k, p', q', j) = hf a h i in (b, k, ground (arith, p, p'), ground (arith, q, q'), j)

module _ {S : Type 0} (st : Store S) (IsGood : S → Type 0) (laws : CometLaws st IsGood)
    (rank : String → ℕ) (width : ℕ) where
  -- A comet ranks above its self-parent and has a first descendant for each of the participants.
  abbrev pub IsRankedComet : Comet → Type 0
  IsRankedComet c = (rank c.body.self_parent < rank c.hex) × (length c.first_descendants ≡ width)

  -- Every comet of the store is under its own name, ranks above its self-parent, and has a first
  -- descendant for each of the participants.
  pub record IsRanked (s : S) : Type 0 where
    pub good : IsGood s
    pub ranked :
        (k : String) (c : Comet) → (st.get_comet s k).0 ≡ ok c → (c.hex ≡ k) × IsRankedComet c

  get_comet-IsRanked : (s : S) (k : String) → IsRanked s → IsRanked (st.get_comet s k).1
  get_comet-IsRanked s k r = record {
    good = laws.read-IsGood s k r.good;
    ranked = λ j c e. r.ranked j c (sym (laws.read-read s k j r.good) ∙ e);
  }

  pub set_comet-IsRanked :
      (s s' : S) (c : Comet) → IsRanked s → IsRankedComet c → st.set_comet s c ≡ ok s' → IsRanked s'
  set_comet-IsRanked s s' c r w e = record {
    good = laws.write-IsGood s s' c r.good e;
    ranked = λ k d h. elim (laws.read-write s s' c d k r.good e h) [
      | inl (name, new) ↦ (ap (λ (x : Comet). x.hex) (sym new) ∙ name, subst IsRankedComet new w)
      | inr old ↦ r.ranked k d old
    ];
  }

  -- The walk goes on from a comet that has no descendant of the creator yet.
  visit_on :
      (rest : Comet → M S (Unit {0})) (n : ℕ) (own fd : EventCoordinates) (a : Comet) (g : Graph S)
      (s : S)
      → get_elem? a.first_descendants n ≡ some fd
      → eqb_ℤ fd.index max_int32 ≡ true
      → ltb n (length a.first_descendants) ≡ true
      → st.set_comet g.store (record a { first_descendants = set a.first_descendants n own }) ≡ ok s
      → visit_ancestor st rest (pos n) own (some a) g ≡ rest a (record g { store = s })
  unfolding visit_ancestor
  visit_on rest n own fd a g s at free room p =
      >>=-step IsRanked (at_index a.first_descendants (pos n)) _ fd g g (ground (arith, at))
      ∙ rw free (
          >>=-step IsRanked (put_at a.first_descendants (pos n) own) _
            (set a.first_descendants n own) g g (put_at_in IsRanked _ n own g room)
          ∙ ground (arith, p))

  visit_stop :
      (rest : Comet → M S (Unit {0})) (n : ℕ) (own fd : EventCoordinates) (a : Comet) (g : Graph S)
      → get_elem? a.first_descendants n ≡ some fd
      → eqb_ℤ fd.index max_int32 ≡ false
      → visit_ancestor st rest (pos n) own (some a) g ≡ done tt g
  unfolding visit_ancestor
  visit_stop rest n own fd a g at marked = ground (arith, at, marked)

  -- A round of the walk at a comet that is found.
  mark_found :
      (f n : ℕ) (own : EventCoordinates) (ah : String) (a : Comet) (g : Graph S)
      → (ah == "") ≡ false
      → (st.get_comet g.store ah).0 ≡ ok a
      → mark_descendant st (suc f) (pos n) own ah g
        ≡ visit_ancestor st
            (λ b. mark_descendant st f (pos n) own b.body.self_parent)
            (pos n)
            own
            (some a)
            (record g { store = (st.get_comet g.store ah).1 })
  unfolding mark_descendant get_comet
  mark_found f n own ah a g on p = ground (arith, on, p)

  Ends-visit :
      (rest rest' : Comet → M S (Unit {0})) (n : ℕ) (own : EventCoordinates) (a : Comet)
      (g : Graph S)
      → n < width
      → IsRanked g.store
      → IsRankedComet a
      → (st.get_comet g.store a.hex).0 ≡ ok a
      → ((h : Graph S) → IsRanked h.store → Ends IsRanked (rest a) (rest' a) h)
      → Ends IsRanked
          (visit_ancestor st rest (pos n) own (some a))
          (visit_ancestor st rest' (pos n) own (some a))
          g
  Ends-visit rest rest' n own a g small i (below, all) found hr =
      let (fd, at) = get_elem?_in a.first_descendants n (omega (arith, all, small)) in
      elim (Bool-cases (eqb_ℤ fd.index max_int32)) [
        | inr marked ↦ (
          tt,
          g,
          visit_stop rest n own fd a g at marked,
          visit_stop rest' n own fd a g at marked,
          i,
        )
        | inl free ↦
            let c : Comet = record a { first_descendants = set a.first_descendants n own } in
            let (s, p) = laws.overwrite g.store c a i.good found in
            let j =
              set_comet-IsRanked g.store s c i (below, length-set a.first_descendants n own ∙ all)
                p in
            let (u, k, q, q', j') = hr (record g { store = s }) j in
            let room = lt→ltb n (length a.first_descendants) (omega (arith, all, small)) in
            (
              u,
              k,
              visit_on rest n own fd a g s at free room p ∙ q,
              visit_on rest' n own fd a g s at free room p ∙ q',
              j',
            )
      ]

  Ends-mark_descendant :
      (f f' n : ℕ) (own : EventCoordinates) (ah : String) (g : Graph S)
      → n < width
      → rank ah < f
      → rank ah < f'
      → IsRanked g.store
      → Ends IsRanked (mark_descendant st f (pos n) own ah) (mark_descendant st f' (pos n) own ah) g
  unfolding mark_descendant get_comet visit_ancestor
  Ends-mark_descendant zero f' n own ah g small h h' i = absurd (omega arith)
  Ends-mark_descendant (suc f) zero n own ah g small h h' i = absurd (omega arith)
  Ends-mark_descendant (suc f) (suc f') n own ah g small h h' i =
      let after = record g { store = (st.get_comet g.store ah).1 } in
      let j = get_comet-IsRanked g.store ah i in
      elim (Bool-cases (ah == "")) [
        | inl end ↦ (tt, g, ground (arith, end), ground (arith, end), i)
        | inr on ↦ elim (Result-cases (st.get_comet g.store ah).0) [
          | inr (inr p) ↦ absurd (laws.answers g.store ah p)
          | inr (inl (x, p)) ↦ (tt, after, ground (arith, on, p), ground (arith, on, p), j)
          | inl (a, p) ↦
              let (name, w) = i.ranked ah a p in
              let lower : rank a.body.self_parent < rank ah = rw name at w.0 in
              let (u, k, q, q', l) =
                Ends-visit (λ b. mark_descendant st f (pos n) own b.body.self_parent)
                  (λ b. mark_descendant st f' (pos n) own b.body.self_parent) n own a after small j
                  w
                  (ap (λ x. (st.get_comet (st.get_comet g.store ah).1 x).0) name
                    ∙ laws.read-read g.store ah ah i.good
                    ∙ p)
                  (λ b r.
                    Ends-mark_descendant f f' n own a.body.self_parent b small
                      (omega (arith, lower, h)) (omega (arith, lower, h')) r) in
              (u, k, mark_found f n own ah a g on p ∙ q, mark_found f' n own ah a g on p ∙ q', l)
        ]
      ]

  Ends-mark_each :
      (f f' n : ℕ) (own : EventCoordinates) (las : List EventCoordinates) (g : Graph S)
      → n < width
      → ((k : String) → rank k < f)
      → ((k : String) → rank k < f')
      → IsRanked g.store
      → Ends IsRanked (mark_each st f (pos n) own las) (mark_each st f' (pos n) own las) g
  unfolding mark_each
  Ends-mark_each f f' n own [] g small h h' i = (tt, g, refl, refl, i)
  Ends-mark_each f f' n own (la ∷ las) g small h h' i =
      Ends-bind IsRanked (mark_descendant st f (pos n) own la.hash)
        (mark_descendant st f' (pos n) own la.hash) (λ u. mark_each st f (pos n) own las)
        (λ u. mark_each st f' (pos n) own las) g
        (Ends-mark_descendant f f' n own la.hash g small (h la.hash) (h' la.hash) i)
        (λ u k j. Ends-mark_each f f' n own las k small h h' j)

  -- Where the comets of the store rank above their self-parents and have a first descendant for each
  -- participant, and the creator is one of them, `UpdateAncestorFirstDescendant` ends without an error
  -- once its fuel is above every rank, with one outcome for every such fuel, and it leaves such a store.
  pub update_ancestor_first_descendant_ends :
      (f f' n : ℕ) (comet : Comet) (g : Graph S)
      → find comet.creator g.participants ≡ some (pos n)
      → n < width
      → ((k : String) → rank k < f)
      → ((k : String) → rank k < f')
      → IsRanked g.store
      → (g' : Graph S) × (update_ancestor_first_descendant st f comet g ≡ done tt g')
        × (update_ancestor_first_descendant st f' comet g ≡ done tt g')
        × IsRanked g'.store
  unfolding update_ancestor_first_descendant mark_known
  update_ancestor_first_descendant_ends f f' n comet g here small h h' i =
      let own : EventCoordinates = record { hash = comet.hex; index = comet.body.index } in
      let (u, g', p, p', j) = Ends-mark_each f f' n own comet.last_ancestors g small h h' i in
      (g', rw here p, rw here p', j)
