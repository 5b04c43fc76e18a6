-- ===== src/Sequentia/Coordinates/Init.antt =====
-- The coordinates that core/sequentia/sequentia.go gives to a new comet, from those of its parents.
use paradigm.Prelude.{
  ℕ, zero, suc, ◌<◌, ◌≡◌, refl, sym, ap, ◌∙◌, ◌≢◌, ◌⊎◌, inl, inr, some, List, [], ◌∷◌, arith,
  if◌then◌else◌, Bool-cases, length, get_elem?, set, replicate, length-set, get_elem?-set_self,
  get_elem?-set_ne, length-replicate, pos, ◌≤ℤ◌, ltb_ℤ, int_tests, nat_eq, int_eq, string_eq,
  pair_eq, find,
}
use paradigm.Common.Errors.{ok}
use paradigm.Sequentia.Coordinates.{
  copied, later_of, merged, placed, put_at, no_descendant, init_event_coordinates,
}
use paradigm.Sequentia.Graph.{Graph, M, done, ◌>>=◌, get_comet}
use mathlib.Core.Path.{subst₂}
use paradigm.Sequentia.Store.{Store}
use paradigm.Types.Comet.{Comet, EventCoordinates}

copied_all : (n : ℕ) (src : List EventCoordinates) → length src ≡ n → copied n src ≡ src
unfolding copied
copied_all zero [] h = refl
copied_all zero (c ∷ src) h = absurd (omega arith)
copied_all (suc n) [] h = absurd (omega arith)
copied_all (suc n) (c ∷ src) h = ap (◌∷◌ c) (copied_all n src (omega arith))

-- `c` is the later of `s` and `o`.
pub record LaterOf (s o c : EventCoordinates) : Type 0 where
  pub after_self : s.index ≤ℤ c.index
  pub after_other : o.index ≤ℤ c.index
  pub one_of : (c ≡ s) ⊎ (c ≡ o)

later_LaterOf : (s o : EventCoordinates) → LaterOf s o (if ltb_ℤ s.index o.index then o else s)
later_LaterOf s o = elim (Bool-cases (ltb_ℤ s.index o.index)) [
  | inl p ↦
      rw p (record { after_self = omega int_tests; after_other = omega arith; one_of = inr refl })
  | inr p ↦
      rw p (record { after_self = omega arith; after_other = omega int_tests; one_of = inl refl })
]

same_entry : {a b : EventCoordinates} → some a ≡ some b → a ≡ b
same_entry h = cc

-- Entry by entry the later of the parents' ancestors, for lists of one length.
later_of_lem :
    (ss os : List EventCoordinates)
    → length ss ≡ length os
    → (cs : List EventCoordinates) × (later_of ss os ≡ some cs)
      × (length cs ≡ length ss)
      × ((i : ℕ) (s o : EventCoordinates)
          → get_elem? ss i ≡ some s
          → get_elem? os i ≡ some o
          → (c : EventCoordinates) × (get_elem? cs i ≡ some c) × LaterOf s o c)
unfolding later_of
later_of_lem [] os h = ([], refl, refl, λ i s o p q. absurd (cc))
later_of_lem (s ∷ ss) [] h = absurd (omega arith)
later_of_lem (s ∷ ss) (o ∷ os) h =
    let (cs, ran, len, each) = later_of_lem ss os (omega arith) in
    let c = if ltb_ℤ s.index o.index then o else s in
    (c ∷ cs, rw ran, omega arith, entry c (later_LaterOf s o) cs each)
  where
    entry :
        (c : EventCoordinates)
        → LaterOf s o c
        → (cs : List EventCoordinates)
        → ((i : ℕ) (s' o' : EventCoordinates)
            → get_elem? ss i ≡ some s'
            → get_elem? os i ≡ some o'
            → (c' : EventCoordinates) × (get_elem? cs i ≡ some c') × LaterOf s' o' c')
        → (i : ℕ) (s' o' : EventCoordinates) → get_elem? (s ∷ ss) i ≡ some s'
        → get_elem? (o ∷ os) i ≡ some o'
        → (c' : EventCoordinates) × (get_elem? (c ∷ cs) i ≡ some c') × LaterOf s' o' c'
    entry c l cs each zero s' o' p q =
        (c, refl, subst₂ (λ a b. LaterOf a b c) (same_entry p) (same_entry q) l)
    entry c l cs each (suc i) s' o' p q = each i s' o' p q

get_elem?-replicate :
    (n i : ℕ) (c : EventCoordinates) → i < n → get_elem? (replicate n c) i ≡ some c
get_elem?-replicate zero i c h = absurd (omega arith)
get_elem?-replicate (suc n) zero c h = refl
get_elem?-replicate (suc n) (suc i) c h = get_elem?-replicate n i c (omega arith)

within :
    (cs : List EventCoordinates) (i : ℕ) (c : EventCoordinates)
    → get_elem? cs i ≡ some c
    → i < length cs
within [] i c h = absurd (cc)
within (x ∷ cs) zero c h = omega arith
within (x ∷ cs) (suc i) c h = omega (arith, within cs i c h)

-- The coordinates of a comet of the participant `k` among `n`: its own, and those for another
-- participant `i`, whose last ancestors among its parents' are `s` and `o`.
pub record Placed (n k i : ℕ) (comet : Comet) (s o : EventCoordinates) (out : Comet) : Type 0 where
  pub ancestors : length out.last_ancestors ≡ n
  pub descendants : length out.first_descendants ≡ n
  pub own_ancestor :
      get_elem? out.last_ancestors k ≡ some (record { hash = comet.hex; index = comet.body.index })
  pub own_descendant :
      get_elem? out.first_descendants k
      ≡ some (record { hash = comet.hex; index = comet.body.index })
  pub later : (c : EventCoordinates) × (get_elem? out.last_ancestors i ≡ some c) × LaterOf s o c
  pub no_descendants : get_elem? out.first_descendants i ≡ some no_descendant

module _ {S : Type 0} where
  >>=-done :
      {A B : Type 0} (m : M S A) (f : A → M S B) (g h : Graph S) (a : A)
      → m g ≡ done a h
      → (m >>= f) g ≡ f a h
  >>=-done m f g h a e = ground arith

  put_at_lem :
      (xs : List EventCoordinates) (n : ℕ) (c : EventCoordinates) (g : Graph S)
      → n < length xs
      → put_at {S = S} xs (pos n) c g ≡ done (set xs n c) g
  put_at_lem xs n c g h = ground arith

module _ {S : Type 0} (st : Store S) where
  placed_lem :
      (comet : Comet) (n k i : ℕ) (s o : EventCoordinates) (cs : List EventCoordinates)
      (g : Graph S)
      → k < n
      → k ≢ i
      → length cs ≡ n
      → (c : EventCoordinates) × (get_elem? cs i ≡ some c) × LaterOf s o c
      → (out : Comet) × (placed st comet n (some cs) (some (pos k)) g ≡ done out g)
        × Placed n k i comet s o out
  unfolding placed
  placed_lem comet n k i s o cs g below ne len (c, at, l) =
      let own : EventCoordinates = record { hash = comet.hex; index = comet.body.index } in
      let fds = set (replicate n no_descendant) k own in
      let las = set cs k own in
      (
        record comet { first_descendants = fds; last_ancestors = las },
        >>=-done (put_at {S = S} (replicate n no_descendant) (pos k) own) _ g g fds (
              put_at_lem (replicate n no_descendant) k own g
                (omega (arith, length-replicate n no_descendant)))
            ∙ >>=-done (put_at {S = S} cs (pos k) own) _ g g las
                (put_at_lem cs k own g (omega arith)),
        record {
          ancestors = length-set cs k own ∙ len;
          descendants =
              length-set (replicate n no_descendant) k own ∙ length-replicate n no_descendant;
          own_ancestor = get_elem?-set_self cs k own (omega arith);
          own_descendant =
              get_elem?-set_self (replicate n no_descendant) k own
                (omega (arith, length-replicate n no_descendant));
          later = (c, get_elem?-set_ne cs own ne ∙ at, l);
          no_descendants =
              get_elem?-set_ne (replicate n no_descendant) own ne
              ∙ get_elem?-replicate n i no_descendant (omega (arith, within cs i c at, len));
        },
      )

  -- Where both parents of a comet are found, with coordinates for all participants, and its creator
  -- is known, it gets coordinates for all participants and nothing panics: it is its own last ancestor
  -- and first descendant, and for another participant it has the later of its parents' last ancestors,
  -- and no first descendant.
  pub init_event_coordinates_lem :
      (comet self other : Comet) (k i : ℕ) (s o : EventCoordinates) (g : Graph S)
      → (st.get_comet g.store comet.body.self_parent).0 ≡ ok self
      → (st.get_comet (st.get_comet g.store comet.body.self_parent).1 comet.body.other_parent).0
        ≡ ok other
      → length self.last_ancestors ≡ length g.participants
      → length other.last_ancestors ≡ length g.participants
      → find comet.creator g.participants ≡ some (pos k)
      → k < length g.participants
      → k ≢ i
      → get_elem? self.last_ancestors i ≡ some s
      → get_elem? other.last_ancestors i ≡ some o
      → (out : Comet) × (g' : Graph S) × (init_event_coordinates st comet g ≡ done out g')
        × Placed (length g.participants) k i comet s o out
  unfolding init_event_coordinates merged get_comet
  init_event_coordinates_lem comet self other k i s o g es eo ls lo known below ne p q =
      let n = length g.participants in
      let (cs, ran, len, each) =
        later_of_lem self.last_ancestors other.last_ancestors (ls ∙ sym lo) in
      let g' : Graph S = record g {
        store =
            (st.get_comet (st.get_comet g.store comet.body.self_parent).1
              comet.body.other_parent).1;
      } in
      let (out, placed_it, coords) =
        placed_lem comet n k i s o cs g' below ne (len ∙ ls) (each i s o p q) in
      (out, g', ground (arith, copied_all n self.last_ancestors ls), coords)
