-- ===== src/Sequentia/Graph/Frame.antt =====
-- Methods of core/sequentia/sequentia.go that change nothing of a graph but its store.
use paradigm.Prelude.{
  String, ◌≡◌, refl, ap, ◌⊎◌, inl, inr, Bool, true, false, List, arith, if◌then◌else◌, Option-cases,
  get_elem?, ℤ, pos, negsuc, nat_eq, int_eq, string_eq, pair_eq,
}
use paradigm.Common.Errors.{Result, ok, err, panic}
use paradigm.Sequentia.Graph.{
  Graph, GraphErr, Outcome, M, done, failed, panicked, ◌>>=◌, return, fail, crash, state, modify,
  lift, at_index, get_comet, require_comet,
}
use mathlib.Core.Path.{subst}
use paradigm.Sequentia.Store.{Store}

module _ {S : Type 0} where
  -- One graph is another with a new store.
  abbrev pub OnlyStore : Graph S → Graph S → Type 0
  OnlyStore g g' = g' ≡ record g { store = g'.store }

  pub OnlyStore-trans : (f g h : Graph S) → OnlyStore f g → OnlyStore g h → OnlyStore f h
  OnlyStore-trans f g h p q = cc

  pub done-value : {A : Type 0} {a b : A} {g h : Graph S} → done a g ≡ done b h → a ≡ b
  done-value q = cc

  pub done-graph : {A : Type 0} {a b : A} {g h : Graph S} → done a g ≡ done b h → g ≡ h
  done-graph q = cc

  -- The fields that an insertion changes stay with the graph.
  pub OnlyStore-fields :
      (g g' : Graph S)
      → OnlyStore g g'
      → (g'.undetermined_events ≡ g.undetermined_events)
        × (g'.topological_index ≡ g.topological_index)
        × (g'.pending_loaded_events ≡ g.pending_loaded_events)
  OnlyStore-fields g g' e = (
    ap (λ (h : Graph S). h.undetermined_events) e,
    ap (λ (h : Graph S). h.topological_index) e,
    ap (λ (h : Graph S). h.pending_loaded_events) e,
  )

  -- A method that, if it ends with a value, has changed only the store.
  pub record Keeps {A : Type 0} (m : M S A) : Type 0 where
    pub keeps : (g g' : Graph S) (a : A) → m g ≡ done a g' → OnlyStore g g'

  pub Keeps-return : {A : Type 0} (a : A) → Keeps (return a)
  Keeps-return a = record { keeps = λ g g' b e. ground arith }

  pub Keeps-fail : {A : Type 0} (x : GraphErr) → Keeps {A = A} (fail x)
  Keeps-fail x = record { keeps = λ g g' b e. absurd (cc) }

  pub Keeps-state : Keeps state
  Keeps-state = record { keeps = λ g g' b e. ground arith }

  pub Keeps-store : (s : S) → Keeps (modify (λ g. record g { store = s }))
  Keeps-store s = record { keeps = λ g g' b e. ground arith }

  pub Keeps-lift : {A : Type 0} (r : Result A) → Keeps (lift r)
  Keeps-lift (ok a) = record { keeps = λ g g' b e. ground arith }
  Keeps-lift (err x) = record { keeps = λ g g' b e. absurd (cc) }
  Keeps-lift panic = record { keeps = λ g g' b e. absurd (cc) }

  pub Outcome-cases :
      {A : Type 0} (o : Outcome S A)
      → ((a : A) × (g : Graph S) × (o ≡ done a g))
        ⊎ (((x : GraphErr) × (g : Graph S) × (o ≡ failed x g)) ⊎ (o ≡ panicked))
  Outcome-cases (done a g) = inl (a, g, refl)
  Outcome-cases (failed x g) = inr (inl (x, g, refl))
  Outcome-cases panicked = inr (inr refl)

  -- What a method that ended with a value went through.
  pub >>=-eq-done :
      {A B : Type 0} (m : M S A) (f : A → M S B) (g h : Graph S) (b : B)
      → (m >>= f) g ≡ done b h
      → (a : A) × (g' : Graph S) × (m g ≡ done a g') × (f a g' ≡ done b h)
  >>=-eq-done m f g h b e = elim (Outcome-cases (m g)) [
    | inl (a, g', p) ↦ (a, g', p, ground arith)
    | inr (inl (x, g', p)) ↦ absurd (ground arith)
    | inr (inr p) ↦ absurd (ground arith)
  ]

  pub Keeps-bind :
      {A B : Type 0} (m : M S A) (f : A → M S B)
      → Keeps m
      → ((a : A) → Keeps (f a))
      → Keeps (m >>= f)
  Keeps-bind m f km kf = record {
    keeps = λ g h b e.
        let (a, g', p, q) = >>=-eq-done m f g h b e in
        OnlyStore-trans g g' h (km.keeps g g' a p) ((kf a).keeps g' h b q);
  }

  pub Keeps-at_index : {A : Type 0} (xs : List A) (i : ℤ) → Keeps (at_index xs i)
  Keeps-at_index xs (pos n) = elim (Option-cases (get_elem? xs n)) [
    | inl p ↦ record { keeps = λ g g' b e. absurd (ground arith) }
    | inr (c, p) ↦ record { keeps = λ g g' b e. ground arith }
  ]
  Keeps-at_index xs (negsuc n) = record { keeps = λ g g' b e. absurd (cc) }

module _ {S : Type 0} where
  pub Keeps-if :
      {A : Type 0} (b : Bool) (m n : M S A) → Keeps m → Keeps n → Keeps (if b then m else n)
  Keeps-if true m n km kn = km
  Keeps-if false m n km kn = kn

module _ {S A : Type 0} (P : A → Type 0) where
  -- A method that, if it ends with a value, ends with one that satisfies `P`.
  pub record Yields (m : M S A) : Type 0 where
    pub yields : (g g' : Graph S) (a : A) → m g ≡ done a g' → P a

  pub Yields-return : (a : A) → P a → Yields (return a)
  Yields-return a p = record { yields = λ g g' b e. subst P (done-value e) p }

  pub Yields-fail : (x : GraphErr) → Yields (fail x)
  Yields-fail x = record { yields = λ g g' b e. absurd (cc) }

  pub Yields-crash : Yields crash
  Yields-crash = record { yields = λ g g' b e. absurd (cc) }

  pub Yields-bind :
      {B : Type 0} (m : M S B) (f : B → M S A) → ((b : B) → Yields (f b)) → Yields (m >>= f)
  Yields-bind m f yf = record {
    yields = λ g h a e. let (b, g', p, q) = >>=-eq-done m f g h a e in (yf b).yields g' h a q;
  }

  pub Yields-if : (b : Bool) (m n : M S A) → Yields m → Yields n → Yields (if b then m else n)
  Yields-if true m n ym yn = ym
  Yields-if false m n ym yn = yn

module _ {S : Type 0} (st : Store S) where
  pub Keeps-get_comet : (k : String) → Keeps (get_comet st k)
  unfolding get_comet
  Keeps-get_comet k = record { keeps = λ g g' b e. ground arith }

  pub Keeps-require_comet : (k : String) → Keeps (require_comet st k)
  unfolding require_comet
  Keeps-require_comet k = record { keeps = λ g g' b e. ground arith }
