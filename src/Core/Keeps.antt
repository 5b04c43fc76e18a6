-- ===== src/Core/Keeps.antt =====
-- The methods of core/core.go that leave the pools, the head and the sequence number of a node.
use paradigm.Prelude.{
  ℕ, ◌≡◌, refl, [], ◌∷◌, ◌++◌, arith, ℤ, ltb_ℤ, nat_eq, int_eq, string_eq, pair_eq, Map,
}
use paradigm.Core.{
  Core, CoreM, Keys, ended, ◌>>=◌, return, core_state, in_graph, known_events, total_unknown,
  over_sync_limit, collect_unknown, event_diff, run_consensus,
}
use paradigm.Core.Steps.{>>=-eq-ended, in_graph-eq-ended}
use paradigm.Sequentia.Graph.{M, lift}
use paradigm.Sequentia.Frames.{require_comets}
use paradigm.Sequentia.Insert.{Crypto, name_of}
use paradigm.Sequentia.Store.{Store}

module _ {S : Type 0} where
  -- A node is another but for its graph.
  abbrev pub OnlyGraph : Core S → Core S → Type 0
  OnlyGraph c d = d ≡ record c { graph = d.graph }

  OnlyGraph-trans : (a b c : Core S) → OnlyGraph a b → OnlyGraph b c → OnlyGraph a c
  OnlyGraph-trans a b c p q = cc

  -- A method that, if it ends with a value, has changed only the graph.
  pub record KeepsNode {A : Type 0} (m : CoreM S A) : Type 0 where
    pub keeps : (c d : Core S) (a : A) → m c ≡ ended a d → OnlyGraph c d

  pub KeepsNode-return : {A : Type 0} (a : A) → KeepsNode (return a)
  KeepsNode-return a = record { keeps = λ c d b e. ground arith }

  KeepsNode-state : KeepsNode core_state
  KeepsNode-state = record { keeps = λ c d b e. ground arith }

  pub KeepsNode-in_graph : {A : Type 0} (m : M S A) → KeepsNode (in_graph m)
  KeepsNode-in_graph m = record {
    keeps = λ c d a e. let (g, p, q) = in_graph-eq-ended m c d a e in rw q refl;
  }

  pub KeepsNode->>= :
      {A B : Type 0} (m : CoreM S A) (f : A → CoreM S B)
      → KeepsNode m
      → ((a : A) → KeepsNode (f a))
      → KeepsNode (m >>= f)
  KeepsNode->>= m f hm hf = record {
    keeps = λ c d b e.
        let (a, c', p, q) = >>=-eq-ended m f c d b e in
        OnlyGraph-trans c c' d (hm.keeps c c' a p) ((hf a).keeps c' d b q);
  }

module _ {S : Type 0} (st : Store S) (crypto : Crypto) (keys : Keys) where
  pub KeepsNode-known_events : KeepsNode (known_events st crypto keys)
  unfolding known_events
  KeepsNode-known_events = record { keeps = λ c d a e. ground arith }

  pub KeepsNode-over_sync_limit :
      (known : Map ℤ ℤ) (limit : ℤ) → KeepsNode (over_sync_limit st crypto keys known limit)
  unfolding over_sync_limit
  KeepsNode-over_sync_limit known limit =
      KeepsNode->>= (known_events st crypto keys) _ KeepsNode-known_events
        (λ mine. KeepsNode-return (ltb_ℤ limit (total_unknown mine known)))

  KeepsNode-collect_unknown : (known : Map ℤ ℤ) → KeepsNode (collect_unknown st crypto keys known)
  unfolding collect_unknown
  KeepsNode-collect_unknown [] = KeepsNode-return []
  KeepsNode-collect_unknown ((id, ct) ∷ known) = KeepsNode->>= core_state _ KeepsNode-state λ c.
      let g = c.graph in
      KeepsNode->>=
        (in_graph (lift (st.participant_events g.store (name_of c.reverse_participants id) ct))) _
        (KeepsNode-in_graph _)
        λ names. KeepsNode->>= (in_graph (require_comets st names)) _ (KeepsNode-in_graph _) λ evs.
          KeepsNode->>= (collect_unknown st crypto keys known) _ (KeepsNode-collect_unknown known)
            (λ rest. KeepsNode-return (evs ++ rest))

  pub KeepsNode-event_diff : (known : Map ℤ ℤ) → KeepsNode (event_diff st crypto keys known)
  unfolding event_diff
  KeepsNode-event_diff known =
      KeepsNode->>= (collect_unknown st crypto keys known) _ (KeepsNode-collect_unknown known)
        (λ unknown. KeepsNode-return _)

  pub KeepsNode-run_consensus : (fuel : ℕ) → KeepsNode (run_consensus st crypto keys fuel)
  unfolding run_consensus
  KeepsNode-run_consensus fuel = KeepsNode-in_graph _
