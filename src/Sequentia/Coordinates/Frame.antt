-- ===== src/Sequentia/Coordinates/Frame.antt =====
-- The coordinates of core/sequentia/sequentia.go are kept in the store alone.
use paradigm.Prelude.{
  ℕ, zero, suc, String, Option, none, some, List, [], ◌∷◌, arith, length, ℤ, pos, negsuc, eqb_ℤ,
  ◌==◌, nat_eq, int_eq, string_eq, pair_eq, find,
}
use paradigm.Sequentia.Coordinates.{
  max_int32, merged, put_at, init_event_coordinates, mark_descendant, mark_each,
  update_ancestor_first_descendant, visit_ancestor, placed, mark_known,
}
use paradigm.Sequentia.Graph.{M, crash, creator_unknown}
use paradigm.Sequentia.Graph.Frame.{
  Keeps, Keeps-return, Keeps-fail, Keeps-state, Keeps-store, Keeps-lift, Keeps-bind, Keeps-at_index,
  Keeps-if, Keeps-get_comet,
}
use paradigm.Sequentia.Store.{Store}
use paradigm.Types.Comet.{Comet, EventCoordinates}

module _ {S : Type 0} where
  Keeps-put_at :
      (xs : List EventCoordinates) (i : ℤ) (c : EventCoordinates) → Keeps {S = S} (put_at xs i c)
  Keeps-put_at xs (pos n) c = record { keeps = λ g g' b e. ground arith }
  Keeps-put_at xs (negsuc n) c = record { keeps = λ g g' b e. absurd (cc) }

  Keeps-crash : {A : Type 0} → Keeps {S = S} {A = A} crash
  Keeps-crash = record { keeps = λ g g' b e. absurd (cc) }

module _ {S : Type 0} (st : Store S) where
  Keeps-visit :
      (rest : Comet → M S (Unit {0})) (id : ℤ) (own : EventCoordinates)
      → ((a : Comet) → Keeps (rest a))
      → (found : Option Comet) → Keeps (visit_ancestor st rest id own found)
  unfolding visit_ancestor
  Keeps-visit rest id own kr none = Keeps-return tt
  Keeps-visit rest id own kr (some a) = Keeps-bind _ _ (Keeps-at_index a.first_descendants id) λ fd.
      Keeps-if (eqb_ℤ fd.index max_int32) _ _
        (Keeps-bind _ _ (Keeps-put_at a.first_descendants id own) λ fds.
          Keeps-bind _ _ Keeps-state
            λ g'. Keeps-bind _ _ (Keeps-lift _) λ s. Keeps-bind _ _ (Keeps-store s) λ u. kr a)
        (Keeps-return tt)

  Keeps-mark_descendant :
      (fuel : ℕ) (id : ℤ) (own : EventCoordinates) (ah : String)
      → Keeps (mark_descendant st fuel id own ah)
  unfolding mark_descendant
  Keeps-mark_descendant zero id own ah = record { keeps = λ g g' b e. absurd (cc) }
  Keeps-mark_descendant (suc fuel) id own ah =
      let k = Keeps-if (ah == "") _ _ (Keeps-return tt) (
        Keeps-bind _ _ (Keeps-get_comet st ah) (
          Keeps-visit (λ a. mark_descendant st fuel id own a.body.self_parent) id own
            (λ a. Keeps-mark_descendant fuel id own a.body.self_parent))) in
      record { keeps = k.keeps }

  Keeps-mark_each :
      (fuel : ℕ) (id : ℤ) (own : EventCoordinates) (las : List EventCoordinates)
      → Keeps (mark_each st fuel id own las)
  unfolding mark_each
  Keeps-mark_each fuel id own [] = Keeps-return tt
  Keeps-mark_each fuel id own (la ∷ las) =
      Keeps-bind _ _ (Keeps-mark_descendant fuel id own la.hash)
        (λ u. Keeps-mark_each fuel id own las)

  Keeps-mark_known : (fuel : ℕ) (comet : Comet) (o : Option ℤ) → Keeps (mark_known st fuel comet o)
  unfolding mark_known
  Keeps-mark_known fuel comet none = Keeps-fail creator_unknown
  Keeps-mark_known fuel comet (some id) = Keeps-mark_each fuel id _ comet.last_ancestors

  -- Marking the ancestors of a comet changes the store alone.
  pub Keeps-update :
      (fuel : ℕ) (comet : Comet) → Keeps (update_ancestor_first_descendant st fuel comet)
  unfolding update_ancestor_first_descendant
  Keeps-update fuel comet =
      Keeps-bind _ _ Keeps-state
        λ g. Keeps-mark_known fuel comet (find comet.creator g.participants)

  Keeps-placed :
      (comet : Comet) (n : ℕ) (m : Option (List EventCoordinates)) (o : Option ℤ)
      → Keeps (placed st comet n m o)
  unfolding placed
  Keeps-placed comet n none o = Keeps-crash
  Keeps-placed comet n (some las) none = Keeps-fail creator_unknown
  Keeps-placed comet n (some las) (some id) =
      Keeps-bind _ _ (Keeps-put_at _ id _)
        λ fds. Keeps-bind _ _ (Keeps-put_at las id _) λ l. Keeps-return _

  pub Keeps-init : (comet : Comet) → Keeps (init_event_coordinates st comet)
  unfolding init_event_coordinates
  Keeps-init comet = Keeps-bind _ _ Keeps-state λ g.
      Keeps-bind _ _ (Keeps-get_comet st comet.body.self_parent) λ self.
        Keeps-bind _ _ (Keeps-get_comet st comet.body.other_parent) λ other.
          Keeps-placed comet (length g.participants) (merged (length g.participants) self other)
            (find comet.creator g.participants)
