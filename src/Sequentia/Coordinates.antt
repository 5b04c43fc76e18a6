-- ===== src/Sequentia/Coordinates.antt =====
-- core/sequentia/sequentia.go: the last ancestors and the first descendants of a comet, one for each
-- participant. The walk to a self-parent takes fuel; it stops at a comet that is not found, at one
-- that already has a first descendant, and at the name "".
pub mod Frame
pub mod Init
pub mod Termination
use paradigm.Prelude.{
  ℕ, zero, suc, String, Option, none, some, List, [], ◌∷◌, ltb, if◌then◌else◌, length, set,
  replicate, ℤ, pos, negsuc, ltb_ℤ, eqb_ℤ, ◌==◌, nat_eq, int_eq, string_eq, pair_eq, find, store,
}
use paradigm.Common.Errors.{Result, ok, err, panic}
use paradigm.Sequentia.Graph.{
  Graph, M, done, failed, panicked, ◌>>=◌, ◌>>◌, return, fail, crash, state, modify, lift, at_index,
  get_comet, creator_unknown,
}
use paradigm.Sequentia.Store.{Store}
use paradigm.Types.Comet.{Comet, EventCoordinates}

-- `math.MaxInt32`
abbrev pub max_int32 : ℤ
max_int32 = pos 2147483647

abbrev pub no_descendant : EventCoordinates
no_descendant = record { hash = ""; index = max_int32 }

abbrev pub no_ancestor : EventCoordinates
no_ancestor = record { hash = ""; index = negsuc 0 }

abbrev pub blank : EventCoordinates
blank = record { hash = ""; index = pos 0 }

-- `copy(dst[:n], src)`, to a slice of `n` blank entries
unfoldable pub copied : ℕ → List EventCoordinates → List EventCoordinates
copied zero src = []
copied (suc n) [] = blank ∷ copied n []
copied (suc n) (c ∷ src) = c ∷ copied n src

-- the loop that takes the later of two ancestors; a list of the other parent that is too short panics
unfoldable pub later_of :
    List EventCoordinates → List EventCoordinates → Option (List EventCoordinates)
later_of [] others = some []
later_of (s ∷ selfs) [] = none
later_of (s ∷ selfs) (o ∷ others) = elim (later_of selfs others) [
  | none ↦ none
  | some rest ↦ some ((if ltb_ℤ s.index o.index then o else s) ∷ rest)
]

-- the four cases of the parents that are found
unfoldable pub merged : ℕ → Option Comet → Option Comet → Option (List EventCoordinates)
unfolding copied later_of
merged n none none = some (replicate n no_ancestor)
merged n none (some other) = some (copied n other.last_ancestors)
merged n (some self) none = some (copied n self.last_ancestors)
merged n (some self) (some other) = later_of (copied n self.last_ancestors) other.last_ancestors

-- `xs[i] = c` at a Go index
module _ {S : Type 0} where
  abbrev pub put_at : List EventCoordinates → ℤ → EventCoordinates → M S (List EventCoordinates)
  put_at xs (pos n) c g = if ltb n (length xs) then done (set xs n c) g else panicked
  put_at xs (negsuc n) c g = panicked

module _ {S : Type 0} (st : Store S) where
  -- the end of `InitEventCoordinates`: the comet's own entries, among those of its parents
  unfoldable pub placed : Comet → ℕ → Option (List EventCoordinates) → Option ℤ → M S Comet
  placed comet members none creator_id = crash
  placed comet members (some ancestors) none = fail creator_unknown
  placed comet members (some ancestors) (some creator_id) = do
    let own : EventCoordinates = record { hash = comet.hex; index = comet.body.index }
    fds ← put_at (replicate members no_descendant) creator_id own
    las ← put_at ancestors creator_id own
    return (record comet { first_descendants = fds; last_ancestors = las })

  -- `InitEventCoordinates`
  unfoldable pub init_event_coordinates : Comet → M S Comet
  unfolding merged placed get_comet
  init_event_coordinates comet = do
    g ← state
    self ← get_comet st comet.body.self_parent
    other ← get_comet st comet.body.other_parent
    placed comet (length g.participants) (merged (length g.participants) self other)
        (find comet.creator g.participants)

  -- one round of the inner loop of `UpdateAncestorFirstDescendant`, at the comet that is found
  unfoldable pub visit_ancestor :
      (Comet → M S (Unit {0})) → ℤ → EventCoordinates → Option Comet → M S (Unit {0})
  visit_ancestor rest creator_id own none = return tt
  visit_ancestor rest creator_id own (some a) = do
    fd ← at_index a.first_descendants creator_id
    if eqb_ℤ fd.index max_int32
        then (do
          fds ← put_at a.first_descendants creator_id own
          g ← state
          s ← lift (st.set_comet g.store (record a { first_descendants = fds }))
          modify (λ h. record h { store = s })
          rest a)
        else return tt

  -- the inner loop
  unfoldable pub mark_descendant : ℕ → ℤ → EventCoordinates → String → M S (Unit {0})
  unfolding visit_ancestor
  mark_descendant zero creator_id own ah g = panicked
  mark_descendant (suc fuel) creator_id own ah g =
      (if ah == "" then return tt else (do
        found ← get_comet st ah
        visit_ancestor (λ a. mark_descendant fuel creator_id own a.body.self_parent) creator_id own
            found))
        g

  -- the outer loop of `UpdateAncestorFirstDescendant`
  unfoldable pub mark_each : ℕ → ℤ → EventCoordinates → List EventCoordinates → M S (Unit {0})
  mark_each fuel creator_id own [] = return tt
  mark_each fuel creator_id own (la ∷ las) = do
    mark_descendant fuel creator_id own la.hash
    mark_each fuel creator_id own las

  -- the loops of `UpdateAncestorFirstDescendant`, if the creator is known
  unfoldable pub mark_known : ℕ → Comet → Option ℤ → M S (Unit {0})
  unfolding mark_each mark_descendant
  mark_known fuel comet none = fail creator_unknown
  mark_known fuel comet (some creator_id) =
      mark_each fuel creator_id (record { hash = comet.hex; index = comet.body.index })
        comet.last_ancestors

  -- `UpdateAncestorFirstDescendant`
  unfoldable pub update_ancestor_first_descendant : ℕ → Comet → M S (Unit {0})
  unfolding mark_known
  update_ancestor_first_descendant fuel comet = do
    g ← state
    mark_known fuel comet (find comet.creator g.participants)
