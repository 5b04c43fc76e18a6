-- ===== src/Sequentia/Frames.antt =====
-- core/sequentia/sequentia.go: `Reset`, `GetFrame` and `Bootstrap`. The map of participants is read in the
-- order of its entries. The `Others` of a root is never nil here: the base root's nil map belongs to a
-- participant with no comet in the frame, and is not written to.
use paradigm.Prelude.{
  ℕ, String, Bool, true, false, ◌||◌, Option, none, some, List, [], ◌∷◌, ◌++◌, ltb, if◌then◌else◌,
  ℤ, pos, ◌-ℤ◌, ◌==◌, nat_eq, int_eq, string_eq, pair_eq, Map, find, store,
}
use paradigm.Common.Errors.{ok, err, panic}
use paradigm.Common.Lru.{new_lru}
use paradigm.Sequentia.Fame.{decide_fame}
use paradigm.Sequentia.Graph.{
  M, done, failed, panicked, ◌>>=◌, ◌>>◌, return, crash, state, modify, lift, of_store,
  require_comet,
}
use paradigm.Sequentia.Insert.{Crypto, insert_comet}
use paradigm.Sequentia.Order.{Sort, find_order}
use paradigm.Sequentia.Rounds.{round, divide_rounds}
use paradigm.Sequentia.Store.{Store}
use paradigm.Types.Comet.{Comet}
use paradigm.Types.Frame.{Frame}
use paradigm.Types.Root.{Root}
use paradigm.Types.RoundInfo.{witnesses}

-- `ByTopologicalOrder.Less`
abbrev pub by_topological_order : Comet → Comet → Bool
by_topological_order a b = ltb a.topological_index b.topological_index

-- `treated[x]`, a map in which only true is stored
unfoldable pub treats : String → List String → Bool
treats x [] = false
treats x (y ∷ ys) = y == x || treats x ys

-- `roots[c].Others[x] = y`: none if there is no root, where Go writes to a nil map
unfoldable pub list_other : String → String → String → Map String Root → Option (Map String Root)
list_other c x y roots = elim (find c roots) [
  | none ↦ none
  | some r ↦ some (store c (record r { others = store x y r.others }) roots)
]

-- `roots[c].X`: "" if there is no root
abbrev pub root_x : String → Map String Root → String
root_x c roots = elim (find c roots) [ none ↦ "" | some r ↦ r.x ]

-- one round of the last loop of `GetFrame`, with the comets treated before it and this one
unfoldable pub list_comet : List String → Comet → Map String Root → Option (Map String Root)
unfolding treats list_other
list_comet treated ev roots =
    if ev.body.other_parent == ""
    then some roots
    else if treats ev.body.other_parent treated
    then some roots
    else if ev.body.self_parent == root_x ev.creator roots
    then some roots
    else list_other ev.creator ev.hex ev.body.other_parent roots

-- the last loop of `GetFrame`
unfoldable pub list_others : List String → List Comet → Map String Root → Option (Map String Root)
unfolding list_comet
list_others treated [] roots = some roots
list_others treated (ev ∷ evs) roots = elim (list_comet (ev.hex ∷ treated) ev roots) [
  | none ↦ none
  | some roots' ↦ list_others (ev.hex ∷ treated) evs roots'
]

module _ {S : Type 0} (st : Store S) where
  -- `Reset`
  unfoldable pub reset : Map String Root → M S (Unit {0})
  reset roots g = elim (st.reset g.store roots) [
    | panic ↦ panicked
    | err e ↦ failed (of_store e) g
    | ok s ↦
        let n = st.cache_size s in
        done tt (record g {
          store = s;
          undetermined_events = [];
          undecided_rounds = [];
          pending_loaded_events = pos 0;
          topological_index = 0;
          ancestor_cache = new_lru n;
          self_ancestor_cache = new_lru n;
          oldest_self_ancestor_cache = new_lru n;
          strongly_see_cache = new_lru n;
          parent_round_cache = new_lru n;
          round_cache = new_lru n;
        })
  ]

  -- the root on which a comet stands
  unfoldable pub root_below : ℕ → Comet → M S Root
  root_below fuel w = do
    r ← round st fuel w.body.self_parent
    return (record {
      x = w.body.self_parent;
      y = w.body.other_parent;
      index = w.body.index -ℤ pos 1;
      round = r;
      others = [];
    })

  -- the comets of the names, which must all be found
  unfoldable pub require_comets : List String → M S (List Comet)
  unfolding require_comet
  require_comets [] = return []
  require_comets (x ∷ xs) = do c ← require_comet st x; cs ← require_comets xs; return (c ∷ cs)

  -- the loop of `GetFrame` over the witnesses
  unfoldable pub witness_roots :
      ℕ → List String → List Comet → Map String Root → M S (List Comet × Map String Root)
  unfolding root_below require_comets require_comet
  witness_roots fuel [] events roots = return (events, roots)
  witness_roots fuel (wh ∷ whs) events roots = do
    w ← require_comet st wh
    root ← root_below fuel w
    g ← state
    names ← lift (st.participant_events g.store w.creator w.body.index)
    above ← require_comets names
    witness_roots fuel whs (events ++ (w ∷ above)) (store w.creator root roots)

  -- the root of a participant that has none yet, and its last comet, if it has one
  unfoldable pub last_root : ℕ → String → M S (List Comet × Root)
  unfolding root_below require_comet
  last_root fuel p = do
    g ← state
    (last, is_root) ← lift (st.last_event_from g.store p)
    if is_root
        then (do root ← lift (st.get_root g.store p); return ([], root))
        else (do ev ← require_comet st last; root ← root_below fuel ev; return (ev ∷ [], root))

  -- the loop of `GetFrame` over the participants
  unfoldable pub other_roots :
      ℕ → Map String ℤ → List Comet → Map String Root → M S (List Comet × Map String Root)
  unfolding last_root
  other_roots fuel [] events roots = return (events, roots)
  other_roots fuel ((p, id) ∷ ps) events roots = elim (find p roots) [
    | some r ↦ other_roots fuel ps events roots
    | none ↦ do
      (evs, root) ← last_root fuel p
      other_roots fuel ps (events ++ evs) (store p root roots)
  ]

  -- the end of `GetFrame`: the comets in topological order, and the other-parents outside of the frame
  unfoldable pub framed : Sort → List Comet → Map String Root → M S Frame
  unfolding list_others
  framed sort events roots =
      let sorted = sort by_topological_order events in
      elim (list_others [] sorted roots) [
        | none ↦ crash
        | some roots' ↦ return (record { roots = roots'; comets = sorted })
      ]

  -- `GetFrame`
  unfoldable pub get_frame : ℕ → Sort → M S Frame
  unfolding witness_roots other_roots framed
  get_frame fuel sort = do
    g ← state
    let i : ℤ = elim g.last_consensus_round [ none ↦ pos 0 | some l ↦ l ]
    let (res, old, s) = st.get_round g.store i
    modify (λ h. record h { store = s })
    info ← lift res
    (events, roots) ← witness_roots fuel (witnesses info) [] []
    (events', roots') ← other_roots fuel g.participants events roots
    framed sort events' roots'

  module _ (crypto : Crypto) where
    -- the loop over the comets of `Bootstrap`
    unfoldable pub insert_comets : ℕ → List Comet → M S (Unit {0})
    insert_comets fuel [] = return tt
    insert_comets fuel (e ∷ es) = do insert_comet st crypto fuel e true; insert_comets fuel es

    -- `DivideRounds`, `DecideFame` and `FindOrder`
    unfoldable pub run_consensus : (String → Bool) → Sort → (Comet → ℕ) → Comet → ℕ → M S (Unit {0})
    run_consensus middle_bit sort signature_r empty fuel = do
      divide_rounds st fuel
      decide_fame st middle_bit
      find_order st sort signature_r empty fuel

    -- `Bootstrap`
    unfoldable pub bootstrap : (String → Bool) → Sort → (Comet → ℕ) → Comet → ℕ → M S (Unit {0})
    unfolding insert_comets run_consensus
    bootstrap middle_bit sort signature_r empty fuel = do
      g ← state
      elim (st.topological_events g.store) [
        | none ↦ return tt
        | some res ↦ do
          events ← lift res
          insert_comets fuel events
          run_consensus middle_bit sort signature_r empty fuel
      ]
