-- ===== src/Sequentia/Rounds.antt =====
-- core/sequentia/sequentia.go: rounds and witnesses. A round is found from the rounds of the parents;
-- the recursion takes fuel, and a run that has used it up panics, as Go does when the stack is full.
use paradigm.Prelude.{
  ℕ, zero, suc, String, Bool, true, false, ◌&&◌, Option, none, some, List, [], ◌∷◌, ◌++◌, leb,
  if◌then◌else◌, ℤ, pos, negsuc, ltb_ℤ, ◌+ℤ◌, ◌-ℤ◌, ◌==◌, nat_eq, int_eq, string_eq, pair_eq, find,
}
use paradigm.Common.Errors.{ok, err, panic, key_not_found, same_type}
use paradigm.Sequentia.Graph.{
  M, done, panicked, ◌>>=◌, ◌>>◌, return, fail, crash, state, modify, lift, most_plurality,
  get_comet, negative_round, of_store,
}
use paradigm.Sequentia.Queries.{CacheOf, cached, strongly_see}
use paradigm.Sequentia.Store.{Store}
use paradigm.Storage.Caches.{ParentRoundInfo, new_base_parent_round_info}
use paradigm.Types.Comet.{Comet}
use paradigm.Types.Root.{Root}
use paradigm.Types.RoundInfo.{RoundInfo, add_event}

module _ {S : Type 0} where
  abbrev pub parent_round_cache : CacheOf S String ParentRoundInfo
  parent_round_cache = record {
    read = λ g. g.parent_round_cache;
    write = λ c g. record g { parent_round_cache = c };
  }

  abbrev pub round_cache : CacheOf S String ℤ
  round_cache = record { read = λ g. g.round_cache; write = λ c g. record g { round_cache = c } }

-- the end of `parentRound`: the later of the two parents' rounds
unfoldable pub later_round : ℤ × Bool → ℤ × Bool → ParentRoundInfo
later_round (sp, sp_root) (op, op_root) =
    if ltb_ℤ sp op
    then record { round = op; is_root = op_root }
    else record { round = sp; is_root = sp_root }

module _ {S : Type 0} (st : Store S) where
  -- the comet and the root of its creator, where both are found
  unfoldable pub comet_and_root : String → M S (Option (Comet × Root))
  unfolding get_comet
  comet_and_root x = do
    ex ← get_comet st x
    elim ex [
      | none ↦ return none
      | some cx ↦ λ g. elim (st.get_root g.store cx.creator) [
        | ok root ↦ done (some (cx, root)) g
        | err e ↦ done none g
        | panic ↦ panicked
      ]
    ]

  -- `parentRound`, where `round` is the round of a parent
  unfoldable pub parent_round_with : (String → M S ℤ) → String → M S ParentRoundInfo
  unfolding comet_and_root later_round get_comet
  parent_round_with round x = do
    found ← comet_and_root x
    elim found [
      | none ↦ return new_base_parent_round_info
      | some (cx, root) ↦ do
        let other = cx.body.other_parent
        sp ←
            (if cx.body.self_parent == root.x
              then return (root.round, true)
              else (do r ← round cx.body.self_parent; return (r, false)))
        known ← get_comet st other
        op ← elim known [
          | some c ↦ (do r ← round other; return (r, false))
          | none ↦
              if other == root.y then return (root.round, true) else elim (find x root.others) [
                | some o ↦
                    if o == other then return (root.round, false) else return (negsuc 0, false)
                | none ↦ return (negsuc 0, false)
              ]
        ]
        return (later_round sp op)
    ]

  -- how many of the witnesses `ws` are strongly seen by `x`
  unfoldable pub count_strongly_seen : String → List String → M S ℕ
  count_strongly_seen x [] = return 0
  count_strongly_seen x (w ∷ ws) = do
    seen ← strongly_see st x w
    rest ← count_strongly_seen x ws
    return (if seen then suc rest else rest)

  -- `RoundInc`, given the parent round
  unfoldable pub round_inc_with : String → ParentRoundInfo → M S Bool
  unfolding count_strongly_seen
  round_inc_with x parent = if parent.is_root then return true else do
    g ← state
    let (ws, s) = st.round_witnesses g.store parent.round
    modify (λ h. record h { store = s })
    c ← count_strongly_seen x ws
    q ← most_plurality
    return (leb q c)

  -- `Round`, `round`, `ParentRound` and `RoundInc`: the parent round is read from its LRU the second
  -- time
  unfoldable pub round : ℕ → String → M S ℤ
  unfolding parent_round_with round_inc_with
  round zero x g = panicked
  round (suc fuel) x g =
      cached round_cache x
        (do
          first ← cached parent_round_cache x (parent_round_with (round fuel) x)
          parent ← cached parent_round_cache x (parent_round_with (round fuel) x)
          inc ← round_inc_with x parent
          return (if inc then first.round +ℤ pos 1 else first.round))
        g

  -- `ParentRound`
  unfoldable pub parent_round : ℕ → String → M S ParentRoundInfo
  parent_round fuel x = cached parent_round_cache x (parent_round_with (round fuel) x)

  -- `Witness`
  unfoldable pub witness : ℕ → String → M S Bool
  witness fuel x = do
    found ← comet_and_root x
    elim found [
      | none ↦ return false
      | some (cx, root) ↦
          if (cx.body.self_parent == root.x) && (cx.body.other_parent == root.y)
          then return true
          else do rx ← round fuel x; rp ← round fuel cx.body.self_parent; return (ltb_ℤ rp rx)
    ]

  -- `RoundDiff`
  unfoldable pub round_diff : ℕ → String → String → M S ℤ
  round_diff fuel x y = do
    rx ← round fuel x
    if ltb_ℤ rx (pos 0) then fail negative_round else do
      ry ← round fuel y
      if ltb_ℤ ry (pos 0) then fail negative_round else return (rx -ℤ ry)

  -- one round of the loop of `DivideRounds`
  unfoldable pub divide_event : ℕ → String → M S (Unit {0})
  divide_event fuel hash = do
    number ← round fuel hash
    is_witness ← witness fuel hash
    g ← state
    let (res, info, s) = st.get_round g.store number
    modify (λ h. record h { store = s })
    fresh ← elim res [
      | ok i ↦ return info
      | err e ↦ if same_type e.err_type key_not_found then return info else fail (of_store e)
      | panic ↦ crash
    ]
    modify (λ h.
        if fresh.queued
        then h
        else record h { undecided_rounds = h.undecided_rounds ++ (number ∷ []) })
    let queued : RoundInfo = record fresh { queued = true }
    h ← state
    s' ← lift (st.set_round h.store number (add_event queued hash is_witness))
    modify (λ k. record k { store = s' })

  -- the loop of `DivideRounds`
  unfoldable pub divide_events : ℕ → List String → M S (Unit {0})
  unfolding divide_event
  divide_events fuel [] = return tt
  divide_events fuel (x ∷ xs) = do divide_event fuel x; divide_events fuel xs

  -- `DivideRounds`
  unfoldable pub divide_rounds : ℕ → M S (Unit {0})
  unfolding divide_events
  divide_rounds fuel = do g ← state; divide_events fuel g.undetermined_events
