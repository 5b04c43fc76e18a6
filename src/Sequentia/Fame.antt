-- ===== src/Sequentia/Fame.antt =====
-- core/sequentia/sequentia.go: the votes of later witnesses on the fame of a witness, and the decision.
-- The middle bit of a hash is a parameter (hexadecimal digits of a SHA-256).
pub mod Votes
pub mod Ballots
use paradigm.Prelude.{
  ℕ, zero, suc, ◌+◌, ◌-◌, ◌%◌, String, Bool, true, false, ◌&&◌, ◌||◌, Option, none, some, List, [],
  ◌∷◌, ltb, leb, eqb, if◌then◌else◌, length, ℤ, pos, pos_part, ltb_ℤ, eqb_ℤ, ◌+ℤ◌, ◌-ℤ◌, nat_eq,
  int_eq, string_eq, pair_eq, Map, find, store,
}
use paradigm.Common.Errors.{Result, ok, err, panic}
use paradigm.Sequentia.Graph.{
  Graph, M, Outcome, done, failed, panicked, ◌>>=◌, ◌>>◌, return, state, modify, lift,
  most_plurality, of_store, GraphErr, fail,
}
use paradigm.Sequentia.Queries.{see, strongly_see}
use paradigm.Sequentia.Store.{Store}
use paradigm.Types.RoundInfo.{RoundInfo, witnesses, witnesses_decided, is_decided, set_fame}

-- `map[x][y]` of the votes of x on y
abbrev pub Votes : Type 0
Votes = Map String (Map String Bool)

-- `votes[x][y]`: false where there is no vote
unfoldable pub vote_of : Votes → String → String → Bool
vote_of votes x y = elim (find x votes) [
  | none ↦ false
  | some m ↦ elim (find y m) [ none ↦ false | some v ↦ v ]
]

-- `setVote`
unfoldable pub set_vote : Votes → String → String → Bool → Votes
set_vote votes x y v =
    let old : Map String Bool = elim (find x votes) [ none ↦ [] | some m ↦ m ] in
    store x (store y v old) votes

-- the loop that counts `yays` and `nays` on `x`
unfoldable pub count_votes : Votes → String → List String → ℕ × ℕ
count_votes votes x [] = (0, 0)
count_votes votes x (w ∷ ws) =
    let (yays, nays) = count_votes votes x ws in
    if vote_of votes w x then (suc yays, nays) else (yays, suc nays)

-- the majority's vote and its size; a tie is a yes
unfoldable pub majority : ℕ × ℕ → Bool × ℕ
majority (yays, nays) = if leb nays yays then (true, yays) else (false, nays)

-- What the votes of a witness `y` come to: its own vote, and whether it decides the fame.
pub record Ballot : Type 0 where
  pub vote : Bool
  pub decides : Bool

-- The decision of a witness `diff` rounds after `x`, for `n` participants: in a normal round a large
-- majority decides, in a coin round (`diff` a multiple of `n`) it only votes, and otherwise the middle
-- bit of the hash votes.
unfoldable pub ballot : ℕ → ℕ → ℕ → Bool × ℕ → Bool → Ballot
ballot n quorum diff (v, t) coin =
    if ltb 0 n && ltb 0 (diff % n)
    then record { vote = v; decides = leb quorum t }
    else record { vote = if leb quorum t then v else coin; decides = false }

-- `cg.LastConsensusRound == nil || i > *cg.LastConsensusRound`
abbrev pub is_later : ℤ → Option ℤ → Bool
is_later i none = true
is_later i (some l) = ltb_ℤ l i

-- `_, ok := decidedRounds[r]`
unfoldable pub member : ℤ → List ℤ → Bool
member r [] = false
member r (d ∷ ds) = eqb_ℤ d r || member r ds

-- `updateUndecidedRounds`
unfoldable pub without : List ℤ → List ℤ → List ℤ
unfolding member
without decided [] = []
without decided (r ∷ rs) =
    let rest = without decided rs in if member r decided then rest else r ∷ rest

module _ {S : Type 0} (st : Store S) (middle_bit : String → Bool) where
  -- `ssWitnesses`
  unfoldable pub strongly_seen_by : String → List String → M S (List String)
  strongly_seen_by y [] = return []
  strongly_seen_by y (w ∷ ws) = do
    seen ← strongly_see st y w
    rest ← strongly_seen_by y ws
    return (if seen then w ∷ rest else rest)

  -- `RoundWitnesses`
  unfoldable pub round_witnesses : ℤ → M S (List String)
  round_witnesses r g =
      let (ws, s) = st.round_witnesses g.store r in done ws (record g { store = s })

  -- the vote of `y`, of round `j`, on `x`, of round `j - diff`
  unfoldable pub vote_on : ℕ → ℤ → Votes → String → String → M S Ballot
  unfolding strongly_seen_by round_witnesses
  vote_on diff j votes x y =
      if eqb diff 1 then (do v ← see st y x; return (record { vote = v; decides = false })) else (do
        before ← round_witnesses (j -ℤ pos 1)
        ss ← strongly_seen_by y before
        g ← state
        q ← most_plurality
        return (
            ballot (length g.participants) q diff (majority (count_votes votes x ss))
              (middle_bit y)))

  -- the loop over the witnesses `ys` of round `j`: the votes, and the fame if one of them decides
  unfoldable pub poll : ℕ → ℤ → String → List String → Votes → M S (Votes × Option Bool)
  unfolding vote_on
  poll diff j x [] votes = return (votes, none)
  poll diff j x (y ∷ ys) votes = do
    b ← vote_on diff j votes x y
    let votes' = set_vote votes y x b.vote
    if b.decides then return (votes', some b.vote) else poll diff j x ys votes'

  -- the loop over the rounds from `j` on, of which `rounds` are left
  unfoldable pub poll_rounds : ℕ → ℕ → ℤ → String → Votes → M S (Votes × Option Bool)
  unfolding poll round_witnesses
  poll_rounds zero diff j x votes g = done (votes, none) g
  poll_rounds (suc rounds) diff j x votes g =
      (do
        ys ← round_witnesses j
        (votes', fame) ← poll diff j x ys votes
        elim fame [
          | some f ↦ return (votes', some f)
          | none ↦ poll_rounds rounds (suc diff) (j +ℤ pos 1) x votes'
        ])
        g

  -- the loop over the witnesses `xs` of round `i`
  unfoldable pub decide_witnesses : ℤ → List String → RoundInfo → Votes → M S (RoundInfo × Votes)
  unfolding poll_rounds
  decide_witnesses i [] info votes = return (info, votes)
  decide_witnesses i (x ∷ xs) info votes = do
    g ← state
    let rounds = pos_part (st.last_round g.store -ℤ i)
    (votes', fame) ←
        (if is_decided info x
          then return (votes, none)
          else poll_rounds rounds 1 (i +ℤ pos 1) x votes)
    let info' : RoundInfo = elim fame [ some f ↦ set_fame info x f | none ↦ info ]
    decide_witnesses i xs info' votes'

  -- `setLastConsensusRound`
  unfoldable pub set_last_consensus_round : ℤ → M S (Unit {0})
  set_last_consensus_round i g =
      let (n, s) = st.round_events g.store (i -ℤ pos 1) in
      done tt
        (record g { store = s; last_consensus_round = some i; last_commited_round_events = n })

  -- the loop over the undecided rounds, with the rounds decided so far
  unfoldable pub decide_rounds : List ℤ → List ℤ → Votes → M S (List ℤ × Option GraphErr)
  unfolding decide_witnesses set_last_consensus_round
  decide_rounds [] decided votes g = done (decided, none) g
  decide_rounds (i ∷ is) decided votes g =
      let (res, old, s) = st.get_round g.store i in
      let g' = record g { store = s } in
      elim res [
        | panic ↦ panicked
        | err e ↦ done (decided, some (of_store e)) g'
        | ok info ↦ elim (decide_witnesses i (witnesses info) info votes g') [
          | panicked ↦ panicked
          | failed e h ↦ done (decided, some e) h
          | done (info', votes') h ↦
              let settled = witnesses_decided info' in
              let decided' = if settled then i ∷ decided else decided in
              let later = settled && is_later i h.last_consensus_round in
              elim ((if later then set_last_consensus_round i else return tt) h) [
                | panicked ↦ panicked
                | failed e k ↦ done (decided', some e) k
                | done u k ↦ elim (st.set_round k.store i info') [
                  | ok s' ↦ decide_rounds is decided' votes' (record k { store = s' })
                  | err e ↦ done (decided', some (of_store e)) k
                  | panic ↦ panicked
                ]
              ]
        ]
      ]

  -- `DecideFame`: the deferred update of the undecided rounds runs on an error, too
  unfoldable pub decide_fame : M S (Unit {0})
  unfolding decide_rounds
  decide_fame = do
    g ← state
    (decided, error) ← decide_rounds g.undecided_rounds [] []
    modify (λ h. record h { undecided_rounds = without decided h.undecided_rounds })
    elim error [ none ↦ return tt | some e ↦ fail e ]
