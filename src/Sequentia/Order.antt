-- ===== src/Sequentia/Order.antt =====
-- core/sequentia/sequentia.go and sorter.go: the round in which a comet is received, the consensus order
-- and the blocks. `sort.Sort` is a parameter, given the order of sorter.go.
pub mod Blocks
pub mod Transactions
pub mod Median
use paradigm.Prelude.{
  ℕ, zero, suc, ◌+◌, ◌-◌, ◌/◌, String, Bool, false, not, ◌&&◌, Option, none, some, List, [], ◌∷◌,
  ◌++◌, ltb, if◌then◌else◌, length, get_elem?, ℤ, pos, negsuc, pos_part, ltb_ℤ, eqb_ℤ, ◌+ℤ◌, ◌-ℤ◌,
  nat_eq, int_eq, string_eq, pair_eq, Map, find, store,
}
use paradigm.Common.Errors.{Result, ok, err, panic, key_not_found, same_type}
use paradigm.Sequentia.Graph.{
  Graph, M, done, failed, panicked, ◌>>=◌, ◌>>◌, return, fail, crash, state, modify, lift, of_store,
  require_comet, get_comet,
}
use paradigm.Sequentia.Queries.{see, oldest_self_ancestor_to_see}
use paradigm.Sequentia.Rounds.{round}
use paradigm.Sequentia.Store.{Store}
use paradigm.Types.Block.{Block, new_block}
use paradigm.Types.Comet.{Comet, is_loaded, set_round_received}
use paradigm.Types.RoundInfo.{RoundInfo, famous_witnesses, witnesses_decided}

-- `sort.Sort`, with a test of the order
abbrev pub Sort : Type 0
Sort = (Comet → Comet → Bool) → List Comet → List Comet

-- `ByTimestamp.Less`
abbrev pub by_timestamp : Comet → Comet → Bool
by_timestamp a b = ltb_ℤ a.body.timestamp b.body.timestamp

-- `ConsensusSorter.Less`: the received round, the timestamp, then the signature's number, under the
-- exclusive or with the pseudo-random number of the round. The sorter's map of rounds is empty, so that
-- number is 0 and the exclusive or changes nothing.
unfoldable pub consensus_less : (Comet → ℕ) → Comet → Comet → Bool
consensus_less signature_r a b =
    let ra : ℤ = elim a.round_received [ none ↦ negsuc 0 | some r ↦ r ] in
    let rb : ℤ = elim b.round_received [ none ↦ negsuc 0 | some r ↦ r ] in
    if not (eqb_ℤ ra rb)
    then ltb_ℤ ra rb
    else if not (eqb_ℤ a.consensus_timestamp b.consensus_timestamp)
    then ltb_ℤ a.consensus_timestamp b.consensus_timestamp
    else ltb (signature_r a) (signature_r b)

-- the blocks of `handleNewConsensusEvents`: the transactions of each received round, in the order in
-- which the rounds are met
unfoldable pub block_txs : Map ℤ (List (List ℕ)) → List Comet → Option (Map ℤ (List (List ℕ)))
block_txs m [] = some m
block_txs m (e ∷ es) = elim e.round_received [
  | none ↦ none
  | some rr ↦
      let old : List (List ℕ) = elim (find rr m) [ none ↦ [] | some txs ↦ txs ] in
      block_txs (store rr (old ++ e.body.transactions) m) es
]

-- the split of `FindOrder`: the comets that have been received, and the names of the others
unfoldable pub received : List (String × Comet) → List Comet × List String
received [] = ([], [])
received ((x, c) ∷ xs) =
    let (events, rest) = received xs in
    elim c.round_received [ some r ↦ (c ∷ events, rest) | none ↦ (events, x ∷ rest) ]

module _ {S : Type 0} (st : Store S) (sort : Sort) where
  -- the comets of the names, where a name that is not found gives a blank comet
  unfoldable pub comets_of : Comet → List String → M S (List Comet)
  unfolding get_comet
  comets_of empty [] = return []
  comets_of empty (x ∷ xs) = do
    c ← get_comet st x
    rest ← comets_of empty xs
    return ((elim c [ some e ↦ e | none ↦ empty ]) ∷ rest)

  -- `MedianTimestamp`
  unfoldable pub median_timestamp : Comet → List String → M S ℤ
  unfolding comets_of
  median_timestamp empty hashes = do
    events ← comets_of empty hashes
    elim (get_elem? (sort by_timestamp events) (length events / 2)) [
      | none ↦ crash
      | some c ↦ return c.body.timestamp
    ]

  -- the famous witnesses that see `x`
  unfoldable pub seen_by : String → List String → M S (List String)
  seen_by x [] = return []
  seen_by x (w ∷ ws) = do
    sees ← see st w x
    rest ← seen_by x ws
    return (if sees then w ∷ rest else rest)

  -- the oldest self-ancestors that see `x`
  unfoldable pub oldest_of : String → List String → M S (List String)
  oldest_of x [] = return []
  oldest_of x (w ∷ ws) = do
    o ← oldest_self_ancestor_to_see st w x
    rest ← oldest_of x ws
    return (o ∷ rest)

  -- `tr.WitnessesDecided() && len(cg.UndecidedRounds) > 0 && cg.UndecidedRounds[0] > i`
  abbrev pub is_settled : RoundInfo → List ℤ → ℤ → Bool
  is_settled tr [] i = false
  is_settled tr (u ∷ us) i = witnesses_decided tr && ltb_ℤ i u

  -- the loop of `DecideRoundReceived` over the rounds from `i` on, of which `rounds` are left
  unfoldable pub receive_from : Comet → ℕ → ℤ → String → M S (Unit {0})
  unfolding seen_by oldest_of median_timestamp require_comet
  receive_from empty zero i x g = done tt g
  receive_from empty (suc rounds) i x g =
      let (res, old, s) = st.get_round g.store i in
      let g' = record g { store = s } in
      let continue = receive_from empty rounds (i +ℤ pos 1) x in
      let visit = λ (tr : RoundInfo).
        if not (is_settled tr g'.undecided_rounds i)
        then continue g'
        else (do
          let fws = famous_witnesses tr
          ss ← seen_by x fws
          if ltb (length fws / 2) (length ss)
              then (do
                ex ← require_comet st x
                ts ← oldest_of x ss
                median ← median_timestamp empty ts
                h ← state
                let moved : Comet = set_round_received ex i
                s' ← lift (st.set_comet h.store (record moved { consensus_timestamp = median }))
                modify (λ k. record k { store = s' }))
              else continue)
            g' in
      elim res [
        | panic ↦ panicked
        | err e ↦ if same_type e.err_type key_not_found then visit old else failed (of_store e) g'
        | ok tr ↦ visit tr
      ]

  -- `DecideRoundReceived`, over the undetermined events
  unfoldable pub decide_round_received : Comet → ℕ → List String → M S (Unit {0})
  unfolding receive_from
  decide_round_received empty fuel [] = return tt
  decide_round_received empty fuel (x ∷ xs) = do
    r ← round st fuel x
    g ← state
    receive_from empty (pos_part (st.last_round g.store -ℤ r)) (r +ℤ pos 1) x
    decide_round_received empty fuel xs

  -- `createAndInsertBlock`
  unfoldable pub create_and_insert_block : ℤ → List (List ℕ) → M S Block
  create_and_insert_block round_received txs = do
    g ← state
    let block = new_block (g.last_block_index +ℤ pos 1) round_received txs
    s ← lift (st.set_block g.store block)
    modify (λ h. record h { store = s; last_block_index = h.last_block_index +ℤ pos 1 })
    return block

  -- the loop of `handleNewConsensusEvents` over the comets
  unfoldable pub count_events : List Comet → M S (Unit {0})
  count_events [] = return tt
  count_events (e ∷ es) = do
    g ← state
    s ← lift (st.add_consensus_event g.store e.hex)
    modify (λ h. record h {
      store = s;
      consensus_transactions = h.consensus_transactions + length e.body.transactions;
      pending_loaded_events =
          if is_loaded e then h.pending_loaded_events -ℤ pos 1 else h.pending_loaded_events;
    })
    count_events es

  -- `cg.commitCh <- block`, if there is a channel
  unfoldable pub send : Block → M S (Unit {0})
  send block g =
      done tt (if g.has_commit_ch then record g { commits = g.commits ++ (block ∷ []) } else g)

  -- one round of the loop over the received rounds: a round with no transactions has no block
  unfoldable pub commit_round : ℤ → List (List ℕ) → M S (Unit {0})
  unfolding create_and_insert_block send
  commit_round rr txs =
      if ltb 0 (length txs)
      then (do block ← create_and_insert_block rr txs; send block)
      else return tt

  -- the loop over the received rounds
  unfoldable pub commit_blocks : Map ℤ (List (List ℕ)) → M S (Unit {0})
  unfolding commit_round
  commit_blocks [] = return tt
  commit_blocks ((rr, txs) ∷ m) = do commit_round rr txs; commit_blocks m

  -- `handleNewConsensusEvents`: the comets are counted before their transactions are gathered, where
  -- the code does both in one loop
  unfoldable pub handle_new_consensus_events : List Comet → M S (Unit {0})
  unfolding count_events commit_blocks block_txs
  handle_new_consensus_events events = do
    count_events events
    elim (block_txs [] events) [ none ↦ crash | some m ↦ commit_blocks m ]

  -- the comets of the undetermined events
  unfoldable pub fetch : List String → M S (List (String × Comet))
  unfolding require_comet
  fetch [] = return []
  fetch (x ∷ xs) = do c ← require_comet st x; rest ← fetch xs; return ((x, c) ∷ rest)

  -- `FindOrder`
  unfoldable pub find_order : (Comet → ℕ) → Comet → ℕ → M S (Unit {0})
  unfolding decide_round_received handle_new_consensus_events fetch received
  find_order signature_r empty fuel = do
    g ← state
    decide_round_received empty fuel g.undetermined_events
    h ← state
    found ← fetch h.undetermined_events
    let (events, rest) = received found
    modify (λ k. record k { undetermined_events = rest })
    handle_new_consensus_events (sort (consensus_less signature_r) events)
