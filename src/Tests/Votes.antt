-- ===== src/Tests/Votes.antt =====
-- The votes and the transactions of core/sequentia/sequentia.go at concrete inputs.
use paradigm.Prelude.{
  ℕ, String, ◌≡◌, refl, true, false, some, List, [], ◌∷◌, ◌++◌, arith, length, ℤ, pos, ◌-ℤ◌, nat_eq,
  int_eq, string_eq, pair_eq, Map, find, store,
}
use paradigm.Common.Lru
use paradigm.Common.Lru.{Lru, new_lru}
use paradigm.Common.Lru.Elements.{list_remove, move_to_front, element_at}
use paradigm.Storage.MemoryStore
use paradigm.Storage.MemoryStore.{InmemStore, new_inmem_store}
use paradigm.Sequentia.Fame.Ballots.{vote_on_agree}
use paradigm.Sequentia.Fame.{Ballot, vote_on, strongly_seen_by, round_witnesses}
use paradigm.Sequentia.Queries.{strongly_see, strongly_see_uncached, cached, count_between}
use paradigm.Sequentia.Graph.{
  Graph, Outcome, done, failed, panicked, build_comet_graph, most_plurality, get_comet,
}
use paradigm.Sequentia.Store.{inmem}
use paradigm.Types.RoundInfo
use paradigm.Types.RoundInfo.{RoundInfo, RoundEvent, undefined}
use paradigm.Types.Comet.{EventCoordinates}
use paradigm.Sequentia.Fame.{Votes, vote_of, count_votes, majority, ballot}
use paradigm.Sequentia.Fame.Votes.{Part, empty, take_one, decisions_agree, decision_spreads}
use paradigm.Sequentia.Graph.{plurality}
use paradigm.Sequentia.Order.{block_txs}
use paradigm.Sequentia.Order.Transactions.{txs_at, txs_received, block_txs_lem}
use paradigm.Tests.Stores.{named}
use paradigm.Types.Comet.{Comet}

-- Three witnesses that all say that x is famous.
abbrev all_yes : Votes
all_yes = ("u", ("x", true) ∷ []) ∷ ("v", ("x", true) ∷ []) ∷ ("w", ("x", true) ∷ []) ∷ []

abbrev three : List String
three = "u" ∷ "v" ∷ "w" ∷ []

all_three : Part three three
all_three = take_one "u" (take_one "v" (take_one "w" empty))

decisions_agree_example :
    (ballot 3 (plurality 3) 2 (majority (count_votes all_yes "x" three)) true).vote
    ≡ (ballot 3 (plurality 3) 2 (majority (count_votes all_yes "x" three)) false).vote
unfolding ballot majority count_votes vote_of find
decisions_agree_example =
    decisions_agree all_yes "x" 3 {ws = three} {s₁ = three} {s₂ = three} (omega arith) all_three
      all_three 2 2 true false refl refl

decision_spreads_example :
    (ballot 3 (plurality 3) 2 (majority (count_votes all_yes "x" three)) false).vote
    ≡ (ballot 3 (plurality 3) 2 (majority (count_votes all_yes "x" three)) true).vote
unfolding ballot majority count_votes vote_of find
decision_spreads_example =
    decision_spreads all_yes "x" 3 {ws = three} {s₁ = three} {s₂ = three} (omega arith) all_three
      all_three (omega arith) 2 true false refl

-- A comet that is received in round 1 with one transaction.
abbrev received_one : Comet
received_one =
    let c = named "a" "p" (pos 0) in
    let b = c.body in
    record c { round_received = some (pos 1); body = record b { transactions = (7 ∷ []) ∷ [] } }

block_txs_lem_example :
    (m' : Map ℤ (List (List ℕ))) × (block_txs [] (received_one ∷ []) ≡ some m')
    × ((r : ℤ) → txs_at r m' ≡ txs_at r [] ++ txs_received r (received_one ∷ []))
block_txs_lem_example = block_txs_lem (received_one ∷ []) [] ((pos 1, refl), tt)

-- Two participants, whose comets a and b are the witnesses of round 1, and a comet c that strongly
-- sees both.
abbrev both : Map String ℤ
both = ("p", pos 0) ∷ ("q", pos 1) ∷ []

abbrev placed_comet : String → String → List EventCoordinates → List EventCoordinates → Comet
placed_comet hex creator las fds =
    let c = named hex creator (pos 0) in record c { last_ancestors = las; first_descendants = fds }

abbrev at_index_of : ℤ → List EventCoordinates
at_index_of i = let e : EventCoordinates = record { hash = ""; index = i } in e ∷ e ∷ []

abbrev witness_event : RoundEvent
witness_event = record { witness = true; famous = undefined }

abbrev voting_store : InmemStore
voting_store =
    let s = new_inmem_store both 4 in
    let a = placed_comet "a" "p" (at_index_of (pos 0)) (at_index_of (pos 1)) in
    let b = placed_comet "b" "q" (at_index_of (pos 0)) (at_index_of (pos 1)) in
    let c = placed_comet "c" "p" (at_index_of (pos 2)) (at_index_of (pos 2)) in
    let info : RoundInfo = record {
      events = ("a", witness_event) ∷ ("b", witness_event) ∷ [];
      queued = true;
    } in
    record s {
      event_cache = (Lru.add (Lru.add (Lru.add s.event_cache "a" a).1 "b" b).1 "c" c).1;
      round_cache = (Lru.add s.round_cache (pos 1) info).1;
    }

abbrev voting : Graph InmemStore
voting = build_comet_graph inmem both voting_store false

abbrev both_yes : Votes
both_yes = ("a", ("x", true) ∷ []) ∷ ("b", ("x", true) ∷ []) ∷ []

-- The graph that a vote leaves.
abbrev left_by_vote : Outcome InmemStore Ballot → Graph InmemStore
left_by_vote (done b g) = g
left_by_vote (failed e g) = g
left_by_vote panicked = voting

abbrev voted : Graph InmemStore
voted = left_by_vote (vote_on inmem (λ h. false) 3 (pos 2) both_yes "x" "c" voting)

abbrev yes_decided : Ballot
yes_decided = record { vote = true; decides = true }

votes_yes : vote_on inmem (λ h. false) 3 (pos 2) both_yes "x" "c" voting ≡ done yes_decided voted
unfolding vote_on strongly_seen_by round_witnesses ballot majority count_votes vote_of strongly_see
    cached strongly_see_uncached count_between most_plurality get_comet build_comet_graph
    MemoryStore.get_comet MemoryStore.round_witnesses MemoryStore.get_round RoundInfo.witnesses
    RoundInfo.select_witnesses new_inmem_store new_lru Lru.get Lru.add Lru.push_front list_remove
    move_to_front element_at find store ◌-ℤ◌
votes_yes = refl

sees_witnesses : (inmem.round_witnesses voting.store (pos 2 -ℤ pos 1)).0 ≡ "a" ∷ "b" ∷ []
unfolding build_comet_graph MemoryStore.round_witnesses MemoryStore.get_round RoundInfo.witnesses
    RoundInfo.select_witnesses new_inmem_store new_lru Lru.get Lru.add Lru.push_front list_remove
    move_to_front element_at find store ◌-ℤ◌
sees_witnesses = refl

two_members : length voting.participants ≡ 2
unfolding build_comet_graph
two_members = refl

quorum_of_two : voting.most_plurality ≡ plurality 2
unfolding build_comet_graph
quorum_of_two = refl

vote_on_agree_example : yes_decided.vote ≡ yes_decided.vote
vote_on_agree_example =
    vote_on_agree inmem (λ h. false) 2 3 3 (pos 2) both_yes "x" "c" "c" ("a" ∷ "b" ∷ []) voting
      voting voted voted yes_decided yes_decided (two_members, two_members)
      (quorum_of_two, quorum_of_two) (sees_witnesses, sees_witnesses) (omega arith)
      (omega arith, omega arith) votes_yes votes_yes refl refl
