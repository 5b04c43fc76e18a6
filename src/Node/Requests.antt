-- ===== src/Node/Requests.antt =====
-- Every request to a node of core/node.go is answered.
use paradigm.Prelude.{
  ℕ, ◌≡◌, refl, sym, ◌∙◌, ◌≢◌, ◌⊎◌, inl, inr, Bool, true, false, Option, none, some, List, [],
  arith, if◌then◌else◌, ℤ, nat_eq, int_eq, string_eq, pair_eq, Map,
}
use mathlib.Core.Path.{subst}
use paradigm.Core.{Core, Keys, to_wires, ended, refused, known_events, over_sync_limit, event_diff}
use paradigm.Core.Steps.{CoreOutcome-cases}
use paradigm.Network.Transport.{
  SyncRequest, SyncResponse, EagerSyncRequest, EagerSyncResponse, Command, sync_request,
  eager_sync_request, other_command, Response, sync_response, eager_sync_response, no_response,
}
use paradigm.Node.{
  Node, NodeErr, NodeState, booting, catching_up, shutdown, NodeOutcome, finished, died, of_core,
  not_ready, unexpected_command, sync, diff_response, process_sync_request,
  process_eager_sync_request, dispatch, discard_rpc, process_rpc, return,
}
use paradigm.Node.Gentle.{IsIdle}
use paradigm.Node.Gossip.{sync-IsIdle}
use paradigm.Node.Steps.{NodeOutcome-cases}
use paradigm.Sequentia.Graph.{GraphErr}
use paradigm.Sequentia.Insert.{Crypto}
use paradigm.Sequentia.Store.{Store}
use paradigm.Types.Comet.{Comet, WireEvent}

NodeState-cases : (s : NodeState) → (s ≡ booting) ⊎ ((s ≡ catching_up) ⊎ (s ≡ shutdown))
NodeState-cases booting = inl refl
NodeState-cases catching_up = inr (inl refl)
NodeState-cases shutdown = inr (inr refl)

catching_up-ne : catching_up ≢ booting
catching_up-ne h = cc

shutdown-ne : shutdown ≢ booting
shutdown-ne h = cc

module _ {S : Type 0} (st : Store S) (crypto : Crypto) (keys : Keys)
    (others : ℕ → Node S → Node S) where
  -- The comets that answer a sync request to a node `n`, with the error beside them, and the node that they leave:
  -- none over the sync limit, and under it those that `EventDiff` finds, or none where it fails.
  pub data Collected (known : Map ℤ ℤ) (over : Bool) (n : Node S) (evs : List WireEvent)
      (e : Option NodeErr) (d : Node S) : Type 0 where
    none_sent : over ≡ true → evs ≡ [] → e ≡ none → d ≡ n → Collected known over n evs e d
    found_diff :
        (diff : List Comet) (c : Core S)
        → over ≡ false
        → event_diff st crypto keys known n.core ≡ ended diff c
        → evs ≡ to_wires diff
        → e ≡ none
        → d ≡ record n { core = c }
        → Collected known over n evs e d
    no_diff :
        (x : GraphErr) (c : Core S)
        → over ≡ false
        → event_diff st crypto keys known n.core ≡ refused x c
        → evs ≡ []
        → e ≡ some (of_core x)
        → d ≡ record n { core = c }
        → Collected known over n evs e d

  -- The response to a command, with the error beside it, and the node before and after.
  pub data Answered (c : Command) (n : Node S) (r : Response) (e : Option NodeErr) (d : Node S)
      : Type 0 where
    -- a node that is not booting discards the request and stays as it is
    discarded : (n.state ≢ booting) → e ≡ some (not_ready n.state) → d ≡ n → Answered c n r e d
    unexpected :
        n.state ≡ booting
        → c ≡ other_command
        → e ≡ some unexpected_command
        → d ≡ n
        → Answered c n r e d
    -- the limit is tested on the node as it is, then the comets are collected, and then it is read what
    -- the node knows
    synced :
        n.state ≡ booting
        → (q : SyncRequest) (a : SyncResponse) (limit last : Core S) (m : Node S)
        → c ≡ sync_request q
        → r ≡ sync_response a
        → a.from_id ≡ n.id
        → over_sync_limit st crypto keys q.known n.sync_limit n.core ≡ ended a.sync_limit limit
        → Collected q.known a.sync_limit (others 0 (record n { core = limit })) a.events e m
        → (let k = others 1 m in known_events st crypto keys k.core ≡ ended a.known last)
        → d ≡ record (others 1 m) { core = last }
        → Answered c n r e d
    -- the response says whether the comets were taken in; then nothing waits to be sent
    took_in :
        n.state ≡ booting
        → (q : EagerSyncRequest) (a : EagerSyncResponse) → c ≡ eager_sync_request q
        → r ≡ eager_sync_response a
        → a.from_id ≡ n.id
        → ((a.success ≡ true) × (e ≡ none) × IsIdle d) ⊎ ((a.success ≡ false) × (e ≢ none))
        → Answered c n r e d

  -- The outcome of a request: it is answered, or the node panics.
  abbrev pub IsAnswer : Command → Node S → NodeOutcome S (Response × Option NodeErr) → Type 0
  IsAnswer c n o =
      ((r : Response) × (e : Option NodeErr) × (d : Node S) × (o ≡ finished (r, e) d)
        × Answered c n r e d)
      ⊎ (o ≡ died)

  process_eager_sync_request-Answered :
      (fuel : ℕ) (now : ℤ) (q : EagerSyncRequest) (n : Node S)
      → n.state ≡ booting
      → IsAnswer (eager_sync_request q) n (process_eager_sync_request st crypto keys fuel now q n)
  unfolding process_eager_sync_request
  process_eager_sync_request-Answered fuel now q n up =
      elim (NodeOutcome-cases (sync st crypto keys fuel now q.events n)) [
        | inl (u, d, p) ↦
            let a : EagerSyncResponse = record { from_id = n.id; success = true } in
            let (o, i) = sync-IsIdle st crypto keys fuel now q.events n d p in
            inl (
              eager_sync_response a,
              none,
              d,
              ground (arith, p),
              took_in up q a refl refl refl (inl (refl, refl, i)),
            )
        | inr (inl (x, d, p)) ↦
            let a : EagerSyncResponse = record { from_id = n.id; success = false } in
            inl (
              eager_sync_response a,
              some x,
              d,
              ground (arith, p),
              took_in up q a refl refl refl (inr (refl, λ z. absurd (cc))),
            )
        | inr (inr p) ↦ inr (ground (arith, p))
      ]

  -- The known comets and the test of the sync limit never fail.
  known_events-ends :
      (c : Core S)
      → (known : Map ℤ ℤ) × (d : Core S) × (known_events st crypto keys c ≡ ended known d)
  unfolding known_events
  known_events-ends c = (_, _, refl)

  over_sync_limit-ends :
      (known : Map ℤ ℤ) (limit : ℤ) (c : Core S)
      → (over : Bool) × (d : Core S) × (over_sync_limit st crypto keys known limit c ≡ ended over d)
  unfolding over_sync_limit known_events
  over_sync_limit-ends known limit c = (_, _, refl)

  collected :
      (known : Map ℤ ℤ) (over : Bool) (n : Node S)
      → ((evs : List WireEvent) × (e : Option NodeErr) × (d : Node S) × ((if over
                then return {A = List WireEvent × Option NodeErr} ([], none)
                else diff_response st crypto keys known)
              n
            ≡ finished (evs, e) d)
          × Collected known over n evs e d)
        ⊎ ((if over
                then return {A = List WireEvent × Option NodeErr} ([], none)
                else diff_response st crypto keys known)
              n
            ≡ died)
  unfolding diff_response to_wires
  collected known true n = inl ([], none, n, refl, none_sent refl refl refl refl)
  collected known false n = elim (CoreOutcome-cases (event_diff st crypto keys known n.core)) [
    | inr (inr x) ↦ inr (ground (arith, x))
    | inl (diff, c, x) ↦ inl (
      to_wires diff,
      none,
      record n { core = c },
      ground (arith, x),
      found_diff diff c refl x refl refl refl,
    )
    | inr (inl (err, c, x)) ↦ inl (
      [],
      some (of_core err),
      record n { core = c },
      ground (arith, x),
      no_diff err c refl x refl refl refl,
    )
  ]

  process_sync_request-Answered :
      (q : SyncRequest) (n : Node S)
      → n.state ≡ booting
      → IsAnswer (sync_request q) n (process_sync_request st crypto keys others q n)
  unfolding process_sync_request
  process_sync_request-Answered q n up =
      let (over, limit, p) = over_sync_limit-ends q.known n.sync_limit n.core in
      elim (collected q.known over (others 0 (record n { core = limit }))) [
        | inr x ↦ inr (ground (arith, p, x))
        | inl (evs, e, m, x, from) ↦
            let k = others 1 m in
            let (known, last, y) = known_events-ends k.core in
            let a : SyncResponse = record {
              from_id = n.id;
              sync_limit = over;
              events = evs;
              known = known;
            } in
            inl (
              sync_response a,
              e,
              record (others 1 m) { core = last },
              ground (arith, p, x, y),
              synced up q a limit last m refl refl refl p from y refl,
            )
      ]

  discard_rpc-Answered :
      (c : Command) (n : Node S) → (n.state ≢ booting) → IsAnswer c n (discard_rpc st crypto keys n)
  unfolding discard_rpc
  discard_rpc-Answered c n h = inl (_, _, n, refl, discarded h refl refl)

  dispatch-Answered :
      (fuel : ℕ) (now : ℤ) (c : Command) (n : Node S)
      → n.state ≡ booting
      → IsAnswer c n (dispatch st crypto keys fuel now others c n)
  unfolding dispatch
  dispatch-Answered fuel now (sync_request q) n up = process_sync_request-Answered q n up
  dispatch-Answered fuel now (eager_sync_request q) n up =
      process_eager_sync_request-Answered fuel now q n up
  dispatch-Answered fuel now other_command n up =
      inl (no_response, some unexpected_command, n, refl, unexpected up refl refl refl)

  -- Every request that `processRPC` does not panic on is answered with one response. A node that
  -- is not booting discards it with an error and stays as it is, and only such a node does. A node
  -- that is booting answers an unexpected command with an error and stays as it is. It answers a
  -- sync request, whatever the other handlers do where it has not the lock, with whether the sync
  -- limit is hit, with the comets that `EventDiff` finds only if it is not, with an error only if
  -- `EventDiff` fails, and with what the node knows at the end. Its answer to an eager sync says
  -- success exactly if there is no error, and then the pools are empty.
  pub process_rpc-Answered :
      (fuel : ℕ) (now : ℤ) (c : Command) (n : Node S)
      → IsAnswer c n (process_rpc st crypto keys fuel now others c n)
  unfolding process_rpc
  process_rpc-Answered fuel now c n = elim (NodeState-cases n.state) [
    | inl up ↦ subst (IsAnswer c n) (rw up refl) (dispatch-Answered fuel now c n up)
    | inr (inl behind) ↦
        subst (IsAnswer c n) (rw behind refl)
          (discard_rpc-Answered c n (λ h. absurd (catching_up-ne (sym behind ∙ h))))
    | inr (inr down) ↦
        subst (IsAnswer c n) (rw down refl)
          (discard_rpc-Answered c n (λ h. absurd (shutdown-ne (sym down ∙ h))))
  ]
