-- ===== src/Sequentia/Order/Transactions.antt =====
-- The transactions of the blocks of core/sequentia/sequentia.go: those of the received comets.
use paradigm.Prelude.{
  ℕ, ◌≡◌, refl, sym, ap, ◌∙◌, inl, inr, none, some, List, [], ◌∷◌, ◌++◌, arith, if◌then◌else◌,
  Bool-cases, ℤ, eqb_ℤ, eqb_ℤ_iff, nat_eq, int_eq, string_eq, pair_eq, Map, find, store, find-store,
}
use mathlib.Core.List.{append-nil, append_assoc}
use paradigm.Sequentia.Order.{block_txs}
use paradigm.Types.Comet.{Comet}

-- the transactions gathered for a round
abbrev pub txs_at : ℤ → Map ℤ (List (List ℕ)) → List (List ℕ)
txs_at r m = elim (find r m) [ none ↦ [] | some txs ↦ txs ]

-- The transactions of the comets received in a round, in the order of the comets.
unfoldable pub txs_received : ℤ → List Comet → List (List ℕ)
txs_received r [] = []
txs_received r (e ∷ es) = elim e.round_received [
  | none ↦ txs_received r es
  | some rr ↦ if eqb_ℤ rr r then e.body.transactions ++ txs_received r es else txs_received r es
]

-- Every comet has been received.
abbrev pub AllReceived : List Comet → Type 0
AllReceived [] = Unit
AllReceived (e ∷ es) = ((r : ℤ) × (e.round_received ≡ some r)) × AllReceived es

txs_at-store :
    (r rr : ℤ) (txs : List (List ℕ)) (m : Map ℤ (List (List ℕ)))
    → txs_at r (store rr txs m) ≡ (if eqb_ℤ rr r then txs else txs_at r m)
txs_at-store r rr txs m = ground (arith, find-store rr r txs m)

gather :
    (r rr : ℤ) (m : Map ℤ (List (List ℕ))) (e : Comet) (es : List Comet)
    → e.round_received ≡ some rr
    → txs_at r (store rr (txs_at rr m ++ e.body.transactions) m) ++ txs_received r es
      ≡ txs_at r m ++ txs_received r (e ∷ es)
unfolding txs_received
gather r rr m e es p = elim (Bool-cases (eqb_ℤ rr r)) [
  | inl same ↦
      let q = (eqb_ℤ_iff rr r).0 same in
      rw (txs_at-store r rr (txs_at rr m ++ e.body.transactions) m, p, txs_received, same)
        (append_assoc (txs_at rr m) e.body.transactions (txs_received r es)
          ∙ ap (λ k. txs_at k m ++ (e.body.transactions ++ txs_received r es)) q)
  | inr other ↦
      rw (txs_at-store r rr (txs_at rr m ++ e.body.transactions) m, p, txs_received, other)
]

-- For comets that have all been received the loop does not panic, and each round is left with the
-- transactions that it had, then those of the comets received in it, in the order of the comets.
pub block_txs_lem :
    (es : List Comet) (m : Map ℤ (List (List ℕ)))
    → AllReceived es
    → (m' : Map ℤ (List (List ℕ))) × (block_txs m es ≡ some m')
      × ((r : ℤ) → txs_at r m' ≡ txs_at r m ++ txs_received r es)
unfolding block_txs txs_received
block_txs_lem [] m all = (m, refl, λ r. sym (append-nil (txs_at r m)))
block_txs_lem (e ∷ es) m ((rr, p), all) =
    let old = txs_at rr m in
    let next = store rr (old ++ e.body.transactions) m in
    let (m', ran, content) = block_txs_lem es next all in
    (m', rw (p, block_txs) ran, λ r. content r ∙ gather r rr m e es p)
