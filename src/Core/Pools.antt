-- ===== src/Core/Pools.antt =====
-- `Sync` and `AddSelfEvent` of core/core.go: what is received and what is pooled gets into the graph.
use paradigm.Prelude.{
  ℕ, ◌<◌, String, ◌≡◌, refl, sym, ap, ◌∙◌, inl, inr, true, false, List, [], ◌∷◌, ◌++◌, arith,
  Bool-cases, Option-cases, length, ℤ, pos, ◌+ℤ◌, nat_eq, int_eq, string_eq, pair_eq, ==_refl,
}
use mathlib.Core.List.{append-nil, append_assoc}
use paradigm.Core.{
  Core, Keys, ended, in_graph, insert_event, follow, hex_id, sign_and_insert_self_event, own_comet,
  new_head, insert_wires, has_pool, sync,
}
use paradigm.Core.Steps.{
  ended-state, ended-value, >>=-eq-ended, in_graph-eq-ended, read_wire_info-stays, insert_event_lem,
}
use paradigm.Sequentia.Graph.{Graph}
use paradigm.Sequentia.Insert.{Crypto}
use paradigm.Sequentia.Store.{Store}
use paradigm.Sequentia.Wire.{read_wire_info}
use paradigm.Types.Comet.{Comet, WireEvent, new_comet}

module _ {S : Type 0} (st : Store S) (crypto : Crypto) (keys : Keys) where
  -- What a node has done with the pools of `c`: a new comet with their contents is its head, the last
  -- of the undetermined comets, and on top of the head and the sequence number of `c`; the pools are
  -- empty.
  pub record Emptied (c d : Core S) (other : String) : Type 0 where
    pub comet : Comet
    pub payload : comet.body.transactions ≡ c.transaction_pool
    pub signatures : comet.body.block_signatures ≡ c.block_signature_pool
    pub self_parent : comet.body.self_parent ≡ c.head
    pub other_parent : comet.body.other_parent ≡ other
    pub index : comet.body.index ≡ c.seq +ℤ pos 1
    pub head : d.head ≡ comet.hex
    pub seq : d.seq ≡ comet.body.index
    pub queued :
        let g = c.graph in
        let h = d.graph in h.undetermined_events ≡ g.undetermined_events ++ (comet.hex ∷ [])
    pub no_transactions : d.transaction_pool ≡ []
    pub no_signatures : d.block_signature_pool ≡ []

  new_head-Emptied :
      (fuel : ℕ) (other : String) (now : ℤ) (c d : Core S)
      → new_head st crypto keys fuel other now c ≡ ended tt d
      → Emptied c d other
  unfolding new_head sign_and_insert_self_event new_comet follow
  new_head-Emptied fuel other now c d e =
      let own : Comet =
        own_comet st crypto keys c.transaction_pool c.block_signature_pool c.head other
          (c.seq +ℤ pos 1) now in
      let (u, c', p, q) =
        >>=-eq-ended (sign_and_insert_self_event st crypto keys fuel own) _ c d tt e in
      elim (Option-cases (keys.sign_comet own.body)) [
        | inl bad ↦ absurd (ground arith)
        | inr (sig, signed) ↦
            let ev : Comet = record own { signature = sig } in
            let (placed, followed, t, b) =
              insert_event_lem st crypto keys fuel ev true c c' (ground arith) in
            let last = sym (ended-state q) in
            record {
              comet = ev;
              payload = refl;
              signatures = refl;
              self_parent = refl;
              other_parent = refl;
              index = refl;
              head = ground (arith, followed, last, ==_refl (hex_id st crypto keys));
              seq = ground (arith, followed, last, ==_refl (hex_id st crypto keys));
              queued =
                  ap (λ (x : Core S). let h = x.graph in h.undetermined_events) last
                  ∙ placed.queued;
              no_transactions = ap (λ (x : Core S). x.transaction_pool) last;
              no_signatures = ap (λ (x : Core S). x.block_signature_pool) last;
            }
      ]

  -- The undetermined comets of a node.
  abbrev pub undetermined : Core S → List String
  undetermined c = let g = c.graph in g.undetermined_events

  -- The last of the names, `other` if there is none.
  abbrev pub last_or : String → List String → String
  last_or other [] = other
  last_or other (x ∷ xs) = last_or x xs

  -- What taking in comets from the wire does: they are undetermined, in order, and the pools stay.
  pub record Received (wes : List WireEvent) (other o : String) (c d : Core S) : Type 0 where
    pub names : List String
    pub all : length names ≡ length wes
    pub queued : undetermined d ≡ undetermined c ++ names
    pub other_head : o ≡ last_or other names
    pub transactions : d.transaction_pool ≡ c.transaction_pool
    pub signatures : d.block_signature_pool ≡ c.block_signature_pool

  last_or-some :
      (x y : String) (names : List String) → 0 < length names → last_or x names ≡ last_or y names
  last_or-some x y [] h = absurd (omega arith)
  last_or-some x y (n ∷ names) h = refl

  Received-other :
      (wes : List WireEvent) (x other o : String) (c d : Core S)
      → Received wes (elim wes [ [] ↦ x | w ∷ ws ↦ other ]) o c d
      → Received wes x o c d
  Received-other [] x other o c d r = r
  Received-other (w ∷ ws) x other o c d r = record {
    names = r.names;
    all = r.all;
    queued = r.queued;
    other_head = r.other_head ∙ last_or-some other x r.names (omega (arith, r.all));
    transactions = r.transactions;
    signatures = r.signatures;
  }

  insert_wires-Received :
      (fuel : ℕ) (wes : List WireEvent) (other o : String) (c d : Core S)
      → insert_wires st crypto keys fuel wes other c ≡ ended o d
      → Received wes other o c d
  unfolding insert_wires
  insert_wires-Received fuel [] other o c d e =
      let same = ended-state e in
      record {
        names = [];
        all = refl;
        queued = ap undetermined (sym same) ∙ sym (append-nil (undetermined c));
        other_head = sym (ended-value e);
        transactions = ap (λ (x : Core S). x.transaction_pool) (sym same);
        signatures = ap (λ (x : Core S). x.block_signature_pool) (sym same);
      }
  insert_wires-Received fuel (we ∷ wes) other o c d e =
      let (ev, c₁, p₁, e₁) =
        >>=-eq-ended (in_graph (read_wire_info st crypto keys.hash we)) _ c d o e in
      let (g, q, s) = in_graph-eq-ended (read_wire_info st crypto keys.hash we) c c₁ ev p₁ in
      let stays : undetermined c₁ ≡ undetermined c =
        ap undetermined s
        ∙ ap (λ (h : Graph S). h.undetermined_events)
            (read_wire_info-stays st crypto keys.hash we c.graph g ev q) in
      let (u, c₂, p₂, e₂) = >>=-eq-ended (insert_event st crypto keys fuel ev false) _ c₁ d o e₁ in
      let (placed, followed, t, b) = insert_event_lem st crypto keys fuel ev false c₁ c₂ p₂ in
      let rest =
        Received-other wes ev.hex other o c₂ d
          (insert_wires-Received fuel wes (elim wes [ [] ↦ ev.hex | w ∷ ws ↦ other ]) o c₂ d e₂) in
      record {
        names = ev.hex ∷ rest.names;
        all = omega (arith, rest.all);
        queued =
            rest.queued
            ∙ ap (λ xs. xs ++ rest.names) (placed.queued ∙ ap (λ xs. xs ++ (ev.hex ∷ [])) stays)
            ∙ append_assoc (undetermined c) (ev.hex ∷ []) rest.names;
        other_head = rest.other_head;
        transactions = rest.transactions ∙ t ∙ ap (λ (x : Core S). x.transaction_pool) s;
        signatures = rest.signatures ∙ b ∙ ap (λ (x : Core S). x.block_signature_pool) s;
      }

  -- What `Sync` did: either there was nothing to do and nothing changed, or every comet from the wire is
  -- undetermined, in order, and then a new head that has the pools' contents as its payload, on top of
  -- the own head and of the last comet from the wire; the pools are empty.
  pub data Synced (wes : List WireEvent) (c d : Core S) : Type 0 where
    idle : wes ≡ [] → has_pool st crypto keys c ≡ false → d ≡ c → Synced wes c d
    advanced :
        (o : String) (mid : Core S) → Received wes "" o c mid → Emptied mid d o → Synced wes c d

  no_pool :
      (c : Core S)
      → has_pool st crypto keys c ≡ false
      → (c.transaction_pool ≡ []) × (c.block_signature_pool ≡ [])
  no_pool c h = ground arith

  pub sync_lem :
      (fuel : ℕ) (now : ℤ) (wes : List WireEvent) (c d : Core S)
      → sync st crypto keys fuel now wes c ≡ ended tt d
      → (d.transaction_pool ≡ []) × (d.block_signature_pool ≡ []) × Synced wes c d
  unfolding sync insert_wires
  sync_lem fuel now [] c d e = elim (Bool-cases (has_pool st crypto keys c)) [
    | inl busy ↦
        let n = new_head-Emptied fuel "" now c d (rw busy at e) in
        let r = insert_wires-Received fuel [] "" "" c c refl in
        (n.no_transactions, n.no_signatures, advanced "" c r n)
    | inr quiet ↦
        let same = sym (ended-state (rw quiet at e)) in
        let (t, b) = no_pool c quiet in
        (
          ap (λ (x : Core S). x.transaction_pool) same ∙ t,
          ap (λ (x : Core S). x.block_signature_pool) same ∙ b,
          idle refl quiet same,
        )
  ]
  sync_lem fuel now (we ∷ wes) c d e =
      let (o, mid, p, q) =
        >>=-eq-ended (insert_wires st crypto keys fuel (we ∷ wes) "") _ c d tt e in
      let n = new_head-Emptied fuel o now mid d (ground arith) in
      (
        n.no_transactions,
        n.no_signatures,
        advanced o mid (insert_wires-Received fuel (we ∷ wes) "" o c mid p) n,
      )
