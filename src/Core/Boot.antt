-- ===== src/Core/Boot.antt =====
-- The head and the sequence number that `Bootstrap` of core/core.go leaves.
use paradigm.Prelude.{
  ℕ, String, ◌≡◌, refl, sym, ap, ◌∙◌, ◌⊎◌, inl, inr, Bool, true, false, arith, ℤ, pos, nat_eq,
  int_eq, string_eq, pair_eq,
}
use mathlib.Core.Path.{subst}
use paradigm.Common.Errors.{StoreErr, Result, ok, err, panic, Result-cases}
use paradigm.Core.{
  Core, CoreM, Keys, ended, ◌>>=◌, core_state, in_graph, modify, hex_id, boot_head, bootstrap,
}
use paradigm.Core.Steps.{ended-state, ended-value, >>=-eq-ended, in_graph-eq-ended}
use paradigm.Sequentia.Frames
use paradigm.Sequentia.Graph.{Graph, done, lift, require_comet}
use paradigm.Sequentia.Insert.{Crypto}
use paradigm.Sequentia.Store.{Store}
use paradigm.Types.Comet.{Comet}
use paradigm.Types.Root.{Root}

module _ {S : Type 0} (st : Store S) (crypto : Crypto) (keys : Keys) where
  -- The head and the number of a node after `Bootstrap`, by what the store has of its last own comet: for
  -- a root that the store returns, whatever it is, they are those of no comet at all.
  pub data Booted (s : S) (d : Core S) : Type 0 where
    at_root :
        (last : String)
        → st.last_event_from s (hex_id st crypto keys) ≡ ok (last, true)
        → ((root : Root) × (st.get_root s (hex_id st crypto keys) ≡ ok root))
          ⊎ ((x : StoreErr) × (st.get_root s (hex_id st crypto keys) ≡ err x))
        → d.head ≡ ""
        → d.seq ≡ pos 0
        → Booted s d
    at_comet :
        (last : String) (c : Comet)
        → st.last_event_from s (hex_id st crypto keys) ≡ ok (last, false)
        → (st.get_comet s last).0 ≡ ok c
        → d.head ≡ last
        → d.seq ≡ c.body.index
        → Booted s d

  lift-eq-done :
      {A : Type 0} (r : Result A) (g h : Graph S) (a : A)
      → lift r g ≡ done a h
      → (r ≡ ok a) × (h ≡ g)
  lift-eq-done (ok b) g h a e = ground arith
  lift-eq-done (err x) g h a e = absurd (cc)
  lift-eq-done panic g h a e = absurd (cc)

  require_comet-eq-done :
      (k : String) (g h : Graph S) (c : Comet)
      → require_comet st k g ≡ done c h
      → (st.get_comet g.store k).0 ≡ ok c
  unfolding require_comet
  require_comet-eq-done k g h c e = elim (Result-cases (st.get_comet g.store k).0) [
    | inl (a, p) ↦ ground arith
    | inr (inl (x, p)) ↦ absurd (ground arith)
    | inr (inr p) ↦ absurd (ground arith)
  ]

  unmoved : (c d : Core S) → c ≡ d → d ≡ record c { graph = d.graph }
  unmoved c d e = cc

  boot_head-Booted :
      (last : String) (is_root : Bool) (c d : Core S) (head : String) (seq : ℤ)
      → (let g = c.graph in st.last_event_from g.store (hex_id st crypto keys) ≡ ok (last, is_root))
      → boot_head st crypto keys last is_root c ≡ ended (head, seq) d
      → (let g = c.graph in Booted g.store (record d { head = head; seq = seq }))
        × (d ≡ record c { graph = d.graph })
  unfolding boot_head
  boot_head-Booted last true c d head seq h e =
      let g = c.graph in
      elim (Result-cases (st.get_root g.store (hex_id st crypto keys))) [
        | inl (root, p) ↦
            let r : ended ("", pos 0) c ≡ ended (head, seq) d = rw (p, boot_head) at e in
            let same = ended-value r in
            (
              at_root last h (inl (root, p)) (sym (ap (λ (x : String × ℤ). x.0) same))
                  (sym (ap (λ (x : String × ℤ). x.1) same)),
              unmoved c d (ended-state r),
            )
        | inr (inl (x, p)) ↦
            let r : ended ("", pos 0) c ≡ ended (head, seq) d = rw (p, boot_head) at e in
            let same = ended-value r in
            (
              at_root last h (inr (x, p)) (sym (ap (λ (x : String × ℤ). x.0) same))
                  (sym (ap (λ (x : String × ℤ). x.1) same)),
              unmoved c d (ended-state r),
            )
        | inr (inr p) ↦ absurd (ground (arith, p, e))
      ]
  boot_head-Booted last false c d head seq h e =
      let (ev, c', p, q) = >>=-eq-ended (in_graph (require_comet st last)) _ c d _ e in
      let (g, r, s) = in_graph-eq-ended (require_comet st last) c c' ev p in
      let same = ended-value q in
      (
        at_comet last ev h (require_comet-eq-done last c.graph g ev r)
            (sym (ap (λ (x : String × ℤ). x.0) same)) (sym (ap (λ (x : String × ℤ). x.1) same)),
        subst (λ k. k ≡ record c { graph = k.graph }) (ended-state q) (rw s refl),
      )

  other_fields :
      (c c₂ d : Core S) {g : Graph S} (head : String) (seq : ℤ)
      → c₂ ≡ record c { graph = g }
      → d ≡ record c₂ { graph = d.graph }
      → record d { head = head; seq = seq } ≡ record c { graph = d.graph; head = head; seq = seq }
  other_fields c c₂ d head seq s o = rw (o, s) refl

  rest-Booted :
      (c d : Core S)
      → (core_state >>= λ b.
            let g = b.graph in
            in_graph (lift (st.last_event_from g.store (hex_id st crypto keys))) >>= λ x.
            boot_head st crypto keys x.0 x.1 >>= λ y.
            modify (λ k. record k { head = y.0; seq = y.1 }))
          c
        ≡ ended tt d
      → (let g = c.graph in Booted g.store d)
        × (d ≡ record c { graph = d.graph; head = d.head; seq = d.seq })
  rest-Booted c d e =
      let g = c.graph in
      let ask : CoreM S (String × Bool) =
        in_graph (lift (st.last_event_from g.store (hex_id st crypto keys))) in
      let (x, c₂, p₂, e₂) = >>=-eq-ended ask _ c d tt e in
      let (h, q, s) =
        in_graph-eq-ended (lift (st.last_event_from g.store (hex_id st crypto keys))) c c₂ x p₂ in
      let (read, same) =
        lift-eq-done (st.last_event_from g.store (hex_id st crypto keys)) g h x q in
      let (y, c₃, p₃, e₃) = >>=-eq-ended (boot_head st crypto keys x.0 x.1) _ c₂ d tt e₂ in
      let at : g ≡ (let k = c₂.graph in k) = sym same ∙ sym (ap (λ (k : Core S). k.graph) s) in
      let (b, o) =
        boot_head-Booted x.0 x.1 c₂ c₃ y.0 y.1
          (subst (λ (k : Graph S). st.last_event_from k.store (hex_id st crypto keys) ≡ ok x) at
            read)
          p₃ in
      let end = ended-state e₃ in
      (
        subst (λ k. Booted g.store k) end
            (subst (λ (k : Graph S). Booted k.store (record c₃ { head = y.0; seq = y.1 })) (sym at)
              b),
        subst (λ k. k ≡ record c { graph = k.graph; head = k.head; seq = k.seq }) end
            (other_fields c c₂ c₃ y.0 y.1 s o),
      )

  -- When `Bootstrap` succeeds, so has the graph's own bootstrap; the head and the sequence number
  -- are those of the node's last comet in the store that it left, but where that is a root, they
  -- are "" and 0, whether `GetRoot` fails or returns a root and whatever that is; and of the rest
  -- of the core only the graph may have changed.
  pub bootstrap_lem :
      (fuel : ℕ) (c d : Core S)
      → bootstrap st crypto keys fuel c ≡ ended tt d
      → ((g : Graph S) × (Frames.bootstrap st crypto keys.middle_bit keys.sort keys.signature_r
              keys.empty fuel c.graph
            ≡ done tt g)
          × Booted g.store d)
        × (d ≡ record c { graph = d.graph; head = d.head; seq = d.seq })
  unfolding bootstrap
  bootstrap_lem fuel c d e =
      let boot =
        Frames.bootstrap st crypto keys.middle_bit keys.sort keys.signature_r keys.empty fuel in
      let (u, c₁, p₁, e₁) = >>=-eq-ended (in_graph boot) _ c d tt e in
      let (g, q₁, s₁) = in_graph-eq-ended boot c c₁ u p₁ in
      let (b, o) = rest-Booted c₁ d e₁ in
      ((g, q₁, subst (λ (x : Core S). let h = x.graph in Booted h.store d) s₁ b), o ∙ rw s₁ refl)
