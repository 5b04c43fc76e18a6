-- ===== src/Sequentia/Order/Blocks.antt =====
-- The blocks that core/sequentia/sequentia.go makes of the received rounds.
use paradigm.Prelude.{
  ℕ, ◌≡◌, sym, ap, ◌∙◌, inl, inr, true, false, List, [], ◌∷◌, ◌++◌, arith, ltb, if◌then◌else◌,
  Bool-cases, length, ℤ, pos, ◌+ℤ◌, int_laws, nat_eq, int_eq, string_eq, pair_eq, Map,
}
use mathlib.Core.List.{append-nil, append_assoc}
use mathlib.Core.Path.{subst}
use paradigm.Common.Errors.{Result-cases}
use paradigm.Sequentia.Graph.{Graph, done}
use paradigm.Sequentia.Graph.Frame.{>>=-eq-done, done-graph}
use paradigm.Sequentia.Order.{Sort, send, commit_round, commit_blocks, create_and_insert_block}
use paradigm.Sequentia.Store.{Store}
use paradigm.Types.Block.{Block, new_block}

-- The blocks of the rounds that have transactions, numbered from `n` on.
unfoldable pub blocks_from : ℤ → Map ℤ (List (List ℕ)) → List Block
blocks_from n [] = []
blocks_from n ((rr, txs) ∷ m) =
    if ltb 0 (length txs) then new_block n rr txs ∷ blocks_from (n +ℤ pos 1) m else blocks_from n m

module _ {S : Type 0} (st : Store S) (sort : Sort) where
  create_lem :
      (rr : ℤ) (txs : List (List ℕ)) (g g' : Graph S) (b : Block)
      → create_and_insert_block st sort rr txs g ≡ done b g'
      → (b ≡ new_block (g.last_block_index +ℤ pos 1) rr txs)
        × (g'.last_block_index ≡ g.last_block_index +ℤ pos 1)
        × (g'.commits ≡ g.commits)
        × (g'.has_commit_ch ≡ g.has_commit_ch)
  unfolding create_and_insert_block
  create_lem rr txs g g' b e =
      elim (Result-cases (st.set_block g.store (new_block (g.last_block_index +ℤ pos 1) rr txs))) [
        | inl (s, p) ↦ ground arith
        | inr (inl (x, p)) ↦ absurd (ground arith)
        | inr (inr p) ↦ absurd (ground arith)
      ]

  some_lem :
      (rr : ℤ) (txs : List (List ℕ)) (g g' : Graph S)
      → g.has_commit_ch ≡ true
      → ltb 0 (length txs) ≡ true
      → commit_round st sort rr txs g ≡ done tt g'
      → (g'.commits ≡ g.commits ++ (new_block (g.last_block_index +ℤ pos 1) rr txs ∷ []))
        × (g'.last_block_index ≡ g.last_block_index +ℤ pos 1)
        × (g'.has_commit_ch ≡ true)
  unfolding commit_round send
  some_lem rr txs g g' ch t e =
      let (b, h, p, q) =
        >>=-eq-done (create_and_insert_block st sort rr txs) (send st sort) g g' tt
          (ground arith) in
      let (made, numbered, kept, open_ch) = create_lem rr txs g h b p in
      ground (arith, done-graph q)

  none_lem :
      (rr : ℤ) (txs : List (List ℕ)) (g g' : Graph S)
      → ltb 0 (length txs) ≡ false
      → commit_round st sort rr txs g ≡ done tt g'
      → g ≡ g'
  unfolding commit_round
  none_lem rr txs g g' t e = done-graph (rw t at e)

  -- When there is a channel and the loop succeeds, the blocks that have been sent are those of the
  -- rounds with transactions, in order, with consecutive indices from the one after the last block's;
  -- the last block's index has gone up by their number.
  pub commit_blocks_lem :
      (m : Map ℤ (List (List ℕ))) (g g' : Graph S)
      → g.has_commit_ch ≡ true
      → commit_blocks st sort m g ≡ done tt g'
      → (g'.commits ≡ g.commits ++ blocks_from (g.last_block_index +ℤ pos 1) m)
        × (g'.last_block_index
            ≡ g.last_block_index +ℤ pos (length (blocks_from (g.last_block_index +ℤ pos 1) m)))
  unfolding commit_blocks blocks_from
  commit_blocks_lem [] g g' ch e =
      let q = done-graph e in
      (
        ap (λ (h : Graph S). h.commits) (sym q) ∙ sym (append-nil g.commits),
        ap (λ (h : Graph S). h.last_block_index) (sym q) ∙ omega int_laws,
      )
  commit_blocks_lem ((rr, txs) ∷ m) g g' ch e =
      let (u, h, p, q) =
        >>=-eq-done (commit_round st sort rr txs) (λ v. commit_blocks st sort m) g g' tt e in
      elim (Bool-cases (ltb 0 (length txs))) [
        | inl t ↦
            let (sent, numbered, ch') = some_lem rr txs g h ch t p in
            let (sent', numbered') = commit_blocks_lem m h g' ch' q in
            let tail = blocks_from (g.last_block_index +ℤ pos 1 +ℤ pos 1) m in
            rw t (
              sent'
                  ∙ ap (λ n. h.commits ++ blocks_from (n +ℤ pos 1) m) numbered
                  ∙ ap (λ bs. bs ++ tail) sent
                  ∙ append_assoc g.commits (new_block (g.last_block_index +ℤ pos 1) rr txs ∷ [])
                      tail,
              numbered'
                  ∙ ap (λ n. n +ℤ pos (length (blocks_from (n +ℤ pos 1) m))) numbered
                  ∙ omega int_laws,
            )
        | inr f ↦
            let same = none_lem rr txs g h f p in
            rw f (
              subst
                (λ (k : Graph S).
                  (g'.commits ≡ k.commits ++ blocks_from (k.last_block_index +ℤ pos 1) m)
                  × (g'.last_block_index
                      ≡ k.last_block_index
                        +ℤ pos (length (blocks_from (k.last_block_index +ℤ pos 1) m))))
                (sym same)
                (commit_blocks_lem m h g' (ap (λ (k : Graph S). k.has_commit_ch) (sym same) ∙ ch)
                  q))
      ]
