-- ===== src/Proxy/NilPool.antt =====
-- The pool of proxy/proxy_state.go after a start on a store whose last commit had no transactions.
use paradigm.Prelude.{
  String, ◌≡◌, refl, sym, ap, ◌∙◌, ◌≢◌, inl, inr, Option, none, some, List, [], ◌∷◌, arith,
  Option-cases, pos, nat_eq, int_eq, string_eq, pair_eq,
}
use mathlib.Core.Path.{subst}
use paradigm.Common.Bytes.{Hash, bytes_eq}
use paradigm.Common.Effects.{gives, fails, panics, return, Leaves, >>=-eq-gives}
use paradigm.Proxy.Chain.{Store, Codec, CodecLaws, Accounts}
use paradigm.Proxy.State.{
  Account, accounts_err, head_tx_key, last_or, TxPool, ProxyState, was_commit, change_was,
  reset_was, reset_pool, commit, process_block,
}
use paradigm.Proxy.StateDb.{StateDb}
use paradigm.Types.Block.{Block}
use paradigm.Proxy.Ledger.{Books, RootsAreHashes, Balanced, SameBooks}
use paradigm.Proxy.Chain.{StoreLaws}
use paradigm.Proxy.Lifecycle.{init_state, new_state}
use paradigm.Proxy.Ledger.{Books}
use paradigm.Proxy.Applied.{AppliedAll, process_block-AppliedBlock}
use paradigm.Proxy.Readback.{commit-gives}
use paradigm.Proxy.Lifecycle.{allocate, create_accounts}
use paradigm.Proxy.Ledger.{was_commit-SameBooks}
use paradigm.Proxy.Restart.{zero_hash, head_found, init_state-empty}

module _ {D W T L : Type 0} (store : Store D) (codec : Codec T L) (db : StateDb W)
    (accounts : Accounts D W L) where
  abbrev pub State : Type 0
  State = ProxyState D W T L

  reset_pool-nil :
      (root : Hash) (s : State)
      → s.tx_pool ≡ none
      → reset_pool store codec db accounts root s ≡ panics
  unfolding reset_pool
  reset_pool-nil root s n = rw n refl

  -- Without a pool no commit succeeds.
  commit-nil :
      (s u : State) (root : Hash)
      → s.tx_pool ≡ none
      → commit store codec db accounts s ≢ gives root u
  unfolding commit reset_was
  commit-nil s u root n h =
      let (r, v, p, q) = >>=-eq-gives (was_commit store codec db accounts) _ s u root h in
      let w = reset_was store codec db accounts (record v { state_db = v.was.state_db }) in
      let (a, x, p1, q1) =
        >>=-eq-gives (reset_pool store codec db accounts r) (λ b. return r) w u root q in
      let same =
        subst (Leaves (SameBooks store codec db accounts s)) p
          (was_commit-SameBooks store codec db accounts s) in
      let none_left : v.tx_pool ≡ none =
        ap (λ (y : Books codec × Option (TxPool W)). y.1) same ∙ n in
      let clash = sym p1 ∙ reset_pool-nil r w none_left in cc

  -- the state that a start without a pool gives
  without_pool : D → W → State
  without_pool d w = reset_was store codec db accounts (record {
    db = d;
    state_db = w;
    was = record {
      state_db = w;
      tx_index = 0;
      transactions = [];
      receipts = [];
      all_logs = [];
      total_used_gas = pos 0;
      gp = 0;
    };
    tx_pool = none;
  })

  new_state-without_pool :
      (d : D) (w : W)
      → init_state store codec db accounts d ≡ gives (w, none) d
      → new_state store codec db accounts d ≡ gives (without_pool d w) d
  unfolding new_state without_pool
  new_state-without_pool d w h = ground (arith, h)

  module _ (roots : RootsAreHashes store codec db accounts) where
    AppliedAll-pool :
        (ts : List T) (s u : State)
        → AppliedAll store codec db accounts roots ts s u
        → u.tx_pool ≡ s.tx_pool
    AppliedAll-pool [] s u e = ap (λ (y : State). y.tx_pool) e
    AppliedAll-pool (t ∷ ts) s u (v, r, k) = AppliedAll-pool ts v u k ∙ r.same_pool

    process_block-nil :
        (block : Block) (s u : State) (root : Hash)
        → s.tx_pool ≡ none
        → process_block store codec db accounts block s ≢ gives root u
    process_block-nil block s u root n h =
        let p = process_block-AppliedBlock store codec db accounts roots block s u root h in
        commit-nil p.applied u root (AppliedAll-pool p.txs s p.applied p.all ∙ n) p.commits

    -- After the accounts of the genesis file are committed, from books in order without transactions, a start on the
    -- store, where the accounts open at the zero root, gives a proxy that commits no block at all.
    -- This is on a store and encodings that keep their laws, where roots are hashes.
    pub create_accounts-restart :
        (store_laws : StoreLaws store) (codec_laws : CodecLaws codec)
        (account_map : List (String × Account)) (s u : State) (root : Hash) (w : W)
        → Balanced store codec db accounts s
        → s.was.transactions ≡ []
        → create_accounts store codec db accounts account_map s ≡ gives root u
        → accounts.new u.db (zero_hash store codec db accounts store_laws codec_laws) ≡ some w
        → (x : State) × (new_state store codec db accounts u.db ≡ gives x u.db)
          × ((block : Block) (y : State) (r : Hash)
              → process_block store codec db accounts block x ≢ gives r y)
    unfolding create_accounts without_pool reset_was
    create_accounts-restart store_laws codec_laws account_map s u root w b empty h opened =
        elim (Option-cases (allocate store codec db accounts s.was.state_db account_map)) [
          | inl n ↦ absurd (ground (arith, h, n))
          | inr (w0, m) ↦
              let s0 = change_was store codec db accounts (λ v. record v { state_db = w0 }) s in
              let (v, c, same_db) =
                commit-gives store codec db accounts store_laws codec_laws s0 u root
                  (ground (arith, h, m)) in
              let head =
                ap (λ d. store.get d head_tx_key) same_db
                ∙ head_found store codec db accounts store_laws codec_laws s0 v root b c
                ∙ ap (λ ts. some (codec.tx_hash (last_or codec.empty_tx ts))) empty in
              let started =
                init_state-empty store codec db accounts store_laws codec_laws u.db _
                  (codec_laws.length-tx_hash codec.empty_tx) head refl in
              (
                without_pool u.db w,
                new_state-without_pool u.db w (
                    started
                    ∙ ap
                        (λ o. elim o [
                          | none ↦ fails accounts_err u.db
                          | some w' ↦ gives (w', none) u.db
                        ])
                        opened),
                λ block y r. process_block-nil block (without_pool u.db w) y r refl,
              )
        ]
