-- ===== src/Proxy/Ledger.antt =====
-- The account that the write-ahead state of proxy/proxy_was_state.go keeps of its transactions.
use paradigm.Prelude.{
  ℕ, ◌≡◌, refl, sym, ◌∙◌, inl, inr, Option, some, List, [], ◌∷◌, ◌++◌, Option-cases, length, ℤ, pos,
  ◌+ℤ◌, nat_eq, int_eq, string_eq, pair_eq,
}
use mathlib.Core.Path.{subst}
use paradigm.Common.Bytes.{Bytes, Hash, hash_length}
use paradigm.Common.Effects.{◌>>=◌, return, Ran-cases, Leaves, Leaves-weaken, Leaves->>=}
use paradigm.Proxy.Chain.{Store, Codec, Accounts}
use paradigm.Proxy.Receipts.{Receipt, for_storage}
use paradigm.Proxy.State.{
  receipts_prefix, WriteAheadState, TxPool, ProxyState, Step, put, write_head, write_transactions,
  write_receipts, commit_accounts, was_commit, reset_was, reset_pool, commit, run_message,
}
use paradigm.Proxy.StateDb.{StateDb}
use paradigm.Proxy.Transition.{Message, process_message}

module _ {T L : Type 0} (codec : Codec T L) where
  -- the receipt of a transaction, where the gas before it is known
  pub record Receives (before : ℤ) (t : T) (r : Receipt L) : Type 0 where
    pub tx_hash : r.tx_hash ≡ codec.tx_hash t
    pub rooted : length r.post_state ≡ hash_length
    pub gas : ℤ
    pub gas_used : r.gas_used ≡ some gas
    pub cumulative : r.cumulative_gas_used ≡ before +ℤ gas

  -- Each transaction has its receipt, at the same place, with the gas that is used from the first number
  -- up to it; the last number is that after all of them.
  abbrev pub Ledger : ℤ → List T → List (Receipt L) → ℤ → Type 0
  Ledger x [] [] y = x ≡ y
  Ledger x [] (r ∷ rs) y = ⊥
  Ledger x (t ∷ ts) [] y = ⊥
  Ledger x (t ∷ ts) (r ∷ rs) y = Receives x t r × Ledger r.cumulative_gas_used ts rs y

  pub Ledger-snoc :
      (x : ℤ) (ts : List T) (rs : List (Receipt L)) (y : ℤ) (t : T) (r : Receipt L)
      → Ledger x ts rs y
      → Receives y t r
      → Ledger x (ts ++ (t ∷ [])) (rs ++ (r ∷ [])) r.cumulative_gas_used
  Ledger-snoc x [] [] y t r h k = (subst (λ z. Receives z t r) (sym h) k, refl)
  Ledger-snoc x [] (q ∷ rs) y t r h k = absurd h
  Ledger-snoc x (u ∷ ts) [] y t r h k = absurd h
  Ledger-snoc x (u ∷ ts) (q ∷ rs) y t r (g, h) k =
      (g, Ledger-snoc q.cumulative_gas_used ts rs y t r h k)

  -- what a write-ahead state records of its transactions
  pub record Books : Type 0 where
    pub transactions : List T
    pub receipts : List (Receipt L)
    pub total_used_gas : ℤ
    pub tx_index : ℕ

  abbrev pub books : {W : Type 0} → WriteAheadState W T L → Books
  books w = record {
    transactions = w.transactions;
    receipts = w.receipts;
    total_used_gas = w.total_used_gas;
    tx_index = w.tx_index;
  }

  -- The books are in order.
  pub record IsBalanced (b : Books) : Type 0 where
    pub ledger : Ledger (pos 0) b.transactions b.receipts b.total_used_gas
    pub counted : b.tx_index ≡ length b.transactions

module _ {D W T L : Type 0} (store : Store D) (codec : Codec T L) (db : StateDb W)
    (accounts : Accounts D W L) where
  abbrev pub State : Type 0
  State = ProxyState D W T L

  -- `IntermediateRoot` gives a hash.
  abbrev pub RootsAreHashes : Type 0
  RootsAreHashes = (w : W) → length (accounts.intermediate_root w).1 ≡ hash_length

  abbrev pub Balanced : State → Type 0
  Balanced s = IsBalanced codec (books codec s.was)

  -- The books and the pool of a state.
  abbrev pub kept : State → Books codec × Option (TxPool W)
  kept s = (books codec s.was, s.tx_pool)

  -- The books of two states are the same, and so are their pools.
  abbrev pub SameBooks : State → State → Type 0
  SameBooks s t = kept t ≡ kept s

  pub Balanced-same : (s t : State) → Balanced s → SameBooks s t → Balanced t
  Balanced-same s t b h =
      subst (λ (x : Books codec × Option (TxPool W)). IsBalanced codec x.0) (sym h) b

  run_message-SameBooks :
      (msg : Message) (s : State) → Leaves (SameBooks s) (run_message store codec db accounts msg s)
  unfolding run_message
  run_message-SameBooks msg s = elim (Ran-cases (process_message db msg s.was.gp s.was.state_db)) [
    | inl (gas, g, p) ↦ rw (p, Leaves) refl
    | inr (inl (e, g, p)) ↦ rw (p, Leaves) refl
    | inr (inr p) ↦ rw (p, Leaves) tt
  ]

  pub put-SameBooks :
      (k v : Bytes) (s : State) → Leaves (SameBooks s) (put store codec db accounts k v s)
  unfolding put
  put-SameBooks k v s = elim (Option-cases (store.put s.db k v)) [
    | inl h ↦ rw h refl
    | inr (d, h) ↦ rw h refl
  ]

  -- A step that keeps the books, and one after it.
  keeps_both :
      {A B : Type 0} (m : Step store codec db accounts A) (f : A → Step store codec db accounts B)
      (s : State)
      → Leaves (SameBooks s) (m s)
      → ((a : A) (t : State) → Leaves (SameBooks t) (f a t))
      → Leaves (SameBooks s) ((m >>= f) s)
  keeps_both m f s h k =
      Leaves->>= (SameBooks s) m f s h
        (λ a t p same. Leaves-weaken (SameBooks t) (SameBooks s) (f a t) (λ u j. j ∙ same) (k a t))

  pub write_transactions-SameBooks :
      (ts : List T) (s : State)
      → Leaves (SameBooks s) (write_transactions store codec db accounts ts s)
  unfolding write_transactions
  write_transactions-SameBooks [] s = refl
  write_transactions-SameBooks (t ∷ ts) s = elim (Option-cases (codec.encode_tx t)) [
    | inl h ↦ rw h refl
    | inr (data', h) ↦ rw h (
        keeps_both (put store codec db accounts (codec.tx_hash t) data') _ s
          (put-SameBooks (codec.tx_hash t) data' s) (λ a u. write_transactions-SameBooks ts u))
  ]

  pub write_receipts-SameBooks :
      (rs : List (Receipt L)) (s : State)
      → Leaves (SameBooks s) (write_receipts store codec db accounts rs s)
  unfolding write_receipts
  write_receipts-SameBooks [] s = refl
  write_receipts-SameBooks (r ∷ rs) s = elim (Option-cases (codec.encode_receipt (for_storage r))) [
    | inl h ↦ rw h refl
    | inr (data', h) ↦ rw h (
        keeps_both (put store codec db accounts (receipts_prefix ++ r.tx_hash) data') _ s
          (put-SameBooks (receipts_prefix ++ r.tx_hash) data' s)
          (λ a u. write_receipts-SameBooks rs u))
  ]

  pub commit_accounts-SameBooks :
      (s : State) → Leaves (SameBooks s) (commit_accounts store codec db accounts s)
  unfolding commit_accounts
  commit_accounts-SameBooks s = elim (Option-cases (accounts.commit_to s.was.state_db s.db).0) [
    | inl h ↦ rw (h, Leaves) refl
    | inr (root, h) ↦ rw (h, Leaves) refl
  ]

  pub was_commit-SameBooks :
      (s : State) → Leaves (SameBooks s) (was_commit store codec db accounts s)
  unfolding was_commit write_head
  was_commit-SameBooks s =
      keeps_both (commit_accounts store codec db accounts) _ s (commit_accounts-SameBooks s)
        (λ root t. keeps_both (write_head store codec db accounts) _ t (put-SameBooks _ _ t) (λ a u.
          keeps_both (write_transactions store codec db accounts u.was.transactions) _ u
            (write_transactions-SameBooks u.was.transactions u)
            (λ b v.
              keeps_both (write_receipts store codec db accounts u.was.receipts) (λ c. return root)
                v (write_receipts-SameBooks u.was.receipts v) (λ c x. refl))))

  -- The books are blank.
  abbrev pub IsFresh : State → Type 0
  IsFresh s =
      books codec s.was
      ≡ record { transactions = []; receipts = []; total_used_gas = pos 0; tx_index = 0 }

  Balanced-fresh : (s : State) → IsFresh s → Balanced s
  Balanced-fresh s h = subst (IsBalanced codec) (sym h) (record { ledger = refl; counted = refl })

  reset_pool-IsFresh :
      (root : Hash) (s : State)
      → IsFresh s
      → Leaves IsFresh (reset_pool store codec db accounts root s)
  unfolding reset_pool
  reset_pool-IsFresh root s h = elim (Option-cases s.tx_pool) [
    | inl n ↦ rw (n, Leaves) tt
    | inr (p, n) ↦ elim (Option-cases (accounts.reset s.db p.state_db root)) [
      | inl e ↦ rw (n, e, Leaves) h
      | inr (w, e) ↦ rw (n, e, Leaves) h
    ]
  ]

  -- A commit ends with blank books, or fails with those that it began with.
  pub commit-Balanced :
      (s : State) → Balanced s → Leaves Balanced (commit store codec db accounts s)
  unfolding commit reset_was
  commit-Balanced s b =
      let begun =
        Leaves-weaken (SameBooks s) Balanced (was_commit store codec db accounts s)
          (λ t h. Balanced-same s t b h) (was_commit-SameBooks s) in
      Leaves->>= Balanced (was_commit store codec db accounts) _ s begun (λ root t p bt.
        let u = reset_was store codec db accounts (record t { state_db = t.was.state_db }) in
        Leaves->>= Balanced (reset_pool store codec db accounts root) (λ a. return root) u
          (Leaves-weaken IsFresh Balanced (reset_pool store codec db accounts root u) Balanced-fresh
            (reset_pool-IsFresh root u refl))
          (λ a v q bv. bv))
