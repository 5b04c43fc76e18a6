-- ===== src/Proxy/Applied.antt =====
-- What `applyTransaction` and `ProcessBlock` of proxy/proxy_state.go leave of the books.
use paradigm.Prelude.{
  ℕ, suc, ◌+◌, ◌≡◌, refl, sym, ap, inl, inr, some, List, [], ◌∷◌, ◌++◌, arith, Option-cases,
  length-append, ℤ, pos, ◌+ℤ◌, nat_eq, int_eq, string_eq, pair_eq,
}
use mathlib.Core.Path.{subst}
use paradigm.Common.Bytes.{Bytes, Hash, bytes_to_hash}
use paradigm.Common.Effects.{>>=-eq-gives, Ran, gives, fails, panics, Ran-cases, Leaves, Leaves->>=}
use paradigm.Proxy.GasPool.{GasPool}
use paradigm.Proxy.Chain.{Store, Codec, Accounts}
use paradigm.Proxy.Receipts.{Receipt, new_receipt}
use paradigm.Proxy.State.{
  ProxyErr, ProxyState, change_was, commit, run_message, receipt_of, apply_transaction,
  apply_transactions, process_block,
}
use paradigm.Proxy.StateDb.{StateDb}
use paradigm.Proxy.Transition.{Message, process_message}
use paradigm.Types.Block.{Block}
use paradigm.Proxy.Ledger.{
  Receives, Ledger-snoc, IsBalanced, books, RootsAreHashes, Balanced, SameBooks, Balanced-same,
  commit-Balanced,
}

module _ {D W T L : Type 0} (store : Store D) (codec : Codec T L) (db : StateDb W)
    (accounts : Accounts D W L) (roots : RootsAreHashes store codec db accounts) where
  abbrev pub State : Type 0
  State = ProxyState D W T L

  -- A transaction is applied: it has its place in the books, its receipt has the root of the accounts, and
  -- nothing is stored.
  pub record Recorded (t : T) (s u : State) : Type 0 where
    pub receipt : Receipt L
    pub receives : Receives codec s.was.total_used_gas t receipt
    pub books_after : books codec u.was ≡ record {
      transactions = s.was.transactions ++ (t ∷ []);
      receipts = s.was.receipts ++ (receipt ∷ []);
      total_used_gas = receipt.cumulative_gas_used;
      tx_index = s.was.tx_index + 1;
    }
    pub same_db : u.db ≡ s.db
    pub same_pool : u.tx_pool ≡ s.tx_pool
    pub before_root : W
    pub message : Message
    pub sent : codec.as_message t ≡ some message
    pub root : accounts.intermediate_root before_root ≡ (u.was.state_db, receipt.post_state)

  -- Nothing of the books, of the store and of the pool has changed.
  pub record Untouched (s u : State) : Type 0 where
    pub same_books : SameBooks store codec db accounts s u
    pub same_db : u.db ≡ s.db
    pub same_pool : u.tx_pool ≡ s.tx_pool

  -- A message moves the gas pool and the accounts alone.
  abbrev Moved : State → State → Type 0
  Moved s u =
      (gp : GasPool) × (w : W) × (u
        ≡ change_was store codec db accounts (λ v. record v { gp = gp; state_db = w }) s)

  run_message-Moved :
      (msg : Message) (s : State) → Leaves (Moved s) (run_message store codec db accounts msg s)
  unfolding run_message
  run_message-Moved msg s = elim (Ran-cases (process_message db msg s.was.gp s.was.state_db)) [
    | inl (gas, (gp, w), p) ↦ rw (p, Leaves) (gp, w, refl)
    | inr (inl (e, (gp, w), p)) ↦ rw (p, Leaves) (gp, w, refl)
    | inr (inr p) ↦ rw (p, Leaves) tt
  ]

  prepared : T → Hash → ℕ → State → State
  prepared t h i s =
      change_was store codec db accounts
        (λ w. record w { state_db = accounts.prepare w.state_db (codec.tx_hash t) h i }) s

  untouched : (t : T) (h : Hash) (i : ℕ) (s u : State) → Moved (prepared t h i s) u → Untouched s u
  unfolding prepared
  untouched t h i s u (gp, w, e) =
      subst (Untouched s) (sym e) (record { same_books = refl; same_db = refl; same_pool = refl })

  entered : T → ℤ → State → State
  unfolding receipt_of
  entered t gas = change_was store codec db accounts (λ w.
      let total = w.total_used_gas +ℤ gas in
      let rooted = accounts.intermediate_root w.state_db in
      let receipt = receipt_of store codec db accounts t gas total rooted.1 rooted.0 in
      record w {
        state_db = rooted.0;
        total_used_gas = total;
        tx_index = w.tx_index + 1;
        transactions = w.transactions ++ (t ∷ []);
        receipts = w.receipts ++ (receipt ∷ []);
        all_logs = w.all_logs ++ receipt.logs;
      })

  recorded :
      (t : T) (msg : Message) (h : Hash) (i : ℕ) (s u : State) (gas : ℤ)
      → codec.as_message t ≡ some msg
      → Moved (prepared t h i s) u
      → Recorded t s (entered t gas u)
  unfolding prepared entered receipt_of new_receipt
  recorded t msg h i s u gas sent (gp, w, e) =
      subst (λ v. Recorded t s (entered t gas v)) (sym e)
        (record {
          receipt =
              let rooted = accounts.intermediate_root w in
              receipt_of store codec db accounts t gas (s.was.total_used_gas +ℤ gas) rooted.1
                rooted.0;
          receives = record {
            tx_hash = refl;
            rooted = roots w;
            gas = gas;
            gas_used = refl;
            cumulative = refl;
          };
          books_after = refl;
          same_db = refl;
          same_pool = refl;
          before_root = w;
          message = msg;
          sent = sent;
          root = refl;
        })

  -- How a transaction ends.
  abbrev pub AppliedOr : Bytes → State → Ran ProxyErr State (Unit {0}) → Type 0
  AppliedOr b s (gives a u) = (t : T) × (codec.decode_tx b ≡ some t) × Recorded t s u
  AppliedOr b s (fails e u) = Untouched s u
  AppliedOr b s panics = Unit

  pub apply_transaction_lem :
      (b : Bytes) (i : ℕ) (h : Hash) (s : State)
      → AppliedOr b s (apply_transaction store codec db accounts b i h s)
  unfolding apply_transaction prepared entered
  apply_transaction_lem b i h s = elim (Option-cases (codec.decode_tx b)) [
    | inl unread ↦
        rw (unread, AppliedOr) (record { same_books = refl; same_db = refl; same_pool = refl })
    | inr (t, read) ↦ elim (Option-cases (codec.as_message t)) [
      | inl unsent ↦
          rw (read, unsent, AppliedOr)
            (record { same_books = refl; same_db = refl; same_pool = refl })
      | inr (msg, sent) ↦
          let v = prepared t h i s in
          let moved = run_message-Moved msg v in
          elim (Ran-cases (run_message store codec db accounts msg v)) [
            | inl (gas, u, p) ↦
                subst (AppliedOr b s) {x = gives tt (entered t gas u)}
                  (sym (ground (arith, read, sent, p)))
                  (t, read, recorded t msg h i s u gas sent (subst (Leaves (Moved v)) p moved))
            | inr (inl (e, u, p)) ↦
                subst (AppliedOr b s) {x = fails e u} (sym (ground (arith, read, sent, p)))
                  (untouched t h i s u (subst (Leaves (Moved v)) p moved))
            | inr (inr p) ↦
                subst (AppliedOr b s) {x = panics} (sym (ground (arith, read, sent, p))) tt
          ]
    ]
  ]

  Recorded-Balanced :
      (t : T) (s u : State)
      → Recorded t s u
      → Balanced store codec db accounts s
      → Balanced store codec db accounts u
  Recorded-Balanced t s u r b = subst (IsBalanced codec) (sym r.books_after) (record {
    ledger =
        Ledger-snoc codec (pos 0) s.was.transactions s.was.receipts s.was.total_used_gas t r.receipt
          b.ledger r.receives;
    counted = omega (arith, b.counted, length-append s.was.transactions (t ∷ []));
  })

  AppliedOr-Balanced :
      (b : Bytes) (s : State) (o : Ran ProxyErr State (Unit {0}))
      → AppliedOr b s o
      → Balanced store codec db accounts s
      → Leaves (Balanced store codec db accounts) o
  AppliedOr-Balanced b s (gives a u) (t, read, r) k = Recorded-Balanced t s u r k
  AppliedOr-Balanced b s (fails e u) h k = Balanced-same store codec db accounts s u k h.same_books
  AppliedOr-Balanced b s panics h k = tt

  pub apply_transactions-Balanced :
      (bs : List Bytes) (i : ℕ) (h : Hash) (s : State)
      → Balanced store codec db accounts s
      → Leaves
          (Balanced store codec db accounts)
          (apply_transactions store codec db accounts bs i h s)
  unfolding apply_transactions
  apply_transactions-Balanced [] i h s k = k
  apply_transactions-Balanced (b ∷ bs) i h s k =
      Leaves->>= (Balanced store codec db accounts)
        (apply_transaction store codec db accounts b i h)
        (λ a. apply_transactions store codec db accounts bs (suc i) h) s
        (AppliedOr-Balanced b s _ (apply_transaction_lem b i h s) k)
        (λ a u p ku. apply_transactions-Balanced bs (suc i) h u ku)

  -- Where the roots of the accounts are hashes: however `ProcessBlock` ends, unless it panics, the books are in order
  -- if they were before it.
  pub process_block-Balanced :
      (block : Block) (s : State)
      → Balanced store codec db accounts s
      → Leaves (Balanced store codec db accounts) (process_block store codec db accounts block s)
  unfolding process_block
  process_block-Balanced block s k =
      Leaves->>= (Balanced store codec db accounts)
        (apply_transactions store codec db accounts block.body.transactions 0
          (bytes_to_hash (codec.block_hash block)))
        (λ a. commit store codec db accounts) s
        (apply_transactions-Balanced block.body.transactions 0 _ s k)
        (λ a u p ku. commit-Balanced store codec db accounts u ku)

  -- The bytes are the encodings of these transactions.
  abbrev pub Decoded : List Bytes → List T → Type 0
  Decoded [] [] = Unit
  Decoded [] (t ∷ ts) = ⊥
  Decoded (b ∷ bs) [] = ⊥
  Decoded (b ∷ bs) (t ∷ ts) = (codec.decode_tx b ≡ some t) × Decoded bs ts

  -- The transactions are applied one after the other.
  abbrev pub AppliedAll : List T → State → State → Type 0
  AppliedAll [] s u = u ≡ s
  AppliedAll (t ∷ ts) s u = (v : State) × Recorded t s v × AppliedAll ts v u

  -- All of them, or those before the first that fails.
  abbrev pub AppliedUpTo : List Bytes → State → Ran ProxyErr State (Unit {0}) → Type 0
  AppliedUpTo bs s (gives a u) = (ts : List T) × Decoded bs ts × AppliedAll ts s u
  AppliedUpTo bs s (fails e u) =
      (done : List Bytes) × (b : Bytes) × (rest : List Bytes) × (ts : List T) × (v : State) × (bs
        ≡ done ++ (b ∷ rest))
      × Decoded done ts
      × AppliedAll ts s v
      × Untouched v u
  AppliedUpTo bs s panics = Unit

  AppliedUpTo-step :
      (b : Bytes) (bs : List Bytes) (t : T) (s v : State)
      → codec.decode_tx b ≡ some t
      → Recorded t s v
      → (o : Ran ProxyErr State (Unit {0})) → AppliedUpTo bs v o
      → AppliedUpTo (b ∷ bs) s o
  AppliedUpTo-step b bs t s v read r (gives a u) (ts, d, k) = (t ∷ ts, (read, d), (v, r, k))
  AppliedUpTo-step b bs t s v read r (fails e u) (done, c, rest, ts, m, q, d, k, l) =
      (b ∷ done, c, rest, t ∷ ts, m, ap (λ xs. b ∷ xs) q, (read, d), (v, r, k), l)
  AppliedUpTo-step b bs t s v read r panics h = tt

  -- Where the roots of the accounts are hashes: the loop of `ProcessBlock` decodes and enters all transactions, each
  -- with its receipt, or it fails at one of them, having entered those before it and, at that one, changed
  -- neither the books nor the store nor the pool.
  pub apply_transactions_lem :
      (bs : List Bytes) (i : ℕ) (h : Hash) (s : State)
      → AppliedUpTo bs s (apply_transactions store codec db accounts bs i h s)
  unfolding apply_transactions
  apply_transactions_lem [] i h s = ([], tt, refl)
  apply_transactions_lem (b ∷ bs) i h s =
      let first = apply_transaction_lem b i h s in
      elim (Ran-cases (apply_transaction store codec db accounts b i h s)) [
        | inl (a, v, p) ↦
            let (t, read, r) = subst (AppliedOr b s) p first in
            subst (AppliedUpTo (b ∷ bs) s) (sym (ground (arith, p)))
              (AppliedUpTo-step b bs t s v read r _ (apply_transactions_lem bs (suc i) h v))
        | inr (inl (e, v, p)) ↦
            subst (AppliedUpTo (b ∷ bs) s) {x = fails e v} (sym (ground (arith, p)))
              ([], b, bs, [], s, refl, tt, refl, subst (AppliedOr b s) p first)
        | inr (inr p) ↦ subst (AppliedUpTo (b ∷ bs) s) {x = panics} (sym (ground (arith, p))) tt
      ]

  -- A block that is processed: all of its transactions are applied, and what they leave is committed.
  pub record AppliedBlock (block : Block) (s u : State) (root : Hash) : Type 0 where
    pub applied : State
    pub txs : List T
    pub decoded : Decoded block.body.transactions txs
    pub all : AppliedAll txs s applied
    pub balanced : Balanced store codec db accounts s → Balanced store codec db accounts applied
    pub commits : commit store codec db accounts applied ≡ gives root u

  pub process_block-AppliedBlock :
      (block : Block) (s u : State) (root : Hash)
      → process_block store codec db accounts block s ≡ gives root u
      → AppliedBlock block s u root
  unfolding process_block
  process_block-AppliedBlock block s u root h =
      let bs = block.body.transactions in
      let g = bytes_to_hash (codec.block_hash block) in
      let (a, v, p, q) =
        >>=-eq-gives (apply_transactions store codec db accounts bs 0 g)
          (λ x. commit store codec db accounts) s u root h in
      let (ts, d, k) = subst (AppliedUpTo bs s) p (apply_transactions_lem bs 0 g s) in
      record {
        applied = v;
        txs = ts;
        decoded = d;
        all = k;
        balanced = λ b.
            subst (Leaves (Balanced store codec db accounts)) p
              (apply_transactions-Balanced bs 0 g s b);
        commits = q;
      }
