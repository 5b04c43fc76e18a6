-- ===== src/Proxy/Readback.antt =====
-- What `GetTransaction` and `GetReceipt` of proxy/proxy_state.go give after a block.
use paradigm.Prelude.{
  ◌≡◌, refl, sym, ap, ◌∙◌, inl, inr, Option, some, List, [], ◌∷◌, ◌++◌, map, arith, Option-cases,
  length, ℤ, pos, nat_eq, int_eq, string_eq, pair_eq,
}
use mathlib.Core.Path.{subst}
use mathlib.Core.List.{append-nil, append_assoc}
use paradigm.Common.Bytes.{Hash, bytes_eq}
use paradigm.Common.Effects.{gives, ◌>>◌, return, Leaves, >>=-eq-gives, gives-state, gives-value}
use paradigm.Proxy.Chain.{Store, Codec, CodecLaws, Accounts}
use paradigm.Proxy.Receipts.{Receipt, for_storage}
use paradigm.Proxy.State.{
  head_tx_key, last_or, TxPool, ProxyState, write_head, write_transactions, write_receipts,
  commit_accounts, was_commit, reset_was, reset_pool, commit, process_block,
}
use paradigm.Proxy.StateDb.{StateDb}
use paradigm.Types.Block.{Block}
use paradigm.Proxy.Ledger.{Ledger, Books, RootsAreHashes, Balanced, SameBooks}
use paradigm.Proxy.Chain.{StoreLaws}
use paradigm.Proxy.Receipts.{as_stored, of_storage-for_storage}
use paradigm.Proxy.Lifecycle.{get_transaction, get_receipt}
use paradigm.Proxy.Ledger.{Books, commit_accounts-SameBooks, put-SameBooks}
use paradigm.Proxy.Applied.{Decoded, AppliedAll, process_block-AppliedBlock}
use paradigm.Proxy.Written.{In, All, put-gives, HasTx, write_transactions-HasTx}
use paradigm.Proxy.Filed.{HasReceipt, IsProper, write_receipts-HasReceipt, write_receipts-other}

module _ {D W T L : Type 0} (store : Store D) (codec : Codec T L) (db : StateDb W)
    (accounts : Accounts D W L) (store_laws : StoreLaws store) (codec_laws : CodecLaws codec) where
  abbrev pub State : Type 0
  State = ProxyState D W T L

  HasTx-get_transaction :
      (t : T) (d : D)
      → HasTx store codec db accounts store_laws codec_laws t d
      → get_transaction store codec db accounts (codec.tx_hash t) d ≡ gives t d
  unfolding get_transaction
  HasTx-get_transaction t d h =
      let read = codec_laws.decode-encode_tx t h.data' h.encoded in ground (arith, h.found, read)

  pub HasReceipt-get_receipt :
      (g : Hash) (d : D) (h : HasReceipt store codec db accounts store_laws codec_laws g d)
      → get_receipt store codec db accounts g d ≡ gives (as_stored codec.stored_log h.receipt) d
  unfolding get_receipt
  HasReceipt-get_receipt g d h =
      let read = codec_laws.decode-encode_receipt (for_storage h.receipt) h.data' h.encoded in
      let whole = of_storage-for_storage codec.stored_log h.receipt (inr h.rooted) in
      ground (arith, h.found, read, whole)

  -- the writes of a commit, one after the other
  pub record Committed (s v : State) (root : Hash) : Type 0 where
    pub opened : State
    pub headed : State
    pub listed : State
    pub rooted : (accounts.commit_to s.was.state_db s.db).0 ≡ some root
    pub same : SameBooks store codec db accounts s headed
    pub head :
        store.put opened.db head_tx_key (codec.tx_hash (last_or codec.empty_tx s.was.transactions))
        ≡ some headed.db
    pub txs : write_transactions store codec db accounts s.was.transactions headed ≡ gives tt listed
    pub receipts : write_receipts store codec db accounts s.was.receipts listed ≡ gives tt v

  pub commit_accounts-gives :
      (s u : State) (root : Hash)
      → commit_accounts store codec db accounts s ≡ gives root u
      → (accounts.commit_to s.was.state_db s.db).0 ≡ some root
  unfolding commit_accounts
  commit_accounts-gives s u root h =
      elim (Option-cases (accounts.commit_to s.was.state_db s.db).0) [
        | inl e ↦ absurd (ground (arith, h, e))
        | inr (r, e) ↦ ground (arith, h, e)
      ]

  was_commit-gives :
      (s v : State) (root : Hash)
      → was_commit store codec db accounts s ≡ gives root v
      → Committed s v root
  unfolding was_commit write_head
  was_commit-gives s v root h =
      let (r, o, p, q) = >>=-eq-gives (commit_accounts store codec db accounts) _ s v root h in
      let (a, t, p1, q1) = >>=-eq-gives (write_head store codec db accounts) _ o v root q in
      let (b, l, p2, q2) =
        >>=-eq-gives (write_transactions store codec db accounts t.was.transactions)
          (λ b. write_receipts store codec db accounts t.was.receipts >> return r) t v root q1 in
      let (c, x, p3, q3) =
        >>=-eq-gives (write_receipts store codec db accounts t.was.receipts) (λ c. return r) l v
          root q2 in
      let books1 =
        subst (Leaves (SameBooks store codec db accounts s)) p
          (commit_accounts-SameBooks store codec db accounts s) in
      let books2 =
        subst (Leaves (SameBooks store codec db accounts o)) p1
          (put-SameBooks store codec db accounts _ _ o) in
      let same_books = books2 ∙ books1 in
      let (d, w, m) =
        put-gives store codec db accounts store_laws codec_laws head_tx_key _ o t a p1 in
      record {
        opened = o;
        headed = t;
        listed = l;
        rooted = commit_accounts-gives s o r p ∙ ap some (gives-value q3);
        same = same_books;
        head =
            subst
              (λ ts.
                store.put o.db head_tx_key (codec.tx_hash (last_or codec.empty_tx ts)) ≡ some d)
              (ap (λ (y : Books codec × Option (TxPool W)). y.0.transactions) books1) w
            ∙ ap (λ (y : State). some y.db) (sym m);
        txs =
            subst (λ ts. write_transactions store codec db accounts ts t ≡ gives tt l)
              (ap (λ (y : Books codec × Option (TxPool W)). y.0.transactions) same_books) p2;
        receipts =
            subst
              (λ (y : State). write_receipts store codec db accounts s.was.receipts l ≡ gives tt y)
              (gives-state q3)
              (subst (λ rs. write_receipts store codec db accounts rs l ≡ gives tt x)
                (ap (λ (y : Books codec × Option (TxPool W)). y.0.receipts) same_books) p3);
      }

  reset_pool-db :
      (root : Hash) (s : State)
      → Leaves (λ (u : State). u.db ≡ s.db) (reset_pool store codec db accounts root s)
  unfolding reset_pool
  reset_pool-db root s = elim (Option-cases s.tx_pool) [
    | inl n ↦ rw (n, Leaves) tt
    | inr (p, n) ↦ elim (Option-cases (accounts.reset s.db p.state_db root)) [
      | inl e ↦ rw (n, e, Leaves) refl
      | inr (w, e) ↦ rw (n, e, Leaves) refl
    ]
  ]

  pub commit-gives :
      (s u : State) (root : Hash)
      → commit store codec db accounts s ≡ gives root u
      → (v : State) × Committed s v root × (u.db ≡ v.db)
  unfolding commit reset_was
  commit-gives s u root h =
      let (r, v, p, q) = >>=-eq-gives (was_commit store codec db accounts) _ s u root h in
      let w = reset_was store codec db accounts (record v { state_db = v.was.state_db }) in
      let (a, x, p1, q1) =
        >>=-eq-gives (reset_pool store codec db accounts r) (λ b. return r) w u root q in
      (
        v,
        was_commit-gives s v root (p ∙ ap (λ z. gives z v) (gives-value q1)),
        ap (λ (y : State). y.db) (sym (gives-state q1))
            ∙ subst (Leaves (λ (y : State). y.db ≡ v.db)) p1 (reset_pool-db r w),
      )

  -- What a ledger says of the receipts.
  Ledger-hashes :
      (x : ℤ) (ts : List T) (rs : List (Receipt L)) (y : ℤ)
      → Ledger codec x ts rs y
      → map (λ (r : Receipt L). r.tx_hash) rs ≡ map codec.tx_hash ts
  Ledger-hashes x [] [] y h = refl
  Ledger-hashes x [] (r ∷ rs) y h = absurd h
  Ledger-hashes x (t ∷ ts) [] y h = absurd h
  Ledger-hashes x (t ∷ ts) (r ∷ rs) y (g, h) =
      let later = Ledger-hashes r.cumulative_gas_used ts rs y h in let first = g.tx_hash in cc

  pub Ledger-IsProper :
      (x : ℤ) (ts : List T) (rs : List (Receipt L)) (y : ℤ)
      → Ledger codec x ts rs y
      → All (IsProper store codec db accounts store_laws codec_laws) rs
  Ledger-IsProper x [] [] y h = tt
  Ledger-IsProper x [] (r ∷ rs) y h = absurd h
  Ledger-IsProper x (t ∷ ts) [] y h = absurd h
  Ledger-IsProper x (t ∷ ts) (r ∷ rs) y (g, h) = (
    (ap length g.tx_hash ∙ codec_laws.length-tx_hash t, g.rooted),
    Ledger-IsProper r.cumulative_gas_used ts rs y h,
  )

  In-map : (t : T) (ts : List T) → In t ts → In (codec.tx_hash t) (map codec.tx_hash ts)
  In-map t [] h = absurd h
  In-map t (u ∷ ts) (inl h) = inl (ap codec.tx_hash h)
  In-map t (u ∷ ts) (inr h) = inr (In-map t ts h)

  -- The transaction is found by its hash, and so is a receipt of it.
  pub record IsFound (t : T) (d : D) : Type 0 where
    pub transaction : get_transaction store codec db accounts (codec.tx_hash t) d ≡ gives t d
    pub receipt : Receipt L
    pub of_transaction : receipt.tx_hash ≡ codec.tx_hash t
    pub found : get_receipt store codec db accounts (codec.tx_hash t) d ≡ gives receipt d

  commit-IsFound :
      (s u : State) (root : Hash) (t : T)
      → Balanced store codec db accounts s
      → commit store codec db accounts s ≡ gives root u
      → In t s.was.transactions
      → IsFound t u.db
  unfolding as_stored
  commit-IsFound s u root t b h i =
      let (v, c, same_db) = commit-gives s u root h in
      let proper =
        Ledger-IsProper (pos 0) s.was.transactions s.was.receipts s.was.total_used_gas b.ledger in
      let hashes =
        Ledger-hashes (pos 0) s.was.transactions s.was.receipts s.was.total_used_gas b.ledger in
      let listed =
        write_transactions-HasTx store codec db accounts store_laws codec_laws t s.was.transactions
          c.headed c.listed tt i c.txs in
      let there =
        write_receipts-HasReceipt store codec db accounts store_laws codec_laws (codec.tx_hash t)
          s.was.receipts c.listed v tt proper
          (subst (In (codec.tx_hash t)) (sym hashes) (In-map t s.was.transactions i)) c.receipts in
      subst (IsFound t) (sym same_db) (record {
        transaction = HasTx-get_transaction t v.db (record {
          data' = listed.data';
          encoded = listed.encoded;
          found =
              write_receipts-other store codec db accounts store_laws codec_laws (codec.tx_hash t)
                s.was.receipts c.listed v tt (omega (arith, codec_laws.length-tx_hash t)) proper
                c.receipts
              ∙ listed.found;
        });
        receipt = as_stored codec.stored_log there.receipt;
        of_transaction = there.of_hash;
        found = HasReceipt-get_receipt (codec.tx_hash t) v.db there;
      })

  AppliedAll-transactions :
      (roots : RootsAreHashes store codec db accounts) (ts : List T) (s u : State)
      → AppliedAll store codec db accounts roots ts s u
      → u.was.transactions ≡ s.was.transactions ++ ts
  AppliedAll-transactions roots [] s u h =
      ap (λ (y : State). y.was.transactions) h ∙ sym (append-nil s.was.transactions)
  AppliedAll-transactions roots (t ∷ ts) s u (v, r, h) =
      AppliedAll-transactions roots ts v u h
      ∙ ap (λ xs. xs ++ ts) (ap (λ (y : Books codec). y.transactions) r.books_after)
      ∙ append_assoc s.was.transactions (t ∷ []) ts

  -- After a block is processed from books in order, its transactions are found by their hashes, each with a receipt
  -- of its own, and so are those that an earlier block had left. This is on a store and encodings that keep
  -- their laws, where roots are hashes.
  pub process_block-IsFound :
      (roots : RootsAreHashes store codec db accounts) (block : Block) (s u : State) (root : Hash)
      → Balanced store codec db accounts s
      → process_block store codec db accounts block s ≡ gives root u
      → (ts : List T) × Decoded store codec db accounts roots block.body.transactions ts
        × ((t : T) → In t (s.was.transactions ++ ts) → IsFound t u.db)
  process_block-IsFound roots block s u root b h =
      let p = process_block-AppliedBlock store codec db accounts roots block s u root h in
      (
        p.txs,
        p.decoded,
        λ t i.
            commit-IsFound p.applied u root t (p.balanced b) p.commits
              (subst (In t) (sym (AppliedAll-transactions roots p.txs s p.applied p.all)) i),
      )
