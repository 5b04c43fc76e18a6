-- ===== src/Proxy/Restart.antt =====
-- What `InitState` of proxy/proxy_state.go finds in the store that a commit has left.
use paradigm.Prelude.{
  ◌≡◌, refl, sym, ap, ◌∙◌, ◌≢◌, inl, inr, true, false, none, some, List, [], ◌∷◌, ◌++◌, arith, eqb,
  Option-cases, length, replicate, pos, ◌==◌, nat_eq, int_eq, string_eq, pair_eq, ==_refl, ==_ne,
}
use mathlib.Core.Path.{subst}
use paradigm.Common.Bytes.{Bytes, Hash, hash_length, bytes_to_hash, bytes_eq, bytes_to_hash-hash}
use paradigm.Common.Effects.{gives, fails}
use paradigm.Proxy.Chain.{Store, Codec, CodecLaws, Accounts}
use paradigm.Proxy.Receipts.{Receipt}
use paradigm.Proxy.State.{
  accounts_err, head_tx_key, last_or, ProxyState, write_receipts, commit, process_block,
}
use paradigm.Proxy.StateDb.{StateDb}
use paradigm.Proxy.Transition.{Message}
use paradigm.Types.Block.{Block}
use paradigm.Proxy.Ledger.{Books, RootsAreHashes, Balanced}
use paradigm.Proxy.Chain.{StoreLaws}
use paradigm.Proxy.Receipts.{as_stored}
use paradigm.Proxy.Lifecycle.{get_receipt, start_at, init_state}
use paradigm.Proxy.Ledger.{Books}
use paradigm.Proxy.Applied.{Decoded, AppliedAll, process_block-AppliedBlock}
use paradigm.Proxy.Written.{receipt_key, write_transactions-other}
use paradigm.Proxy.Filed.{write_receipts-last, write_receipts-other}
use paradigm.Proxy.Readback.{Committed, commit-gives, Ledger-IsProper, HasReceipt-get_receipt}

module _ {D W T L : Type 0} (store : Store D) (codec : Codec T L) (db : StateDb W)
    (accounts : Accounts D W L) (store_laws : StoreLaws store) (codec_laws : CodecLaws codec) where
  abbrev pub State : Type 0
  State = ProxyState D W T L

  abbrev pub zero_hash : Hash
  zero_hash = replicate hash_length 0

  -- The store after a commit: its head.
  pub head_found :
      (s v : State) (root : Hash)
      → Balanced store codec db accounts s
      → Committed store codec db accounts store_laws codec_laws s v root
      → store.get v.db head_tx_key
        ≡ some (codec.tx_hash (last_or codec.empty_tx s.was.transactions))
  head_found s v root b c =
      let proper =
        Ledger-IsProper store codec db accounts store_laws codec_laws (pos 0) s.was.transactions
          s.was.receipts s.was.total_used_gas b.ledger in
      write_receipts-other store codec db accounts store_laws codec_laws head_tx_key s.was.receipts
        c.listed v tt (omega arith) proper c.receipts
      ∙ write_transactions-other store codec db accounts store_laws codec_laws head_tx_key
          s.was.transactions c.headed c.listed tt (λ e. omega (arith, e)) c.txs
      ∙ store_laws.get-put c.opened.db c.headed.db head_tx_key _ c.head

  -- `InitState` where the head is the hash of the empty transaction.
  pub init_state-empty :
      (d : D) (h : Hash)
      → length h ≡ hash_length
      → store.get d head_tx_key ≡ some h
      → h ≡ codec.tx_hash codec.empty_tx
      → init_state store codec db accounts d ≡ (elim (accounts.new d zero_hash) [
        | none ↦ fails accounts_err d
        | some w ↦ gives (w, none) d
      ])
  unfolding init_state
  init_state-empty d [] l h e = absurd (omega (arith, l))
  init_state-empty d (x ∷ xs) l h e =
      let whole = bytes_to_hash-hash (x ∷ xs) l in
      let empty : (bytes_to_hash (x ∷ xs) == codec.tx_hash codec.empty_tx) ≡ true =
        ap (λ y. y == codec.tx_hash codec.empty_tx) (whole ∙ e)
        ∙ ==_refl (codec.tx_hash codec.empty_tx) in
      elim (Option-cases (accounts.new d (replicate hash_length 0))) [
        | inl n ↦ ground (arith, h, empty, n)
        | inr (w, n) ↦ ground (arith, h, empty, n)
      ]

  -- `InitState` where the head is the hash of another transaction, whose receipt is there.
  init_state-receipt :
      (d : D) (h : Hash) (r : Receipt L)
      → length h ≡ hash_length
      → store.get d head_tx_key ≡ some h
      → h ≢ codec.tx_hash codec.empty_tx
      → get_receipt store codec db accounts h d ≡ gives r d
      → length r.post_state ≡ hash_length
      → init_state store codec db accounts d ≡ start_at store codec db accounts r.post_state d
  unfolding init_state
  init_state-receipt d [] r l h e found m = absurd (omega (arith, l))
  init_state-receipt d (x ∷ xs) r l h e found m =
      let whole = bytes_to_hash-hash (x ∷ xs) l in
      let other : (bytes_to_hash (x ∷ xs) == codec.tx_hash codec.empty_tx) ≡ false =
        ap (λ y. y == codec.tx_hash codec.empty_tx) whole
        ∙ ==_ne (x ∷ xs) (codec.tx_hash codec.empty_tx) e in
      let long : eqb (length r.post_state) 0 ≡ false = rw m refl in
      let root = bytes_to_hash-hash r.post_state m in
      let there = ap (λ y. get_receipt store codec db accounts y d) whole ∙ found in
      elim (Option-cases (accounts.new d r.post_state)) [
        | inl n ↦ ground (arith, h, other, there, long, root, n)
        | inr (w, n) ↦ ground (arith, h, other, there, long, root, n)
      ]

  -- The last transaction of a state, its receipt, and the accounts at its root.
  record Last (s : State) : Type 0 where
    tx : T
    receipt : Receipt L
    earlier : List T
    earlier_receipts : List (Receipt L)
    transactions : s.was.transactions ≡ earlier ++ (tx ∷ [])
    receipts : s.was.receipts ≡ earlier_receipts ++ (receipt ∷ [])
    of_tx : receipt.tx_hash ≡ codec.tx_hash tx
    long : length receipt.post_state ≡ hash_length
    message : Message
    sent : codec.as_message tx ≡ some message
    before_root : W
    root : accounts.intermediate_root before_root ≡ (s.was.state_db, receipt.post_state)

  module _ (roots : RootsAreHashes store codec db accounts) where
    AppliedAll-Last :
        (t : T) (ts : List T) (s u : State)
        → AppliedAll store codec db accounts roots (t ∷ ts) s u
        → Last u
    AppliedAll-Last t [] s u (v, r, e) = subst Last (sym e) (record {
      tx = t;
      receipt = r.receipt;
      earlier = s.was.transactions;
      earlier_receipts = s.was.receipts;
      transactions = ap (λ (y : Books codec). y.transactions) r.books_after;
      receipts = ap (λ (y : Books codec). y.receipts) r.books_after;
      of_tx = r.receives.tx_hash;
      long = r.receives.rooted;
      message = r.message;
      sent = r.sent;
      before_root = r.before_root;
      root = r.root;
    })
    AppliedAll-Last t (t' ∷ ts) s u (v, r, k) = AppliedAll-Last t' ts v u k

    -- The root of a commit is the intermediate root that the accounts had last.
    abbrev pub RootsAgree : Type 0
    RootsAgree =
        (w : W) (d : D) (root : Hash)
        → (accounts.commit_to (accounts.intermediate_root w).0 d).0 ≡ some root
        → root ≡ (accounts.intermediate_root w).1

    last_or-last : (a t : T) (ts : List T) → last_or a (ts ++ (t ∷ [])) ≡ t
    last_or-last a t [] = refl
    last_or-last a t (u ∷ ts) = last_or-last u t ts

    Last-receipt :
        (s v : State) (root : Hash) (l : Last s)
        → Committed store codec db accounts store_laws codec_laws s v root
        → get_receipt store codec db accounts (codec.tx_hash l.tx) v.db
          ≡ gives (as_stored codec.stored_log l.receipt) v.db
    Last-receipt s v root l c =
        let (b, e, found) =
          write_receipts-last store codec db accounts store_laws codec_laws l.earlier_receipts
            l.receipt c.listed v tt
            (subst (λ rs. write_receipts store codec db accounts rs c.listed ≡ gives tt v)
              l.receipts c.receipts) in
        HasReceipt-get_receipt store codec db accounts store_laws codec_laws (codec.tx_hash l.tx)
          v.db
          (record {
            receipt = l.receipt;
            data' = b;
            of_hash = l.of_tx;
            rooted = l.long;
            encoded = e;
            found = subst (λ h. store.get v.db (receipt_key h) ≡ some b) l.of_tx found;
          })

    Last-restart :
        (s u : State) (root : Hash)
        → RootsAgree
        → codec.as_message codec.empty_tx ≡ none
        → Balanced store codec db accounts s
        → Last s
        → commit store codec db accounts s ≡ gives root u
        → init_state store codec db accounts u.db ≡ start_at store codec db accounts root u.db
    unfolding as_stored
    Last-restart s u root agree unsent b l h =
        let (v, c, same_db) =
          commit-gives store codec db accounts store_laws codec_laws s u root h in
        let head : store.get v.db head_tx_key ≡ some (codec.tx_hash l.tx) =
          head_found s v root b c
          ∙ ap (λ ts. some (codec.tx_hash (last_or codec.empty_tx ts))) l.transactions
          ∙ ap (λ t. some (codec.tx_hash t)) (last_or-last codec.empty_tx l.tx l.earlier) in
        let other : codec.tx_hash l.tx ≢ codec.tx_hash codec.empty_tx = λ e.
          let clash =
            sym l.sent
            ∙ ap codec.as_message (codec_laws.tx_hash-inj l.tx codec.empty_tx e)
            ∙ unsent in
          cc in
        let committed : root ≡ l.receipt.post_state =
          agree l.before_root s.db root
            (ap (λ (y : W × Hash). (accounts.commit_to y.0 s.db).0) l.root ∙ c.rooted)
          ∙ ap (λ (y : W × Hash). y.1) l.root in
        subst (λ d. init_state store codec db accounts d ≡ start_at store codec db accounts root d)
          (sym same_db)
          (init_state-receipt v.db (codec.tx_hash l.tx) (as_stored codec.stored_log l.receipt)
              (codec_laws.length-tx_hash l.tx) head other (Last-receipt s v root l c) l.long
            ∙ ap (λ y. start_at store codec db accounts y v.db) (sym committed))

    last_of :
        (bs : List Bytes) (s v : State)
        → bs ≢ []
        → (ts : List T) → Decoded store codec db accounts roots bs ts
        → AppliedAll store codec db accounts roots ts s v
        → Last v
    last_of [] s v full ts d k = absurd (full refl)
    last_of (b ∷ bs) s v full [] d k = absurd d
    last_of (b ∷ bs) s v full (t ∷ ts) d k = AppliedAll-Last t ts s v k

    -- A start after a block with transactions, processed from books in order, opens the accounts at the root that the block was
    -- committed with. This is on a store and encodings that keep their laws, where a commit has the
    -- intermediate root that was there last, and the empty transaction has no sender.
    pub process_block-restart :
        (block : Block) (s u : State) (root : Hash)
        → RootsAgree
        → codec.as_message codec.empty_tx ≡ none
        → Balanced store codec db accounts s
        → block.body.transactions ≢ []
        → process_block store codec db accounts block s ≡ gives root u
        → init_state store codec db accounts u.db ≡ start_at store codec db accounts root u.db
    process_block-restart block s u root agree unsent b full h =
        let p = process_block-AppliedBlock store codec db accounts roots block s u root h in
        Last-restart p.applied u root agree unsent (p.balanced b)
          (last_of block.body.transactions s p.applied full p.txs p.decoded p.all) p.commits
