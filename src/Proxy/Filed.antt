-- ===== src/Proxy/Filed.antt =====
-- What the write-ahead state of proxy/proxy_was_state.go writes of its receipts.
use paradigm.Prelude.{
  ◌+◌, ◌<◌, ◌≡◌, refl, sym, ap, ◌∙◌, inl, inr, some, List, [], ◌∷◌, ◌++◌, map, arith, Bool-cases,
  Option-cases, length, ◌==◌, nat_eq, int_eq, string_eq, pair_eq, eq_of_==, ne_of_==,
}
use mathlib.Core.Path.{subst}
use paradigm.Common.Bytes.{Bytes, Hash, hash_length, bytes_eq}
use paradigm.Common.Effects.{gives, >>=-eq-gives, gives-state}
use paradigm.Proxy.Chain.{Store, Codec, CodecLaws, Accounts}
use paradigm.Proxy.Receipts.{Receipt, for_storage}
use paradigm.Proxy.State.{ProxyState, put, write_receipts}
use paradigm.Proxy.StateDb.{StateDb}
use paradigm.Proxy.Chain.{StoreLaws}
use paradigm.Proxy.Written.{
  In, All, receipt_key, receipt_key_ne, length-receipt_key, other_length, put-gives,
}

module _ {D W T L : Type 0} (store : Store D) (codec : Codec T L) (db : StateDb W)
    (accounts : Accounts D W L) (store_laws : StoreLaws store) (codec_laws : CodecLaws codec) where
  abbrev pub State : Type 0
  State = ProxyState D W T L

  write_receipts-cons :
      (r : Receipt L) (rs : List (Receipt L)) (s u : State) (a : Unit {0})
      → write_receipts store codec db accounts (r ∷ rs) s ≡ gives a u
      → (b : Bytes) × (d : D) × (codec.encode_receipt (for_storage r) ≡ some b)
        × (store.put s.db (receipt_key r.tx_hash) b ≡ some d)
        × (write_receipts store codec db accounts rs (record s { db = d }) ≡ gives a u)
  unfolding write_receipts
  write_receipts-cons r rs s u a h = elim (Option-cases (codec.encode_receipt (for_storage r))) [
    | inl e ↦ absurd (ground (arith, h, e))
    | inr (b, e) ↦
        let (c, v, p, q) =
          >>=-eq-gives (put store codec db accounts (receipt_key r.tx_hash) b)
            (λ x. write_receipts store codec db accounts rs) s u a (ground (arith, h, e)) in
        let (d, w, m) =
          put-gives store codec db accounts store_laws codec_laws (receipt_key r.tx_hash) b s v c
            p in
        (b, d, e, w, subst (λ x. write_receipts store codec db accounts rs x ≡ gives a u) m q)
  ]

  -- The same of receipts that all have a property.
  write_receipts-keeps :
      (P : D → Type 0) (Q : Receipt L → Type 0)
      → ((r : Receipt L) (b : Bytes) (d d' : D)
          → Q r
          → codec.encode_receipt (for_storage r) ≡ some b
          → store.put d (receipt_key r.tx_hash) b ≡ some d'
          → P d
          → P d')
      → (rs : List (Receipt L)) (s u : State) (a : Unit {0}) → All Q rs
      → write_receipts store codec db accounts rs s ≡ gives a u
      → P s.db
      → P u.db
  unfolding write_receipts
  write_receipts-keeps P Q step [] s u a l h k = subst (λ (x : State). P x.db) (gives-state h) k
  write_receipts-keeps P Q step (r ∷ rs) s u a (l, ls) h k =
      let (b, d, e, w, q) = write_receipts-cons r rs s u a h in
      write_receipts-keeps P Q step rs (record s { db = d }) u a ls q (step r b s.db d l e w k)

  -- A receipt of a transaction with that hash is in the store.
  pub record HasReceipt (h : Hash) (d : D) : Type 0 where
    pub receipt : Receipt L
    pub data' : Bytes
    pub of_hash : receipt.tx_hash ≡ h
    pub rooted : length receipt.post_state ≡ hash_length
    pub encoded : codec.encode_receipt (for_storage receipt) ≡ some data'
    pub found : store.get d (receipt_key h) ≡ some data'

  -- The receipt is that of a transaction.
  abbrev pub IsProper : Receipt L → Type 0
  IsProper r = (length r.tx_hash ≡ hash_length) × (length r.post_state ≡ hash_length)

  put-HasReceipt :
      (r : Receipt L) (b : Bytes) (d d' : D)
      → IsProper r
      → codec.encode_receipt (for_storage r) ≡ some b
      → store.put d (receipt_key r.tx_hash) b ≡ some d'
      → HasReceipt r.tx_hash d'
  put-HasReceipt r b d d' l e p = record {
    receipt = r;
    data' = b;
    of_hash = refl;
    rooted = l.1;
    encoded = e;
    found = store_laws.get-put d d' (receipt_key r.tx_hash) b p;
  }

  HasReceipt-keep :
      (h : Hash) (r : Receipt L) (b : Bytes) (d d' : D)
      → IsProper r
      → codec.encode_receipt (for_storage r) ≡ some b
      → store.put d (receipt_key r.tx_hash) b ≡ some d'
      → HasReceipt h d
      → HasReceipt h d'
  HasReceipt-keep h r b d d' l e p k = elim (Bool-cases (r.tx_hash == h)) [
    | inl same ↦
        subst (λ x. HasReceipt x d') (eq_of_== r.tx_hash h same) (put-HasReceipt r b d d' l e p)
    | inr other ↦ record {
      receipt = k.receipt;
      data' = k.data';
      of_hash = k.of_hash;
      rooted = k.rooted;
      encoded = k.encoded;
      found =
          store_laws.get-put_ne d d' (receipt_key r.tx_hash) (receipt_key h) b p
            (receipt_key_ne r.tx_hash h (ne_of_== r.tx_hash h other))
          ∙ k.found;
    }
  ]

  pub write_receipts-HasReceipt :
      (h : Hash) (rs : List (Receipt L)) (s u : State) (a : Unit {0})
      → All IsProper rs
      → In h (map (λ (r : Receipt L). r.tx_hash) rs)
      → write_receipts store codec db accounts rs s ≡ gives a u
      → HasReceipt h u.db
  write_receipts-HasReceipt h [] s u a l i p = absurd i
  write_receipts-HasReceipt h (r ∷ rs) s u a (l, ls) (inl here) p =
      let (b, d, e, w, q) = write_receipts-cons r rs s u a p in
      write_receipts-keeps (HasReceipt h) IsProper (HasReceipt-keep h) rs (record s { db = d }) u a
        ls q (subst (λ x. HasReceipt x d) (sym here) (put-HasReceipt r b s.db d l e w))
  write_receipts-HasReceipt h (r ∷ rs) s u a (l, ls) (inr later) p =
      let (b, d, e, w, q) = write_receipts-cons r rs s u a p in
      write_receipts-HasReceipt h rs (record s { db = d }) u a ls later q

  -- The receipt that is written last.
  pub write_receipts-last :
      (rs : List (Receipt L)) (r : Receipt L) (s u : State) (a : Unit {0})
      → write_receipts store codec db accounts (rs ++ (r ∷ [])) s ≡ gives a u
      → (b : Bytes) × (codec.encode_receipt (for_storage r) ≡ some b)
        × (store.get u.db (receipt_key r.tx_hash) ≡ some b)
  unfolding write_receipts
  write_receipts-last [] r s u a p =
      let (b, d, e, w, q) = write_receipts-cons r [] s u a p in
      (
        b,
        e,
        ap (λ (x : State). store.get x.db (receipt_key r.tx_hash)) (sym (gives-state q))
            ∙ store_laws.get-put s.db d (receipt_key r.tx_hash) b w,
      )
  write_receipts-last (x ∷ rs) r s u a p =
      let (b, d, e, w, q) = write_receipts-cons x (rs ++ (r ∷ [])) s u a p in
      write_receipts-last rs r (record s { db = d }) u a q

  pub write_receipts-other :
      (k : Bytes) (rs : List (Receipt L)) (s u : State) (a : Unit {0})
      → length k < 9 + hash_length
      → All IsProper rs
      → write_receipts store codec db accounts rs s ≡ gives a u
      → store.get u.db k ≡ store.get s.db k
  write_receipts-other k rs s u a n l p =
      write_receipts-keeps (λ d. store.get d k ≡ store.get s.db k) IsProper
        (λ r b d d' proper e w h.
          store_laws.get-put_ne d d' (receipt_key r.tx_hash) k b w (
            other_length (receipt_key r.tx_hash) k
              (λ m. omega (arith, n, m, length-receipt_key r.tx_hash, proper.0)))
          ∙ h)
        rs s u a l p refl
