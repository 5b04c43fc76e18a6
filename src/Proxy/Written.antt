-- ===== src/Proxy/Written.antt =====
-- What the write-ahead state of proxy/proxy_was_state.go writes of its transactions, and the keys.
use paradigm.Prelude.{
  ◌+◌, ◌≡◌, refl, sym, ap, ◌∙◌, ◌≢◌, ◌⊎◌, inl, inr, some, List, [], ◌∷◌, ◌++◌, arith, Bool-cases,
  Option-cases, length, drop, length-append, ◌==◌, nat_eq, int_eq, string_eq, pair_eq, eq_of_==,
  ne_of_==,
}
use mathlib.Core.Path.{subst}
use paradigm.Common.Bytes.{Bytes, Hash, hash_length, bytes_eq}
use paradigm.Common.Effects.{gives, >>=-eq-gives, gives-state}
use paradigm.Proxy.Chain.{Store, Codec, CodecLaws, Accounts}
use paradigm.Proxy.State.{receipts_prefix, ProxyState, put, write_transactions}
use paradigm.Proxy.StateDb.{StateDb}
use paradigm.Proxy.Chain.{StoreLaws}

module _ {A : Type 0} where
  abbrev pub In : A → List A → Type 0
  In a [] = ⊥
  In a (x ∷ xs) = (a ≡ x) ⊎ In a xs

  abbrev pub All : (A → Type 0) → List A → Type 0
  All P [] = Unit
  All P (x ∷ xs) = P x × All P xs

abbrev pub receipt_key : Hash → Bytes
receipt_key h = receipts_prefix ++ h

pub receipt_key_ne : (g h : Hash) → g ≢ h → receipt_key g ≢ receipt_key h
receipt_key_ne g h n e = n (ap (drop 9) e)

pub length-receipt_key : (h : Hash) → length (receipt_key h) ≡ 9 + length h
length-receipt_key h = length-append receipts_prefix h

pub other_length : (j k : Bytes) → length j ≢ length k → j ≢ k
other_length j k h e = h (ap length e)

module _ {D W T L : Type 0} (store : Store D) (codec : Codec T L) (db : StateDb W)
    (accounts : Accounts D W L) (store_laws : StoreLaws store) (codec_laws : CodecLaws codec) where
  abbrev pub State : Type 0
  State = ProxyState D W T L

  pub put-gives :
      (k v : Bytes) (s u : State) (a : Unit {0})
      → put store codec db accounts k v s ≡ gives a u
      → (d : D) × (store.put s.db k v ≡ some d) × (u ≡ record s { db = d })
  unfolding put
  put-gives k v s u a h = elim (Option-cases (store.put s.db k v)) [
    | inl e ↦ absurd (ground (arith, h, e))
    | inr (d, e) ↦ (d, e, ground (arith, h, e))
  ]

  -- The first write of several.
  write_transactions-cons :
      (t : T) (ts : List T) (s u : State) (a : Unit {0})
      → write_transactions store codec db accounts (t ∷ ts) s ≡ gives a u
      → (b : Bytes) × (d : D) × (codec.encode_tx t ≡ some b)
        × (store.put s.db (codec.tx_hash t) b ≡ some d)
        × (write_transactions store codec db accounts ts (record s { db = d }) ≡ gives a u)
  unfolding write_transactions
  write_transactions-cons t ts s u a h = elim (Option-cases (codec.encode_tx t)) [
    | inl e ↦ absurd (ground (arith, h, e))
    | inr (b, e) ↦
        let (c, v, p, q) =
          >>=-eq-gives (put store codec db accounts (codec.tx_hash t) b)
            (λ x. write_transactions store codec db accounts ts) s u a (ground (arith, h, e)) in
        let (d, w, m) = put-gives (codec.tx_hash t) b s v c p in
        (b, d, e, w, subst (λ x. write_transactions store codec db accounts ts x ≡ gives a u) m q)
  ]

  -- What every write of a transaction keeps, the writes of all keep.
  write_transactions-keeps :
      (P : D → Type 0)
      → ((t : T) (b : Bytes) (d d' : D)
          → codec.encode_tx t ≡ some b
          → store.put d (codec.tx_hash t) b ≡ some d'
          → P d
          → P d')
      → (ts : List T) (s u : State) (a : Unit {0})
      → write_transactions store codec db accounts ts s ≡ gives a u
      → P s.db
      → P u.db
  unfolding write_transactions
  write_transactions-keeps P step [] s u a h k = subst (λ (x : State). P x.db) (gives-state h) k
  write_transactions-keeps P step (t ∷ ts) s u a h k =
      let (b, d, e, w, q) = write_transactions-cons t ts s u a h in
      write_transactions-keeps P step ts (record s { db = d }) u a q (step t b s.db d e w k)

  -- A transaction is in the store, under its hash.
  pub record HasTx (t : T) (d : D) : Type 0 where
    pub data' : Bytes
    pub encoded : codec.encode_tx t ≡ some data'
    pub found : store.get d (codec.tx_hash t) ≡ some data'

  put-HasTx :
      (t : T) (b : Bytes) (d d' : D)
      → codec.encode_tx t ≡ some b
      → store.put d (codec.tx_hash t) b ≡ some d'
      → HasTx t d'
  put-HasTx t b d d' e p = record {
    data' = b;
    encoded = e;
    found = store_laws.get-put d d' (codec.tx_hash t) b p;
  }

  HasTx-keep :
      (t u : T) (b : Bytes) (d d' : D)
      → codec.encode_tx u ≡ some b
      → store.put d (codec.tx_hash u) b ≡ some d'
      → HasTx t d
      → HasTx t d'
  HasTx-keep t u b d d' e p h = elim (Bool-cases (codec.tx_hash u == codec.tx_hash t)) [
    | inl same ↦
        subst (λ x. HasTx x d')
          (codec_laws.tx_hash-inj u t (eq_of_== (codec.tx_hash u) (codec.tx_hash t) same))
          (put-HasTx u b d d' e p)
    | inr other ↦ record {
      data' = h.data';
      encoded = h.encoded;
      found =
          store_laws.get-put_ne d d' (codec.tx_hash u) (codec.tx_hash t) b p
            (ne_of_== (codec.tx_hash u) (codec.tx_hash t) other)
          ∙ h.found;
    }
  ]

  pub write_transactions-HasTx :
      (t : T) (ts : List T) (s u : State) (a : Unit {0})
      → In t ts
      → write_transactions store codec db accounts ts s ≡ gives a u
      → HasTx t u.db
  write_transactions-HasTx t [] s u a i h = absurd i
  write_transactions-HasTx t (x ∷ ts) s u a (inl here) h =
      let (b, d, e, w, q) = write_transactions-cons x ts s u a h in
      write_transactions-keeps (HasTx t) (HasTx-keep t) ts (record s { db = d }) u a q
        (subst (λ z. HasTx z d) (sym here) (put-HasTx x b s.db d e w))
  write_transactions-HasTx t (x ∷ ts) s u a (inr later) h =
      let (b, d, e, w, q) = write_transactions-cons x ts s u a h in
      write_transactions-HasTx t ts (record s { db = d }) u a later q

  -- The other keys are not written to.
  pub write_transactions-other :
      (k : Bytes) (ts : List T) (s u : State) (a : Unit {0})
      → length k ≢ hash_length
      → write_transactions store codec db accounts ts s ≡ gives a u
      → store.get u.db k ≡ store.get s.db k
  write_transactions-other k ts s u a n p =
      write_transactions-keeps (λ d. store.get d k ≡ store.get s.db k)
        (λ t b d d' e w h.
          store_laws.get-put_ne d d' (codec.tx_hash t) k b w
            (other_length (codec.tx_hash t) k (λ m. n (sym m ∙ codec_laws.length-tx_hash t)))
          ∙ h)
        ts s u a p refl
