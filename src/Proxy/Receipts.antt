-- ===== src/Proxy/Receipts.antt =====
-- types/receipt.go: the receipt of a transaction, and what of it is stored. A bloom filter is the number of
-- its 256 bytes, an address that of its 20 bytes; the logs are of a type of their own.
use paradigm.Prelude.{
  ℕ, zero, suc, ◌<◌, ◌≡◌, refl, ap, ◌⊎◌, inl, inr, Bool, false, Option, none, some, List, [], ◌∷◌,
  map, arith, eqb, if◌then◌else◌, length, replicate, ℤ, pos, ◌==◌, nat_eq, int_eq, string_eq,
  pair_eq, ==_ne,
}
use paradigm.Common.Bytes.{bytes_equal, Bytes, Hash, hash_length, bytes_eq}

pub record Receipt (L : Type 0) : Type 0 where
  pub post_state : Bytes
  pub status : ℕ
  pub cumulative_gas_used : ℤ
  pub bloom : ℕ
  pub logs : List L
  pub tx_hash : Hash
  pub contract_address : ℕ
  pub gas_used : Option ℤ

-- `receiptStorageRLP`
pub record StoredReceipt (L : Type 0) : Type 0 where
  pub post_state_or_status : Bytes
  pub cumulative_gas_used : ℤ
  pub bloom : ℕ
  pub tx_hash : Hash
  pub contract_address : ℕ
  pub logs : List L
  pub gas_used : Option ℤ

abbrev pub receipt_status_failed : ℕ
receipt_status_failed = 0

abbrev pub receipt_status_successful : ℕ
receipt_status_successful = 1

abbrev pub receipt_status_failed_rlp : Bytes
receipt_status_failed_rlp = []

abbrev pub receipt_status_successful_rlp : Bytes
receipt_status_successful_rlp = 1 ∷ []

-- A number that may be nil, as it is encoded.
abbrev pub or_zero : Option ℤ → ℤ
or_zero none = pos 0
or_zero (some n) = n

module _ {L : Type 0} where
  -- `NewReceipt`
  unfoldable pub new_receipt : Bytes → Bool → ℤ → Receipt L
  new_receipt root failed cumulative_gas_used = record {
    post_state = root;
    status = if failed then receipt_status_failed else receipt_status_successful;
    cumulative_gas_used = cumulative_gas_used;
    bloom = 0;
    logs = [];
    tx_hash = replicate hash_length 0;
    contract_address = 0;
    gas_used = none;
  }

  -- `statusEncoding`
  unfoldable pub status_encoding : Receipt L → Bytes
  status_encoding r =
      if eqb (length r.post_state) 0
      then (if eqb r.status receipt_status_failed
          then receipt_status_failed_rlp
          else receipt_status_successful_rlp)
      else r.post_state

  -- `setStatus`, none for its error
  unfoldable pub set_status : Bytes → Receipt L → Option (Receipt L)
  set_status b r =
      if b == receipt_status_successful_rlp
      then some (record r { status = receipt_status_successful })
      else if b == receipt_status_failed_rlp
      then some (record r { status = receipt_status_failed })
      else if eqb (length b) hash_length
      then some (record r { post_state = b })
      else none

  -- what `EncodeRLP` of a receipt for storage encodes
  unfoldable pub for_storage : Receipt L → StoredReceipt L
  unfolding status_encoding
  for_storage r = record {
    post_state_or_status = status_encoding r;
    cumulative_gas_used = r.cumulative_gas_used;
    bloom = r.bloom;
    tx_hash = r.tx_hash;
    contract_address = r.contract_address;
    logs = r.logs;
    gas_used = r.gas_used;
  }

  -- the receipt that `DecodeRLP` writes to
  abbrev pub blank : Receipt L
  blank = record {
    post_state = [];
    status = 0;
    cumulative_gas_used = pos 0;
    bloom = 0;
    logs = [];
    tx_hash = replicate hash_length 0;
    contract_address = 0;
    gas_used = none;
  }

  -- `DecodeRLP` of a receipt for storage, from what is decoded
  unfoldable pub of_storage : StoredReceipt L → Option (Receipt L)
  unfolding set_status
  of_storage dec = elim (set_status dec.post_state_or_status blank) [
    | none ↦ none
    | some r ↦ some (record r {
      cumulative_gas_used = dec.cumulative_gas_used;
      bloom = dec.bloom;
      logs = dec.logs;
      tx_hash = dec.tx_hash;
      contract_address = dec.contract_address;
      gas_used = dec.gas_used;
    })
  ]

  -- What decoding gives of an encoded receipt, for what it gives of a log: gas that is nil is written as 0.
  unfoldable pub as_decoded : (L → L) → StoredReceipt L → StoredReceipt L
  as_decoded stored_log dec = record dec {
    logs = map stored_log dec.logs;
    gas_used = some (or_zero dec.gas_used);
  }

  -- What is read back of a receipt: its status is kept only without a post state, nil gas is 0, and of its
  -- logs there is what is stored of a log.
  unfoldable pub as_stored : (L → L) → Receipt L → Receipt L
  as_stored stored_log r = record r {
    status = if eqb (length r.post_state) 0 then (if eqb r.status 0 then 0 else 1) else 0;
    logs = map stored_log r.logs;
    gas_used = some (or_zero r.gas_used);
  }

  root_is_no_status :
      (b : Bytes)
      → length b ≡ hash_length
      → (r : Receipt L) → set_status b r ≡ some (record r { post_state = b })
  unfolding set_status
  root_is_no_status b h r =
      let long : (c : Bytes) → length c < hash_length → (b == c) ≡ false =
        λ c k. ==_ne b c (λ e. omega (arith, h, ap length e, k)) in
      let successful = long receipt_status_successful_rlp (omega arith) in
      let failed = long receipt_status_failed_rlp (omega arith) in
      ground (arith, successful, failed, h)

  kept : Bytes → ℕ → Receipt L → Receipt L
  kept p n r = record r { post_state = p; status = n }

  of_storage-root :
      (f : L → L) (p : Bytes) (n : ℕ) (r : Receipt L)
      → length p ≡ hash_length
      → of_storage (as_decoded f (for_storage (kept p n r))) ≡ some (as_stored f (kept p n r))
  unfolding of_storage for_storage status_encoding as_stored as_decoded kept
  of_storage-root f p n r h =
      let long : eqb (length p) 0 ≡ false = rw h refl in
      ground (arith, root_is_no_status p h blank, long)

  of_storage-kept :
      (f : L → L) (p : Bytes) (n : ℕ) (r : Receipt L)
      → (length p ≡ 0) ⊎ (length p ≡ hash_length)
      → of_storage (as_decoded f (for_storage (kept p n r))) ≡ some (as_stored f (kept p n r))
  unfolding of_storage for_storage status_encoding as_stored as_decoded set_status bytes_equal kept
  of_storage-kept f [] zero r h = refl
  of_storage-kept f [] (suc n) r h =
      let failed : eqb (suc n) 0 ≡ false = ground arith in ground (arith, failed)
  of_storage-kept f (x ∷ xs) n r (inl h) = absurd (omega (arith, h))
  of_storage-kept f (x ∷ xs) n r (inr h) = of_storage-root f (x ∷ xs) n r h

  -- A receipt whose post state is empty or a hash is read back as `as_stored` says.
  pub of_storage-for_storage :
      (f : L → L) (r : Receipt L)
      → (length r.post_state ≡ 0) ⊎ (length r.post_state ≡ hash_length)
      → of_storage (as_decoded f (for_storage r)) ≡ some (as_stored f r)
  unfolding kept
  of_storage-for_storage f r h = of_storage-kept f r.post_state r.status r h
