-- ===== src/Proxy/Chain.antt =====
-- What proxy/ asks of the rest of the system: a store (`Get` and `Put` of storage/store.go), the encodings
-- of common/rlp and types/transaction.go, and the accounts of state/statedb.go as a whole.
use paradigm.Prelude.{
  ℕ, String, ◌≡◌, ◌≢◌, Option, some, List, length, ℤ, nat_eq, int_eq, string_eq, pair_eq,
}
use paradigm.Common.Bytes.{Bytes, Hash, hash_length}
use paradigm.Proxy.Receipts.{Receipt, StoredReceipt, as_decoded}
use paradigm.Proxy.Transition.{Message}
use paradigm.Types.Block.{Block}

-- None is an error: a key that is missing, a value that cannot be written.
pub record Store (D : Type 0) : Type 0 where
  pub get : D → Bytes → Option Bytes
  pub put : D → Bytes → Bytes → Option D

-- A store gives what was put last under a key.
pub record StoreLaws {D : Type 0} (store : Store D) : Type 0 where
  pub get-put : (d d' : D) (k v : Bytes) → store.put d k v ≡ some d' → store.get d' k ≡ some v
  pub get-put_ne :
      (d d' : D) (j k v : Bytes)
      → store.put d j v ≡ some d'
      → j ≢ k
      → store.get d' k ≡ store.get d k

-- Transactions are of a type `T`, logs of a type `L`.
pub record Codec (T L : Type 0) : Type 0 where
  pub tx_hash : T → Hash
  -- `&types.Transaction{}`
  pub empty_tx : T
  pub encode_tx : T → Option Bytes
  pub decode_tx : Bytes → Option T
  -- `AsMessage` with the basic signer
  pub as_message : T → Option Message
  pub encode_receipt : StoredReceipt L → Option Bytes
  pub decode_receipt : Bytes → Option (StoredReceipt L)
  -- what `LogForStorage` writes of a log and reads again: all of it but `Removed`
  pub stored_log : L → L
  pub create_bloom : Receipt L → ℕ
  -- the bytes that `Hash` of a block gives, none where it fails
  pub block_hash : Block → Bytes
  pub hex_to_address : String → ℕ
  -- `MustParseBig256`, none for its panic
  pub parse_balance : String → Option ℤ
  pub hex_to_bytes : String → Bytes
  pub hex_to_hash : String → Hash

-- What is encoded can be decoded, a receipt with its nil gas and its logs as they are stored; a hash has 32 bytes, and no two transactions have the same.
pub record CodecLaws {T L : Type 0} (codec : Codec T L) : Type 0 where
  pub length-tx_hash : (t : T) → length (codec.tx_hash t) ≡ hash_length
  pub tx_hash-inj : (t u : T) → codec.tx_hash t ≡ codec.tx_hash u → t ≡ u
  pub decode-encode_tx :
      (t : T) (b : Bytes) → codec.encode_tx t ≡ some b → codec.decode_tx b ≡ some t
  pub decode-encode_receipt :
      (r : StoredReceipt L) (b : Bytes)
      → codec.encode_receipt r ≡ some b
      → codec.decode_receipt b ≡ some (as_decoded codec.stored_log r)

-- The accounts `W` beside those operations that a message uses.
pub record Accounts (D W L : Type 0) : Type 0 where
  -- `state.New` on a root, none for its error
  pub new : D → Hash → Option W
  pub copy : W → W
  pub prepare : W → Hash → Hash → ℕ → W
  pub intermediate_root : W → W × Hash
  pub get_logs : W → Hash → List L
  -- `CommitTo`: the root, none for an error, and what it leaves of the accounts and the store
  pub commit_to : W → D → Option Hash × (W × D)
  -- `Reset` to a root, none for its error
  pub reset : D → W → Hash → Option W
  pub set_code : W → ℕ → Bytes → W
  pub set_state : W → ℕ → Hash → Hash → W
