-- ===== src/Types/Block.antt =====
-- types/block.go: blocks and their signatures. The printing of a validator's key, `ValidatorHex`, is a
-- parameter of the operation that uses it.
use paradigm.Prelude.{ℕ, String, List, [], ◌++◌, ℤ, nat_eq, int_eq, string_eq, pair_eq, Map, store}

pub record BlockBody : Type 0 where
  pub index : ℤ
  pub round_received : ℤ
  pub state_hash : List ℕ
  pub transactions : List (List ℕ)

pub record BlockSignature : Type 0 where
  pub validator : List ℕ
  pub index : ℤ
  pub signature : String

pub record WireBlockSignature : Type 0 where
  pub index : ℤ
  pub signature : String

pub record Block : Type 0 where
  pub body : BlockBody
  pub signatures : Map String String

-- `NewBlock`
unfoldable pub new_block : ℤ → ℤ → List (List ℕ) → Block
new_block index round_received transactions = record {
  body = record {
    index = index;
    round_received = round_received;
    state_hash = [];
    transactions = transactions;
  };
  signatures = [];
}

-- `ToWire` of a signature
unfoldable pub to_wire_signature : BlockSignature → WireBlockSignature
to_wire_signature bs = record { index = bs.index; signature = bs.signature }

-- `AppendTransactions`
unfoldable pub append_transactions : Block → List (List ℕ) → Block
append_transactions b txs =
    let old = b.body in record b { body = record old { transactions = old.transactions ++ txs } }

-- `SetSignature`
unfoldable pub set_signature : (List ℕ → String) → Block → BlockSignature → Block
set_signature validator_hex b bs = record b {
  signatures = store (validator_hex bs.validator) bs.signature b.signatures;
}
