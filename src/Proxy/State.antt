-- ===== src/Proxy/State.antt =====
-- proxy/proxy_state.go, proxy/proxy_was_state.go and proxy/mem_pool.go: the state that blocks are applied
-- to. The write-ahead state and the proxy hold the same store, which is kept once.
use paradigm.Prelude.{
  ℕ, suc, ◌+◌, String, false, Option, none, some, List, [], ◌∷◌, ◌++◌, ℤ, pos, ◌+ℤ◌, nat_eq, int_eq,
  string_eq, pair_eq,
}
use paradigm.Common.Bytes.{Bytes, Hash, bytes_eq, bytes_to_hash}
use paradigm.Common.Effects.{Effect, gives, fails, panics, ◌>>=◌, ◌>>◌, return, fail, state, modify}
use paradigm.Proxy.Chain.{Store, Codec, Accounts}
use paradigm.Proxy.GasPool.{GasPool, add_gas}
use paradigm.Proxy.Receipts.{Receipt, new_receipt, for_storage}
use paradigm.Proxy.StateDb.{StateDb}
use paradigm.Proxy.Transition.{Message, TxErr, process_message}
use paradigm.Types.Block.{Block}

pub data ProxyErr : Type 0 where
  store_err : ProxyErr
  decode_err : ProxyErr
  encode_err : ProxyErr
  message_err : ProxyErr
  accounts_err : ProxyErr
  tx_err : TxErr → ProxyErr

pub record WriteAheadState (W T L : Type 0) : Type 0 where
  pub state_db : W
  pub tx_index : ℕ
  pub transactions : List T
  pub receipts : List (Receipt L)
  pub all_logs : List L
  pub total_used_gas : ℤ
  pub gp : GasPool

-- The gas that is used, and the gas that is left, are nil until the first `Reset`.
pub record TxPool (W : Type 0) : Type 0 where
  pub state_db : W
  pub gas_limit : ℕ
  pub total_used_gas : Option ℤ
  pub gp : Option GasPool

pub record ProxyState (D W T L : Type 0) : Type 0 where
  pub db : D
  pub state_db : W
  pub was : WriteAheadState W T L
  pub tx_pool : Option (TxPool W)

-- an account of the genesis file
pub record Account : Type 0 where
  pub code : String
  pub storage : List (String × String)
  pub balance : String

abbrev pub gas_limit : ℕ
gas_limit = 1000000000000000000

-- the bytes of "LastTx"
abbrev pub head_tx_key : Bytes
head_tx_key = 76 ∷ 97 ∷ 115 ∷ 116 ∷ 84 ∷ 120 ∷ []

-- the bytes of "receipts-"
abbrev pub receipts_prefix : Bytes
receipts_prefix = 114 ∷ 101 ∷ 99 ∷ 101 ∷ 105 ∷ 112 ∷ 116 ∷ 115 ∷ 45 ∷ []

-- the last element, or the one given
abbrev pub last_or : {A : Type 0} → A → List A → A
last_or a [] = a
last_or a (x ∷ xs) = last_or x xs

abbrev pub lift : {E S A : Type 0} → E → Option A → Effect E S A
lift e none = fail e
lift e (some a) = return a

module _ {D W T L : Type 0} (store : Store D) (codec : Codec T L) (db : StateDb W)
    (accounts : Accounts D W L) where
  abbrev pub State : Type 0
  State = ProxyState D W T L

  abbrev pub Step : Type 0 → Type 0
  Step A = Effect ProxyErr State A

  -- `Put`
  unfoldable pub put : Bytes → Bytes → Step (Unit {0})
  put k v = do s ← state; d ← lift store_err (store.put s.db k v); modify (λ t. record t { db = d })

  -- `writeHead`
  unfoldable pub write_head : Step (Unit {0})
  unfolding put
  write_head = do
    s ← state
    put head_tx_key (codec.tx_hash (last_or codec.empty_tx s.was.transactions))

  -- `writeTransactions`
  unfoldable pub write_transactions : List T → Step (Unit {0})
  unfolding put
  write_transactions [] = return tt
  write_transactions (t ∷ ts) = do
    data' ← lift encode_err (codec.encode_tx t)
    put (codec.tx_hash t) data'
    write_transactions ts

  -- `writeReceipts`
  unfoldable pub write_receipts : List (Receipt L) → Step (Unit {0})
  unfolding put
  write_receipts [] = return tt
  write_receipts (r ∷ rs) = do
    data' ← lift encode_err (codec.encode_receipt (for_storage r))
    put (receipts_prefix ++ r.tx_hash) data'
    write_receipts rs

  abbrev pub change_was : (WriteAheadState W T L → WriteAheadState W T L) → State → State
  change_was f s = record s { was = f s.was }

  -- the commit of the accounts
  unfoldable pub commit_accounts : Step Hash
  commit_accounts s =
      let done = accounts.commit_to s.was.state_db s.db in
      let t = record (change_was (λ w. record w { state_db = done.1.0 }) s) { db = done.1.1 } in
      elim done.0 [ none ↦ fails accounts_err t | some root ↦ gives root t ]

  -- `Commit` of the write-ahead state
  unfoldable pub was_commit : Step Hash
  unfolding commit_accounts write_head write_transactions write_receipts
  was_commit = do
    root ← commit_accounts
    write_head
    s ← state
    write_transactions s.was.transactions
    write_receipts s.was.receipts
    return root

  -- `resetWAS`
  unfoldable pub reset_was : State → State
  unfolding add_gas
  reset_was s = record s {
    was = record {
      state_db = accounts.copy s.state_db;
      tx_index = 0;
      transactions = [];
      receipts = [];
      all_logs = [];
      total_used_gas = pos 0;
      gp = add_gas 0 gas_limit;
    };
  }

  -- `Reset` of the pool; a nil pool panics
  unfoldable pub reset_pool : Hash → Step (Unit {0})
  unfolding add_gas
  reset_pool root s = elim s.tx_pool [
    | none ↦ panics
    | some p ↦ elim (accounts.reset s.db p.state_db root) [
      | none ↦ fails accounts_err s
      | some w ↦ gives tt (record s {
        tx_pool = some (record p {
          state_db = w;
          total_used_gas = some (pos 0);
          gp = some (add_gas 0 p.gas_limit);
        });
      })
    ]
  ]

  -- `commit`
  unfoldable pub commit : Step Hash
  unfolding was_commit reset_was reset_pool
  commit = do
    root ← was_commit
    modify (λ s. record s { state_db = s.was.state_db })
    modify reset_was
    reset_pool root
    return root

  -- `ProcessMessage` on the write-ahead state, which it changes also where it fails
  unfoldable pub run_message : Message → Step ℤ
  run_message msg s = elim (process_message db msg s.was.gp s.was.state_db) [
    | gives gas (gp, w) ↦ gives gas (change_was (λ v. record v { gp = gp; state_db = w }) s)
    | fails e (gp, w) ↦ fails (tx_err e) (change_was (λ v. record v { gp = gp; state_db = w }) s)
    | panics ↦ panics
  ]

  -- the receipt of a transaction
  unfoldable pub receipt_of : T → ℤ → ℤ → Hash → W → Receipt L
  unfolding new_receipt
  receipt_of t gas total root w =
      let r = record (new_receipt root false total) {
        tx_hash = codec.tx_hash t;
        gas_used = some gas;
        logs = accounts.get_logs w (codec.tx_hash t);
      } in
      record r { bloom = codec.create_bloom r }

  -- `applyTransaction`
  unfoldable pub apply_transaction : Bytes → ℕ → Hash → Step (Unit {0})
  unfolding run_message receipt_of
  apply_transaction tx_bytes tx_index block_hash = do
    t ← lift decode_err (codec.decode_tx tx_bytes)
    msg ← lift message_err (codec.as_message t)
    modify (
        change_was (λ w. record w {
          state_db = accounts.prepare w.state_db (codec.tx_hash t) block_hash tx_index;
        }))
    gas ← run_message msg
    modify (
        change_was (λ w.
          let total = w.total_used_gas +ℤ gas in
          let rooted = accounts.intermediate_root w.state_db in
          let receipt = receipt_of t gas total rooted.1 rooted.0 in
          record w {
            state_db = rooted.0;
            total_used_gas = total;
            tx_index = w.tx_index + 1;
            transactions = w.transactions ++ (t ∷ []);
            receipts = w.receipts ++ (receipt ∷ []);
            all_logs = w.all_logs ++ receipt.logs;
          }))

  -- the loop of `ProcessBlock`
  unfoldable pub apply_transactions : List Bytes → ℕ → Hash → Step (Unit {0})
  unfolding apply_transaction
  apply_transactions [] i h = return tt
  apply_transactions (b ∷ bs) i h = do apply_transaction b i h; apply_transactions bs (suc i) h

  -- `ProcessBlock`
  unfoldable pub process_block : Block → Step Hash
  unfolding apply_transactions commit
  process_block block = do
    apply_transactions block.body.transactions 0 (bytes_to_hash (codec.block_hash block))
    commit
