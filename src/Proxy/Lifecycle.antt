-- ===== src/Proxy/Lifecycle.antt =====
-- proxy/proxy_state.go, proxy/mem_pool.go and proxy/inmem_proxy.go: the state of the proxy from its start
-- on, and what is asked of it.
use paradigm.Prelude.{
  ℕ, String, Option, none, some, List, [], ◌∷◌, ◌++◌, eqb, if◌then◌else◌, length, replicate, ℤ, pos,
  ◌+ℤ◌, ◌==◌, nat_eq, int_eq, string_eq, pair_eq,
}
use paradigm.Common.Bytes.{Hash, hash_length, bytes_eq, bytes_to_hash}
use paradigm.Common.Effects.{Effect, gives, fails, panics, ◌>>=◌, return, state}
use paradigm.Proxy.Chain.{Store, Codec, Accounts}
use paradigm.Proxy.Receipts.{Receipt, of_storage}
use paradigm.Proxy.State.{
  ProxyErr, store_err, decode_err, message_err, accounts_err, TxPool, ProxyState, Account,
  gas_limit, head_tx_key, receipts_prefix, lift, change_was, reset_was, commit,
}
use paradigm.Proxy.StateDb.{StateDb}
use paradigm.Proxy.Transition.{process_message}

-- `NewTxPool`
unfoldable pub new_tx_pool : {W : Type 0} → W → ℕ → TxPool W
new_tx_pool w limit = record { state_db = w; gas_limit = limit; total_used_gas = none; gp = none }

module _ {D W T L : Type 0} (store : Store D) (codec : Codec T L) (db : StateDb W)
    (accounts : Accounts D W L) where
  abbrev pub State : Type 0
  State = ProxyState D W T L

  -- `GetTransaction`
  unfoldable pub get_transaction : Hash → Effect ProxyErr D T
  get_transaction hash d =
      (do data' ← lift store_err (store.get d hash); lift decode_err (codec.decode_tx data')) d

  -- `GetReceipt`
  unfoldable pub get_receipt : Hash → Effect ProxyErr D (Receipt L)
  get_receipt tx_hash d =
      (do
        data' ← lift store_err (store.get d (receipts_prefix ++ tx_hash))
        stored ← lift decode_err (codec.decode_receipt data')
        lift decode_err (of_storage stored))
        d

  -- `state.New` at a root, and a pool on a copy of it; a copy of nil panics
  abbrev pub start_at : Hash → Effect ProxyErr D (W × Option (TxPool W))
  start_at root d = elim (accounts.new d root) [
    | none ↦ panics
    | some w ↦ gives (w, some (new_tx_pool (accounts.copy w) gas_limit)) d
  ]

  -- `InitState`: the accounts and the pool
  unfoldable pub init_state : Effect ProxyErr D (W × Option (TxPool W))
  unfolding get_receipt new_tx_pool
  init_state d = elim (store.get d head_tx_key) [
    | none ↦ start_at (replicate hash_length 0) d
    | some [] ↦ start_at (replicate hash_length 0) d
    | some (b ∷ bs) ↦
        let head_tx_hash = bytes_to_hash (b ∷ bs) in
        if head_tx_hash == codec.tx_hash codec.empty_tx
        then (do w ← lift accounts_err (accounts.new d (replicate hash_length 0)); return (w, none))
            d
        else (do
          receipt ← get_receipt head_tx_hash
          start_at (
              if eqb (length receipt.post_state) 0
              then replicate hash_length 0
              else bytes_to_hash receipt.post_state))
            d
  ]

  -- `NewState`
  unfoldable pub new_state : Effect ProxyErr D State
  unfolding init_state reset_was
  new_state = do
    started ← init_state
    d ← state
    return (
        reset_was store codec db accounts (record {
          db = d;
          state_db = started.0;
          was = record {
            state_db = started.0;
            tx_index = 0;
            transactions = [];
            receipts = [];
            all_logs = [];
            total_used_gas = pos 0;
            gp = 0;
          };
          tx_pool = started.1;
        }))

  -- the storage of one account of `CreateAccounts`
  unfoldable pub set_storage : W → ℕ → List (String × String) → W
  set_storage w a [] = w
  set_storage w a ((k, v) ∷ kvs) =
      set_storage (accounts.set_state w a (codec.hex_to_hash k) (codec.hex_to_hash v)) a kvs

  -- the loop of `CreateAccounts`, none for the panic on a balance
  unfoldable pub allocate : W → List (String × Account) → Option W
  unfolding set_storage
  allocate w [] = some w
  allocate w ((addr, account) ∷ rest) = elim (codec.parse_balance account.balance) [
    | none ↦ none
    | some x ↦
        let a = codec.hex_to_address addr in
        allocate
          (set_storage
            (accounts.set_code (db.add_balance w a x) a (codec.hex_to_bytes account.code)) a
            account.storage)
          rest
  ]

  -- `CreateAccounts`, of the accounts in the order in which the map gives them
  unfoldable pub create_accounts : List (String × Account) → Effect ProxyErr State Hash
  unfolding allocate commit
  create_accounts account_map s = elim (allocate s.was.state_db account_map) [
    | none ↦ panics
    | some w ↦
        commit store codec db accounts
          (change_was store codec db accounts (λ v. record v { state_db = w }) s)
  ]

  -- `CheckTx` of the pool. Without its gas pool it panics on every message: where `ProcessMessage` fails it
  -- gives no gas to add, and where it does not, it uses the pool.
  unfoldable pub check_tx : T → Effect ProxyErr (TxPool W) (Unit {0})
  check_tx tx p = elim (codec.as_message tx) [
    | none ↦ fails message_err p
    | some msg ↦ elim p.gp [
      | none ↦ panics
      | some gp ↦ elim p.total_used_gas [
        | none ↦ panics
        | some total ↦ elim (process_message db msg gp p.state_db) [
          | gives gas (gp', w) ↦
              gives tt
                (record p { state_db = w; gp = some gp'; total_used_gas = some (total +ℤ gas) })
          | fails e s ↦ panics
          | panics ↦ panics
        ]
      ]
    ]
  ]

  -- `GetBalance`
  abbrev pub get_balance : State → ℕ → ℤ
  get_balance s addr = db.get_balance s.state_db addr

  -- `GetNonce`
  abbrev pub get_nonce : State → ℕ → ℕ
  get_nonce s addr = db.get_nonce s.was.state_db addr

  -- `GetPoolNonce`, none for the panic on a nil pool
  abbrev pub get_pool_nonce : State → ℕ → Option ℕ
  get_pool_nonce s addr = elim s.tx_pool [
    | none ↦ none
    | some p ↦ some (db.get_nonce p.state_db addr)
  ]
