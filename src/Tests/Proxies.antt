-- ===== src/Tests/Proxies.antt =====
-- A run of proxy/: accounts kept as functions, a store that is a function, and one payment.
use mathlib.Core.Path.{subst}
use paradigm.Prelude.{
  ℕ, zero, suc, ◌-◌, String, ◌≡◌, refl, sym, ap, ◌∙◌, ◌≢◌, Bool, true, false, ◌||◌, Option, none,
  some, List, [], ◌∷◌, ◌++◌, map, eqb, if◌then◌else◌, length, take, drop, replicate, ℤ, pos, negsuc,
  ◌+ℤ◌, ◌-ℤ◌, ◌==◌, nat_eq, int_eq, string_eq, pair_eq, ==_refl, ==_ne,
}
use paradigm.Common.Bytes.{Bytes, Hash, hash_length, bytes_eq, bytes_to_hash}
use paradigm.Common.Effects.{Ran, gives, fails, panics, Leaves}
use paradigm.Proxy.Chain.{Store, StoreLaws, Codec, CodecLaws, Accounts}
use paradigm.Proxy.GasPool.{add_gas, sub_gas}
use paradigm.Proxy.Receipts.{
  StoredReceipt, new_receipt, for_storage, status_encoding, as_decoded, or_zero,
}
use paradigm.Proxy.StateDb.{StateDb, StateDbLaws}
use paradigm.Proxy.Transition.{
  Message, process_message, transition_on_native, pre_check, buy_gas, to, open_to, from, ensure,
  use_gas, can_transfer, transfer, gas_used, refund_gas, refund_counter,
}
use paradigm.Proxy.Transition.Outcomes.{Processed, process_message_lem}
use paradigm.Proxy.State.{
  Account, ProxyState, process_block, gas_limit, put, write_head, write_transactions,
  write_receipts, commit_accounts, was_commit, reset_was, reset_pool, commit, run_message,
  receipt_of, apply_transaction, apply_transactions,
}
use paradigm.Proxy.Lifecycle.{
  new_tx_pool, get_receipt, start_at, init_state, new_state, set_storage, allocate, create_accounts,
}
use paradigm.Types.Block.{Block, new_block}
use paradigm.Proxy.Ledger.{Balanced}
use paradigm.Proxy.Applied.{Decoded, AppliedUpTo, apply_transactions_lem, process_block-Balanced}
use paradigm.Proxy.Written.{In}
use paradigm.Proxy.Readback.{IsFound, process_block-IsFound}
use paradigm.Proxy.Restart.{process_block-restart}
use paradigm.Proxy.NilPool.{create_accounts-restart}

-- the accounts
record World : Type 0 where
  exists : ℕ → Bool
  balances : ℕ → ℤ
  nonces : ℕ → ℕ
  refund : ℕ

abbrev world_db : StateDb World
world_db = record {
  exist = λ w a. w.exists a;
  create_account = λ w a. record w { exists = λ b. a == b || w.exists b };
  get_balance = λ w a. w.balances a;
  add_balance =
      λ w a x. record w { balances = λ b. if a == b then w.balances b +ℤ x else w.balances b };
  sub_balance =
      λ w a x. record w { balances = λ b. if a == b then w.balances b -ℤ x else w.balances b };
  get_nonce = λ w a. w.nonces a;
  set_nonce = λ w a n. record w { nonces = λ b. if a == b then n else w.nonces b };
  get_refund = λ w. w.refund;
  set_refund = λ w n. record w { refund = n };
}

world_db_laws : StateDbLaws world_db
world_db_laws = record {
  balance-create = λ w a b h. refl;
  balance-add = λ w a b x. refl;
  balance-sub = λ w a b x. refl;
  balance-set_nonce = λ w a b n. refl;
  balance-set_refund = λ w n b. refl;
  nonce-create = λ w a b h. refl;
  nonce-add = λ w a b x. refl;
  nonce-sub = λ w a b x. refl;
  nonce-set_nonce = λ w a b n. refl;
  nonce-set_refund = λ w n b. refl;
  refund-create = λ w a. refl;
  refund-add = λ w a x. refl;
  refund-sub = λ w a x. refl;
  refund-set_nonce = λ w a n. refl;
}

abbrev no_world : World
no_world = record { exists = λ a. false; balances = λ a. pos 0; nonces = λ a. 0; refund = 0 }

-- a payment of 5 from account 1 to account 2
abbrev payment : ℕ → Message
payment n = record {
  from = 1;
  to = some 2;
  nonce = n;
  amount = 5;
  gas_price = 2;
  gas_limit = 150;
  check_nonce = true;
}

abbrev rich_world : World
rich_world = record {
  exists = λ a. a == 1;
  balances = λ a. if a == 1 then pos 1000 else pos 0;
  nonces = λ a. 0;
  refund = 0;
}

process_message_lem_example :
    Processed world_db world_db_laws
      (payment 0)
      1000
      rich_world
      (process_message world_db (payment 0) 1000 rich_world)
process_message_lem_example =
    process_message_lem world_db world_db_laws (payment 0) 1000 rich_world refl

-- the store
abbrev Disk : Type 0
Disk = Bytes → Option Bytes

abbrev disk : Store Disk
disk = record { get = λ d k. d k; put = λ d k v. some (λ j. if k == j then some v else d j) }

chosen : {A : Type 0} (c : Bool) (x y : A) → c ≡ true → (if c then x else y) ≡ x
chosen c x y h = rw h refl

not_chosen : {A : Type 0} (c : Bool) (x y : A) → c ≡ false → (if c then x else y) ≡ y
not_chosen c x y h = rw h refl

read_at : Bytes → Option Disk → Option Bytes
read_at k none = none
read_at k (some d) = d k

disk_laws : StoreLaws disk
unfolding read_at
disk_laws = record {
  get-put = λ d d' k v h. sym (ap (read_at k) h) ∙ chosen (k == k) (some v) (d k) (==_refl k);
  get-put_ne =
      λ d d' j k v h n. sym (ap (read_at k) h) ∙ not_chosen (j == k) (some v) (d k) (==_ne j k n);
}

-- A transaction is the nonce of a payment and one, the empty one is 0; there are no logs.
abbrev hash_of : ℕ → Hash
hash_of n = n ∷ replicate 31 0

abbrev encode_int : ℤ → ℕ × ℕ
encode_int (pos n) = (0, n)
encode_int (negsuc n) = (1, n)

abbrev decode_int : ℕ → ℕ → ℤ
decode_int zero n = pos n
decode_int (suc k) n = negsuc n

abbrev encode_receipt : StoredReceipt ⊥ → Option Bytes
encode_receipt r =
    let c = encode_int r.cumulative_gas_used in
    let g = encode_int (or_zero r.gas_used) in
    some (
      c.0
      ∷ c.1
      ∷ g.0
      ∷ g.1
      ∷ r.bloom
      ∷ r.contract_address
      ∷ length r.tx_hash
      ∷ (r.tx_hash ++ r.post_state_or_status))

abbrev decode_receipt : Bytes → Option (StoredReceipt ⊥)
decode_receipt (c ∷ n ∷ s ∷ g ∷ bloom ∷ address ∷ k ∷ rest) = some (record {
  post_state_or_status = drop k rest;
  cumulative_gas_used = decode_int c n;
  bloom = bloom;
  tx_hash = take k rest;
  contract_address = address;
  logs = [];
  gas_used = some (decode_int s g);
})
decode_receipt b = none

take_front : (xs ys : Bytes) → take (length xs) (xs ++ ys) ≡ xs
take_front [] ys = refl
take_front (x ∷ xs) ys = ap (λ zs. x ∷ zs) (take_front xs ys)

drop_front : (xs ys : Bytes) → drop (length xs) (xs ++ ys) ≡ ys
drop_front [] ys = refl
drop_front (x ∷ xs) ys = drop_front xs ys

decode-encode_int : (x : ℤ) → decode_int (encode_int x).0 (encode_int x).1 ≡ x
decode-encode_int (pos n) = refl
decode-encode_int (negsuc n) = refl

no_logs : (l : List ⊥) → l ≡ []
no_logs [] = refl
no_logs (x ∷ l) = absurd x

same_record :
    (r : StoredReceipt ⊥) {p : Bytes} {c : ℤ} {h : Hash} {g : ℤ}
    → p ≡ r.post_state_or_status
    → h ≡ r.tx_hash
    → c ≡ r.cumulative_gas_used
    → g ≡ or_zero r.gas_used
    → map (λ l. l) r.logs ≡ []
    → record r {
      post_state_or_status = p;
      cumulative_gas_used = c;
      tx_hash = h;
      logs = [];
      gas_used = some g;
    }
      ≡ as_decoded (λ l. l) r
unfolding as_decoded
same_record r rest hash total gas logs = cc

decode-encode_receipt :
    (r : StoredReceipt ⊥) (b : Bytes)
    → encode_receipt r ≡ some b
    → decode_receipt b ≡ some (as_decoded (λ l. l) r)
decode-encode_receipt r b h =
    let rest = drop_front r.tx_hash r.post_state_or_status in
    let hash = take_front r.tx_hash r.post_state_or_status in
    let total = decode-encode_int r.cumulative_gas_used in
    let gas = decode-encode_int (or_zero r.gas_used) in
    let logs = no_logs (map (λ l. l) r.logs) in
    let whole = as_decoded (λ l. l) r in
    subst (λ o. (elim o [ none ↦ none | some x ↦ decode_receipt x ]) ≡ some whole) h
      (ap some (same_record r rest hash total gas logs))

abbrev codec : Codec ℕ ⊥
codec = record {
  tx_hash = hash_of;
  empty_tx = 0;
  encode_tx = λ n. some (n ∷ []);
  decode_tx = λ b. elim b [ [] ↦ none | x ∷ xs ↦ some x ];
  as_message = λ n. if eqb n 0 then none else some (payment (n - 1));
  encode_receipt = encode_receipt;
  decode_receipt = decode_receipt;
  stored_log = λ l. l;
  create_bloom = λ r. 0;
  block_hash = λ b. 9 ∷ [];
  hex_to_address = λ s. 1;
  parse_balance = λ s. some (pos 1000);
  hex_to_bytes = λ s. [];
  hex_to_hash = λ s. [];
}

codec_laws : CodecLaws codec
codec_laws = record {
  length-tx_hash = λ t. refl;
  tx_hash-inj = λ t u h. ap (λ b. elim b [ [] ↦ 0 | x ∷ xs ↦ x ]) h;
  decode-encode_tx = λ t b h.
      subst (λ o. elim o [ none ↦ none | some x ↦ elim x [ [] ↦ none | y ∷ ys ↦ some y ] ] ≡ some t)
        h refl;
  decode-encode_receipt = decode-encode_receipt;
}

abbrev accounts : Accounts Disk World ⊥
accounts = record {
  new = λ d root. some no_world;
  copy = λ w. w;
  prepare = λ w h g i. w;
  intermediate_root = λ w. (w, hash_of (w.nonces 1));
  get_logs = λ w h. [];
  commit_to = λ w d. (some (hash_of (w.nonces 1)), (w, d));
  reset = λ d w root. some w;
  set_code = λ w a code. w;
  set_state = λ w a k v. w;
}

abbrev left_by :
    {E A : Type 0}
    → ProxyState Disk World ℕ ⊥
    → Ran E (ProxyState Disk World ℕ ⊥) A
    → ProxyState Disk World ℕ ⊥
left_by s (gives a u) = u
left_by s (fails e u) = u
left_by s panics = s

abbrev fresh : ProxyState Disk World ℕ ⊥
fresh = record {
  db = λ k. none;
  state_db = no_world;
  was = record {
    state_db = no_world;
    tx_index = 0;
    transactions = [];
    receipts = [];
    all_logs = [];
    total_used_gas = pos 0;
    gp = gas_limit;
  };
  tx_pool = some (new_tx_pool no_world gas_limit);
}

fresh_test : new_state disk codec world_db accounts (λ k. none) ≡ gives fresh (λ k. none)
unfolding new_state init_state reset_was add_gas new_tx_pool get_receipt
fresh_test = refl

genesis : List (String × Account)
genesis = ("1", record { code = ""; storage = []; balance = "1000" }) ∷ []

funded : ProxyState Disk World ℕ ⊥
funded = left_by fresh (create_accounts disk codec world_db accounts genesis fresh)

block : Block
block = new_block (pos 0) (pos 0) ((1 ∷ []) ∷ [])

paid : ProxyState Disk World ℕ ⊥
paid = left_by funded (process_block disk codec world_db accounts block funded)

genesis_test : create_accounts disk codec world_db accounts genesis fresh ≡ gives (hash_of 0) funded
unfolding create_accounts allocate set_storage commit was_commit commit_accounts write_head put
    write_transactions write_receipts reset_was reset_pool add_gas funded genesis new_tx_pool
genesis_test = refl

block_test : process_block disk codec world_db accounts block funded ≡ gives (hash_of 1) paid
unfolding process_block apply_transactions apply_transaction run_message receipt_of new_receipt
    bytes_to_hash paid block new_block process_message transition_on_native pre_check buy_gas
    sub_gas to open_to from ensure use_gas can_transfer transfer gas_used refund_gas refund_counter
    create_accounts allocate set_storage commit was_commit commit_accounts write_head put
    write_transactions write_receipts reset_was reset_pool add_gas funded genesis new_tx_pool
    for_storage status_encoding ◌+ℤ◌ ◌-ℤ◌
block_test = refl

-- The roots of these accounts.
roots : (w : World) → length (accounts.intermediate_root w).1 ≡ hash_length
roots w = refl

fresh-Balanced : Balanced disk codec world_db accounts fresh
fresh-Balanced = record { ledger = refl; counted = refl }

funded-Balanced : Balanced disk codec world_db accounts funded
unfolding create_accounts allocate set_storage commit was_commit commit_accounts write_head put
    write_transactions write_receipts reset_was reset_pool add_gas funded genesis new_tx_pool
funded-Balanced = record { ledger = refl; counted = refl }

process_block-Balanced_example :
    Leaves
      (Balanced disk codec world_db accounts)
      (process_block disk codec world_db accounts block funded)
process_block-Balanced_example =
    process_block-Balanced disk codec world_db accounts roots block funded funded-Balanced

process_block-IsFound_example :
    (ts : List ℕ) × Decoded disk codec world_db accounts roots block.body.transactions ts
    × ((t : ℕ)
        → In t (funded.was.transactions ++ ts)
        → IsFound disk codec world_db accounts disk_laws codec_laws t paid.db)
process_block-IsFound_example =
    process_block-IsFound disk codec world_db accounts disk_laws codec_laws roots block funded paid
      (hash_of 1) funded-Balanced block_test

roots_agree :
    (w : World) (d : Disk) (root : Hash)
    → (accounts.commit_to (accounts.intermediate_root w).0 d).0 ≡ some root
    → root ≡ (accounts.intermediate_root w).1
roots_agree w d root h = ap (λ o. elim o [ none ↦ [] | some r ↦ r ]) (sym h)

block_full : block.body.transactions ≢ []
unfolding block new_block
block_full h = cc

process_block-restart_example :
    init_state disk codec world_db accounts paid.db
    ≡ start_at disk codec world_db accounts (hash_of 1) paid.db
process_block-restart_example =
    process_block-restart disk codec world_db accounts disk_laws codec_laws roots block funded paid
      (hash_of 1) roots_agree refl funded-Balanced block_full block_test

create_accounts-restart_example :
    (x : ProxyState Disk World ℕ ⊥) × (new_state disk codec world_db accounts funded.db
      ≡ gives x funded.db)
    × ((b : Block) (y : ProxyState Disk World ℕ ⊥) (r : Hash)
        → process_block disk codec world_db accounts b x ≢ gives r y)
create_accounts-restart_example =
    create_accounts-restart disk codec world_db accounts roots disk_laws codec_laws genesis fresh
      funded (hash_of 0) no_world fresh-Balanced refl genesis_test refl

apply_transactions_lem_example :
    AppliedUpTo disk codec world_db accounts roots ((1 ∷ []) ∷ ((1 ∷ []) ∷ [])) funded (
      apply_transactions disk codec world_db accounts
        ((1 ∷ []) ∷ ((1 ∷ []) ∷ []))
        0
        (hash_of 9)
        funded)
apply_transactions_lem_example =
    apply_transactions_lem disk codec world_db accounts roots ((1 ∷ []) ∷ ((1 ∷ []) ∷ [])) 0
      (hash_of 9) funded
