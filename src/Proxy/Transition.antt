-- ===== src/Proxy/Transition.antt =====
-- proxy/proxy_processor.go: how a message changes the accounts. Amounts of a message are not negative, a
-- balance is an integer; the gas that is left is a `uint64`.
pub mod Charge
pub mod Outcomes
pub mod Settle
use paradigm.Prelude.{
  ℕ, suc, ◌+◌, ◌-◌, ◌*◌, ◌/◌, ◌%◌, ◌^◌, Bool, not, ◌&&◌, Option, none, some, ltb, if◌then◌else◌, ℤ,
  pos, negsuc, ltb_ℤ, ◌-ℤ◌, nat_eq, int_eq, string_eq, pair_eq,
}
use paradigm.Common.Effects.{
  Ran, Effect, gives, fails, panics, ◌>>=◌, ◌>>◌, return, fail, state, modify, guard,
}
use paradigm.Proxy.GasPool.{GasPool, add_gas, sub_gas}
use paradigm.Proxy.StateDb.{StateDb}

pub record Message : Type 0 where
  pub from : ℕ
  pub to : Option ℕ
  pub nonce : ℕ
  pub amount : ℕ
  pub gas_price : ℕ
  pub gas_limit : ℕ
  pub check_nonce : Bool

pub data TxErr : Type 0 where
  nonce_too_high : TxErr
  nonce_too_low : TxErr
  insufficient_balance_for_gas : TxErr
  insufficient_balance : TxErr
  out_of_gas : TxErr
  gas_limit_reached : TxErr

-- The fields that the message gives are read from the message.
pub record StateTransition (W : Type 0) : Type 0 where
  pub gp : GasPool
  pub gas : ℕ
  pub initial_gas : ℕ
  pub state_db : W

abbrev pub uint64 : ℕ → ℕ
uint64 n = n % 2 ^ 64

-- `Uint64` of an integer: the last 64 bits of its magnitude
abbrev pub to_uint64 : ℤ → ℕ
to_uint64 (pos n) = uint64 n
to_uint64 (negsuc n) = uint64 (suc n)

-- `Div` by 2, rounded down
abbrev pub half_of : ℤ → ℤ
half_of (pos n) = pos (n / 2)
half_of (negsuc n) = negsuc (n / 2)

-- `Mul` by an amount
abbrev pub times : ℤ → ℕ → ℤ
times (pos n) k = pos (n * k)
times (negsuc n) k = pos 0 -ℤ pos (suc n * k)

-- the gas that every message takes
abbrev pub intrinsic_gas : ℕ
intrinsic_gas = 100

module _ {W : Type 0} (db : StateDb W) (msg : Message) where
  abbrev pub Tx : Type 0 → Type 0
  Tx A = Effect TxErr (StateTransition W) A

  -- a change of the accounts
  abbrev pub update : (W → W) → Tx (Unit {0})
  update f = modify (λ st. record st { state_db = f st.state_db })

  -- the account of an address, created if there is none
  unfoldable pub ensure : W → ℕ → W
  ensure w a = if db.exist w a then w else db.create_account w a

  -- `from`
  unfoldable pub from : Tx ℕ
  unfolding ensure
  from = do update (λ w. ensure w msg.from); return msg.from

  -- the address of `to`: the zero address for a message that creates a contract
  abbrev pub recipient : ℕ
  recipient = elim msg.to [ none ↦ 0 | some a ↦ a ]

  -- the account that `to` creates if there is none
  unfoldable pub open_to : W → W
  unfolding ensure
  open_to w = elim msg.to [ none ↦ w | some a ↦ ensure w a ]

  -- `to`
  unfoldable pub to : Tx ℕ
  unfolding open_to
  to = do update open_to; return recipient

  -- `useGas`
  unfoldable pub use_gas : ℕ → Tx (Unit {0})
  use_gas amount = do
    st ← state
    guard (not (ltb st.gas amount)) out_of_gas
    modify (λ s. record s { gas = s.gas - amount })

  -- `buyGas`
  unfoldable pub buy_gas : Tx (Unit {0})
  unfolding from sub_gas
  buy_gas = do
    guard (ltb msg.gas_limit (2 ^ 64)) out_of_gas
    sender ← from
    st ← state
    guard (not (ltb_ℤ (db.get_balance st.state_db sender) (pos (msg.gas_limit * msg.gas_price))))
        insufficient_balance_for_gas
    gp ← (elim (sub_gas st.gp msg.gas_limit) [ none ↦ fail gas_limit_reached | some g ↦ return g ])
    modify (λ s. record s {
      gp = gp;
      gas = uint64 (s.gas + msg.gas_limit);
      initial_gas = msg.gas_limit;
    })
    update (λ w. db.sub_balance w sender (pos (msg.gas_limit * msg.gas_price)))

  -- `preCheck`
  unfoldable pub pre_check : Tx (Unit {0})
  unfolding from buy_gas
  pre_check = do
    sender ← from
    st ← state
    let nonce = db.get_nonce st.state_db sender
    guard (not (msg.check_nonce && ltb nonce msg.nonce)) nonce_too_high
    guard (not (msg.check_nonce && ltb msg.nonce nonce)) nonce_too_low
    buy_gas

  -- `gasUsed`
  unfoldable pub gas_used : StateTransition W → ℤ
  gas_used st = pos st.initial_gas -ℤ pos st.gas

  -- `Transfer`
  unfoldable pub transfer : W → ℕ → ℕ → ℕ → W
  transfer w sender recipient amount =
      db.add_balance (db.sub_balance w sender (pos amount)) recipient (pos amount)

  -- the refund of `refundGas`: at most half of the used gas. Where it is the counter itself, the product
  -- with the price is written to the counter.
  unfoldable pub refund_counter : ℕ → Tx ℤ
  unfolding gas_used
  refund_counter sender = do
    st ← state
    let half = half_of (gas_used st)
    let counter = db.get_refund st.state_db
    if ltb_ℤ (pos counter) half
        then (do
          modify (λ s. record s {
            gas = uint64 (s.gas + counter);
            state_db = db.set_refund s.state_db (counter * msg.gas_price);
          })
          return (pos (counter * msg.gas_price)))
        else (do
          modify (λ s. record s { gas = uint64 (s.gas + to_uint64 half) })
          return (times half msg.gas_price))

  -- `refundGas`
  unfoldable pub refund_gas : Tx (Unit {0})
  unfolding from refund_counter add_gas
  refund_gas = do
    sender ← from
    st ← state
    update (λ w. db.add_balance w sender (pos (st.gas * msg.gas_price)))
    refund ← refund_counter sender
    update (λ w. db.add_balance w sender refund)
    modify (λ s. record s { gp = add_gas s.gp s.gas })

  -- `CanTransfer`
  unfoldable pub can_transfer : W → ℕ → ℕ → Bool
  can_transfer w a amount = not (ltb_ℤ (db.get_balance w a) (pos amount))

  -- `TransitionOnNative`: the used gas before and after the refund
  unfoldable pub transition_on_native : Tx (ℤ × ℤ)
  unfolding pre_check to use_gas can_transfer transfer from gas_used refund_gas ensure
  transition_on_native = do
    pre_check
    recipient ← to
    use_gas intrinsic_gas
    st ← state
    guard (can_transfer st.state_db msg.from msg.amount) insufficient_balance
    again ← to
    update (λ w. ensure w recipient)
    update (λ w. transfer w msg.from recipient msg.amount)
    sender ← from
    update (λ w. db.set_nonce w sender (uint64 (db.get_nonce w sender + 1)))
    s ← state
    refund_gas
    t ← state
    return (gas_used s, gas_used t)

  -- `ProcessMessage`: the used gas, and what it leaves of the pool and the accounts
  unfoldable pub process_message : GasPool → W → Ran TxErr (GasPool × W) ℤ
  unfolding transition_on_native
  process_message gp w =
      elim (transition_on_native (record { gp = gp; gas = 0; initial_gas = 0; state_db = w })) [
        | gives (required, used) st ↦ gives used (st.gp, st.state_db)
        | fails e st ↦ fails e (st.gp, st.state_db)
        | panics ↦ panics
      ]
