-- ===== src/Proxy/Transition/Charge.antt =====
-- What the check of a message in proxy/proxy_processor.go leaves: the message is refused and nothing has
-- changed, or its gas is bought.
use paradigm.Prelude.{
  ℕ, ◌+◌, ◌-◌, ◌*◌, ◌^◌, ◌≤◌, ◌<◌, ◌≡◌, refl, sym, ap, ◌∙◌, ◌⊎◌, inl, inr, true, false, ◌&&◌, arith,
  ltb, if◌then◌else◌, ltb→lt, Bool-cases, ℤ, pos, ◌≤ℤ◌, ltb_ℤ, ◌-ℤ◌, ltb_ℤ-false→le, ◌==◌, nat_eq,
  int_eq, string_eq, pair_eq,
}
use mathlib.Core.Path.{subst}
use paradigm.Common.Effects.{Ran, gives, fails}
use paradigm.Proxy.GasPool.{sub_gas}
use paradigm.Proxy.StateDb.{StateDb, StateDbLaws}
use paradigm.Proxy.Transition.{
  Message, TxErr, nonce_too_high, nonce_too_low, out_of_gas, insufficient_balance_for_gas,
  gas_limit_reached, StateTransition, uint64, ensure, from, buy_gas, pre_check,
}

module _ {W : Type 0} (db : StateDb W) (laws : StateDbLaws db) where
  -- The accounts of `w` and of `v` have the same balances and nonces, and the refund is the same.
  pub record Alike (w v : W) : Type 0 where
    pub balances : (b : ℕ) → db.get_balance v b ≡ db.get_balance w b
    pub nonces : (b : ℕ) → db.get_nonce v b ≡ db.get_nonce w b
    pub refund : db.get_refund v ≡ db.get_refund w

  pub Alike-refl : (w : W) → Alike w w
  Alike-refl w = record { balances = λ b. refl; nonces = λ b. refl; refund = refl }

  pub Alike-trans : (u v w : W) → Alike u v → Alike v w → Alike u w
  Alike-trans u v w p q = record {
    balances = λ b. q.balances b ∙ p.balances b;
    nonces = λ b. q.nonces b ∙ p.nonces b;
    refund = q.refund ∙ p.refund;
  }

  module _ (msg : Message) where
    pub ensure-Alike : (w : W) (a : ℕ) → Alike w (ensure db msg w a)
    unfolding ensure
    ensure-Alike w a = elim (Bool-cases (db.exist w a)) [
      | inl old ↦ rw old (Alike-refl w)
      | inr new ↦ rw new (record {
        balances = λ b. laws.balance-create w a b new;
        nonces = λ b. laws.nonce-create w a b new;
        refund = laws.refund-create w a;
      })
    ]

    -- what the gas of the message costs
    abbrev pub cost : ℤ
    cost = pos (msg.gas_limit * msg.gas_price)

    -- The gas of the message is bought: the sender has paid for all of it, and the pool has given it.
    pub record Bought (st d : StateTransition W) : Type 0 where
      pub fits : msg.gas_limit < 2 ^ 64
      pub gas : d.gas ≡ uint64 (st.gas + msg.gas_limit)
      pub initial_gas : d.initial_gas ≡ msg.gas_limit
      pub pool : msg.gas_limit ≤ st.gp
      pub gp : d.gp ≡ st.gp - msg.gas_limit
      pub affordable : cost ≤ℤ db.get_balance st.state_db msg.from
      pub balances :
          (b : ℕ)
          → db.get_balance d.state_db b ≡ (
              if msg.from == b
              then db.get_balance st.state_db b -ℤ cost
              else db.get_balance st.state_db b)
      pub nonces : (b : ℕ) → db.get_nonce d.state_db b ≡ db.get_nonce st.state_db b
      pub refund : db.get_refund d.state_db ≡ db.get_refund st.state_db

    -- Nothing has changed but for accounts that are created empty.
    abbrev pub Unchanged : StateTransition W → StateTransition W → Type 0
    Unchanged st d = (d.gp ≡ st.gp) × Alike st.state_db d.state_db

    abbrev pub BoughtOr : StateTransition W → Ran TxErr (StateTransition W) (Unit {0}) → Type 0
    BoughtOr st o =
        ((d : StateTransition W) × (o ≡ gives tt d) × Bought st d)
        ⊎ ((e : TxErr) × (d : StateTransition W) × (o ≡ fails e d) × Unchanged st d)

    buy_gas-Bought : (st : StateTransition W) → BoughtOr st (buy_gas db msg st)
    unfolding buy_gas from sub_gas
    buy_gas-Bought st =
        let w = ensure db msg st.state_db msg.from in
        let same = ensure-Alike st.state_db msg.from in
        let named = record st { state_db = w } in
        elim (Bool-cases (ltb msg.gas_limit (2 ^ 64))) [
          | inr huge ↦ inr (out_of_gas, st, ground (arith, huge), (refl, Alike-refl st.state_db))
          | inl fits ↦ elim (Bool-cases (ltb_ℤ (db.get_balance w msg.from) cost)) [
            | inl poor ↦
                inr (insufficient_balance_for_gas, named, ground (arith, fits, poor), (refl, same))
            | inr rich ↦ elim (Bool-cases (ltb st.gp msg.gas_limit)) [
              | inl empty ↦
                  inr (gas_limit_reached, named, ground (arith, fits, rich, empty), (refl, same))
              | inr full ↦ inl (
                record {
                  gp = st.gp - msg.gas_limit;
                  gas = uint64 (st.gas + msg.gas_limit);
                  initial_gas = msg.gas_limit;
                  state_db = db.sub_balance w msg.from cost;
                },
                ground (arith, fits, rich, full),
                record {
                  fits = ltb→lt msg.gas_limit (2 ^ 64) fits;
                  gas = refl;
                  initial_gas = refl;
                  pool = ground (arith, full);
                  gp = refl;
                  affordable =
                      subst (λ x. cost ≤ℤ x) (same.balances msg.from)
                        (ltb_ℤ-false→le (db.get_balance w msg.from) cost rich);
                  balances = λ b.
                      laws.balance-sub w msg.from b cost
                      ∙ ap (λ x. if msg.from == b then x -ℤ cost else x) (same.balances b);
                  nonces = λ b. laws.nonce-sub w msg.from b cost ∙ same.nonces b;
                  refund = laws.refund-sub w msg.from cost ∙ same.refund;
                },
              )
            ]
          ]
        ]

    -- The nonce of a message that is checked is that of its sender.
    abbrev pub NonceMatches : W → Type 0
    NonceMatches w = msg.check_nonce ≡ true → db.get_nonce w msg.from ≡ msg.nonce

    Unchanged-after :
        (st m d : StateTransition W)
        → m.gp ≡ st.gp
        → Alike st.state_db m.state_db
        → Unchanged m d
        → Unchanged st d
    Unchanged-after st m d p same (q, r) =
        (q ∙ p, Alike-trans st.state_db m.state_db d.state_db same r)

    Bought-after :
        (st : StateTransition W) (w : W) (d : StateTransition W)
        → Alike st.state_db w
        → Bought (record st { state_db = w }) d
        → Bought st d
    Bought-after st w d same b = record {
      fits = b.fits;
      gas = b.gas;
      initial_gas = b.initial_gas;
      pool = b.pool;
      gp = b.gp;
      affordable = subst (λ x. cost ≤ℤ x) (same.balances msg.from) b.affordable;
      balances =
          λ a. b.balances a ∙ ap (λ x. if msg.from == a then x -ℤ cost else x) (same.balances a);
      nonces = λ a. b.nonces a ∙ same.nonces a;
      refund = b.refund ∙ same.refund;
    }

    equal_of : (m n : ℕ) → ltb m n ≡ false → ltb n m ≡ false → m ≡ n
    equal_of m n h j = ground (arith, h, j)

    -- What the check leaves: the gas is bought for a message with the right nonce, or nothing has changed.
    pub pre_check-Bought :
        (st : StateTransition W)
        → ((d : StateTransition W) × (pre_check db msg st ≡ gives tt d)
            × Bought st d
            × NonceMatches st.state_db)
          ⊎ ((e : TxErr) × (d : StateTransition W) × (pre_check db msg st ≡ fails e d)
              × Unchanged st d)
    unfolding pre_check from
    pre_check-Bought st =
        let w = ensure db msg st.state_db msg.from in
        let same = ensure-Alike st.state_db msg.from in
        let named = record st { state_db = w } in
        elim (Bool-cases (msg.check_nonce && ltb (db.get_nonce w msg.from) msg.nonce)) [
          | inl high ↦ inr (nonce_too_high, named, ground (arith, high), (refl, same))
          | inr low ↦
              elim (Bool-cases (msg.check_nonce && ltb msg.nonce (db.get_nonce w msg.from))) [
                | inl below ↦ inr (nonce_too_low, named, ground (arith, low, below), (refl, same))
                | inr right ↦ elim (buy_gas-Bought named) [
                  | inr (e, d, p, u) ↦
                      inr (
                        e,
                        d,
                        ground (arith, low, right, p),
                        Unchanged-after st named d refl same u,
                      )
                  | inl (d, p, b) ↦ inl (
                    d,
                    ground (arith, low, right, p),
                    Bought-after st w d same b,
                    λ c.
                        sym (same.nonces msg.from)
                        ∙ equal_of (db.get_nonce w msg.from) msg.nonce (rw c at low)
                            (rw c at right),
                  )
                ]
              ]
        ]
