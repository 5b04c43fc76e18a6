-- ===== src/Proxy/Transition/Outcomes.antt =====
-- The three ways that a message of proxy/proxy_processor.go can go.
use paradigm.Prelude.{
  ℕ, ◌+◌, ◌-◌, ◌*◌, ◌^◌, ◌≤◌, ◌<◌, ◌≡◌, refl, sym, ap, ◌∙◌, ◌⊎◌, inl, inr, Bool, true, false, not,
  arith, ltb, if◌then◌else◌, Bool-cases, ℤ, pos, ◌≤ℤ◌, ltb_ℤ, ◌+ℤ◌, ◌-ℤ◌, int_laws, ltb_ℤ-false→le,
  ◌==◌, nat_eq, int_eq, string_eq, pair_eq, ==_refl,
}
use mathlib.Core.Path.{subst}
use native.Mathlib.Nat.{mod-eq_of_lt, add-mul}
use paradigm.Common.Effects.{Ran, gives, fails}
use paradigm.Proxy.GasPool.{GasPool, add_gas}
use paradigm.Proxy.StateDb.{StateDb, StateDbLaws}
use paradigm.Proxy.Transition.{
  Message, TxErr, insufficient_balance, out_of_gas, StateTransition, uint64, half_of, intrinsic_gas,
  from, to, recipient, open_to, use_gas, pre_check, gas_used, transfer, refund_counter, refund_gas,
  can_transfer, transition_on_native, process_message,
}
use paradigm.Proxy.Transition.Charge.{Alike, cost, Bought, NonceMatches, pre_check-Bought}
use paradigm.Proxy.Transition.Settle.{
  open_to-Alike, repaid, refunded, refund-repaid, balance-transferred, balance-repaid,
  balance-refunded, nonce-refunded,
}

-- Paying `c`, of which all but `h` comes back, and moving `amt`.
moved :
    (f r : Bool) (x : ℤ) (amt c g h : ℕ)
    → c ≡ h + g
    → (let y = (if f then x -ℤ pos c else x) in
        let z = (if f then y -ℤ pos amt else y) in
        let t = (if r then z +ℤ pos amt else z) in if f then t +ℤ pos g else t)
      ≡ x -ℤ (if f then pos (amt + h) else pos 0) +ℤ (if r then pos amt else pos 0)
moved true true x amt c g h e = omega (int_laws, e)
moved true false x amt c g h e = omega (int_laws, e)
moved false true x amt c g h e = omega (int_laws, e)
moved false false x amt c g h e = omega (int_laws, e)

the_same : (n : ℕ) → n + 0 ≡ n
the_same n = omega arith

none_before : (n : ℕ) → 0 + n ≡ n
none_before n = omega arith

price_split : (n k p : ℕ) → k ≤ n → n * p ≡ k * p + (n - k) * p
price_split n k p h =
    let parts : n ≡ k + (n - k) = omega (arith, h) in ap (λ m. m * p) parts ∙ add-mul k (n - k) p

own_balance : (c : Bool) → c ≡ true → (x y : ℤ) → (if c then x else y) ≡ x
own_balance true h x y = refl
own_balance false h x y = absurd (cc)

moved_over : (x c m : ℤ) → m ≤ℤ x -ℤ c → c +ℤ m ≤ℤ x
moved_over x c m h = omega (int_laws, h)

within_of_le : (x c m y : ℤ) → y ≡ x -ℤ c → m ≤ℤ y → c +ℤ m ≤ℤ x
within_of_le x c m y e h = let k : m ≤ℤ x -ℤ c = subst (λ z. m ≤ℤ z) e h in moved_over x c m k

within : (x c m y : ℤ) → y ≡ x -ℤ c → not (ltb_ℤ y m) ≡ true → c +ℤ m ≤ℤ x
within x c m y e h = elim (Bool-cases (ltb_ℤ y m)) [
  | inl below ↦ absurd (ground (arith, h, below))
  | inr above ↦ within_of_le x c m y e (ltb_ℤ-false→le y m above)
]

the_rest : (n : ℕ) → intrinsic_gas ≤ n → pos n -ℤ pos (n - intrinsic_gas) ≡ pos intrinsic_gas
the_rest n h = omega (int_laws, h)

module _ {W : Type 0} (db : StateDb W) (laws : StateDbLaws db) (msg : Message) where
  -- What a message that is accepted leaves: the value has moved, the sender has paid for the intrinsic gas
  -- and its nonce is the next; the pool has given that gas.
  pub record Accepted (gp : GasPool) (w : W) (gp' : GasPool) (w' : W) : Type 0 where
    pub fits : msg.gas_limit < 2 ^ 64
    pub enough : intrinsic_gas ≤ msg.gas_limit
    pub pool : msg.gas_limit ≤ gp
    pub left : gp' ≡ gp - intrinsic_gas
    pub nonce : NonceMatches db laws msg w
    pub affordable : cost db laws msg +ℤ pos msg.amount ≤ℤ db.get_balance w msg.from
    pub balances :
        (b : ℕ)
        → db.get_balance w' b
          ≡ db.get_balance w b
            -ℤ (if msg.from == b then pos (msg.amount + intrinsic_gas * msg.gas_price) else pos 0)
            +ℤ (if recipient db msg == b then pos msg.amount else pos 0)
    pub nonces :
        (b : ℕ)
        → db.get_nonce w' b
          ≡ (if msg.from == b then uint64 (db.get_nonce w b + 1) else db.get_nonce w b)

  -- What a message leaves that fails after its gas is bought: all of that gas is gone, from the sender and
  -- from the pool.
  pub record Charged (gp : GasPool) (w : W) (gp' : GasPool) (w' : W) : Type 0 where
    pub left : gp' ≡ gp - msg.gas_limit
    pub balances :
        (b : ℕ)
        → db.get_balance w' b
          ≡ (if msg.from == b then db.get_balance w b -ℤ cost db laws msg else db.get_balance w b)
    pub nonces : (b : ℕ) → db.get_nonce w' b ≡ db.get_nonce w b

  pub data Processed (gp : GasPool) (w : W) (o : Ran TxErr (GasPool × W) ℤ) : Type 0 where
    accepted :
        (gp' : GasPool) (w' : W)
        → o ≡ gives (pos intrinsic_gas) (gp', w')
        → Accepted gp w gp' w'
        → Processed gp w o
    refused :
        (e : TxErr) (gp' : GasPool) (w' : W)
        → o ≡ fails e (gp', w')
        → gp' ≡ gp
        → Alike db laws w w'
        → Processed gp w o
    charged :
        (e : TxErr) (gp' : GasPool) (w' : W)
        → o ≡ fails e (gp', w')
        → (e ≡ out_of_gas) ⊎ (e ≡ insufficient_balance)
        → Charged gp w gp' w'
        → Processed gp w o

  abbrev opening : GasPool → W → StateTransition W
  opening gp w = record { gp = gp; gas = 0; initial_gas = 0; state_db = w }

  -- the end of a message that is accepted
  abbrev settled : StateTransition W → StateTransition W
  settled d =
      let gas = d.gas - intrinsic_gas in
      let left = uint64 (gas + db.get_refund (repaid db laws msg d.state_db gas)) in
      record {
        gp = add_gas d.gp left;
        gas = left;
        initial_gas = d.initial_gas;
        state_db = refunded db laws msg d.state_db gas;
      }

  settles :
      (st d : StateTransition W)
      → pre_check db msg st ≡ gives tt d
      → ltb d.gas intrinsic_gas ≡ false
      → can_transfer db msg (open_to db msg d.state_db) msg.from msg.amount ≡ true
      → (let gas = d.gas - intrinsic_gas in
          ltb_ℤ
            (pos (db.get_refund (repaid db laws msg d.state_db gas)))
            (half_of (pos d.initial_gas -ℤ pos gas))
          ≡ true)
      → transition_on_native db msg st
        ≡ gives
            (pos d.initial_gas -ℤ pos (d.gas - intrinsic_gas), gas_used db msg (settled d))
            (settled d)
  unfolding transition_on_native use_gas to from refund_gas refund_counter gas_used transfer add_gas
  settles st d p enough can small = ground (arith, p, enough, can, small)

  stopped :
      (st d : StateTransition W) (e : TxErr)
      → pre_check db msg st ≡ fails e d
      → transition_on_native db msg st ≡ fails e d
  unfolding transition_on_native
  stopped st d e p = ground (arith, p)

  runs_out :
      (st d : StateTransition W)
      → pre_check db msg st ≡ gives tt d
      → ltb d.gas intrinsic_gas ≡ true
      → transition_on_native db msg st
        ≡ fails out_of_gas (record d { state_db = open_to db msg d.state_db })
  unfolding transition_on_native use_gas to
  runs_out st d p short = ground (arith, p, short)

  too_poor :
      (st d : StateTransition W)
      → pre_check db msg st ≡ gives tt d
      → ltb d.gas intrinsic_gas ≡ false
      → can_transfer db msg (open_to db msg d.state_db) msg.from msg.amount ≡ false
      → transition_on_native db msg st
        ≡ fails insufficient_balance
            (record d { gas = d.gas - intrinsic_gas; state_db = open_to db msg d.state_db })
  unfolding transition_on_native use_gas to
  too_poor st d p enough poor = ground (arith, p, enough, poor)

  module _ (gp : GasPool) (w : W) (d : StateTransition W)
      (b : Bought db laws msg (opening gp w) d) where
    all_gas : d.gas ≡ msg.gas_limit
    all_gas = b.gas ∙ ap uint64 (none_before msg.gas_limit) ∙ mod-eq_of_lt (omega (arith, b.fits))

    no_refund :
        db.get_refund w ≡ 0
        → db.get_refund (repaid db laws msg d.state_db (d.gas - intrinsic_gas)) ≡ 0
    no_refund none_left =
        refund-repaid db laws msg d.state_db (d.gas - intrinsic_gas) ∙ b.refund ∙ none_left

    left_over :
        db.get_refund w ≡ 0
        → uint64 (
            d.gas
            - intrinsic_gas
            + db.get_refund (repaid db laws msg d.state_db (d.gas - intrinsic_gas)))
          ≡ d.gas - intrinsic_gas
    left_over none_left =
        ap (λ n. uint64 (d.gas - intrinsic_gas + n)) (no_refund none_left)
        ∙ (ap uint64 (the_same (d.gas - intrinsic_gas))
            ∙ mod-eq_of_lt (omega (arith, b.fits, all_gas)))

    settled-balances :
        (a : ℕ)
        → db.get_refund w ≡ 0
        → intrinsic_gas ≤ d.gas
        → db.get_balance (refunded db laws msg d.state_db (d.gas - intrinsic_gas)) a
          ≡ db.get_balance w a
            -ℤ (if msg.from == a then pos (msg.amount + intrinsic_gas * msg.gas_price) else pos 0)
            +ℤ (if recipient db msg == a then pos msg.amount else pos 0)
    settled-balances a none_left enough =
        let g = (d.gas - intrinsic_gas) * msg.gas_price in
        let split : msg.gas_limit * msg.gas_price ≡ intrinsic_gas * msg.gas_price + g =
          ap (λ n. n * msg.gas_price) (sym all_gas)
          ∙ price_split d.gas intrinsic_gas msg.gas_price enough in
        balance-refunded db laws msg d.state_db (d.gas - intrinsic_gas) a (b.refund ∙ none_left)
        ∙ balance-repaid db laws msg d.state_db (d.gas - intrinsic_gas) a
        ∙ ap (λ x. if msg.from == a then x +ℤ pos g else x)
            (balance-transferred db laws msg d.state_db a
              ∙ ap
                  (λ y.
                    let x = (if msg.from == a then y -ℤ pos msg.amount else y) in
                    if recipient db msg == a then x +ℤ pos msg.amount else x)
                  (b.balances a))
        ∙ moved (msg.from == a) (recipient db msg == a) (db.get_balance w a) msg.amount
            (msg.gas_limit * msg.gas_price) g (intrinsic_gas * msg.gas_price) split

    balance-opened :
        db.get_balance (open_to db msg d.state_db) msg.from
        ≡ db.get_balance w msg.from -ℤ cost db laws msg
    balance-opened =
        (open_to-Alike db laws msg d.state_db).balances msg.from
        ∙ b.balances msg.from
        ∙ own_balance (msg.from == msg.from) (==_refl msg.from) _ _

    settled-Accepted :
        NonceMatches db laws msg w
        → db.get_refund w ≡ 0
        → intrinsic_gas ≤ d.gas
        → can_transfer db msg (open_to db msg d.state_db) msg.from msg.amount ≡ true
        → Accepted gp w (settled d).gp (settled d).state_db
    unfolding can_transfer add_gas
    settled-Accepted nonce none_left enough can = record {
      fits = b.fits;
      enough = omega (arith, enough, all_gas);
      pool = b.pool;
      left =
          ap (λ n. d.gp + n) (left_over none_left)
          ∙ ap (λ n. n + (d.gas - intrinsic_gas)) b.gp
          ∙ omega (arith, b.pool, enough, all_gas);
      nonce = nonce;
      affordable = within _ _ _ _ balance-opened can;
      balances = λ a. settled-balances a none_left enough;
      nonces = λ a.
          nonce-refunded db laws msg d.state_db (d.gas - intrinsic_gas) a
          ∙ ap (λ n. if msg.from == a then uint64 (n + 1) else n) (b.nonces a);
    }

    settled-gas :
        db.get_refund w ≡ 0
        → intrinsic_gas ≤ d.gas
        → gas_used db msg (settled d) ≡ pos intrinsic_gas
    unfolding gas_used
    settled-gas none_left enough =
        ap (λ n. pos n -ℤ pos (settled d).gas) b.initial_gas
        ∙ ap (λ n. pos msg.gas_limit -ℤ pos n) (left_over none_left)
        ∙ ap (λ n. pos msg.gas_limit -ℤ pos (n - intrinsic_gas)) all_gas
        ∙ the_rest msg.gas_limit (omega (arith, enough, all_gas))

  Bought-Charged :
      (gp : GasPool) (w : W) (d : StateTransition W)
      → Bought db laws msg (opening gp w) d
      → Charged gp w d.gp (open_to db msg d.state_db)
  Bought-Charged gp w d b =
      let opened = open_to-Alike db laws msg d.state_db in
      record {
        left = b.gp;
        balances = λ a. opened.balances a ∙ b.balances a;
        nonces = λ a. opened.nonces a ∙ b.nonces a;
      }

  -- The refund counter at 0 is below half of the gas that is used so far.
  small_counter :
      (n m k : ℕ)
      → n ≡ 0
      → intrinsic_gas ≤ k
      → m ≡ k
      → ltb_ℤ (pos n) (half_of (pos m -ℤ pos (k - intrinsic_gas))) ≡ true
  small_counter n m k e h j =
      ap (λ x. ltb_ℤ (pos x) (half_of (pos m -ℤ pos (k - intrinsic_gas)))) e
      ∙ ap (λ x. ltb_ℤ (pos 0) (half_of (pos x -ℤ pos (k - intrinsic_gas)))) j
      ∙ ap (λ x. ltb_ℤ (pos 0) (half_of x)) (the_rest k h)

  process-fails :
      (gp : GasPool) (w : W) (e : TxErr) (d : StateTransition W)
      → transition_on_native db msg (opening gp w) ≡ fails e d
      → process_message db msg gp w ≡ fails e (d.gp, d.state_db)
  unfolding process_message
  process-fails gp w e d h = ground (arith, h)

  process-gives :
      (gp : GasPool) (w : W) (r used : ℤ) (d : StateTransition W)
      → transition_on_native db msg (opening gp w) ≡ gives (r, used) d
      → process_message db msg gp w ≡ gives used (d.gp, d.state_db)
  unfolding process_message
  process-gives gp w r used d h = ground (arith, h)

  -- On accounts that keep their laws and whose refund counter is 0, every message ends in one of three ways: it is accepted, with
  -- the value moved and the intrinsic gas paid; it is refused, and nothing has changed but for empty
  -- accounts; or it fails with all of its gas charged.
  pub process_message_lem :
      (gp : GasPool) (w : W) → db.get_refund w ≡ 0 → Processed gp w (process_message db msg gp w)
  process_message_lem gp w none_left =
      let st = opening gp w in
      elim (pre_check-Bought db laws msg st) [
        | inr (e, d, p, (q, same)) ↦
            refused e d.gp d.state_db (process-fails gp w e d (stopped st d e p)) q same
        | inl (d, p, b, nonce) ↦ elim (Bool-cases (ltb d.gas intrinsic_gas)) [
          | inl short ↦
              charged out_of_gas d.gp (open_to db msg d.state_db)
                (process-fails gp w out_of_gas _ (runs_out st d p short)) (inl refl)
                (Bought-Charged gp w d b)
          | inr enough ↦
              elim (Bool-cases
                (can_transfer db msg (open_to db msg d.state_db) msg.from msg.amount)) [
                  | inr poor ↦
                      charged insufficient_balance d.gp (open_to db msg d.state_db)
                        (process-fails gp w insufficient_balance _ (too_poor st d p enough poor))
                        (inr refl) (Bought-Charged gp w d b)
                  | inl can ↦
                      let covered : intrinsic_gas ≤ d.gas = ground (arith, enough) in
                      let small =
                        small_counter
                          (db.get_refund (repaid db laws msg d.state_db (d.gas - intrinsic_gas)))
                          d.initial_gas d.gas (no_refund gp w d b none_left) covered
                          (b.initial_gas ∙ sym (all_gas gp w d b)) in
                      accepted (settled d).gp (settled d).state_db
                        (process-gives gp w _ _ _ (settles st d p enough can small)
                          ∙ (ap (λ x. gives x ((settled d).gp, (settled d).state_db))
                              (settled-gas gp w d b none_left covered)))
                        (settled-Accepted gp w d b nonce none_left covered can)
                ]
        ]
      ]
