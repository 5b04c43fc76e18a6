-- ===== src/Proxy/Transition/Settle.antt =====
-- The accounts along a message of proxy/proxy_processor.go that is accepted, step by step.
use paradigm.Prelude.{
  ℕ, ◌+◌, ◌*◌, ◌≡◌, refl, ap, ◌∙◌, inl, inr, Bool, true, false, arith, if◌then◌else◌, Option-cases,
  ℤ, pos, ◌+ℤ◌, ◌-ℤ◌, int_laws, ◌==◌, nat_eq, int_eq, string_eq, pair_eq, eq_of_==,
}
use paradigm.Proxy.StateDb.{StateDb, StateDbLaws}
use paradigm.Proxy.Transition.{Message, uint64, ensure, recipient, open_to, transfer}
use paradigm.Proxy.Transition.Charge.{Alike, Alike-refl, Alike-trans, ensure-Alike}

nothing_added : (c : Bool) (x : ℤ) (n : ℕ) → n ≡ 0 → (if c then x +ℤ pos n else x) ≡ x
nothing_added true x n h = omega (int_laws, h)
nothing_added false x n h = refl

own_nonce :
    (c : Bool) (m n n' : ℕ)
    → (c ≡ true → m ≡ n')
    → n ≡ n'
    → (if c then uint64 (m + 1) else n) ≡ (if c then uint64 (n' + 1) else n')
own_nonce true m n n' h j = ap (λ k. uint64 (k + 1)) (h refl)
own_nonce false m n n' h j = j

module _ {W : Type 0} (db : StateDb W) (laws : StateDbLaws db) (msg : Message) where
  pub open_to-Alike : (w : W) → Alike db laws w (open_to db msg w)
  unfolding open_to
  open_to-Alike w = elim (Option-cases msg.to) [
    | inl none_given ↦ rw none_given (Alike-refl db laws w)
    | inr (a, given) ↦ rw given (ensure-Alike db laws msg w a)
  ]

  -- the accounts along a message that is accepted, from those with its gas bought on
  abbrev pub transferred : W → W
  transferred v =
      transfer db msg (ensure db msg (open_to db msg (open_to db msg v)) (recipient db msg))
        msg.from (recipient db msg) msg.amount

  abbrev pub numbered : W → W
  numbered v =
      let u = ensure db msg (transferred v) msg.from in
      db.set_nonce u msg.from (uint64 (db.get_nonce u msg.from + 1))

  abbrev pub repaid : W → ℕ → W
  repaid v gas =
      db.add_balance (ensure db msg (numbered v) msg.from) msg.from (pos (gas * msg.gas_price))

  abbrev pub refunded : W → ℕ → W
  refunded v gas =
      let u = repaid v gas in
      db.add_balance (db.set_refund u (db.get_refund u * msg.gas_price)) msg.from
        (pos (db.get_refund u * msg.gas_price))

  pub refund-repaid : (v : W) (gas : ℕ) → db.get_refund (repaid v gas) ≡ db.get_refund v
  unfolding transfer
  refund-repaid v gas =
      let opened =
        Alike-trans db laws v (open_to db msg v) (open_to db msg (open_to db msg v))
          (open_to-Alike v) (open_to-Alike (open_to db msg v)) in
      let there = ensure-Alike db laws msg (open_to db msg (open_to db msg v)) (recipient db msg) in
      let sender = ensure-Alike db laws msg (transferred v) msg.from in
      let again = ensure-Alike db laws msg (numbered v) msg.from in
      laws.refund-add _ msg.from _
      ∙ again.refund
      ∙ laws.refund-set_nonce _ msg.from _
      ∙ sender.refund
      ∙ laws.refund-add _ (recipient db msg) _
      ∙ laws.refund-sub _ msg.from _
      ∙ there.refund
      ∙ opened.refund

  -- Each balance along the message.
  pub balance-transferred :
      (v : W) (b : ℕ)
      → db.get_balance (transferred v) b ≡ (
          let x =
            (if msg.from == b then db.get_balance v b -ℤ pos msg.amount else db.get_balance v b) in
          if recipient db msg == b then x +ℤ pos msg.amount else x)
  unfolding transfer
  balance-transferred v b =
      let opened =
        Alike-trans db laws v (open_to db msg v) (open_to db msg (open_to db msg v))
          (open_to-Alike v) (open_to-Alike (open_to db msg v)) in
      let there = ensure-Alike db laws msg (open_to db msg (open_to db msg v)) (recipient db msg) in
      laws.balance-add _ (recipient db msg) b (pos msg.amount)
      ∙ ap (λ x. if recipient db msg == b then x +ℤ pos msg.amount else x)
          (laws.balance-sub _ msg.from b (pos msg.amount)
            ∙ ap (λ x. if msg.from == b then x -ℤ pos msg.amount else x)
                (there.balances b ∙ opened.balances b))

  pub balance-repaid :
      (v : W) (gas b : ℕ)
      → db.get_balance (repaid v gas) b ≡ (
          let x = db.get_balance (transferred v) b in
          if msg.from == b then x +ℤ pos (gas * msg.gas_price) else x)
  balance-repaid v gas b =
      let sender = ensure-Alike db laws msg (transferred v) msg.from in
      let again = ensure-Alike db laws msg (numbered v) msg.from in
      laws.balance-add _ msg.from b _
      ∙ ap (λ x. if msg.from == b then x +ℤ pos (gas * msg.gas_price) else x)
          (again.balances b ∙ laws.balance-set_nonce _ msg.from b _ ∙ sender.balances b)

  pub balance-refunded :
      (v : W) (gas b : ℕ)
      → db.get_refund v ≡ 0
      → db.get_balance (refunded v gas) b ≡ db.get_balance (repaid v gas) b
  balance-refunded v gas b none_left =
      let u = repaid v gas in
      let zero_counter : db.get_refund u ≡ 0 = refund-repaid v gas ∙ none_left in
      let nothing : db.get_refund u * msg.gas_price ≡ 0 = rw zero_counter (omega arith) in
      laws.balance-add _ msg.from b _
      ∙ nothing_added (msg.from == b) _ (db.get_refund u * msg.gas_price) nothing
      ∙ laws.balance-set_refund u _ b

  pub nonce-refunded :
      (v : W) (gas b : ℕ)
      → db.get_nonce (refunded v gas) b
        ≡ (if msg.from == b then uint64 (db.get_nonce v b + 1) else db.get_nonce v b)
  unfolding transfer
  nonce-refunded v gas b =
      let opened =
        Alike-trans db laws v (open_to db msg v) (open_to db msg (open_to db msg v))
          (open_to-Alike v) (open_to-Alike (open_to db msg v)) in
      let there = ensure-Alike db laws msg (open_to db msg (open_to db msg v)) (recipient db msg) in
      let sender = ensure-Alike db laws msg (transferred v) msg.from in
      let again = ensure-Alike db laws msg (numbered v) msg.from in
      let kept = λ (a : ℕ).
        sender.nonces a
        ∙ laws.nonce-add _ (recipient db msg) a _
        ∙ laws.nonce-sub _ msg.from a _
        ∙ there.nonces a
        ∙ opened.nonces a in
      laws.nonce-add _ msg.from b _
      ∙ laws.nonce-set_refund _ _ b
      ∙ laws.nonce-add _ msg.from b _
      ∙ again.nonces b
      ∙ laws.nonce-set_nonce _ msg.from b _
      ∙ own_nonce (msg.from == b) _ _ _
          (λ y. kept msg.from ∙ ap (db.get_nonce v) (eq_of_== msg.from b y)) (kept b)
