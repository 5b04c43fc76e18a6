-- ===== src/Proxy/StateDb.antt =====
-- What proxy/ asks of the accounts of state/statedb.go, and the laws that it relies on. An address is
-- the number of its 20 bytes, a hash that of its 32 bytes.
use paradigm.Prelude.{
  ℕ, ◌≡◌, Bool, false, if◌then◌else◌, ℤ, ◌+ℤ◌, ◌-ℤ◌, ◌==◌, nat_eq, int_eq, string_eq, pair_eq,
}

pub record StateDb (W : Type 0) : Type 0 where
  pub exist : W → ℕ → Bool
  pub create_account : W → ℕ → W
  pub get_balance : W → ℕ → ℤ
  pub add_balance : W → ℕ → ℤ → W
  pub sub_balance : W → ℕ → ℤ → W
  pub get_nonce : W → ℕ → ℕ
  pub set_nonce : W → ℕ → ℕ → W
  -- the counter that `GetRefund` returns a pointer to, and a write through that pointer
  pub get_refund : W → ℕ
  pub set_refund : W → ℕ → W

-- A change of one account is seen in that account alone; an account that is created is empty, as one that
-- does not exist.
pub record StateDbLaws {W : Type 0} (db : StateDb W) : Type 0 where
  pub balance-create :
      (w : W) (a b : ℕ)
      → db.exist w a ≡ false
      → db.get_balance (db.create_account w a) b ≡ db.get_balance w b
  pub balance-add :
      (w : W) (a b : ℕ) (x : ℤ)
      → db.get_balance (db.add_balance w a x) b
        ≡ (if a == b then db.get_balance w b +ℤ x else db.get_balance w b)
  pub balance-sub :
      (w : W) (a b : ℕ) (x : ℤ)
      → db.get_balance (db.sub_balance w a x) b
        ≡ (if a == b then db.get_balance w b -ℤ x else db.get_balance w b)
  pub balance-set_nonce :
      (w : W) (a b n : ℕ) → db.get_balance (db.set_nonce w a n) b ≡ db.get_balance w b
  pub balance-set_refund :
      (w : W) (n b : ℕ) → db.get_balance (db.set_refund w n) b ≡ db.get_balance w b
  pub nonce-create :
      (w : W) (a b : ℕ)
      → db.exist w a ≡ false
      → db.get_nonce (db.create_account w a) b ≡ db.get_nonce w b
  pub nonce-add :
      (w : W) (a b : ℕ) (x : ℤ) → db.get_nonce (db.add_balance w a x) b ≡ db.get_nonce w b
  pub nonce-sub :
      (w : W) (a b : ℕ) (x : ℤ) → db.get_nonce (db.sub_balance w a x) b ≡ db.get_nonce w b
  pub nonce-set_nonce :
      (w : W) (a b n : ℕ)
      → db.get_nonce (db.set_nonce w a n) b ≡ (if a == b then n else db.get_nonce w b)
  pub nonce-set_refund : (w : W) (n b : ℕ) → db.get_nonce (db.set_refund w n) b ≡ db.get_nonce w b
  pub refund-create : (w : W) (a : ℕ) → db.get_refund (db.create_account w a) ≡ db.get_refund w
  pub refund-add : (w : W) (a : ℕ) (x : ℤ) → db.get_refund (db.add_balance w a x) ≡ db.get_refund w
  pub refund-sub : (w : W) (a : ℕ) (x : ℤ) → db.get_refund (db.sub_balance w a x) ≡ db.get_refund w
  pub refund-set_nonce : (w : W) (a n : ℕ) → db.get_refund (db.set_nonce w a n) ≡ db.get_refund w
