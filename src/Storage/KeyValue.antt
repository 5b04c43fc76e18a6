-- ===== src/Storage/KeyValue.antt =====
-- storage/badger_store.go: Get, Has and Put of raw keys, which keep what the application stores, in
-- the form of the store that proxy/ asks for. The database and its transactions are parameters.
use paradigm.Prelude.{ℕ, Bool, not, Option, none, some, eqb, nat_eq, int_eq, string_eq, pair_eq}
use paradigm.Common.Bytes.{Bytes}
use paradigm.Storage.Database.{
  Found, found, missing, failing, unreadable, DbResult, got, absent, broken,
}
use paradigm.Proxy.Chain.{Store}

-- A database `D` and its update transactions `X`; none is an error.
pub record RawDb (D X : Type 0) : Type 0 where
  pub view : D → Bytes → Found Bytes
  pub estimated_size : D → Bytes → ℕ
  pub new_transaction : D → X
  pub set_entry : X → Bytes → Bytes → Option X
  pub commit : X → Option D

module _ {D X : Type 0} (db : RawDb D X) where
  -- `Get`
  unfoldable pub get_value : D → Bytes → DbResult Bytes
  get_value d k = elim (db.view d k) [
    | found v ↦ got v
    | missing ↦ absent
    | failing ↦ broken
    | unreadable ↦ broken
  ]

  -- `Has`, which does not read the value
  unfoldable pub has_value : D → Bytes → DbResult Bool
  has_value d k =
      let sized = got (not (eqb (db.estimated_size d k) 0)) in
      elim (db.view d k) [
        | found v ↦ sized
        | missing ↦ absent
        | failing ↦ broken
        | unreadable ↦ sized
      ]

  -- `Put`
  unfoldable pub put_value : D → Bytes → Bytes → Option D
  put_value d k v = elim (db.set_entry (db.new_transaction d) k v) [
    | none ↦ none
    | some x ↦ db.commit x
  ]

  -- What callers tell apart of `Get`: a value, or an error.
  abbrev pub value_of : DbResult Bytes → Option Bytes
  value_of (got v) = some v
  value_of absent = none
  value_of broken = none

  -- The store of proxy/.
  abbrev pub raw_store : Store D
  raw_store = record { get = λ d k. value_of (get_value d k); put = put_value }
