-- ===== src/Common/Errors.antt =====
-- errors/errors.go: the store's errors, and the result of a Go function that may fail or panic. The
-- key of an error is kept as the number or the text that it is printed from.
use paradigm.Prelude.{
  String, ◌≡◌, refl, ◌⊎◌, inl, inr, Bool, true, false, none, some, List, ltb, leb, if◌then◌else◌,
  length, get_elem?, set, drop, ℤ, pos, negsuc, nat_eq, int_eq, string_eq, pair_eq,
}

pub data StoreErrType : Type 0 where
  key_not_found : StoreErrType
  too_late : StoreErrType
  passed_index : StoreErrType
  skipped_index : StoreErrType
  no_root : StoreErrType
  unknown_participant : StoreErrType
  -- an error that is no StoreErr, of a database or of an encoding
  other_kind : StoreErrType

pub data ErrKey : Type 0 where
  itoa : ℤ → ErrKey
  text : String → ErrKey

pub record StoreErr : Type 0 where
  pub err_type : StoreErrType
  pub key : ErrKey

-- `NewStoreErr`
abbrev pub new_store_err : StoreErrType → ErrKey → StoreErr
new_store_err t k = record { err_type = t; key = k }

-- A value, an error, or a run-time panic (an index or a slice out of range).
pub data Result {ℓ} (A : Type ℓ) : Type ℓ where
  ok : A → Result A
  err : StoreErr → Result A
  panic : Result A

abbrev pub same_type : StoreErrType → StoreErrType → Bool
same_type key_not_found key_not_found = true
same_type too_late too_late = true
same_type passed_index passed_index = true
same_type skipped_index skipped_index = true
same_type no_root no_root = true
same_type unknown_participant unknown_participant = true
same_type _ _ = false

-- `Is`, at the outcome of a call: a nil error is of no type.
abbrev pub is_err {ℓ} : {A : Type ℓ} → Result A → StoreErrType → Bool
is_err (err e) t = same_type e.err_type t
is_err _ t = false

infixl 5 ◌>>=◌
abbrev pub ◌>>=◌ {ℓ κ} : {A : Type ℓ} {B : Type κ} → Result A → (A → Result B) → Result B
ok a >>= f = f a
err e >>= f = err e
panic >>= f = panic

module _ {ℓ} {A : Type ℓ} where
  -- `xs[i]`
  unfoldable pub index : List A → ℤ → Result A
  index xs (pos n) = elim (get_elem? xs n) [ some a ↦ ok a | none ↦ panic ]
  index xs (negsuc n) = panic

  -- `xs[i] = a`
  unfoldable pub assign : List A → ℤ → A → Result (List A)
  assign xs (pos n) a = if ltb n (length xs) then ok (set xs n a) else panic
  assign xs (negsuc n) a = panic

  -- `xs[i:]`
  unfoldable pub slice_from : List A → ℤ → Result (List A)
  slice_from xs (pos n) = if leb n (length xs) then ok (drop n xs) else panic
  slice_from xs (negsuc n) = panic

  pub ok-injective : {a b : A} → ok a ≡ ok b → a ≡ b
  ok-injective h = cc

  -- To split on an outcome and keep the equation.
  pub Result-cases :
      (r : Result A) → ((a : A) × (r ≡ ok a)) ⊎ (((x : StoreErr) × (r ≡ err x)) ⊎ (r ≡ panic))
  Result-cases (ok a) = inl (a, refl)
  Result-cases (err x) = inr (inl (x, refl))
  Result-cases panic = inr (inr refl)
