-- ===== src/Common/Effects.antt =====
-- A method of an object of type `S` that may fail with an `E`: it ends with a value, with an error that
-- keeps the changes made before it, or with a panic.
use paradigm.Prelude.{
  ◌≡◌, refl, sym, ◌⊎◌, inl, inr, Bool, true, false, arith, nat_eq, int_eq, string_eq, pair_eq,
}
use mathlib.Core.Path.{subst}

pub data Ran (E S A : Type 0) : Type 0 where
  gives : A → S → Ran E S A
  fails : E → S → Ran E S A
  panics : Ran E S A

abbrev pub Effect : Type 0 → Type 0 → Type 0 → Type 0
Effect E S A = S → Ran E S A

module _ {E S : Type 0} where
  infixl 5 ◌>>=◌ ◌>>◌
  abbrev pub ◌>>=◌ : {A B : Type 0} → Effect E S A → (A → Effect E S B) → Effect E S B
  ◌>>=◌ m f s = elim (m s) [ gives a s' ↦ f a s' | fails e s' ↦ fails e s' | panics ↦ panics ]

  abbrev pub ◌>>◌ : {B : Type 0} → Effect E S (Unit {0}) → Effect E S B → Effect E S B
  m >> k = m >>= λ _. k

  abbrev pub return : {A : Type 0} → A → Effect E S A
  return a s = gives a s

  abbrev pub fail : {A : Type 0} → E → Effect E S A
  fail e s = fails e s

  abbrev pub state : Effect E S S
  state s = gives s s

  abbrev pub modify : (S → S) → Effect E S (Unit {0})
  modify f s = gives tt (f s)

  -- `if` with an error
  abbrev pub guard : Bool → E → Effect E S (Unit {0})
  guard true e s = gives tt s
  guard false e s = fails e s

  pub Ran-cases :
      {A : Type 0} (o : Ran E S A)
      → ((a : A) × (s : S) × (o ≡ gives a s))
        ⊎ (((x : E) × (s : S) × (o ≡ fails x s)) ⊎ (o ≡ panics))
  Ran-cases (gives a s) = inl (a, s, refl)
  Ran-cases (fails x s) = inr (inl (x, s, refl))
  Ran-cases panics = inr (inr refl)

  pub gives-state :
      {A : Type 0} {a b : A} {s t : S} → ◌≡◌ {A = Ran E S A} (gives a s) (gives b t) → s ≡ t
  gives-state q = cc

  pub gives-value :
      {A : Type 0} {a b : A} {s t : S} → ◌≡◌ {A = Ran E S A} (gives a s) (gives b t) → a ≡ b
  gives-value q = cc

  pub >>=-eq-gives :
      {A B : Type 0} (m : Effect E S A) (f : A → Effect E S B) (s d : S) (b : B)
      → (m >>= f) s ≡ gives b d
      → (a : A) × (s' : S) × (m s ≡ gives a s') × (f a s' ≡ gives b d)
  >>=-eq-gives m f s d b e = elim (Ran-cases (m s)) [
    | inl (a, s', p) ↦ (a, s', p, ground arith)
    | inr (inl (x, s', p)) ↦ absurd (ground arith)
    | inr (inr p) ↦ absurd (ground arith)
  ]

  -- What holds of the object wherever the method ends.
  abbrev pub Leaves : {A : Type 0} → (S → Type 0) → Ran E S A → Type 0
  Leaves P (gives a s) = P s
  Leaves P (fails e s) = P s
  Leaves P panics = Unit

  pub Leaves-weaken :
      {A : Type 0} (P Q : S → Type 0) (o : Ran E S A)
      → ((s : S) → P s → Q s)
      → Leaves P o
      → Leaves Q o
  Leaves-weaken P Q (gives a s) k h = k s h
  Leaves-weaken P Q (fails e s) k h = k s h
  Leaves-weaken P Q panics k h = tt

  after : {A B : Type 0} → (A → Effect E S B) → Ran E S A → Ran E S B
  after f o = elim o [ gives a s ↦ f a s | fails e s ↦ fails e s | panics ↦ panics ]

  pub Leaves->>= :
      {A B : Type 0} (P : S → Type 0) (m : Effect E S A) (f : A → Effect E S B) (s : S)
      → Leaves P (m s)
      → ((a : A) (s' : S) → m s ≡ gives a s' → P s' → Leaves P (f a s'))
      → Leaves P ((m >>= f) s)
  unfolding after
  Leaves->>= P m f s h k = elim (Ran-cases (m s)) [
    | inl (a, s', p) ↦ subst (λ o. Leaves P (after f o)) (sym p) (k a s' p (subst (Leaves P) p h))
    | inr (inl (x, s', p)) ↦ subst (λ o. Leaves P (after f o)) (sym p) (subst (Leaves P) p h)
    | inr (inr p) ↦ subst (λ o. Leaves P (after f o)) (sym p) tt
  ]
