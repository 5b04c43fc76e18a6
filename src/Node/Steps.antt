-- ===== src/Node/Steps.antt =====
-- What a step of core/node.go that ended with a value went through.
use paradigm.Prelude.{◌≡◌, refl, ◌⊎◌, inl, inr, arith, nat_eq, int_eq, string_eq, pair_eq}
use paradigm.Core.{Core, CoreM, ended}
use paradigm.Core.Steps.{CoreOutcome-cases}
use paradigm.Node.{Node, NodeErr, NodeOutcome, NodeM, finished, erred, died, ◌>>=◌, in_core}

module _ {S : Type 0} where
  pub NodeOutcome-cases :
      {A : Type 0} (o : NodeOutcome S A)
      → ((a : A) × (n : Node S) × (o ≡ finished a n))
        ⊎ (((x : NodeErr) × (n : Node S) × (o ≡ erred x n)) ⊎ (o ≡ died))
  NodeOutcome-cases (finished a n) = inl (a, n, refl)
  NodeOutcome-cases (erred x n) = inr (inl (x, n, refl))
  NodeOutcome-cases died = inr (inr refl)

  pub finished-state : {A : Type 0} {a b : A} {n m : Node S} → finished a n ≡ finished b m → n ≡ m
  finished-state q = cc

  pub finished-value : {A : Type 0} {a b : A} {n m : Node S} → finished a n ≡ finished b m → a ≡ b
  finished-value q = cc

  pub >>=-eq-finished :
      {A B : Type 0} (m : NodeM S A) (f : A → NodeM S B) (n d : Node S) (b : B)
      → (m >>= f) n ≡ finished b d
      → (a : A) × (n' : Node S) × (m n ≡ finished a n') × (f a n' ≡ finished b d)
  >>=-eq-finished m f n d b e = elim (NodeOutcome-cases (m n)) [
    | inl (a, n', p) ↦ (a, n', p, ground arith)
    | inr (inl (x, n', p)) ↦ absurd (ground arith)
    | inr (inr p) ↦ absurd (ground arith)
  ]

  -- A method of the core changes the core alone.
  pub in_core-eq-finished :
      {A : Type 0} (m : CoreM S A) (n d : Node S) (a : A)
      → in_core m n ≡ finished a d
      → (c : Core S) × (m n.core ≡ ended a c) × (d ≡ record n { core = c })
  in_core-eq-finished m n d a e = elim (CoreOutcome-cases (m n.core)) [
    | inl (b, c, p) ↦ (c, ground arith, ground arith)
    | inr (inl (x, c, p)) ↦ absurd (ground arith)
    | inr (inr p) ↦ absurd (ground arith)
  ]
