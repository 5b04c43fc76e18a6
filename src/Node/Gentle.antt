-- ===== src/Node/Gentle.antt =====
-- The steps of core/node.go that change the core of a node alone, and leave it idle if it was.
use paradigm.Prelude.{◌≡◌, refl, sym, ap, ◌∙◌, [], nat_eq, int_eq, string_eq, pair_eq}
use mathlib.Core.Path.{subst}
use paradigm.Core.{Core, CoreM}
use paradigm.Core.Keeps.{KeepsNode}
use paradigm.Node.{Node, NodeM, finished, in_core}
use paradigm.Node.Steps.{in_core-eq-finished}

module _ {S : Type 0} where
  -- A node is another but for its core.
  abbrev pub OnlyCore : Node S → Node S → Type 0
  OnlyCore n d = d ≡ record n { core = d.core }

  -- Nothing waits to be sent.
  abbrev pub IsIdle : Node S → Type 0
  IsIdle n = let c = n.core in (c.transaction_pool ≡ []) × (c.block_signature_pool ≡ [])

  pub OnlyCore-trans : (a b c : Node S) → OnlyCore a b → OnlyCore b c → OnlyCore a c
  OnlyCore-trans a b c p q = cc

  pub OnlyCore-in_core :
      {A : Type 0} (m : CoreM S A) (n d : Node S) (a : A)
      → in_core m n ≡ finished a d
      → OnlyCore n d
  OnlyCore-in_core m n d a e = let (c, p, q) = in_core-eq-finished m n d a e in rw q refl

  -- A step that, if it ends with a value, changes the core alone, and leaves it idle if it was.
  pub record Gentle {A : Type 0} (m : NodeM S A) : Type 0 where
    pub leaves : (n d : Node S) (a : A) → m n ≡ finished a d → OnlyCore n d × (IsIdle n → IsIdle d)

  pub Gentle-in_core : {A : Type 0} (m : CoreM S A) → KeepsNode m → Gentle (in_core m)
  Gentle-in_core m k = record {
    leaves = λ n d a e.
        let (c, p, q) = in_core-eq-finished m n d a e in
        let same = k.keeps n.core c a p in
        (
          OnlyCore-in_core m n d a e,
          λ i. subst IsIdle (sym q) (
            ap (λ (x : Core S). x.transaction_pool) same ∙ i.0,
            ap (λ (x : Core S). x.block_signature_pool) same ∙ i.1,
          ),
        );
  }
