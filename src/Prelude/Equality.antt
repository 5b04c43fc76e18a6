-- ===== src/Prelude/Equality.antt =====
-- Equality tests of the Go types that are compared or used as map keys: an interface with an
-- instance for each type.
use Prim.Native.Nat.{ℕ}
use Prim.Native.String.{String}
use mathlib.Core.Bool.{Bool, true, false, ◌&&◌}
use mathlib.Core.Logic.{◌↔◌, ◌≢◌}
use mathlib.Core.Path.{◌≡◌, refl, sym, ap, ◌∙◌}
use native.Mathlib.Omega.{arith}
use text.Mathlib.Text.{◌==◌ as str_eq}
use text.Mathlib.TextEquality.{eq_iff}
use paradigm.Prelude.Int.{ℤ, eqb_ℤ, eqb_ℤ_iff}
use paradigm.Prelude.Tests.{eqb, eqb_iff}

-- A type that Go can compare, with a test of equality.
pub record Comparable {ℓ} (K : Type ℓ) : Type ℓ where
  pub equal : K → K → Bool
  pub equal_iff : (j k : K) → (equal j k ≡ true) ↔ (j ≡ k)

instance abbrev pub int_eq : Comparable ℤ
int_eq = record { equal = eqb_ℤ; equal_iff = eqb_ℤ_iff }

instance abbrev pub nat_eq : Comparable ℕ
nat_eq = record { equal = eqb; equal_iff = eqb_iff }

infix 50 ◌==◌
abbrev pub ◌==◌ {ℓ} : {K : Type ℓ} ⦃c : Comparable K⦄ (j k : K) → Bool
◌==◌ ⦃c⦄ j k = c.equal j k

instance abbrev pub string_eq : Comparable String
string_eq = record { equal_iff = eq_iff; equal = str_eq }

module _ {ℓ} {A B : Type ℓ} ⦃d : Comparable A⦄ ⦃e : Comparable B⦄ where
  pub pair_equal_iff : (p q : A × B) → (d.equal p.0 q.0 && e.equal p.1 q.1 ≡ true) ↔ (p ≡ q)
  pair_equal_iff (a, b) (c, f) = ground (arith, d.equal_iff a c, e.equal_iff b f)

  instance abbrev pub pair_eq : Comparable (A × B)
  pair_eq = record { equal = λ p q. d.equal p.0 q.0 && e.equal p.1 q.1; equal_iff = pair_equal_iff }

module _ {ℓ} {A : Type ℓ} ⦃e : Comparable A⦄ where
  pub ==_refl : (a : A) → (a == a) ≡ true
  ==_refl a = (e.equal_iff a a).1 refl

  pub eq_of_== : (a b : A) → (a == b) ≡ true → a ≡ b
  eq_of_== a b h = (e.equal_iff a b).0 h

  pub ==_ne : (a b : A) → a ≢ b → (a == b) ≡ false
  ==_ne a b h = ground (arith, e.equal_iff a b)

  pub ne_of_== : (a b : A) → (a == b) ≡ false → a ≢ b
  ne_of_== a b h e = true_not_false (sym (==_refl b) ∙ ap (λ c. c == b) (sym e) ∙ h)
    where
      true_not_false : true ≢ false
      true_not_false q = cc
