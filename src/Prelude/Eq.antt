-- ===== src/Prelude/Eq.antt =====
-- Equality tests for dictionary keys, as an interface with an instance for each key type.
use Prim.Native.String.{String}
use mathlib.Core.Path.{◌≡◌, refl}
use mathlib.Core.Logic.{◌↔◌}
use mathlib.Core.Bool.{Bool, true, ◌&&◌}
use native.Mathlib.Omega.{arith}
use text.Mathlib.Text.{◌==◌ as str_eq}
use text.Mathlib.TextEquality.{eq_iff}
use nitzan_shinnies_inspecti.Prelude.{eqb, eqb_iff}
use Prim.Native.Nat.{ℕ}

pub record Eq {ℓ} (K : Type ℓ) : Type ℓ where
  pub beq : K → K → Bool
  pub beq_iff : (k j : K) → (beq k j ≡ true) ↔ (k ≡ j)

module _ {ℓ} {K : Type ℓ} ⦃keys : Eq K⦄ where
  infix 50 ◌==◌
  abbrev pub ◌==◌ : K → K → Bool
  k == j = keys.beq k j

instance abbrev pub ℕ-eq : Eq ℕ
ℕ-eq = record { beq = eqb; beq_iff = eqb_iff }

instance abbrev pub String-eq : Eq String
String-eq = record { beq = str_eq; beq_iff = eq_iff }

pub pair_iff :
    {A B : Type 0} (ea : Eq A) (eb : Eq B) (a b : A × B)
    → ((ea.beq a.0 b.0 && eb.beq a.1 b.1) ≡ true) ↔ (a ≡ b)
pair_iff ea eb (a, b) (c, d) = ground (arith, ea.beq_iff a c, eb.beq_iff b d)

instance abbrev pub pair_eq : {A B : Type 0} ⦃ea : Eq A⦄ ⦃eb : Eq B⦄ → Eq (A × B)
pair_eq ⦃ea⦄ ⦃eb⦄ = record {
  beq = λ a b. ea.beq a.0 b.0 && eb.beq a.1 b.1;
  beq_iff = pair_iff ea eb;
}

pub beq_refl {ℓ} : {A : Type ℓ} ⦃e : Eq A⦄ (a : A) → (a == a) ≡ true
beq_refl ⦃e⦄ a = (e.beq_iff a a).1 refl
