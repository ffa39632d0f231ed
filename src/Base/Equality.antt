-- ===== src/Base/Equality.antt =====
-- Keys that a test compares: one operator `==`, by instances.
use Prim.Native.Nat.{ℕ}
use Prim.Native.String.{String}
use mathlib.Core.Path.{◌≡◌}
use mathlib.Core.Logic.{◌↔◌}
use mathlib.Core.Bool.{Bool, true, ◌&&◌}
use native.Mathlib.Omega.{arith}
use text.Mathlib.Text.{◌==◌ as str_eq}
use text.Mathlib.TextEquality.{eq_iff}
use onsheet_backend.Base.Tests.{nat_eqb, nat_eqb_iff}

pub record Eq {ℓ} (K : Type ℓ) : Type ℓ where
  -- the test of `===`
  pub same : K → K → Bool
  pub same_iff : (j k : K) → (same j k ≡ true) ↔ (j ≡ k)

infix 50 ◌==◌
abbrev pub ◌==◌ {ℓ} : {K : Type ℓ} ⦃test : Eq K⦄ → K → K → Bool
◌==◌ ⦃test⦄ = test.same

instance abbrev pub nat_eq : Eq ℕ
nat_eq = record { same = nat_eqb; same_iff = nat_eqb_iff }

instance abbrev pub string_eq : Eq String
string_eq = record { same = str_eq; same_iff = eq_iff }

abbrev pair_eqb : String × String → String × String → Bool
pair_eqb a b = str_eq a.0 b.0 && str_eq a.1 b.1

pub pair_eqb_iff : (a b : String × String) → (pair_eqb a b ≡ true) ↔ (a ≡ b)
pair_eqb_iff (a, b) (c, d) = ground (arith, eq_iff a c, eq_iff b d)

instance abbrev pub pair_eq : Eq (String × String)
pair_eq = record { same = pair_eqb; same_iff = pair_eqb_iff }

abbrev cell_key_eqb : String × ℕ × ℕ → String × ℕ × ℕ → Bool
cell_key_eqb a b = str_eq a.0 b.0 && (nat_eqb a.1 b.1 && nat_eqb a.2 b.2)

pub cell_key_eqb_iff : (a b : String × ℕ × ℕ) → (cell_key_eqb a b ≡ true) ↔ (a ≡ b)
cell_key_eqb_iff (a, b, c) (a', b', c') = ground (arith, eq_iff a a')

instance abbrev pub cell_key_eq : Eq (String × ℕ × ℕ)
cell_key_eq = record { same = cell_key_eqb; same_iff = cell_key_eqb_iff }
