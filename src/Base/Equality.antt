-- ===== src/Base/Equality.antt =====
-- The strict equality `===` of the program's values, as an interface with its law.
use Prim.Native.Nat.{ℕ}
use Prim.Native.String.{String}
use mathlib.Core.Path.{◌≡◌, refl, ap}
use mathlib.Core.Logic.{◌↔◌, ◌≢◌}
use mathlib.Core.Bool.{Bool, true, false, not, ◌||◌}
use mathlib.Core.Option.{Option, none, some}
use mathlib.Core.List.{List, [], ◌∷◌}
use native.Mathlib.Omega.{arith}
use text.Mathlib.Text.{◌==◌ as str_eq}
use text.Mathlib.TextEquality.{eq_iff}
use my_build.Base.Tests.{nat_beq, nat_beq_iff}

pub record Eq {ℓ} (A : Type ℓ) : Type ℓ where
  pub same : A → A → Bool
  pub same_iff : (a b : A) → (same a b ≡ true) ↔ (a ≡ b)

module _ {ℓ} {A : Type ℓ} ⦃e : Eq A⦄ where
  infix 50 ◌==◌ ◌!=◌
  abbrev pub ◌==◌ : A → A → Bool
  a == b = e.same a b

  abbrev pub ◌!=◌ : A → A → Bool
  a != b = not (e.same a b)

instance abbrev pub ℕ_eq : Eq ℕ
ℕ_eq = record { same = nat_beq; same_iff = nat_beq_iff }

instance abbrev pub String_eq : Eq String
String_eq = record { same = str_eq; same_iff = eq_iff }

module _ {ℓ} {A : Type ℓ} (e : Eq A) where
  abbrev pub option_beq : Option A → Option A → Bool
  option_beq none none = true
  option_beq (some a) (some b) = e.same a b
  option_beq _ _ = false

  pub option_beq_iff : (a b : Option A) → (option_beq a b ≡ true) ↔ (a ≡ b)
  option_beq_iff none none = (λ _. refl, λ _. refl)
  option_beq_iff none (some b) = (λ h. cc, λ h. cc)
  option_beq_iff (some a) none = (λ h. cc, λ h. cc)
  option_beq_iff (some a) (some b) =
      (λ h. ap some ((e.same_iff a b).0 h), λ h. (e.same_iff a b).1 (cc))

instance abbrev pub Option_eq {ℓ} : {A : Type ℓ} ⦃e : Eq A⦄ → Eq (Option A)
Option_eq ⦃e⦄ = record { same = option_beq e; same_iff = option_beq_iff e }

module _ {ℓ} {A : Type ℓ} ⦃e : Eq A⦄ where
  pub eq_refl : (a : A) → (a == a) ≡ true
  eq_refl a = (e.same_iff a a).1 refl

  pub ne→false : (a b : A) → a ≢ b → (a == b) ≡ false
  ne→false a b h = ground (arith, e.same_iff a b, h)

  -- `list.includes(a)`.
  abbrev pub includes : List A → A → Bool
  includes [] a = false
  includes (x ∷ xs) a = x == a || includes xs a

  pub beq→ne : (a b : A) → (a == b) ≡ false → a ≢ b
  beq→ne a b h p = ground (arith, e.same_iff a b, h, p)
