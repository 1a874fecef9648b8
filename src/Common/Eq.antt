-- ===== src/Common/Eq.antt =====
-- Equality tests as instances: numbers, lists and pairs of what has one.
use Prim.Native.Nat.{ℕ}
use mathlib.Core.Path.{◌≡◌, refl}
use mathlib.Core.Logic.{◌↔◌}
use mathlib.Core.Bool.{Bool, true, false, ◌&&◌}
use mathlib.Core.List.{List, [], ◌∷◌}
use native.Mathlib.Omega.{arith}
use pgnats.Common.Tests.{◌==◌, ==_iff}

pub record Eq {ℓ} (A : Type ℓ) : Type ℓ where
  pub beq : A → A → Bool
  pub beq_iff : (a b : A) → (beq a b ≡ true) ↔ (a ≡ b)

pub beq_refl {ℓ} : {A : Type ℓ} ⦃e : Eq A⦄ (a : A) → e.beq a a ≡ true
beq_refl ⦃e⦄ a = (e.beq_iff a a).1 refl

instance abbrev pub nat_eq : Eq ℕ
nat_eq = record { beq = ◌==◌; beq_iff = ==_iff }

unfoldable pub list_beq {ℓ} : {A : Type ℓ} → (A → A → Bool) → List A → List A → Bool
list_beq f [] [] = true
list_beq f (x ∷ xs) (y ∷ ys) = f x y && list_beq f xs ys
list_beq f _ _ = false

pub list_beq_iff {ℓ} :
    {A : Type ℓ} (e : Eq A) (xs ys : List A) → (list_beq e.beq xs ys ≡ true) ↔ (xs ≡ ys)
unfolding list_beq
list_beq_iff e [] [] = (λ _. refl, λ _. refl)
list_beq_iff e [] (y ∷ ys) = (λ h. cc, λ h. cc)
list_beq_iff e (x ∷ xs) [] = (λ h. cc, λ h. cc)
list_beq_iff e (x ∷ xs) (y ∷ ys) = (
  λ h. ground (arith, e.beq_iff x y, list_beq_iff e xs ys),
  λ h. ground (arith, e.beq_iff x y, list_beq_iff e xs ys),
)

instance abbrev pub list_eq {ℓ} : {A : Type ℓ} ⦃e : Eq A⦄ → Eq (List A)
list_eq ⦃e⦄ = record { beq = list_beq e.beq; beq_iff = list_beq_iff e }

unfoldable pub pair_beq {ℓ κ} :
    {A : Type ℓ} {B : Type κ} → (A → A → Bool) → (B → B → Bool) → A × B → A × B → Bool
pair_beq f g (a, b) (c, d) = f a c && g b d

pub pair_beq_iff {ℓ κ} :
    {A : Type ℓ} {B : Type κ} (e : Eq A) (f : Eq B) (p q : A × B)
    → (pair_beq e.beq f.beq p q ≡ true) ↔ (p ≡ q)
unfolding pair_beq
pair_beq_iff e f (a, b) (c, d) = (
  λ h. ground (arith, e.beq_iff a c, f.beq_iff b d),
  λ h. ground (arith, e.beq_iff a c, f.beq_iff b d),
)

instance abbrev pub pair_eq {ℓ κ} : {A : Type ℓ} {B : Type κ} ⦃e : Eq A⦄ ⦃f : Eq B⦄ → Eq (A × B)
pair_eq ⦃e⦄ ⦃f⦄ = record { beq = pair_beq e.beq f.beq; beq_iff = pair_beq_iff e f }
