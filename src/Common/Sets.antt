-- ===== src/Common/Sets.antt =====
-- `HashSet` as a list without repeated elements.
use mathlib.Core.Path.{◌≡◌}
use mathlib.Core.Bool.{Bool, false, not, ◌&&◌, ◌||◌}
use mathlib.Core.List.{List, [], ◌∷◌}
use native.Mathlib.Omega.{arith}
use pgnats.Common.Tests.{if◌then◌else◌}
use pgnats.Common.Eq.{Eq}

module _ {ℓ} {A : Type ℓ} ⦃e : Eq A⦄ where
  abbrev pub contains : List A → A → Bool
  contains [] a = false
  contains (x ∷ xs) a = e.beq x a || contains xs a

  abbrev pub retain : (A → Bool) → List A → List A
  retain p [] = []
  retain p (x ∷ xs) = if p x then x ∷ retain p xs else retain p xs

module _ {ℓ} {A : Type ℓ} ⦃e : Eq A⦄ where
  abbrev pub set_insert : A → List A → List A
  set_insert a xs = if contains xs a then xs else a ∷ xs

  abbrev pub set_remove : A → List A → List A
  set_remove a xs = retain (λ x. not (e.beq a x)) xs

module _ {ℓ} {A : Type ℓ} ⦃e : Eq A⦄ where
  pub contains-insert :
      (a b : A) (xs : List A) → contains (set_insert a xs) b ≡ (e.beq a b || contains xs b)
  contains-insert a b xs = ground (arith, e.beq_iff a b)

  pub contains-retain :
      (p : A → Bool) (b : A) (xs : List A) → contains (retain p xs) b ≡ (p b && contains xs b)
  contains-retain p b [] = ground arith
  contains-retain p b (x ∷ xs) = ground (arith, contains-retain p b xs, e.beq_iff x b)

  pub contains-remove :
      (a b : A) (xs : List A) → contains (set_remove a xs) b ≡ (not (e.beq a b) && contains xs b)
  contains-remove a b xs = contains-retain (λ x. not (e.beq a x)) b xs
