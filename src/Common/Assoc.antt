-- ===== src/Common/Assoc.antt =====
-- `HashMap` as an association list: an insertion replaces the value of its key, a removal takes
-- every entry of its key. Iteration goes in the order of the list.
use mathlib.Core.Path.{◌≡◌, refl}
use mathlib.Core.Logic.{◌≢◌}
use mathlib.Core.Bool.{Bool, true, false, ◌||◌}
use mathlib.Core.Option.{Option, none, some}
use mathlib.Core.List.{List, [], ◌∷◌}
use native.Mathlib.Omega.{arith}
use pgnats.Common.Tests.{if◌then◌else◌}
use pgnats.Common.Eq.{Eq, beq_refl}

module _ {ℓ κ} {K : Type ℓ} {V : Type κ} ⦃e : Eq K⦄ where
  abbrev pub get : K → List (K × V) → Option V
  get k [] = none
  get k ((j, v) ∷ m) = if e.beq j k then some v else get k m

  abbrev pub contains_key : K → List (K × V) → Bool
  contains_key k [] = false
  contains_key k ((j, v) ∷ m) = if e.beq j k then true else contains_key k m

  abbrev pub insert : K → V → List (K × V) → List (K × V)
  insert k v [] = (k, v) ∷ []
  insert k v ((j, w) ∷ m) = if e.beq j k then (k, v) ∷ m else (j, w) ∷ insert k v m

  abbrev pub remove : K → List (K × V) → List (K × V)
  remove k [] = []
  remove k ((j, v) ∷ m) = if e.beq j k then remove k m else (j, v) ∷ remove k m

module _ {ℓ κ} {K : Type ℓ} {V : Type κ} ⦃e : Eq K⦄ where
  pub get-insert :
      (k j : K) (v : V) (m : List (K × V))
      → get j (insert k v m) ≡ (if e.beq k j then some v else get j m)
  get-insert k j v [] = refl
  get-insert k j v ((i, w) ∷ m) =
      ground (arith, get-insert k j v m, e.beq_iff k j, e.beq_iff i k, e.beq_iff i j)

  pub get-remove :
      (k j : K) (m : List (K × V)) → get j (remove k m) ≡ (if e.beq k j then none else get j m)
  get-remove k j [] = ground arith
  get-remove k j ((i, w) ∷ m) =
      ground (arith, get-remove k j m, e.beq_iff k j, e.beq_iff i k, e.beq_iff i j)

  pub get-insert_self : (k : K) (v : V) (m : List (K × V)) → get k (insert k v m) ≡ some v
  get-insert_self k v m = ground (arith, get-insert k k v m, beq_refl k)

  pub get-insert_ne : (k j : K) (v : V) (m : List (K × V)) → k ≢ j → get j (insert k v m) ≡ get j m
  get-insert_ne k j v m h = ground (arith, get-insert k j v m, e.beq_iff k j)

  pub get-remove_self : (k : K) (m : List (K × V)) → get k (remove k m) ≡ none
  get-remove_self k m = ground (arith, get-remove k k m, beq_refl k)

  pub get-remove_ne : (k j : K) (m : List (K × V)) → k ≢ j → get j (remove k m) ≡ get j m
  get-remove_ne k j m h = ground (arith, get-remove k j m, e.beq_iff k j)

  pub get_of_missing : (k : K) (m : List (K × V)) → contains_key k m ≡ false → get k m ≡ none
  get_of_missing k [] h = refl
  get_of_missing k ((j, v) ∷ m) h = ground (arith, get_of_missing k m)

  pub contains_key_of_missing :
      (k : K) (m : List (K × V)) → get k m ≡ none → contains_key k m ≡ false
  contains_key_of_missing k [] h = refl
  contains_key_of_missing k ((j, v) ∷ m) h = ground (arith, contains_key_of_missing k m)

  pub contains_key_of_present :
      (k : K) (v : V) (m : List (K × V)) → get k m ≡ some v → contains_key k m ≡ true
  contains_key_of_present k v [] h = cc
  contains_key_of_present k v ((j, u) ∷ m) h = ground (arith, contains_key_of_present k v m)

  pub contains_key-insert :
      (k j : K) (v : V) (m : List (K × V))
      → contains_key j (insert k v m) ≡ (e.beq k j || contains_key j m)
  contains_key-insert k j v [] = ground arith
  contains_key-insert k j v ((i, w) ∷ m) =
      ground (arith, contains_key-insert k j v m, e.beq_iff k j, e.beq_iff i k, e.beq_iff i j)

  pub contains_key-remove :
      (k j : K) (m : List (K × V)) → contains_key j m ≡ false → contains_key j (remove k m) ≡ false
  contains_key-remove k j [] h = refl
  contains_key-remove k j ((i, w) ∷ m) h = ground (arith, contains_key-remove k j m)

  pub remove_absent : (k : K) (m : List (K × V)) → contains_key k m ≡ false → remove k m ≡ m
  remove_absent k [] h = refl
  remove_absent k ((i, w) ∷ m) h = ground (arith, remove_absent k m)
