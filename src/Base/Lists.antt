-- ===== src/Base/Lists.antt =====
-- Lists measured and indexed by native numbers.
use Prim.Native.Nat.{ℕ, zero, suc, ◌+◌, ◌-◌, ◌≤◌}
use mathlib.Core.Path.{◌≡◌, refl}
use mathlib.Core.List.{List, [], ◌∷◌, ◌++◌}
use mathlib.Core.Option.{Option, none, some}
use native.Mathlib.Omega.{arith}
use jokerix.Base.Tests.{◌==◌, if◌then◌else◌}

module _ {ℓ} {A : Type ℓ} where
  abbrev pub length : List A → ℕ
  length [] = 0
  length (x ∷ xs) = suc (length xs)

  abbrev pub get_elem? : List A → ℕ → Option A
  get_elem? [] i = none
  get_elem? (x ∷ xs) zero = some x
  get_elem? (x ∷ xs) (suc i) = get_elem? xs i

  pub length-append : (xs ys : List A) → length (xs ++ ys) ≡ length xs + length ys
  length-append [] ys = omega arith
  length-append (x ∷ xs) ys = omega (arith, length-append xs ys)

-- Entry `i`, or the default past the end.
module _ {ℓ} {A : Type ℓ} where
  abbrev pub get_or : List A → ℕ → A → A
  get_or [] i d = d
  get_or (x ∷ xs) zero d = x
  get_or (x ∷ xs) (suc i) d = get_or xs i d

  abbrev pub drop_last : List A → List A
  drop_last [] = []
  drop_last (x ∷ []) = []
  drop_last (x ∷ y ∷ xs) = x ∷ drop_last (y ∷ xs)

module _ {ℓ} {A : Type ℓ} where
  pub get_or-end : (xs : List A) (i : ℕ) (d : A) → length xs ≤ i → get_or xs i d ≡ d
  get_or-end [] i d h = refl
  get_or-end (x ∷ xs) zero d h = absurd (omega arith)
  get_or-end (x ∷ xs) (suc i) d h = get_or-end xs i d (omega arith)

  pub get_or-append :
      (xs : List A) (y : A) (i : ℕ) (d : A)
      → get_or (xs ++ y ∷ []) i d ≡ (if length xs == i then y else get_or xs i d)
  get_or-append [] y zero d = refl
  get_or-append [] y (suc i) d = ground arith
  get_or-append (x ∷ xs) y zero d = ground arith
  get_or-append (x ∷ xs) y (suc i) d = ground (arith, get_or-append xs y i d)

  pub get_or-drop_last :
      (xs : List A) (i : ℕ) (d : A)
      → get_or (drop_last xs) i d ≡ (if length xs == i + 1 then d else get_or xs i d)
  get_or-drop_last [] i d = ground arith
  get_or-drop_last (x ∷ []) zero d = refl
  get_or-drop_last (x ∷ []) (suc i) d = ground arith
  get_or-drop_last (x ∷ y ∷ xs) zero d = ground arith
  get_or-drop_last (x ∷ y ∷ xs) (suc i) d = ground (arith, get_or-drop_last (y ∷ xs) i d)

  pub length-drop_last : (xs : List A) → length (drop_last xs) ≡ length xs - 1
  length-drop_last [] = omega arith
  length-drop_last (x ∷ []) = omega arith
  length-drop_last (x ∷ y ∷ xs) = omega (arith, length-drop_last (y ∷ xs))
