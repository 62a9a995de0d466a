-- ===== src/Prelude/Items.antt =====
-- Writes at an index, and the removal of the last element.
use Prim.Native.Nat.{ℕ, zero, suc, ◌+◌, ◌<◌}
use mathlib.Core.Path.{◌≡◌, refl, ap}
use mathlib.Core.Logic.{◌≢◌}
use mathlib.Core.List.{List, [], ◌∷◌}
use mathlib.Core.Option.{none, some}
use native.Mathlib.Omega.{arith}
use mlcache.Prelude.Tests.{ltb, if◌then◌else◌}
use mlcache.Prelude.Lists.{length, get_elem?, set}
use mlcache.Prelude.Outcome.{Result, ok, raise, index_error}

module _ {A : Type 0} where
  -- All but the last.
  abbrev pub front : A → List A → List A
  front a [] = []
  front a (b ∷ bs) = a ∷ front b bs

  -- `xs.pop()`
  abbrev pub pop_last : List A → Result (List A)
  pop_last [] = raise index_error
  pop_last (x ∷ xs) = ok (front x xs)

  -- `xs[i]` and `xs[i] = v`
  abbrev pub item_at : List A → ℕ → Result A
  item_at xs i = elim (get_elem? xs i) [ none ↦ raise index_error | some a ↦ ok a ]

  abbrev pub set_item : List A → ℕ → A → Result (List A)
  set_item xs i v = if ltb i (length xs) then ok (set xs i v) else raise index_error

  pub length-set : (xs : List A) (i : ℕ) (v : A) → length (set xs i v) ≡ length xs
  length-set [] i v = refl
  length-set (x ∷ xs) zero v = refl
  length-set (x ∷ xs) (suc i) v = ap suc (length-set xs i v)

  pub get_elem?-set_same :
      (xs : List A) (i : ℕ) (v : A) → i < length xs → get_elem? (set xs i v) i ≡ some v
  get_elem?-set_same [] i v h = absurd (omega arith)
  get_elem?-set_same (x ∷ xs) zero v h = refl
  get_elem?-set_same (x ∷ xs) (suc i) v h = get_elem?-set_same xs i v (omega arith)

  pub get_elem?-set_ne :
      (xs : List A) (i j : ℕ) (v : A) → i ≢ j → get_elem? (set xs i v) j ≡ get_elem? xs j
  get_elem?-set_ne [] i j v h = refl
  get_elem?-set_ne (x ∷ xs) zero zero v h = absurd (h refl)
  get_elem?-set_ne (x ∷ xs) zero (suc j) v h = refl
  get_elem?-set_ne (x ∷ xs) (suc i) zero v h = refl
  get_elem?-set_ne (x ∷ xs) (suc i) (suc j) v h = get_elem?-set_ne xs i j v (λ e. h (ap suc e))

  pub get_elem?-lt : (xs : List A) (i : ℕ) (a : A) → get_elem? xs i ≡ some a → i < length xs
  get_elem?-lt [] i a h = absurd (ground arith)
  get_elem?-lt (x ∷ xs) zero a h = omega arith
  get_elem?-lt (x ∷ xs) (suc i) a h = omega (arith, get_elem?-lt xs i a h)

  pub set_item_lem :
      (xs : List A) (i : ℕ) (v : A) → i < length xs → set_item xs i v ≡ ok (set xs i v)
  set_item_lem xs i v h = ground arith

  length-front : (x : A) (xs : List A) → length (front x xs) ≡ length xs
  length-front x [] = refl
  length-front x (y ∷ ys) = ap suc (length-front y ys)

  get_elem?-front :
      (x : A) (xs : List A) (i : ℕ)
      → i < length xs
      → get_elem? (front x xs) i ≡ get_elem? (x ∷ xs) i
  get_elem?-front x [] i h = absurd (omega arith)
  get_elem?-front x (y ∷ ys) zero h = refl
  get_elem?-front x (y ∷ ys) (suc i) h = get_elem?-front y ys i (omega arith)

  -- The list without its last element keeps the others.
  pub pop_last_lem :
      (xs : List A)
      → 0 < length xs
      → (ys : List A) × (pop_last xs ≡ ok ys)
        × (length ys + 1 ≡ length xs)
        × ((i : ℕ) → i < length ys → get_elem? ys i ≡ get_elem? xs i)
  pop_last_lem [] h = absurd (omega arith)
  pop_last_lem (x ∷ xs) h = (
    front x xs,
    refl,
    omega (arith, length-front x xs),
    λ i lt. get_elem?-front x xs i (omega (arith, length-front x xs)),
  )
