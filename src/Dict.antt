-- ===== src/Dict.antt =====
-- Python's `dict`: keys in insertion order. An assignment to a key that is there keeps its place,
-- a new key goes to the end; `pop(key, None)` drops the key.
pub mod Entries
pub mod Keys
use mlcache.Prelude.{
  ◌+◌, ◌≤◌, ◌<◌, ◌≡◌, refl, ite, true, Option, none, some, List, [], ◌∷◌, map, arith, length,
  is_some,
}

abbrev pub Dict {ℓ} : Type ℓ → Type ℓ → Type ℓ
Dict K V = List (K × V)

abbrev pub keys {ℓ} : {K V : Type ℓ} → Dict K V → List K
keys = map (λ e. e.0)

abbrev pub values {ℓ} : {K V : Type ℓ} → Dict K V → List V
values = map (λ e. e.1)

module _ {ℓ} {K V : Type ℓ} (dec : Discrete K) where
  unfoldable pub get : K → Dict K V → Option V
  get k [] = none
  get k ((j, v) ∷ m) = ite (dec j k) (some v) (get k m)

  unfoldable pub assign : K → V → Dict K V → Dict K V
  assign k v [] = (k, v) ∷ []
  assign k v ((j, w) ∷ m) = ite (dec j k) ((j, v) ∷ m) ((j, w) ∷ assign k v m)

  unfoldable pub pop : K → Dict K V → Dict K V
  pop k [] = []
  pop k ((j, w) ∷ m) = let rest = pop k m in ite (dec j k) rest ((j, w) ∷ rest)

  pub get-assign :
      (k j : K) (v : V) (m : Dict K V) → get j (assign k v m) ≡ ite (dec k j) (some v) (get j m)
  unfolding get assign
  get-assign k j v [] = ground arith
  get-assign k j v ((i, w) ∷ m) = ground (arith, get-assign k j v m)

  pub get-pop : (k j : K) (m : Dict K V) → get j (pop k m) ≡ ite (dec k j) none (get j m)
  unfolding get pop
  get-pop k j [] = ground arith
  get-pop k j ((i, w) ∷ m) = ground (arith, get-pop k j m)

  pub pop_absent : (k : K) (m : Dict K V) → get k m ≡ none → pop k m ≡ m
  unfolding get pop
  pop_absent k [] h = refl
  pop_absent k ((j, w) ∷ m) h = ground (arith, pop_absent k m)

  pub length-pop-le : (k : K) (m : Dict K V) → length (pop k m) ≤ length m
  unfolding pop
  length-pop-le k [] = omega arith
  length-pop-le k ((j, w) ∷ m) = ground (arith, length-pop-le k m)

  -- A key that is there leaves a shorter dictionary.
  pub length-pop-lt :
      (k : K) (m : Dict K V) → is_some (get k m) ≡ true → length (pop k m) < length m
  unfolding get pop
  length-pop-lt k ((j, w) ∷ m) h = ground (arith, length-pop-lt k m, length-pop-le k m)
  length-pop-lt k [] h = absurd (ground arith)

  pub length-assign-le : (k : K) (v : V) (m : Dict K V) → length (assign k v m) ≤ length m + 1
  unfolding assign
  length-assign-le k v [] = omega arith
  length-assign-le k v ((j, w) ∷ m) = ground (arith, length-assign-le k v m)

  pub get-assign_self : (k : K) (v : V) (m : Dict K V) → get k (assign k v m) ≡ some v
  get-assign_self k v m = rw get-assign (ground arith)

  pub get-assign_ne : (k j : K) (v : V) (m : Dict K V) → ¬ (k ≡ j) → get j (assign k v m) ≡ get j m
  get-assign_ne k j v m h = rw get-assign (ground arith)

  pub get-pop_ne : (k j : K) (m : Dict K V) → ¬ (k ≡ j) → get j (pop k m) ≡ get j m
  get-pop_ne k j m h = rw get-pop (ground arith)

  pub get-pop_self : (k : K) (m : Dict K V) → get k (pop k m) ≡ none
  get-pop_self k m = rw get-pop (ground arith)
