-- ===== src/Dict/Keys.antt =====
-- The keys of a dictionary, in order: what an assignment or a removal does to them depends on the
-- keys alone.
use mlcache.Prelude.{◌≡◌, refl, ap, sym, ◌∙◌, ite, List, [], ◌∷◌, arith, length, length-map, Option}
use mlcache.Dict.{Dict, get, assign, pop, keys}

module _ {ℓ} {K : Type ℓ} (dec : Discrete K) where
  add_key : K → List K → List K
  add_key k [] = k ∷ []
  add_key k (j ∷ ks) = ite (dec j k) (j ∷ ks) (j ∷ add_key k ks)

  remove_key : K → List K → List K
  remove_key k [] = []
  remove_key k (j ∷ ks) = let rest = remove_key k ks in ite (dec j k) rest (j ∷ rest)

module _ {ℓ} {K V : Type ℓ} (dec : Discrete K) where
  keys-assign : (k : K) (v : V) (m : Dict K V) → keys (assign dec k v m) ≡ add_key dec k (keys m)
  unfolding assign add_key
  keys-assign k v [] = refl
  keys-assign k v ((j, w) ∷ m) = ground (arith, keys-assign k v m)

  keys-pop : (k : K) (m : Dict K V) → keys (pop dec k m) ≡ remove_key dec k (keys m)
  unfolding pop remove_key
  keys-pop k [] = refl
  keys-pop k ((j, w) ∷ m) = ground (arith, keys-pop k m)

module _ {ℓ} {K V W : Type ℓ} (dec : Discrete K) where
  -- Two dictionaries with the same keys keep the same keys.
  pub assign_together :
      (k : K) (v : V) (w : W) (m : Dict K V) (n : Dict K W)
      → keys m ≡ keys n
      → keys (assign dec k v m) ≡ keys (assign dec k w n)
  assign_together k v w m n e =
      keys-assign dec k v m ∙ ap (add_key dec k) e ∙ sym (keys-assign dec k w n)

  pub pop_together :
      (k : K) (m : Dict K V) (n : Dict K W)
      → keys m ≡ keys n
      → keys (pop dec k m) ≡ keys (pop dec k n)
  pop_together k m n e = keys-pop dec k m ∙ ap (remove_key dec k) e ∙ sym (keys-pop dec k n)

  pub length_together : (m : Dict K V) (n : Dict K W) → keys m ≡ keys n → length m ≡ length n
  length_together m n e = sym (length-map (λ x. x.0) m) ∙ ap length e ∙ length-map (λ x. x.0) n

  -- A key that one of them lacks, the other lacks.
  pub absent_together :
      (k : K) (m : Dict K V) (n : Dict K W)
      → keys m ≡ keys n
      → get dec k m ≡ Option.none
      → get dec k n ≡ Option.none
  unfolding get
  absent_together k [] [] e h = refl
  absent_together k [] (y ∷ n) e h = absurd (ground arith)
  absent_together k (x ∷ m) [] e h = absurd (ground arith)
  absent_together k ((j, v) ∷ m) ((i, w) ∷ n) e h = ground (arith, absent_together k m n)

module _ {ℓ} {K V : Type ℓ} (dec : Discrete K) where
  -- An assignment to a key that is there keeps the keys.
  pub keys-assign_present :
      (k : K) (v w : V) (m : Dict K V)
      → get dec k m ≡ Option.some w
      → keys (assign dec k v m) ≡ keys m
  unfolding get assign
  keys-assign_present k v w [] h = absurd (ground arith)
  keys-assign_present k v w ((j, x) ∷ m) h = ground (arith, keys-assign_present k v w m)
