-- ===== src/Retrieval/Ranks.antt =====
-- src/mlcache/retrieval/in_memory.py: the masks and the orders of `search`.
use mlcache.Prelude.{
  ℕ, zero, suc, ◌+◌, ◌≤◌, ◌<◌, String, ◌≡◌, refl, sym, ap, subst, inl, inr, Bool, true, false,
  Option, none, some, List, [], ◌∷◌, arith, Bool-cases, length, get_elem?, take, All,
}
use mlcache.Float.{FloatOps}
use mlcache.Types.{CacheKey}
use mlcache.Retrieval.Tables.{some_injective}
use mlcache.Retrieval.Search.{
  arange, same_namespace, quotients, masked_by, masked, insert, goes_before, sorted,
}
use mlcache.QueryLevel.{feq}

pub length-take : {A : Type 0} (n : ℕ) (xs : List A) → n ≤ length xs → length (take n xs) ≡ n
length-take zero xs h = refl
length-take (suc n) [] h = absurd (omega arith)
length-take (suc n) (x ∷ xs) h = ap suc (length-take n xs (omega arith))

pub take_all : {A : Type 0} (n : ℕ) (xs : List A) → length xs ≡ n → take n xs ≡ xs
take_all zero [] h = refl
take_all zero (x ∷ xs) h = absurd (omega arith)
take_all (suc n) [] h = refl
take_all (suc n) (x ∷ xs) h = ap (λ l. x ∷ l) (take_all n xs (omega arith))

pub take-All : {A : Type 0} (P : A → Type 0) (n : ℕ) (xs : List A) → All P xs → All P (take n xs)
take-All P zero xs h = tt
take-All P (suc n) [] h = tt
take-All P (suc n) (x ∷ xs) h = (h.0, take-All P n xs h.1)

pub arange-range :
    (n from m : ℕ) → n + from ≤ m → All (λ i. i < m) (arange n from) × (length (arange n from) ≡ n)
arange-range zero from m h = (tt, refl)
arange-range (suc n) from m h =
    let (a, l) = arange-range n (from + 1) m (omega arith) in ((omega arith, a), ap suc l)

module _ {F : Type 0} ⦃fl : FloatOps F⦄ where
  pub length-quotients :
      (ds ns : List F) → length ds ≡ length ns → length (quotients ds ns) ≡ length ds
  length-quotients [] ns h = refl
  length-quotients (d ∷ ds) [] h = absurd (omega arith)
  length-quotients (d ∷ ds) (n ∷ ns) h = ap suc (length-quotients ds ns (omega arith))

  -- A score that is not -inf is not masked.
  unmasked_by_lem :
      (ns : String) (ms : List (Option String)) (ss : List F) (i : ℕ) (s : F)
      → get_elem? (masked_by ns ms ss) i ≡ some s
      → feq s fl.neg_inf ≡ false
      → fl.le fl.neg_inf fl.neg_inf ≡ true
      → get_elem? ss i ≡ some s
  unmasked_by_lem ns [] ss i s g f num = absurd (ground arith)
  unmasked_by_lem ns (n ∷ ms) [] i s g f num = absurd (ground arith)
  unmasked_by_lem ns (n ∷ ms) (t ∷ ss) zero s g f num = elim (Bool-cases (same_namespace ns n)) [
    | inl e ↦ rw e at g
    | inr e ↦
        let q : fl.neg_inf ≡ s = some_injective (rw e at g) in
        let f' : feq fl.neg_inf fl.neg_inf ≡ false =
          subst (λ x. feq x fl.neg_inf ≡ false) (sym q) f in
        absurd (ground arith)
  ]
  unmasked_by_lem ns (n ∷ ms) (t ∷ ss) (suc i) s g f num = unmasked_by_lem ns ms ss i s g f num

  pub unmasked_lem :
      (namespace : Option String) (ms : List (Option String)) (ss : List F) (i : ℕ) (s : F)
      → get_elem? (masked namespace ms ss) i ≡ some s
      → feq s fl.neg_inf ≡ false
      → fl.le fl.neg_inf fl.neg_inf ≡ true
      → get_elem? ss i ≡ some s
  unmasked_lem none ms ss i s g f num = g
  unmasked_lem (some ns) ms ss i s g f num = unmasked_by_lem ns ms ss i s g f num

  length-masked_by :
      (ns : String) (ms : List (Option String)) (ss : List F)
      → length ms ≡ length ss
      → length (masked_by ns ms ss) ≡ length ss
  length-masked_by ns [] [] h = refl
  length-masked_by ns [] (s ∷ ss) h = absurd (omega arith)
  length-masked_by ns (m ∷ ms) [] h = refl
  length-masked_by ns (m ∷ ms) (s ∷ ss) h = ap suc (length-masked_by ns ms ss (omega arith))

  -- What the mask leaves is of the namespace.
  pub masked_by_lem :
      (ns : String) (ms : List (Option String)) (ss : List F) (i : ℕ) (m : Option String) (s : F)
      → get_elem? ms i ≡ some m
      → get_elem? (masked_by ns ms ss) i ≡ some s
      → fl.le fl.neg_inf fl.neg_inf ≡ true
      → feq s fl.neg_inf ≡ false
      → same_namespace ns m ≡ true
  masked_by_lem ns [] ss i m s h g num f = absurd (ground arith)
  masked_by_lem ns (n ∷ ms) [] i m s h g num f = absurd (ground arith)
  masked_by_lem ns (n ∷ ms) (t ∷ ss) zero m s h g num f = elim (Bool-cases (same_namespace ns n)) [
    | inl e ↦ subst (λ x. same_namespace ns x ≡ true) (some_injective h) e
    | inr e ↦
        let q : fl.neg_inf ≡ s = some_injective (rw e at g) in
        let f' : feq fl.neg_inf fl.neg_inf ≡ false =
          subst (λ x. feq x fl.neg_inf ≡ false) (sym q) f in
        absurd (ground arith)
  ]
  masked_by_lem ns (n ∷ ms) (t ∷ ss) (suc i) m s h g num f = masked_by_lem ns ms ss i m s h g num f

  insert_lem :
      (P : F × CacheKey → Type 0) (str_lt : String → String → Bool) (x : F × CacheKey)
      (ys : List (F × CacheKey))
      → P x
      → All P ys
      → All P (insert str_lt x ys) × (length (insert str_lt x ys) ≡ suc (length ys))
  insert_lem P str_lt x [] p h = ((p, tt), refl)
  insert_lem P str_lt x (y ∷ ys) p h = elim (Bool-cases (goes_before str_lt x y)) [
    | inl e ↦ rw e ((p, (h.0, h.1)), refl)
    | inr e ↦ let (a, l) = insert_lem P str_lt x ys p h.1 in rw e ((h.0, a), ap suc l)
  ]

  pub sorted_lem :
      (P : F × CacheKey → Type 0) (str_lt : String → String → Bool) (done xs : List (F × CacheKey))
      → All P done
      → All P xs
      → All P (sorted str_lt done xs) × (length (sorted str_lt done xs) ≡ length done + length xs)
  unfolding sorted
  sorted_lem P str_lt done [] d h = (d, omega arith)
  sorted_lem P str_lt done (x ∷ xs) d h =
      let (a, l) = insert_lem P str_lt x done h.0 d in
      let (b, m) = sorted_lem P str_lt (insert str_lt x done) xs a h.1 in (b, omega (arith, l, m))

  pub length-masked :
      (namespace : Option String) (ms : List (Option String)) (ss : List F)
      → length ms ≡ length ss
      → length (masked namespace ms ss) ≡ length ss
  length-masked none ms ss h = refl
  length-masked (some ns) ms ss h = length-masked_by ns ms ss h
