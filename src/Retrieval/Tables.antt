-- ===== src/Retrieval/Tables.antt =====
-- src/mlcache/retrieval/in_memory.py: the tables of a valid store agree.
use mlcache.Prelude.{
  ℕ, zero, suc, ◌<◌, ◌≡◌, refl, sym, ap, ◌∙◌, subst, ◌≢◌, ◌⊎◌, inl, inr, none, some, List, [], ◌∷◌,
  ◌++◌, arith, ◌==◌, Bool-cases, str_dec, length, get_elem?, set,
}
use mlcache.Prelude.{
  get_elem?-append, get_elem?_last, get_elem?-set_same, get_elem?-set_ne, get_elem?-lt,
}
use mlcache.Dict
use mlcache.Dict.{Dict}
use mlcache.Types.{CacheKey}

-- The index of each key is where the list of keys has it, and the other way round.
pub record Agree (index : Dict CacheKey ℕ) (keys : List CacheKey) : Type 0 where
  pub listed :
      (k : CacheKey) (i : ℕ) → Dict.get str_dec k index ≡ some i → get_elem? keys i ≡ some k
  pub indexed :
      (k : CacheKey) (i : ℕ) → get_elem? keys i ≡ some k → Dict.get str_dec k index ≡ some i

pub some_injective : {A : Type 0} {a b : A} → some a ≡ some b → a ≡ b
some_injective e = ground arith

pub apart : (i j : ℕ) → some i ≡ some j → i ≢ j → ⊥
apart i j e ne = ne (some_injective e)

get_elem?-append_cases :
    {A : Type 0} (xs : List A) (a b : A) (i : ℕ)
    → get_elem? (xs ++ a ∷ []) i ≡ some b
    → (get_elem? xs i ≡ some b) ⊎ ((i ≡ length xs) × (a ≡ b))
get_elem?-append_cases [] a b zero h = inr (refl, ground arith)
get_elem?-append_cases [] a b (suc i) h = absurd (ground arith)
get_elem?-append_cases (x ∷ xs) a b zero h = inl h
get_elem?-append_cases (x ∷ xs) a b (suc i) h = elim (get_elem?-append_cases xs a b i h) [
  | inl e ↦ inl e
  | inr (e, f) ↦ inr (ap suc e, f)
]

-- A new key at the end.
pub append-Agree :
    (index : Dict CacheKey ℕ) (keys : List CacheKey) (k : CacheKey)
    → Agree index keys
    → Dict.get str_dec k index ≡ none
    → Agree (Dict.assign str_dec k (length keys) index) (keys ++ k ∷ [])
append-Agree index keys k h new = record { listed = listed_lem; indexed = indexed_lem }
  where
    listed_lem :
        (j : CacheKey) (i : ℕ)
        → Dict.get str_dec j (Dict.assign str_dec k (length keys) index) ≡ some i
        → get_elem? (keys ++ k ∷ []) i ≡ some j
    listed_lem j i e = elim (str_dec k j) [
      | yes p ↦
          let n : length keys ≡ i =
            ground (arith, Dict.get-assign str_dec k j (length keys) index) in
          subst (λ x. get_elem? (keys ++ k ∷ []) x ≡ some j) n
            (subst (λ x. get_elem? (keys ++ k ∷ []) (length keys) ≡ some x) p
              (get_elem?_last keys k))
      | no p ↦
          get_elem?-append keys (k ∷ []) i j
            (h.listed j i (sym (Dict.get-assign_ne str_dec k j (length keys) index p) ∙ e))
    ]

    indexed_lem :
        (j : CacheKey) (i : ℕ)
        → get_elem? (keys ++ k ∷ []) i ≡ some j
        → Dict.get str_dec j (Dict.assign str_dec k (length keys) index) ≡ some i
    indexed_lem j i e = elim (get_elem?-append_cases keys k j i e) [
      | inl old ↦ elim (str_dec k j) [
        | yes p ↦ absurd (ground (arith, h.indexed j i old, p))
        | no p ↦ Dict.get-assign_ne str_dec k j (length keys) index p ∙ h.indexed j i old
      ]
      | inr (n, p) ↦
          subst (λ x. Dict.get str_dec x (Dict.assign str_dec k (length keys) index) ≡ some i) p
            (Dict.get-assign_self str_dec k (length keys) index ∙ ap (λ x. some x) (sym n))
    ]

-- The last key moved to the index of a key that is dropped.
pub swap-Agree :
    (index : Dict CacheKey ℕ) (keys shorter : List CacheKey) (k moved : CacheKey) (idx last : ℕ)
    → Agree index keys
    → Dict.get str_dec k index ≡ some idx
    → get_elem? keys last ≡ some moved
    → idx ≢ last
    → length shorter ≡ last
    → length keys ≡ suc last
    → ((i : ℕ) → i < last → get_elem? shorter i ≡ get_elem? (set keys idx moved) i)
    → Agree (Dict.assign str_dec moved idx (Dict.pop str_dec k index)) shorter
swap-Agree index keys shorter k moved idx last h found tail other short long same = record {
  listed = listed_lem;
  indexed = indexed_lem;
}
  where
    new : Dict CacheKey ℕ
    new = Dict.assign str_dec moved idx (Dict.pop str_dec k index)

    free : get_elem? keys idx ≡ some k
    free = h.listed k idx found

    below : idx < last
    below = let lt = get_elem?-lt keys idx k free in omega (arith, lt)

    at_free : get_elem? shorter idx ≡ some moved
    at_free = same idx below ∙ get_elem?-set_same keys idx moved (omega (arith, below))

    kept : (i : ℕ) → i < last → idx ≢ i → get_elem? shorter i ≡ get_elem? keys i
    kept i lt ne = same i lt ∙ get_elem?-set_ne keys idx i moved ne

    listed_lem :
        (j : CacheKey) (i : ℕ) → Dict.get str_dec j new ≡ some i → get_elem? shorter i ≡ some j
    listed_lem j i e = elim (str_dec moved j) [
      | yes q ↦
          let n : idx ≡ i =
            ground (arith, Dict.get-assign str_dec moved j idx (Dict.pop str_dec k index)) in
          subst (λ x. get_elem? shorter i ≡ some x) q
            (subst (λ x. get_elem? shorter x ≡ some moved) n at_free)
      | no q ↦
          let f = sym (Dict.get-assign_ne str_dec moved j idx (Dict.pop str_dec k index) q) ∙ e in
          let p : ¬ (k ≡ j) = λ p. absurd (ground (arith, Dict.get-pop str_dec k j index)) in
          let g = h.listed j i (sym (Dict.get-pop_ne str_dec k j index p) ∙ f) in
          let lt = get_elem?-lt keys i j g in
          let a : i ≢ last =
            λ n. q (some_injective (sym tail ∙ subst (λ x. get_elem? keys x ≡ some j) n g)) in
          let b : idx ≢ i =
            λ n. p (some_injective (sym free ∙ subst (λ x. get_elem? keys x ≡ some j) (sym n) g)) in
          kept i (omega (arith, lt)) b ∙ g
    ]

    indexed_lem :
        (j : CacheKey) (i : ℕ) → get_elem? shorter i ≡ some j → Dict.get str_dec j new ≡ some i
    indexed_lem j i e =
        let lt = get_elem?-lt shorter i j e in
        elim (Bool-cases (idx == i)) [
          | inl b ↦
              let n : idx ≡ i = ground arith in
              let q : moved ≡ j =
                some_injective
                  (sym at_free ∙ subst (λ x. get_elem? shorter x ≡ some j) (sym n) e) in
              subst (λ x. Dict.get str_dec x new ≡ some i) q
                (Dict.get-assign_self str_dec moved idx (Dict.pop str_dec k index)
                  ∙ ap (λ x. some x) n)
          | inr b ↦
              let ne : idx ≢ i = ground arith in
              let g = h.indexed j i (sym (kept i (omega (arith, lt)) ne) ∙ e) in
              let q : ¬ (moved ≡ j) = λ q. absurd (
                apart last i
                  (sym (h.indexed moved last tail)
                    ∙ subst (λ x. Dict.get str_dec x index ≡ some i) (sym q) g)
                  (omega (arith, lt))) in
              let p : ¬ (k ≡ j) = λ p. absurd (
                apart idx i (sym found ∙ subst (λ x. Dict.get str_dec x index ≡ some i) (sym p) g)
                  ne) in
              Dict.get-assign_ne str_dec moved j idx (Dict.pop str_dec k index) q
              ∙ Dict.get-pop_ne str_dec k j index p
              ∙ g
        ]

-- The last key dropped.
pub drop-Agree :
    (index : Dict CacheKey ℕ) (keys shorter : List CacheKey) (k : CacheKey) (last : ℕ)
    → Agree index keys
    → Dict.get str_dec k index ≡ some last
    → length shorter ≡ last
    → length keys ≡ suc last
    → ((i : ℕ) → i < last → get_elem? shorter i ≡ get_elem? keys i)
    → Agree (Dict.pop str_dec k index) shorter
drop-Agree index keys shorter k last h found short long same = record {
  listed = listed_lem;
  indexed = indexed_lem;
}
  where
    listed_lem :
        (j : CacheKey) (i : ℕ)
        → Dict.get str_dec j (Dict.pop str_dec k index) ≡ some i
        → get_elem? shorter i ≡ some j
    listed_lem j i e =
        let p : ¬ (k ≡ j) = λ p. absurd (ground (arith, Dict.get-pop str_dec k j index)) in
        let g = h.listed j i (sym (Dict.get-pop_ne str_dec k j index p) ∙ e) in
        let lt = get_elem?-lt keys i j g in
        let a : i ≢ last = λ n. p (
          some_injective
            (sym (h.listed k last found) ∙ subst (λ x. get_elem? keys x ≡ some j) n g)) in
        same i (omega (arith, lt)) ∙ g

    indexed_lem :
        (j : CacheKey) (i : ℕ)
        → get_elem? shorter i ≡ some j
        → Dict.get str_dec j (Dict.pop str_dec k index) ≡ some i
    indexed_lem j i e =
        let lt = get_elem?-lt shorter i j e in
        let g = h.indexed j i (sym (same i (omega (arith, lt))) ∙ e) in
        let p : ¬ (k ≡ j) = λ p. absurd (
          apart last i (sym found ∙ subst (λ x. Dict.get str_dec x index ≡ some i) (sym p) g)
            (omega (arith, lt))) in
        Dict.get-pop_ne str_dec k j index p ∙ g
