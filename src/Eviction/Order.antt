-- ===== src/Eviction/Order.antt =====
-- The lexicographic order of the sort keys, and the first minimum of a list.
use mlcache.Prelude.{
  ℕ, ◌≡◌, refl, Bool, if◌then◌else◌, true, false, List, [], ◌∷◌, arith, All, inl, inr, Bool-cases,
}
use mlcache.Eviction.{lex_lt, min_by}

pub lex_lt_trans : (a b c : List ℕ) → lex_lt a b ≡ true → lex_lt b c ≡ true → lex_lt a c ≡ true
unfolding lex_lt
lex_lt_trans [] [] c h k = absurd (ground arith)
lex_lt_trans [] (b ∷ bs) [] h k = k
lex_lt_trans [] (b ∷ bs) (c ∷ cs) h k = refl
lex_lt_trans (a ∷ as') [] c h k = absurd (ground arith)
lex_lt_trans (a ∷ as') (b ∷ bs) [] h k = k
lex_lt_trans (a ∷ as') (b ∷ bs) (c ∷ cs) h k = ground (arith, lex_lt_trans as' bs cs)

pub lex_lt_irrefl : (a : List ℕ) → lex_lt a a ≡ false
unfolding lex_lt
lex_lt_irrefl [] = refl
lex_lt_irrefl (a ∷ as') = ground (arith, lex_lt_irrefl as')

module _ {ℓ} {A : Type ℓ} (key : A → List ℕ) where
  -- What holds of every element holds of the minimum.
  pub min_by-All {κ} :
      (P : A → Type κ) (best : A) (xs : List A) → P best → All P xs → P (min_by key best xs)
  unfolding min_by
  min_by-All P best [] p h = p
  min_by-All P best (x ∷ xs) p h = elim (Bool-cases (lex_lt (key x) (key best))) [
    | inl e ↦ rw e (min_by-All P x xs h.0 h.1)
    | inr e ↦ rw e (min_by-All P best xs p h.1)
  ]

  -- What is not below the running best is not below the minimum.
  min_by-below :
      (z : A) (best : A) (xs : List A)
      → lex_lt (key z) (key best) ≡ false
      → lex_lt (key z) (key (min_by key best xs)) ≡ false
  unfolding min_by
  min_by-below z best [] h = h
  min_by-below z best (x ∷ xs) h = elim (Bool-cases (lex_lt (key x) (key best))) [
    | inl e ↦ rw e (min_by-below z x xs (ground (arith, lex_lt_trans (key z) (key x) (key best))))
    | inr e ↦ rw e (min_by-below z best xs h)
  ]

  least_step :
      (best x : A) (xs : List A) (b : Bool)
      → lex_lt (key x) (key best) ≡ b
      → All (λ y. lex_lt (key y) (key (min_by key x xs)) ≡ false) (x ∷ xs)
      → All (λ y. lex_lt (key y) (key (min_by key best xs)) ≡ false) (best ∷ xs)
      → All
          (λ y. lex_lt (key y) (key (min_by key (if b then x else best) xs)) ≡ false)
          (best ∷ x ∷ xs)
  least_step best x xs true e new old = (
    min_by-below best x xs
        (ground (arith, lex_lt_trans (key best) (key x) (key best), lex_lt_irrefl (key best))),
    new,
  )
  least_step best x xs false e new old = (old.0, (min_by-below x best xs e, old.1))

  -- No element is below the minimum.
  pub min_by-least :
      (best : A) (xs : List A)
      → All (λ y. lex_lt (key y) (key (min_by key best xs)) ≡ false) (best ∷ xs)
  unfolding min_by
  min_by-least best [] = (lex_lt_irrefl (key best), tt)
  min_by-least best (x ∷ xs) =
      least_step best x xs (lex_lt (key x) (key best)) refl (min_by-least x xs)
        (min_by-least best xs)
