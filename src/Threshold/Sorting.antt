-- ===== src/Threshold/Sorting.antt =====
-- The descending order: sorting keeps every count, and bounds how many scores pass a rank.
use mlcache.Prelude.{
  ℕ, zero, suc, ◌≤◌, ◌≡◌, refl, ◌∙◌, subst, inl, inr, Bool, true, some, List, [], ◌∷◌, arith,
  Bool-cases, get_elem?, count_if, All, All-map,
}
use mlcache.Float.{FloatOps, FloatLaws}
use mlcache.Threshold.{insert_desc, sort_desc}

-- A count over a stronger test is no larger.
pub count_if_mono {ℓ} :
    {A : Type ℓ} (p q : A → Bool) (xs : List A)
    → All (λ x. p x ≡ true → q x ≡ true) xs
    → count_if p xs ≤ count_if q xs
count_if_mono p q [] h = omega arith
count_if_mono p q (x ∷ xs) h = ground (arith, h.0, count_if_mono p q xs h.1)

module _ {F : Type 0} ⦃fl : FloatOps F⦄ where
  -- No NaN and no infinity.
  abbrev pub IsFinite : F → Type 0
  IsFinite a = (fl.le a a ≡ true) × (fl.lt a fl.inf ≡ true) × (fl.lt fl.neg_inf a ≡ true)

  -- Every element is at most those before it.
  abbrev pub Descending : List F → Type 0
  Descending [] = Unit
  Descending (x ∷ xs) = All (λ y. fl.le y x ≡ true) xs × Descending xs

  count_if-insert :
      (p : F → Bool) (x : F) (ys : List F) → count_if p (insert_desc x ys) ≡ count_if p (x ∷ ys)
  count_if-insert p x [] = refl
  count_if-insert p x (y ∷ ys) = ground (arith, count_if-insert p x ys)

  pub count_if-sort : (p : F → Bool) (xs : List F) → count_if p (sort_desc xs) ≡ count_if p xs
  unfolding sort_desc
  count_if-sort p [] = refl
  count_if-sort p (x ∷ xs) = count_if-insert p x (sort_desc xs) ∙ ground (arith, count_if-sort p xs)

  pub insert-All :
      (P : F → Type 0) (x : F) (ys : List F) → P x → All P ys → All P (insert_desc x ys)
  insert-All P x [] h k = (h, tt)
  insert-All P x (y ∷ ys) h k = elim (Bool-cases (fl.le y x)) [
    | inl e ↦ rw e (h, k)
    | inr e ↦ rw e (k.0, insert-All P x ys h k.1)
  ]

  pub sort-All : (P : F → Type 0) (xs : List F) → All P xs → All P (sort_desc xs)
  unfolding sort_desc
  sort-All P [] h = tt
  sort-All P (x ∷ xs) h = insert-All P x (sort_desc xs) h.0 (sort-All P xs h.1)

  module _ (laws : FloatLaws fl) where
    open laws use {le_trans, le_total, lt_not_le}

    insert-Descending :
        (x : F) (ys : List F)
        → fl.le x x ≡ true
        → All (λ y. fl.le y y ≡ true) ys
        → Descending ys
        → Descending (insert_desc x ys)
    insert-Descending x [] h n d = (tt, tt)
    insert-Descending x (y ∷ ys) h n d = elim (Bool-cases (fl.le y x)) [
      | inl e ↦ rw e (
        (
          e,
          All-map (λ z. fl.le z y ≡ true) (λ z. fl.le z x ≡ true) ys (λ z k. le_trans z y x k e)
              d.0,
        ),
        d,
      )
      | inr e ↦ rw e (
        insert-All (λ z. fl.le z y ≡ true) x ys (le_total y x n.0 h e) d.0,
        insert-Descending x ys h n.1 d.1,
      )
    ]

    pub sort-Descending : (xs : List F) → All (λ x. fl.le x x ≡ true) xs → Descending (sort_desc xs)
    unfolding sort_desc
    sort-Descending [] h = tt
    sort-Descending (x ∷ xs) h =
        insert-Descending x (sort_desc xs) h.0 (sort-All (λ y. fl.le y y ≡ true) xs h.1)
          (sort-Descending xs h.1)

    none_above :
        (b : F) (ys : List F) → All (λ y. fl.le y b ≡ true) ys → count_if (λ v. fl.lt b v) ys ≡ 0
    none_above b [] h = refl
    none_above b (y ∷ ys) h = ground (arith, lt_not_le b y, none_above b ys h.1, h.0)

    -- At most `k` scores lie above the one of rank `k`, counted from 0.
    pub above_rank :
        (xs : List F) (k : ℕ) (b : F)
        → Descending xs
        → All (λ x. fl.le x x ≡ true) xs
        → get_elem? xs k ≡ some b
        → count_if (λ v. fl.lt b v) xs ≤ k
    above_rank [] k b d n e = absurd (ground arith)
    above_rank (x ∷ xs) zero b d n e =
        let q : x ≡ b = ground arith in
        subst (λ c. count_if (λ v. fl.lt c v) (x ∷ xs) ≤ 0) q
          (omega (arith, none_above x (x ∷ xs) (n.0, d.0)))
    above_rank (x ∷ xs) (suc k) b d n e = ground (arith, above_rank xs k b d.1 n.1)
