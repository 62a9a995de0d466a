-- ===== src/Threshold/Budget.antt =====
-- The threshold keeps the budget: it accepts at most the allowed number of H0 scores.
use mlcache.Prelude.{
  ℕ, zero, suc, ◌≤◌, ◌<◌, ◌≡◌, refl, sym, ap, subst, inl, inr, true, some, List, [], ◌∷◌, arith,
  leb, leb→le, Bool-cases, length, get_elem?, count_if, All, get_elem?-some, get_elem?-All, All-map,
}
use mlcache.Float.{FloatOps, FloatLaws}
use mlcache.Types.{TieMode}
use mlcache.Threshold.{
  predict_score, sort_desc, at_least, threshold_at, at_boundary, no_accepts, threshold_of_sorted,
  allowed_accepts, threshold_from_selected_h0_scores, accept_count,
}
use mlcache.Threshold.Sorting.{
  IsFinite, Descending, count_if_mono, count_if-sort, sort-All, sort-Descending, above_rank,
}

module _ {F : Type 0} ⦃fl : FloatOps F⦄ (laws : FloatLaws fl) where
  open laws use {lt_le, next_up_le, next_down_lt}

  pub numbers : (xs : List F) → All IsFinite xs → All (λ x. fl.le x x ≡ true) xs
  numbers xs = All-map IsFinite (λ x. fl.le x x ≡ true) xs (λ x h. h.0)

  -- Everything in a list satisfies what everything satisfies.
  pub everywhere : (P : F → Type 0) (xs : List F) → ((x : F) → P x) → All P xs
  everywhere P [] h = tt
  everywhere P (x ∷ xs) h = (h x, everywhere P xs h)

  -- What passes the number above `b` passes `b` strictly.
  past_next_up :
      (b : F) (xs : List F)
      → IsFinite b
      → count_if (λ v. fl.le (fl.next_up b) v) xs ≤ count_if (λ v. fl.lt b v) xs
  past_next_up b xs f =
      count_if_mono (λ v. fl.le (fl.next_up b) v) (λ v. fl.lt b v) xs
        (everywhere (λ v. fl.le (fl.next_up b) v ≡ true → fl.lt b v ≡ true) xs
          (λ v. next_up_le b v f.1))

  past_next_down :
      (b : F) (xs : List F)
      → IsFinite b
      → count_if (λ v. fl.lt (fl.next_down b) v) xs ≤ at_least b xs
  past_next_down b xs f =
      count_if_mono (λ v. fl.lt (fl.next_down b) v) (λ v. fl.le b v) xs
        (everywhere (λ v. fl.lt (fl.next_down b) v ≡ true → fl.le b v ≡ true) xs
          (λ v. next_down_lt b v f.2))

  no_accepts-budget :
      (tie_mode : TieMode) (first : F) (rest : List F)
      → Descending (first ∷ rest)
      → All IsFinite (first ∷ rest)
      → accept_count (first ∷ rest) (no_accepts tie_mode first) tie_mode ≤ 0
  unfolding no_accepts
  no_accepts-budget TieMode.ge first rest d f = omega (
    arith,
    past_next_up first (first ∷ rest) f.0,
    above_rank laws (first ∷ rest) 0 first d (numbers (first ∷ rest) f) refl,
  )
  no_accepts-budget TieMode.gt first rest d f =
      above_rank laws (first ∷ rest) 0 first d (numbers (first ∷ rest) f) refl

  at_boundary-budget :
      (tie_mode : TieMode) (k : ℕ) (b : F) (xs : List F)
      → Descending xs
      → All IsFinite xs
      → get_elem? xs k ≡ some b
      → accept_count xs (at_boundary tie_mode (suc k) b xs) tie_mode ≤ suc k
  unfolding at_boundary
  at_boundary-budget TieMode.ge k b xs d f e =
      let finite = get_elem?-All IsFinite xs k b f e in
      elim (Bool-cases (leb (at_least b xs) (suc k))) [
        | inl fits ↦ rw fits (leb→le _ _ fits)
        | inr over ↦
            rw over
              (omega (arith, past_next_up b xs finite, above_rank laws xs k b d (numbers xs f) e))
      ]
  at_boundary-budget TieMode.gt k b xs d f e =
      let finite = get_elem?-All IsFinite xs k b f e in
      elim (Bool-cases (leb (at_least b xs) (suc k))) [
        | inl fits ↦ rw fits (omega (arith, past_next_down b xs finite, leb→le _ _ fits))
        | inr over ↦ rw over (omega (arith, above_rank laws xs k b d (numbers xs f) e))
      ]

  pub threshold_at_boundary :
      (tie_mode : TieMode) (k : ℕ) (b first : F) (rest : List F)
      → get_elem? (first ∷ rest) k ≡ some b
      → threshold_at tie_mode (suc k) first rest ≡ at_boundary tie_mode (suc k) b (first ∷ rest)
  unfolding threshold_at
  threshold_at_boundary tie_mode k b first rest e = rw (e, threshold_at)

  threshold_at-budget :
      (tie_mode : TieMode) (allowed : ℕ) (first : F) (rest : List F)
      → Descending (first ∷ rest)
      → All IsFinite (first ∷ rest)
      → allowed ≤ length (first ∷ rest)
      → accept_count (first ∷ rest) (threshold_at tie_mode allowed first rest) tie_mode ≤ allowed
  threshold_at-budget tie_mode zero first rest d f le =
      unfold threshold_at in no_accepts-budget tie_mode first rest d f
  threshold_at-budget tie_mode (suc k) first rest d f le =
      let (b, e) = get_elem?-some (first ∷ rest) k (omega arith) in
      subst (λ t. accept_count (first ∷ rest) t tie_mode ≤ suc k)
        (sym (threshold_at_boundary tie_mode k b first rest e))
        (at_boundary-budget tie_mode k b (first ∷ rest) d f e)

  of_sorted-budget :
      (tie_mode : TieMode) (target : F) (xs : List F) {tau : F}
      → Descending xs
      → All IsFinite xs
      → threshold_of_sorted tie_mode target xs ≡ some tau
      → accept_count xs tau tie_mode ≤ allowed_accepts target (length xs)
  unfolding threshold_of_sorted
  of_sorted-budget tie_mode target [] d f e = absurd (ground arith)
  of_sorted-budget tie_mode target (first ∷ rest) {tau} d f e =
      let allowed = allowed_accepts target (length (first ∷ rest)) in
      let q : threshold_at tie_mode allowed first rest ≡ tau = ground arith in
      subst (λ t. accept_count (first ∷ rest) t tie_mode ≤ allowed) q
        (threshold_at-budget tie_mode allowed first rest d f (omega arith))

  pub length-sort : (xs : List F) → length (sort_desc xs) ≡ length xs
  length-sort xs = rw (← count_all (sort_desc xs)) (rw (count_if-sort (λ _. true)) (count_all xs))
    where
      count_all : (ys : List F) → count_if (λ _. true) ys ≡ length ys
      count_all [] = refl
      count_all (y ∷ ys) = ap suc (count_all ys)

  of_sorted_some :
      (tie_mode : TieMode) (target : F) (xs : List F)
      → 0 < length xs
      → (tau : F) × (threshold_of_sorted tie_mode target xs ≡ some tau)
  unfolding threshold_of_sorted
  of_sorted_some tie_mode target [] h = absurd (omega arith)
  of_sorted_some tie_mode target (first ∷ rest) h =
      (threshold_at tie_mode (allowed_accepts target (length (first ∷ rest))) first rest, refl)

  -- From finite H0 scores, at least one of them, there is a threshold, and it accepts at most
  -- `min(floor(target * n), n)` of the `n` scores, under both tie modes and in any order of the
  -- scores. Floats obey the order laws.
  pub threshold-budget :
      (scores : List F) (target : F) (tie_mode : TieMode)
      → All IsFinite scores
      → 0 < length scores
      → (tau : F) × (threshold_from_selected_h0_scores scores target tie_mode ≡ some tau)
        × (accept_count scores tau tie_mode ≤ allowed_accepts target (length scores))
  unfolding threshold_from_selected_h0_scores
  threshold-budget scores target tie_mode f h =
      let (tau, e) =
        of_sorted_some tie_mode target (sort_desc scores) (omega (arith, length-sort scores)) in
      let sorted =
        of_sorted-budget tie_mode target (sort_desc scores)
          (sort-Descending laws scores (numbers scores f)) (sort-All IsFinite scores f) e in
      (
        tau,
        e,
        rw (← count_if-sort (λ s. predict_score tie_mode s tau) scores)
            (rw (length-sort scores) at sorted),
      )
