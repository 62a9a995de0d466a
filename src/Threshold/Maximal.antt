-- ===== src/Threshold/Maximal.antt =====
-- The threshold is exact: no threshold within the budget accepts a score that it rejects.
use mlcache.Prelude.{
  ℕ, zero, suc, ◌≤◌, ◌<◌, ◌≡◌, refl, sym, subst, ◌⊎◌, inl, inr, Bool, true, false, some, List, [],
  ◌∷◌, arith, leb, Bool-cases, length, get_elem?, count_if, All, get_elem?-some, get_elem?-All,
}
use mlcache.Float.{FloatOps, FloatLaws}
use mlcache.Types.{TieMode}
use mlcache.Threshold.{
  predict_score, insert_desc, sort_desc, at_least, threshold_at, at_boundary, allowed_accepts,
  threshold_of_sorted, threshold_from_selected_h0_scores, accept_count,
}
use mlcache.Threshold.Sorting.{
  IsFinite, Descending, count_if_mono, count_if-sort, sort-All, sort-Descending,
}
use mlcache.Threshold.Budget.{numbers, everywhere, length-sort, threshold_at_boundary}

module _ {F : Type 0} ⦃fl : FloatOps F⦄ where
  -- A score of the list.
  abbrev Elem : F → List F → Type 0
  Elem s [] = ⊥
  Elem s (x ∷ xs) = (x ≡ s) ⊎ Elem s xs

  count_pos : (p : F → Bool) (s : F) (xs : List F) → Elem s xs → p s ≡ true → 0 < count_if p xs
  count_pos p s [] h e = absurd h
  count_pos p s (x ∷ xs) (inl q) e = ground arith
  count_pos p s (x ∷ xs) (inr h) e = ground (arith, count_pos p s xs h e)

  count_strict :
      (p q : F → Bool) (s : F) (xs : List F)
      → Elem s xs
      → p s ≡ false
      → q s ≡ true
      → All (λ x. p x ≡ true → q x ≡ true) xs
      → count_if p xs < count_if q xs
  count_strict p q s [] h e g all = absurd h
  count_strict p q s (x ∷ xs) (inl r) e g all = ground (arith, count_if_mono p q xs all.1)
  count_strict p q s (x ∷ xs) (inr h) e g all =
      ground (arith, count_strict p q s xs h e g all.1, all.0)

  Elem-All : (P : F → Type 0) (xs : List F) → ((s : F) → Elem s xs → P s) → All P xs
  Elem-All P [] h = tt
  Elem-All P (x ∷ xs) h = (h x (inl refl), Elem-All P xs (λ s m. h s (inr m)))

  All-Elem : (P : F → Type 0) (xs : List F) (s : F) → All P xs → Elem s xs → P s
  All-Elem P [] s h m = absurd m
  All-Elem P (x ∷ xs) s h (inl q) = subst P q h.0
  All-Elem P (x ∷ xs) s h (inr m) = All-Elem P xs s h.1 m

  insert-All_back :
      (P : F → Type 0) (x : F) (ys : List F) → All P (insert_desc x ys) → P x × All P ys
  insert-All_back P x [] h = h
  insert-All_back P x (y ∷ ys) h = back (fl.le y x) refl (insert-All_back P x ys)
    where
      back :
          (b : Bool)
          → fl.le y x ≡ b
          → (All P (insert_desc x ys) → P x × All P ys)
          → P x × All P (y ∷ ys)
      back true e rec = rw e at h
      back false e rec =
          let k : P y × All P (insert_desc x ys) = rw e at h in
          let (hx, hys) = rec k.1 in (hx, (k.0, hys))

  sort-All_back : (P : F → Type 0) (xs : List F) → All P (sort_desc xs) → All P xs
  unfolding sort_desc
  sort-All_back P [] h = tt
  sort-All_back P (x ∷ xs) h =
      let (hx, rest) = insert-All_back P x (sort_desc xs) h in (hx, sort-All_back P xs rest)

module _ {F : Type 0} ⦃fl : FloatOps F⦄ (laws : FloatLaws fl) where
  open laws use {le_trans, le_total, lt_le, lt_not_le, not_le_lt, le_next_up, lt_next_down}

  -- The scores down to rank `k` are at least the one of rank `k`.
  rank_count :
      (xs : List F) (k : ℕ) (b : F)
      → Descending xs
      → All (λ x. fl.le x x ≡ true) xs
      → get_elem? xs k ≡ some b
      → k < at_least b xs
  rank_count [] k b d n e = absurd (ground arith)
  rank_count (x ∷ xs) zero b d n e = ground (arith, n.0)
  rank_count (x ∷ xs) (suc k) b d n e =
      ground
        (arith, rank_count xs k b d.1 n.1 e, get_elem?-All (λ y. fl.le y x ≡ true) xs k b d.0 e)

  module _ (p : F → Bool) (up : (s v : F) → p s ≡ true → fl.le s v ≡ true → p v ≡ true)
      (xs : List F) (k : ℕ) (b : F) (d : Descending xs) (n : All (λ x. fl.le x x ≡ true) xs)
      (e : get_elem? xs k ≡ some b) (within : count_if p xs ≤ suc k) where
    -- What passes a test that keeps the budget is at least the boundary.
    reaches : (s : F) → Elem s xs → p s ≡ true → fl.le b s ≡ true
    reaches s m h = elim (Bool-cases (fl.le b s)) [
      | inl above ↦ above
      | inr below ↦
          let num = λ (x : F). fl.le x x ≡ true in
          let s_le_b = le_total b s (get_elem?-All num xs k b n e) (All-Elem num xs s n m) below in
          let more =
            count_strict (λ v. fl.le b v) p s xs m below h
              (everywhere laws (λ v. fl.le b v ≡ true → p v ≡ true) xs
                (λ v hb. up s v h (le_trans s b v s_le_b hb))) in
          absurd (omega (arith, more, rank_count xs k b d n e))
    ]

    -- If the ties at the boundary do not fit, it is above the boundary.
    passes : suc k < at_least b xs → (s : F) → Elem s xs → p s ≡ true → fl.lt b s ≡ true
    passes over s m h = elim (Bool-cases (fl.le s b)) [
      | inr above ↦ not_le_lt b s (reaches s m h) above
      | inl below ↦
          let all =
            count_if_mono (λ v. fl.le b v) p xs
              (everywhere laws (λ v. fl.le b v ≡ true → p v ≡ true) xs
                (λ v hb. up s v h (le_trans s b v below hb))) in
          absurd (omega (arith, all))
    ]

  predict_up :
      (tie_mode : TieMode) (tau s v : F)
      → predict_score tie_mode s tau ≡ true
      → fl.le s v ≡ true
      → predict_score tie_mode v tau ≡ true
  predict_up TieMode.ge tau s v h le = le_trans tau s v h le
  predict_up TieMode.gt tau s v h le = elim (Bool-cases (fl.le v tau)) [
    | inr above ↦ not_le_lt tau v (le_trans tau s v (lt_le tau s h) le) above
    | inl below ↦ absurd (clash (le_trans s v tau le below) (lt_not_le tau s h))
  ]
    where
      clash : fl.le s tau ≡ true → fl.le s tau ≡ false → ⊥
      clash a b = cc

  module _ (tie_mode : TieMode) (tau : F) (xs : List F) (d : Descending xs)
      (f : All IsFinite xs) where
    boundary-maximal :
        (k : ℕ) (b : F)
        → get_elem? xs k ≡ some b
        → accept_count xs tau tie_mode ≤ suc k
        → (s : F) → Elem s xs
        → predict_score tie_mode s tau ≡ true
        → predict_score tie_mode s (at_boundary tie_mode (suc k) b xs) ≡ true
    boundary-maximal k b e within s m h = exact tie_mode (Bool-cases (leb (at_least b xs) (suc k)))
      where
        p : F → Bool
        p v = predict_score tie_mode v tau

        at_b : fl.le b s ≡ true
        at_b = reaches p (predict_up tie_mode tau) xs k b d (numbers laws xs f) e within s m h

        past_b : leb (at_least b xs) (suc k) ≡ false → fl.lt b s ≡ true
        past_b over =
            passes p (predict_up tie_mode tau) xs k b d (numbers laws xs f) e within (ground arith)
              s m h

        exact :
            (tie : TieMode)
            → (leb (at_least b xs) (suc k) ≡ true) ⊎ (leb (at_least b xs) (suc k) ≡ false)
            → predict_score tie s (at_boundary tie (suc k) b xs) ≡ true
        exact TieMode.ge (inl fits) = unfold at_boundary in rw fits at_b
        exact TieMode.ge (inr over) = unfold at_boundary in rw over (le_next_up b s (past_b over))
        exact TieMode.gt (inl fits) =
            unfold at_boundary in
            rw fits (lt_next_down b s (get_elem?-All IsFinite xs k b f e).2 at_b)
        exact TieMode.gt (inr over) = unfold at_boundary in rw over (past_b over)

  at-maximal :
      (tie_mode : TieMode) (tau : F) (allowed : ℕ) (first : F) (rest : List F)
      → Descending (first ∷ rest)
      → All IsFinite (first ∷ rest)
      → allowed ≤ length (first ∷ rest)
      → accept_count (first ∷ rest) tau tie_mode ≤ allowed
      → (s : F) → Elem s (first ∷ rest)
      → predict_score tie_mode s tau ≡ true
      → predict_score tie_mode s (threshold_at tie_mode allowed first rest) ≡ true
  at-maximal tie_mode tau zero first rest d f le within s m h =
      absurd (omega (arith, count_pos (λ v. predict_score tie_mode v tau) s (first ∷ rest) m h))
  at-maximal tie_mode tau (suc k) first rest d f le within s m h =
      let (b, e) = get_elem?-some (first ∷ rest) k (omega arith) in
      subst (λ t. predict_score tie_mode s t ≡ true)
        (sym (threshold_at_boundary laws tie_mode k b first rest e))
        (boundary-maximal tie_mode tau (first ∷ rest) d f k b e within s m h)

  of_sorted-maximal :
      (tie_mode : TieMode) (target tau tau' : F) (xs : List F)
      → Descending xs
      → All IsFinite xs
      → threshold_of_sorted tie_mode target xs ≡ some tau
      → accept_count xs tau' tie_mode ≤ allowed_accepts target (length xs)
      → All (λ s. predict_score tie_mode s tau' ≡ true → predict_score tie_mode s tau ≡ true) xs
  unfolding threshold_of_sorted
  of_sorted-maximal tie_mode target tau tau' [] d f e within = tt
  of_sorted-maximal tie_mode target tau tau' (first ∷ rest) d f e within =
      let allowed = allowed_accepts target (length (first ∷ rest)) in
      let q : threshold_at tie_mode allowed first rest ≡ tau = ground arith in
      Elem-All _ (first ∷ rest) (λ s m h.
        subst (λ t. predict_score tie_mode s t ≡ true) q
          (at-maximal tie_mode tau' allowed first rest d f (omega arith) within s m h))

  -- Whatever other threshold keeps the budget on finite H0 scores: each score that it accepts, the
  -- computed threshold accepts too, under the same tie mode. Floats obey the order laws.
  pub threshold-maximal :
      (scores : List F) (target : F) (tie_mode : TieMode) (tau tau' : F)
      → All IsFinite scores
      → threshold_from_selected_h0_scores scores target tie_mode ≡ some tau
      → accept_count scores tau' tie_mode ≤ allowed_accepts target (length scores)
      → All (λ s. predict_score tie_mode s tau' ≡ true → predict_score tie_mode s tau ≡ true) scores
  unfolding threshold_from_selected_h0_scores
  threshold-maximal scores target tie_mode tau tau' f e within =
      let same = count_if-sort (λ s. predict_score tie_mode s tau') scores in
      let len = length-sort laws scores in
      sort-All_back _ scores (
        of_sorted-maximal tie_mode target tau tau' (sort_desc scores)
          (sort-Descending laws scores (numbers laws scores f)) (sort-All IsFinite scores f) e
          (rw len (rw same within)))
