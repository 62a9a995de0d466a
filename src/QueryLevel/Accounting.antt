-- ===== src/QueryLevel/Accounting.antt =====
-- src/mlcache/calibration/query_level.py: `build_calibration_decisions` accounts for every record.
use mlcache.Prelude.{
  ◌+◌, ◌≤◌, ◌≡◌, refl, sym, ap, ◌∙◌, subst, inl, inr, Option, none, some, List, [], ◌∷◌, ◌++◌,
  arith, Bool-cases, length, length-append, ok,
}
use mlcache.Prelude.{bind_ok, ok_injective, append_nil, append_assoc}
use mlcache.QueryLevel.{
  QueryCalibrationCandidate, QueryCalibrationRecord, QueryCalibrationDataset, Selection, is_h0,
}
use mlcache.QueryLevel.Calibrate.{
  EmptyQueryPolicy, skip, abstain_empty, abstain_decision, selected_decision, h0_scores_of,
  by_selection, count_record, select_from, build_from, build_calibration_decisions, empty_dataset,
}

module _ {F : Type 0} where
  -- The scores of all candidates that are labeled as false hits, in order.
  abbrev pub all_h0_scores : List (QueryCalibrationRecord F) → List F
  all_h0_scores [] = []
  all_h0_scores (r ∷ rs) = h0_scores_of r.candidates ++ all_h0_scores rs

  -- Each query has a decision or was skipped, and the selected H0 scores are of queries with a
  -- selection.
  abbrev pub Balanced : QueryCalibrationDataset F → Type 0
  Balanced d =
      (length d.decisions + d.skipped_queries ≡ d.total_queries)
      × (length d.h0_scores + d.abstained_queries ≤ length d.decisions)

  step-Balanced :
      (policy : EmptyQueryPolicy) (r : QueryCalibrationRecord F)
      (c : Option (QueryCalibrationCandidate F)) (d : QueryCalibrationDataset F)
      → Balanced d
      → Balanced (by_selection policy r c (count_record r d))
  step-Balanced skip r none d h = omega (arith, h.0, h.1)
  step-Balanced abstain_empty r none d h =
      omega (arith, h.0, h.1, length-append d.decisions (abstain_decision r ∷ []))
  step-Balanced policy r (some c) d h = elim (Bool-cases (is_h0 c.label)) [
    | inl e ↦ rw (e) (
        omega (
          arith,
          h.0,
          h.1,
          length-append d.decisions (selected_decision r c ∷ []),
          length-append d.h0_scores (c.score ∷ []),
        ))
    | inr e ↦ rw (e) (
        omega (
          arith,
          h.0,
          h.1,
          length-append d.decisions (selected_decision r c ∷ []),
          length-append d.h0_scores [],
        ))
  ]

  pairs_step :
      (policy : EmptyQueryPolicy) (r : QueryCalibrationRecord F)
      (c : Option (QueryCalibrationCandidate F)) (d : QueryCalibrationDataset F)
      → ((by_selection policy r c (count_record r d)).all_pair_h0_scores
          ≡ d.all_pair_h0_scores ++ h0_scores_of r.candidates)
        × ((by_selection policy r c (count_record r d)).total_queries ≡ d.total_queries + 1)
  pairs_step skip r none d = (refl, refl)
  pairs_step abstain_empty r none d = (refl, refl)
  pairs_step policy r (some c) d = (refl, refl)

  build_from-accounts :
      (select : Selection F) (policy : EmptyQueryPolicy) (rs : List (QueryCalibrationRecord F))
      (d out : QueryCalibrationDataset F)
      → Balanced d
      → build_from select policy rs d ≡ ok out
      → (out.total_queries ≡ d.total_queries + length rs)
        × Balanced out
        × (out.all_pair_h0_scores ≡ d.all_pair_h0_scores ++ all_h0_scores rs)
  unfolding build_from
  build_from-accounts select policy [] d out b h =
      subst
        (λ x.
          (x.total_queries ≡ d.total_queries + 0)
          × Balanced x
          × (x.all_pair_h0_scores ≡ d.all_pair_h0_scores ++ []))
        (ok_injective h) (omega arith, b, sym (append_nil d.all_pair_h0_scores))
  build_from-accounts select policy (r ∷ rs) d out b h =
      let (c, e, f) = bind_ok (select_from select r.candidates) _ out h in
      let next = by_selection policy r c (count_record r d) in
      let (total, balanced, pairs) =
        build_from-accounts select policy rs next out (step-Balanced policy r c d b) f in
      let (p, t) = pairs_step policy r c d in
      (
        omega (arith, total, t),
        balanced,
        pairs
            ∙ ap (λ l. l ++ all_h0_scores rs) p
            ∙ append_assoc d.all_pair_h0_scores (h0_scores_of r.candidates) (all_h0_scores rs),
      )

  -- `build_calibration_decisions` accounts for every record: if it returns, each record is a
  -- decision or is counted as skipped, the selected H0 scores and the abstentions together are at
  -- most the decisions, and the H0 scores of all pairs are those of all candidates labeled as
  -- false hits, in order.
  pub build_calibration_decisions-accounts :
      (select : Selection F) (policy : EmptyQueryPolicy) (records : List (QueryCalibrationRecord F))
      (d : QueryCalibrationDataset F)
      → build_calibration_decisions select policy records ≡ ok d
      → (d.total_queries ≡ length records)
        × (length d.decisions + d.skipped_queries ≡ length records)
        × (length d.h0_scores + d.abstained_queries ≤ length d.decisions)
        × (d.all_pair_h0_scores ≡ all_h0_scores records)
  unfolding build_calibration_decisions
  build_calibration_decisions-accounts select policy records d h =
      let (total, (covered, below), pairs) =
        build_from-accounts select policy records empty_dataset d (omega arith, omega arith) h in
      (omega (arith, total), omega (arith, covered, total), below, pairs)
