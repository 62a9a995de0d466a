-- ===== src/QueryLevel/Gate.antt =====
-- src/mlcache/calibration/query_level.py: what a threshold that `calibrate` publishes has passed.
use mlcache.Prelude.{
  ℕ, zero, suc, ◌≤◌, ◌<◌, String, ◌≡◌, refl, sym, ap, ◌∙◌, subst, true, false, Option, none, some,
  List, arith, if◌then◌else◌, is_some, length, All, ok,
}
use mlcache.Prelude.{bind_ok, ok_injective}
use mlcache.Float.{FloatOps, FloatLaws}
use mlcache.Types.{TieMode}
use mlcache.Wilson.{wilson_upper_bound}
use mlcache.Threshold.{threshold_from_selected_h0_scores, accept_count, allowed_accepts}
use mlcache.Threshold.Sorting.{IsFinite}
use mlcache.Threshold.Budget.{threshold-budget}
use mlcache.QueryLevel.{
  QueryLevelCalibrationConfig, QueryCalibrationRecord, QueryCalibrationDataset, Selection,
}
use mlcache.QueryLevel.Calibrate.{
  EmptyQueryPolicy, QueryLevelCalibrationResult, gate_reason, optional_accept_count,
  calibration_result, calibrate_dataset, with_target, build_calibration_decisions, calibrate,
}

module _ {F : Type 0} ⦃fl : FloatOps F⦄ where
  -- The threshold has passed the gate of the configuration on the scores.
  pub Published : QueryLevelCalibrationConfig F → List F → F → Type 0
  Published c scores t =
      (c.min_selected_h0 ≤ length scores)
      × (c.require_finite_threshold ≡ true → fl.is_finite t ≡ true)
      × ((u : F) × (wilson_upper_bound (accept_count scores t c.tie_mode) (length scores)
              c.wilson_confidence_z
            ≡ ok (some u))
          × (fl.lt (fl.add c.target_false_accept_rate c.fpr_wilson_margin) u ≡ false))
      × (accept_count scores t c.tie_mode
          ≤ allowed_accepts c.target_false_accept_rate (length scores))

  gate_reason-none :
      (c : QueryLevelCalibrationConfig F) (n : ℕ) (t bound : F) (upper : Option F)
      → gate_reason c n (some t) upper bound ≡ none
      → (c.min_selected_h0 ≤ n)
        × (c.require_finite_threshold ≡ true → fl.is_finite t ≡ true)
        × ((u : F) × (upper ≡ some u) × (fl.lt bound u ≡ false))
  gate_reason-none c n t bound none h = absurd (ground arith)
  gate_reason-none c n t bound (some u) h = (ground arith, ground arith, (u, refl, ground arith))

  published :
      (r : Option String) (tau : Option F) (t : F)
      → (if is_some r then none else tau) ≡ some t
      → (r ≡ none) × (tau ≡ some t)
  published none tau t h = (refl, h)
  published (some w) tau t h = absurd (ground arith)

  some_upper : (k n : ℕ) (z u : F) → wilson_upper_bound k n z ≡ ok (some u) → 0 < n
  unfolding wilson_upper_bound
  some_upper k zero z u h = absurd (ground arith)
  some_upper k (suc n) z u h = omega arith

  module _ (laws : FloatLaws fl) where
    within_budget :
        (scores : List F) (target t : F) (tie : TieMode)
        → All IsFinite scores
        → 0 < length scores
        → threshold_from_selected_h0_scores scores target tie ≡ some t
        → accept_count scores t tie ≤ allowed_accepts target (length scores)
    within_budget scores target t tie f n e =
        let (tau, g, b) = threshold-budget laws scores target tie f n in
        let q : tau ≡ t = ground arith in
        subst (λ x. accept_count scores x tie ≤ allowed_accepts target (length scores)) q b

    dataset-same :
        (c : QueryLevelCalibrationConfig F) (d : QueryCalibrationDataset F)
        (r : QueryLevelCalibrationResult F)
        → calibrate_dataset c d ≡ ok r
        → r.dataset ≡ d
    unfolding calibrate_dataset calibration_result
    dataset-same c d r h =
        let tau =
          threshold_from_selected_h0_scores d.h0_scores c.target_false_accept_rate c.tie_mode in
        let (upper, e, f) =
          bind_ok
            (wilson_upper_bound (optional_accept_count d.h0_scores tau c.tie_mode)
              (length d.h0_scores) c.wilson_confidence_z)
            _ r h in
        sym (ap (λ x. x.dataset) (ok_injective f))

    dataset-Published :
        (c : QueryLevelCalibrationConfig F) (d : QueryCalibrationDataset F)
        (r : QueryLevelCalibrationResult F) (t : F)
        → All IsFinite d.h0_scores
        → calibrate_dataset c d ≡ ok r
        → r.threshold ≡ some t
        → Published c d.h0_scores t
    unfolding calibrate_dataset calibration_result Published
    dataset-Published c d r t fin h p =
        let tau =
          threshold_from_selected_h0_scores d.h0_scores c.target_false_accept_rate c.tie_mode in
        let n = length d.h0_scores in
        let (upper, e, f) =
          bind_ok
            (wilson_upper_bound (optional_accept_count d.h0_scores tau c.tie_mode) n
              c.wilson_confidence_z)
            _ r h in
        let q : calibration_result c d tau upper ≡ r = ok_injective f in
        let bound = fl.add c.target_false_accept_rate c.fpr_wilson_margin in
        let (none_, some_) =
          published (gate_reason c n tau upper bound) tau t (ap (λ x. x.threshold) q ∙ p) in
        let (enough, finite, (u, eu, below)) =
          gate_reason-none c n t bound upper
            (subst (λ x. gate_reason c n x upper bound ≡ none) some_ none_) in
        let w : wilson_upper_bound (accept_count d.h0_scores t c.tie_mode) n c.wilson_confidence_z
            ≡ ok (some u) =
          subst
            (λ x.
              wilson_upper_bound (optional_accept_count d.h0_scores x c.tie_mode) n
                c.wilson_confidence_z
              ≡ ok (some u))
            some_
            (subst
              (λ y.
                wilson_upper_bound (optional_accept_count d.h0_scores tau c.tie_mode) n
                  c.wilson_confidence_z
                ≡ ok y)
              eu e) in
        (
          enough,
          finite,
          (u, w, below),
          within_budget d.h0_scores c.target_false_accept_rate t c.tie_mode fin
              (some_upper (accept_count d.h0_scores t c.tie_mode) n c.wilson_confidence_z u w)
              some_,
        )

    -- A threshold that the query-level `calibrate` returns has passed the gate of the
    -- configuration, with the target that the call names, on the scores of the selected false
    -- hits: there are at least `min_selected_h0` of them, the threshold is finite if that is asked
    -- for, the Wilson bound of those that it accepts is not above the target with its margin, and
    -- it accepts at most `min(floor(target * n), n)` of the `n` scores. The scores are finite, and
    -- floats obey the order laws.
    pub calibrate-Published :
        (c : QueryLevelCalibrationConfig F) (select : Selection F) (policy : EmptyQueryPolicy)
        (records : List (QueryCalibrationRecord F)) (target : Option F)
        (r : QueryLevelCalibrationResult F) (t : F)
        → All IsFinite r.dataset.h0_scores
        → calibrate c select policy records target ≡ ok r
        → r.threshold ≡ some t
        → (config : QueryLevelCalibrationConfig F) × (with_target c target ≡ ok config)
          × (build_calibration_decisions select policy records ≡ ok r.dataset)
          × Published config r.dataset.h0_scores t
    unfolding calibrate
    calibrate-Published c select policy records target r t fin h p =
        let (config, e, f) = bind_ok (with_target c target) _ r h in
        let (d, g, k) = bind_ok (build_calibration_decisions select policy records) _ r f in
        let q : r.dataset ≡ d = dataset-same config d r k in
        (
          config,
          e,
          subst (λ x. build_calibration_decisions select policy records ≡ ok x) (sym q) g,
          subst (λ x. Published config x.h0_scores t) (sym q)
              (dataset-Published config d r t (subst (λ x. All IsFinite x.h0_scores) q fin) k p),
        )
