-- ===== src/QueryLevel/Calibrate.antt =====
-- src/mlcache/calibration/query_level.py: `DefaultQueryLevelCalibrationBuilder`.
use mlcache.Prelude.{
  ℕ, zero, suc, ◌+◌, String, Bool, false, not, ◌&&◌, Option, none, some, List, [], ◌∷◌, ◌++◌, ltb,
  if◌then◌else◌, is_some, length, Result, ok,
}
use mlcache.Prelude.{◌>>=◌}
use mlcache.Float.{FloatOps}
use mlcache.Types.{hit, abstain, TieMode}
use mlcache.Threshold.{threshold_from_selected_h0_scores, accept_count}
use mlcache.Wilson.{wilson_upper_bound}
use mlcache.QueryLevel.{
  QueryLevelCalibrationConfig, QueryCalibrationCandidate, QueryCalibrationRecord,
  QueryCalibrationDecision, QueryCalibrationDataset, Selection, is_h0,
}

pub data EmptyQueryPolicy : Type 0 where
  skip abstain_empty : EmptyQueryPolicy

-- The numbers that the gate looks at, and its verdict.
pub record CalibrationMetadata (F : Type 0) : Type 0 where
  pub selected_h0_count : ℕ
  pub all_pair_h0_count : ℕ
  pub selected_h0_accepts : ℕ
  pub all_pair_h0_accepts : ℕ
  pub empirical_selected_fpr : Option F
  pub empirical_all_pair_fpr : Option F
  pub wilson_upper_selected_fpr : Option F
  pub allowed_fpr_bound : F
  pub threshold_is_finite : Bool
  pub calibration_gate_passed : Bool
  pub calibration_gate_reason : Option String
  pub candidate_threshold : Option F

pub record QueryLevelCalibrationResult (F : Type 0) : Type 0 where
  pub dataset : QueryCalibrationDataset F
  pub threshold : Option F
  pub target_false_accept_rate : F
  pub metadata : CalibrationMetadata F

module _ {F : Type 0} where
  abbrev pub empty_dataset : QueryCalibrationDataset F
  empty_dataset = record {
    decisions = [];
    h0_scores = [];
    all_pair_h0_scores = [];
    total_queries = 0;
    skipped_queries = 0;
    abstained_queries = 0;
  }

  -- The scores of the candidates that are labeled as false hits.
  abbrev pub h0_scores_of : List (QueryCalibrationCandidate F) → List F
  h0_scores_of [] = []
  h0_scores_of (c ∷ cs) =
      let rest = h0_scores_of cs in if is_h0 c.label then c.score ∷ rest else rest

  abbrev pub abstain_decision : QueryCalibrationRecord F → QueryCalibrationDecision F
  abstain_decision r = record { query_id = r.query_id; status = abstain; selected_candidate = none }

  abbrev pub selected_decision :
      QueryCalibrationRecord F → QueryCalibrationCandidate F → QueryCalibrationDecision F
  selected_decision r c = record {
    query_id = r.query_id;
    status = hit;
    selected_candidate = some c;
  }

  -- A query from which nothing is selected.
  abbrev pub without_selection :
      EmptyQueryPolicy
      → QueryCalibrationRecord F
      → QueryCalibrationDataset F
      → QueryCalibrationDataset F
  without_selection abstain_empty r d = record d {
    decisions = d.decisions ++ abstain_decision r ∷ [];
    abstained_queries = d.abstained_queries + 1;
  }
  without_selection skip r d = record d { skipped_queries = d.skipped_queries + 1 }

  abbrev pub with_selection :
      QueryCalibrationRecord F
      → QueryCalibrationCandidate F
      → QueryCalibrationDataset F
      → QueryCalibrationDataset F
  with_selection r c d = record d {
    decisions = d.decisions ++ selected_decision r c ∷ [];
    h0_scores = d.h0_scores ++ (if is_h0 c.label then c.score ∷ [] else []);
  }

  abbrev pub by_selection :
      EmptyQueryPolicy
      → QueryCalibrationRecord F
      → Option (QueryCalibrationCandidate F)
      → QueryCalibrationDataset F
      → QueryCalibrationDataset F
  by_selection policy r none d = without_selection policy r d
  by_selection policy r (some c) d = with_selection r c d

  abbrev pub count_record :
      QueryCalibrationRecord F → QueryCalibrationDataset F → QueryCalibrationDataset F
  count_record r d = record d {
    total_queries = d.total_queries + 1;
    all_pair_h0_scores = d.all_pair_h0_scores ++ h0_scores_of r.candidates;
  }

  -- `selection_fn` is called on candidates only.
  abbrev pub select_from : Selection F → Selection F
  select_from select [] = ok none
  select_from select (c ∷ cs) = select (c ∷ cs)

  -- The loop of `build_calibration_decisions`.
  unfoldable pub build_from :
      Selection F
      → EmptyQueryPolicy
      → List (QueryCalibrationRecord F)
      → QueryCalibrationDataset F
      → Result (QueryCalibrationDataset F)
  build_from select policy [] d = ok d
  build_from select policy (r ∷ rs) d = select_from select r.candidates >>= λ c.
      build_from select policy rs (by_selection policy r c (count_record r d))

  unfoldable pub build_calibration_decisions :
      Selection F
      → EmptyQueryPolicy
      → List (QueryCalibrationRecord F)
      → Result (QueryCalibrationDataset F)
  build_calibration_decisions select policy records = build_from select policy records empty_dataset

  abbrev pub optional_accept_count : ⦃fl : FloatOps F⦄ → List F → Option F → TieMode → ℕ
  optional_accept_count scores none tie = 0
  optional_accept_count scores (some tau) tie = accept_count scores tau tie

module _ {F : Type 0} ⦃fl : FloatOps F⦄ where
  abbrev pub rate : ℕ → ℕ → Option F
  rate accepts zero = none
  rate accepts (suc n) = some (fl.div (fl.of_ℕ accepts) (fl.of_ℕ (suc n)))

  abbrev pub finite_threshold : Option F → Bool
  finite_threshold none = false
  finite_threshold (some tau) = fl.is_finite tau

  abbrev pub wilson_reason : Option F → F → Option String
  wilson_reason none bound = some "wilson_upper_selected_fpr_unavailable"
  wilson_reason (some upper) bound =
      if fl.lt bound upper then some "wilson_upper_selected_fpr_exceeds_bound" else none

  abbrev pub gate_reason :
      QueryLevelCalibrationConfig F → ℕ → Option F → Option F → F → Option String
  gate_reason c n tau upper bound =
      if ltb n c.min_selected_h0
      then some "min_selected_h0_not_met"
      else if c.require_finite_threshold && not (finite_threshold tau)
      then some "threshold_not_finite"
      else wilson_reason upper bound

  -- The result, once the Wilson bound is computed.
  unfoldable pub calibration_result :
      QueryLevelCalibrationConfig F
      → QueryCalibrationDataset F
      → Option F
      → Option F
      → QueryLevelCalibrationResult F
  calibration_result c d tau upper =
      let n = length d.h0_scores in
      let all = length d.all_pair_h0_scores in
      let accepts = optional_accept_count d.h0_scores tau c.tie_mode in
      let all_accepts = optional_accept_count d.all_pair_h0_scores tau c.tie_mode in
      let bound = fl.add c.target_false_accept_rate c.fpr_wilson_margin in
      let reason = gate_reason c n tau upper bound in
      record {
        dataset = d;
        threshold = if is_some reason then none else tau;
        target_false_accept_rate = c.target_false_accept_rate;
        metadata = record {
          selected_h0_count = n;
          all_pair_h0_count = all;
          selected_h0_accepts = accepts;
          all_pair_h0_accepts = all_accepts;
          empirical_selected_fpr = rate accepts n;
          empirical_all_pair_fpr = rate all_accepts all;
          wilson_upper_selected_fpr = upper;
          allowed_fpr_bound = bound;
          threshold_is_finite = finite_threshold tau;
          calibration_gate_passed = not (is_some reason);
          calibration_gate_reason = reason;
          candidate_threshold = tau;
        };
      }

  -- `calibrate` on a dataset, with the configuration's target.
  unfoldable pub calibrate_dataset :
      QueryLevelCalibrationConfig F
      → QueryCalibrationDataset F
      → Result (QueryLevelCalibrationResult F)
  calibrate_dataset c d =
      let tau =
        threshold_from_selected_h0_scores d.h0_scores c.target_false_accept_rate c.tie_mode in
      wilson_upper_bound (optional_accept_count d.h0_scores tau c.tie_mode) (length d.h0_scores)
        c.wilson_confidence_z
      >>= λ upper. ok (calibration_result c d tau upper)

  -- `replace(config, target_false_accept_rate=target)`, which checks the configuration again.
  abbrev pub with_target :
      QueryLevelCalibrationConfig F → Option F → Result (QueryLevelCalibrationConfig F)
  with_target c none = ok c
  with_target c (some target) =
      let d = record c { target_false_accept_rate = target } in
      mlcache.QueryLevel.validate_config d >>= λ _. ok d

  -- `calibrate` on records.
  unfoldable pub calibrate :
      QueryLevelCalibrationConfig F
      → Selection F
      → EmptyQueryPolicy
      → List (QueryCalibrationRecord F)
      → Option F
      → Result (QueryLevelCalibrationResult F)
  calibrate c select policy records target = with_target c target >>= λ config.
      build_calibration_decisions select policy records >>= λ d. calibrate_dataset config d
