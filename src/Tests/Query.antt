-- ===== src/Tests/Query.antt =====
-- Examples for the query-level calibration and for the saved state of the controller.
use mlcache.Prelude.{
  ℕ, ◌+◌, ◌≤◌, String, ◌≡◌, refl, true, Option, none, some, List, [], ◌∷◌, length, get_elem?, All,
  Result, ok, raise,
}
use mlcache.Types.{TieMode}
use mlcache.Tests.Numbers.{hundredths, hundredths_laws}
use mlcache.Tests.Calibration.{a_controller, a_controller-IsValid}
use mlcache.Aci.State.{state_dict, load_state_dict}
use mlcache.Aci.RoundTrip.{load_state_dict-state_dict}
use mlcache.Threshold.Sorting.{IsFinite}
use mlcache.QueryLevel.{
  QueryLevelCalibrationConfig, QueryCalibrationCandidate, QueryCalibrationRecord,
  QueryCalibrationDataset, Selection, max_from, select_max_score,
}
use mlcache.QueryLevel.Selection.{IsBest, select_max_score-IsBest}
use mlcache.QueryLevel.Calibrate.{
  skip, QueryLevelCalibrationResult, empty_dataset, calibration_result, with_target, build_from,
  build_calibration_decisions, calibrate_dataset, calibrate,
}
use mlcache.QueryLevel.Gate.{Published, calibrate-Published}
use mlcache.QueryLevel.Accounting.{all_h0_scores, build_calibration_decisions-accounts}
use mlcache.QueryLevel.Store.{BoundedStore, init, add_all}
use mlcache.QueryLevel.Bounded.{last, filled-last}

load_state_dict-state_dict_example : load_state_dict (state_dict a_controller) ≡ ok a_controller
load_state_dict-state_dict_example = load_state_dict-state_dict a_controller a_controller-IsValid

abbrev a_candidate : String → ℕ → Option ℕ → QueryCalibrationCandidate ℕ
a_candidate key s label = record {
  score = s;
  label = label;
  candidate_rank = none;
  candidate_key = some key;
}

abbrev candidates : List (QueryCalibrationCandidate ℕ)
candidates =
    a_candidate "a" 70 (some 1) ∷ a_candidate "b" 90 (some 0) ∷ a_candidate "c" 80 none ∷ []

chosen : select_max_score candidates ≡ some (a_candidate "b" 90 (some 0))
unfolding select_max_score max_from
chosen = refl

select_max_score-IsBest_example :
    ((k : ℕ) × (get_elem? candidates k ≡ some (a_candidate "b" 90 (some 0))))
    × All (IsBest hundredths_laws 3 (a_candidate "b" 90 (some 0))) candidates
select_max_score-IsBest_example =
    select_max_score-IsBest hundredths_laws candidates (a_candidate "b" 90 (some 0)) chosen

abbrev records : List (QueryCalibrationRecord ℕ)
records =
    record { query_id = "1"; candidates = candidates; query = none }
    ∷ record { query_id = "2"; candidates = []; query = none }
    ∷ []

abbrev by_score : Selection ℕ
by_score cs = ok (select_max_score cs)

abbrev a_config : QueryLevelCalibrationConfig ℕ
a_config = record {
  target_false_accept_rate = 5;
  tie_mode = TieMode.ge;
  wilson_confidence_z = 164;
  fpr_wilson_margin = 100;
  min_selected_h0 = 1;
  require_finite_threshold = true;
}

abbrev or_empty : Result (QueryCalibrationDataset ℕ) → QueryCalibrationDataset ℕ
or_empty (ok d) = d
or_empty (raise e) = empty_dataset

abbrev a_dataset : QueryCalibrationDataset ℕ
a_dataset = or_empty (build_calibration_decisions by_score skip records)

built : build_calibration_decisions by_score skip records ≡ ok a_dataset
unfolding build_calibration_decisions build_from select_max_score max_from
built = refl

build_calibration_decisions-accounts_example :
    (a_dataset.total_queries ≡ 2)
    × (length a_dataset.decisions + a_dataset.skipped_queries ≡ 2)
    × (length a_dataset.h0_scores + a_dataset.abstained_queries ≤ length a_dataset.decisions)
    × (a_dataset.all_pair_h0_scores ≡ all_h0_scores records)
build_calibration_decisions-accounts_example =
    build_calibration_decisions-accounts by_score skip records a_dataset built

abbrev or_nothing : Result (QueryLevelCalibrationResult ℕ) → QueryLevelCalibrationResult ℕ
or_nothing (ok r) = r
or_nothing (raise e) = calibration_result a_config empty_dataset none none

abbrev calibrated : QueryLevelCalibrationResult ℕ
calibrated = or_nothing (calibrate a_config by_score skip records none)

calibrated_lem : calibrate a_config by_score skip records none ≡ ok calibrated
unfolding calibrate build_calibration_decisions build_from calibrate_dataset
    mlcache.Wilson.wilson_upper_bound select_max_score max_from
    mlcache.Threshold.threshold_from_selected_h0_scores mlcache.Threshold.threshold_at
    mlcache.Threshold.no_accepts
calibrated_lem = refl

threshold_lem : calibrated.threshold ≡ some 91
unfolding calibrate build_calibration_decisions build_from calibrate_dataset
    mlcache.Wilson.wilson_upper_bound select_max_score max_from
    mlcache.Threshold.threshold_from_selected_h0_scores mlcache.Threshold.threshold_at
    mlcache.Threshold.no_accepts calibration_result mlcache.Wilson.wilson_value
threshold_lem = refl

finite_lem : All IsFinite calibrated.dataset.h0_scores
unfolding calibrate build_calibration_decisions build_from calibrate_dataset
    mlcache.Wilson.wilson_upper_bound select_max_score max_from
    mlcache.Threshold.threshold_from_selected_h0_scores mlcache.Threshold.threshold_at
    mlcache.Threshold.no_accepts calibration_result
finite_lem = ((refl, refl, refl), tt)

calibrate-Published_example :
    (config : QueryLevelCalibrationConfig ℕ) × (with_target a_config none ≡ ok config)
    × (build_calibration_decisions by_score skip records ≡ ok calibrated.dataset)
    × Published config calibrated.dataset.h0_scores 91
calibrate-Published_example =
    calibrate-Published hundredths_laws a_config by_score skip records none calibrated 91 finite_lem
      calibrated_lem threshold_lem

abbrev a_store : BoundedStore ℕ
a_store = record { bound = 2; items = [] }

a_store_lem : init 2 ≡ ok a_store
unfolding init
a_store_lem = refl

filled-last_example :
    ((add_all a_store (1 ∷ 2 ∷ 3 ∷ [])).items ≡ last 2 (1 ∷ 2 ∷ 3 ∷ []))
    × (length (add_all a_store (1 ∷ 2 ∷ 3 ∷ [])).items ≤ 2)
filled-last_example = filled-last 2 a_store (1 ∷ 2 ∷ 3 ∷ []) a_store_lem
