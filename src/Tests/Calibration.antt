-- ===== src/Tests/Calibration.antt =====
-- Examples for the threshold, the Wilson bound and the adaptive controller.
use mlcache.Prelude.{
  ℕ, ◌≤◌, ◌≡◌, refl, true, false, none, some, List, [], ◌∷◌, arith, ltb, length, All, Result, ok,
  raise,
}
use mlcache.Types.{TieMode}
use mlcache.Tests.Numbers.{hundredths, hundredths_laws}
use mlcache.Threshold.{
  threshold_from_selected_h0_scores, allowed_accepts, accept_count, predict_score, sort_desc,
  at_boundary, threshold_at, no_accepts,
}
use mlcache.Threshold.Budget.{threshold-budget}
use mlcache.Threshold.Maximal.{threshold-maximal}
use mlcache.Wilson.{wilson_value, wilson_upper_bound}
use mlcache.Aci
use mlcache.Aci.{Config, Controller, update, observed, wilson_ucb}
use mlcache.Aci.Bounds.{IsValid, update-IsValid}
use mlcache.Aci.Gate.{gate_loosens}

abbrev scores : List ℕ
scores = 100 ∷ 300 ∷ 200 ∷ []

threshold-budget_example :
    (tau : ℕ) × (threshold_from_selected_h0_scores scores 40 TieMode.ge ≡ some tau)
    × (accept_count scores tau TieMode.ge ≤ allowed_accepts {F = ℕ} 40 (length scores))
threshold-budget_example =
    threshold-budget hundredths_laws scores 40 TieMode.ge
      ((refl, refl, refl), ((refl, refl, refl), ((refl, refl, refl), tt))) (omega arith)

threshold_of_scores : threshold_from_selected_h0_scores scores 40 TieMode.ge ≡ some 300
unfolding threshold_from_selected_h0_scores sort_desc at_boundary threshold_at no_accepts
threshold_of_scores = refl

threshold-maximal_example :
    All (λ s. predict_score TieMode.ge s 301 ≡ true → predict_score TieMode.ge s 300 ≡ true) scores
threshold-maximal_example =
    threshold-maximal hundredths_laws scores 40 TieMode.ge 300 301
      ((refl, refl, refl), ((refl, refl, refl), ((refl, refl, refl), tt))) threshold_of_scores
      (omega arith)

bound_of_one : wilson_upper_bound 1 4 196 ≡ ok (some (wilson_value {F = ℕ} 1 4 196))
unfolding wilson_upper_bound
bound_of_one = refl

abbrev a_config : Config ℕ
a_config = record {
  alpha_target = 50;
  gamma = 100;
  alpha_min = 1;
  alpha_max = 99;
  buffer_size = 10;
  min_buffer_size = 1;
  tie_mode = TieMode.ge;
  wilson_gate = true;
  wilson_z = 1;
  wilson_window = 10;
}

abbrev pub a_controller : Controller ℕ
a_controller = record {
  config = a_config;
  fallback_threshold = none;
  alpha_t = 20;
  buffer = [];
  buffer_origin = [];
  ctrl_outcomes = [];
  update_count = 0;
  h0_seen = 0;
  blocked_loosen_count = 0;
}

pub a_controller-IsValid : IsValid a_controller
a_controller-IsValid = record {
  buffer_fits = omega arith;
  origins = refl;
  outcomes_fit = omega arith;
  low = refl;
  high = refl;
  range = refl;
}

abbrev from_ok : Controller ℕ → Result (Controller ℕ) → Controller ℕ
from_ok c (ok d) = d
from_ok c (raise e) = c

abbrev updated : Controller ℕ
updated = from_ok a_controller (update a_controller 90 (some 0) false)

update_returns : update a_controller 90 (some 0) false ≡ ok updated
unfolding update Aci.update_h0 wilson_upper_bound wilson_value wilson_ucb Aci.gated
update_returns = refl

update-IsValid_example : IsValid updated
update-IsValid_example =
    update-IsValid hundredths_laws a_controller updated 90 (some 0) false a_controller-IsValid
      update_returns

update_raises : ltb a_controller.alpha_t updated.alpha_t ≡ true
unfolding update Aci.update_h0 wilson_upper_bound wilson_value wilson_ucb Aci.gated
update_raises = refl

gate_loosens_example :
    (u : ℕ) × (wilson_ucb (observed a_controller 90 false) ≡ ok (some u)) × (ltb 50 u ≡ false)
gate_loosens_example =
    gate_loosens hundredths_laws a_controller updated 90 false a_controller-IsValid refl
      update_returns update_raises
