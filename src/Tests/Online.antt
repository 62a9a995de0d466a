-- ===== src/Tests/Online.antt =====
-- Examples for the stopping controller and the refit policy.
use mlcache.Prelude.{ℕ, ◌≡◌, refl, true, false, none, some, [], ◌∷◌, arith, ok}
use mlcache.Tests.Numbers.{hundredths}
use mlcache.Stopping.{
  OnlineStoppingConfig, OnlineMetrics, StopStatus, Controller, observe, observe_all,
  observe_running, range,
}
use mlcache.Stopping.Convergence.{IsValid, AllStable, observe-IsValid, stable_run-stops}
use mlcache.Refit.{
  RefitPolicyContext, RefitPolicyDecision, ConservativeRefitConfig, validate_context,
  requires_full_refit, fpr_above_limit,
}
use mlcache.Refit.Policy.{decide, choose, context_metadata}
use mlcache.Refit.Justified.{Justified, decide-Justified}

abbrev a_stopping_config : OnlineStoppingConfig ℕ
a_stopping_config = record {
  check_every = 1;
  window = 2;
  patience = 1;
  eps_tpr = 1;
  eps_fpr = 1;
  eps_tau = 1;
  fpr_margin = 1;
  min_monitor_h0 = 0;
  min_monitor_h1 = 0;
}

abbrev some_metrics : OnlineMetrics ℕ
some_metrics = record {
  batch_index = 2;
  monitor_tpr = 90;
  monitor_fpr = 3;
  threshold = 80;
  target_false_accept_rate = 5;
  monitor_h0_count = none;
  monitor_h1_count = none;
}

abbrev a_run : Controller ℕ
a_run = record {
  config = a_stopping_config;
  history = some_metrics ∷ [];
  stable_checks = 0;
  status = record { stopped = false; reason = none; metadata = [] };
}

a_run-IsValid : IsValid a_run
a_run-IsValid = record { patient = omega arith; counted = refl }

observe-IsValid_example : IsValid (observe a_run some_metrics)
observe-IsValid_example = observe-IsValid a_run some_metrics a_run-IsValid

a_run-AllStable : AllStable a_run (some_metrics ∷ [])
unfolding mlcache.Stopping.check range
a_run-AllStable = ((refl, refl, omega arith, refl), tt)

stable_run-stops_example : (observe_all a_run (some_metrics ∷ [])).status.stopped ≡ true
stable_run-stops_example =
    stable_run-stops a_run (some_metrics ∷ []) a_run-IsValid a_run-AllStable (omega arith)

abbrev pub a_refit_config : ConservativeRefitConfig ℕ
a_refit_config = record {
  min_h0_for_fit = 2;
  min_h1_for_fit = 2;
  min_h0_for_calibration = 2;
  min_train_total = 2;
  min_train_h0 = 1;
  min_train_h1 = 1;
  min_calibration_h0 = 1;
  min_calibration_h1 = 1;
  wilson_confidence_z = 1;
  fpr_wilson_margin = 3;
  require_finite_threshold = true;
  deactivate_on_failed_refit = false;
  min_new_h0_for_calibration = 1;
  min_new_h0_for_refit = 1;
  min_new_h1_for_refit = 1;
  min_new_fraction_for_refit = 25;
  fpr_margin = 1;
  tpr_drop_margin = 5;
  min_decisions_between_calibrations = 1;
  min_decisions_between_refits = 5;
  max_decisions_between_calibrations = none;
  max_decisions_between_refits = none;
  min_seconds_between_calibrations = none;
  min_seconds_between_refits = none;
  max_seconds_between_calibrations = none;
  max_seconds_between_refits = none;
}

abbrev a_context : RefitPolicyContext ℕ
a_context = record {
  total_h0 = 10;
  total_h1 = 10;
  target_false_accept_rate = 5;
  current_threshold = some 80;
  metrics = none;
  new_h0_since_fit = 3;
  new_h1_since_fit = 0;
  new_h0_since_calibration = 3;
  monitor_fpr = some 20;
  monitor_fpr_upper_bound = none;
  monitor_tpr = none;
  previous_monitor_tpr = none;
  decisions_since_fit = 9;
  decisions_since_calibration = 9;
  seconds_since_fit = none;
  seconds_since_calibration = none;
  fit_in_progress = false;
  scorer_changed = false;
  embedding_model_changed = false;
  traffic_distribution_changed = false;
  metadata = [];
}

abbrev a_decision : RefitPolicyDecision ℕ
a_decision = record {
  action = (choose a_refit_config a_context).0;
  reason = some (choose a_refit_config a_context).1;
  metadata = context_metadata a_refit_config a_context;
}

a_decision_lem : decide a_refit_config a_context ≡ ok a_decision
unfolding decide validate_context
a_decision_lem = refl

decide-Justified_example : Justified a_refit_config a_context a_decision.action
decide-Justified_example = decide-Justified a_refit_config a_context a_decision a_decision_lem

above_limit : fpr_above_limit a_refit_config a_context ≡ true
unfolding fpr_above_limit
above_limit = refl

no_change : requires_full_refit a_context ≡ false
unfolding requires_full_refit
no_change = refl
