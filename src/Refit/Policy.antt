-- ===== src/Refit/Policy.antt =====
-- src/mlcache/policies/refit.py: `decide` of the conservative policy, its metadata and the checks of
-- its configuration.
use mlcache.Prelude.{
  ℕ, String, Bool, false, not, ◌&&◌, ◌||◌, Option, none, some, [], ◌∷◌, ◌==◌, if◌then◌else◌,
  is_some, str_dec, Result, ok, raise, value_error,
}
use mlcache.Prelude.{◌>>=◌}
use mlcache.Dict.{Dict, assign}
use mlcache.Float.{FloatOps}
use mlcache.Types.{Value, null, number, integer}
use mlcache.Refit.{
  RefitAction, noop, recalibrate_threshold, refit_scorer, RefitPolicyContext, RefitPolicyDecision,
  ConservativeRefitConfig, effective_target, effective_monitor_fpr, effective_monitor_tpr,
  has_enough_fit_data, has_enough_calibration_data, has_new_calibration_data, requires_full_refit,
  new_fraction_since_fit, has_new_refit_data, fpr_above_limit, tpr_dropped, threshold_is_stale,
  calibration_cooldown_elapsed, refit_cooldown_elapsed, validate_context,
}

abbrev pub is_zero_limit : Option ℕ → Bool
is_zero_limit none = false
is_zero_limit (some n) = n == 0

-- What `decide` does when its signal is on: the action if the data and the cooldown allow it.
abbrev pub act_if_ready :
    Bool → Bool → RefitAction → String → String → String → RefitAction × String
act_if_ready enough cooldown action reason cooling waiting =
    if enough then (if cooldown then (action, reason) else (noop, cooling)) else (noop, waiting)

module _ {F : Type 0} ⦃fl : FloatOps F⦄ where
  abbrev pub number_or_null : Option F → Value F
  number_or_null none = null
  number_or_null (some a) = number a

  -- `{**base, **extra}`
  abbrev pub merge : Dict String (Value F) → Dict String (Value F) → Dict String (Value F)
  merge base [] = base
  merge base ((k, v) ∷ extra) = merge (assign str_dec k v base) extra

  -- `_metadata`
  unfoldable pub context_metadata :
      ConservativeRefitConfig F → RefitPolicyContext F → Dict String (Value F)
  context_metadata c x =
      let target = effective_target x in
      let limit =
        (if is_some x.monitor_fpr_upper_bound then target else fl.add target c.fpr_margin) in
      merge
        (("total_h0", integer x.total_h0)
          ∷ ("total_h1", integer x.total_h1)
          ∷ ("new_h0_since_fit", integer x.new_h0_since_fit)
          ∷ ("new_h1_since_fit", integer x.new_h1_since_fit)
          ∷ ("new_h0_since_calibration", integer x.new_h0_since_calibration)
          ∷ ("new_fraction_since_fit", number (new_fraction_since_fit x))
          ∷ ("monitor_fpr", number_or_null (effective_monitor_fpr x))
          ∷ ("monitor_fpr_upper_bound", number_or_null x.monitor_fpr_upper_bound)
          ∷ ("monitor_tpr", number_or_null (effective_monitor_tpr x))
          ∷ ("target_false_accept_rate", number target)
          ∷ ("fpr_limit", number limit)
          ∷ ("current_threshold", number_or_null x.current_threshold)
          ∷ ("decisions_since_fit", integer x.decisions_since_fit)
          ∷ ("decisions_since_calibration", integer x.decisions_since_calibration)
          ∷ [])
        x.metadata

  abbrev pub is_negative : Option F → Bool
  is_negative none = false
  is_negative (some a) = fl.lt a (fl.of_ℕ 0)

  -- `_validate_config`; the other integer fields are natural numbers.
  unfoldable pub validate_config : ConservativeRefitConfig F → Result (Unit {0})
  validate_config c =
      if is_zero_limit c.max_decisions_between_calibrations
        || is_zero_limit c.max_decisions_between_refits
      then raise value_error
      else if is_negative c.min_seconds_between_calibrations
          || (is_negative c.min_seconds_between_refits
              || (is_negative c.max_seconds_between_calibrations
                  || is_negative c.max_seconds_between_refits))
      then raise value_error
      else if fl.lt c.min_new_fraction_for_refit (fl.of_ℕ 0)
      then raise value_error
      else if fl.lt c.fpr_margin (fl.of_ℕ 0)
      then raise value_error
      else if fl.lt c.tpr_drop_margin (fl.of_ℕ 0)
      then raise value_error
      else if fl.le c.wilson_confidence_z (fl.of_ℕ 0)
      then raise value_error
      else if fl.lt c.fpr_wilson_margin (fl.of_ℕ 0)
      then raise value_error
      else ok tt

  -- The signals that `decide` looks at after a change of distribution.
  unfoldable pub by_signal : ConservativeRefitConfig F → RefitPolicyContext F → RefitAction × String
  by_signal c x =
      let can_fit = has_enough_fit_data c x in
      let can_calibrate = has_enough_calibration_data c x in
      if fpr_above_limit c x
      then act_if_ready (can_calibrate && has_new_calibration_data c x)
          (calibration_cooldown_elapsed c x) recalibrate_threshold "fpr_above_limit"
          "calibration_cooldown_active" "fpr_above_limit_waiting_for_h0"
      else if tpr_dropped c x
      then act_if_ready (can_fit && has_new_refit_data c x) (refit_cooldown_elapsed c x)
          refit_scorer "tpr_degraded" "refit_cooldown_active" "tpr_degraded_waiting_for_labels"
      else if can_fit && has_new_refit_data c x
      then (if refit_cooldown_elapsed c x
          then (refit_scorer, "enough_new_balanced_examples")
          else (noop, "refit_cooldown_active"))
      else if can_calibrate && threshold_is_stale c x
      then (if calibration_cooldown_elapsed c x
          then (recalibrate_threshold, "threshold_stale")
          else (noop, "calibration_cooldown_active"))
      else (noop, "no_refit_signal")

  -- The action and the reason that `decide` returns.
  unfoldable pub choose : ConservativeRefitConfig F → RefitPolicyContext F → RefitAction × String
  choose c x =
      let ready = has_enough_fit_data c x && refit_cooldown_elapsed c x in
      if x.fit_in_progress
      then (noop, "fit_in_progress")
      else if not (is_some x.current_threshold)
      then (if ready
          then (refit_scorer, "initial_fit_ready")
          else (noop, "insufficient_initial_training_data"))
      else if requires_full_refit x
      then (if ready
          then (refit_scorer, "semantic_distribution_changed")
          else (noop, "distribution_changed_but_refit_not_ready"))
      else by_signal c x

  unfoldable pub decide :
      ConservativeRefitConfig F → RefitPolicyContext F → Result (RefitPolicyDecision F)
  decide c x = validate_context x >>= λ _. ok (record {
    action = (choose c x).0;
    reason = some ((choose c x).1);
    metadata = context_metadata c x;
  })
