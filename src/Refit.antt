-- ===== src/Refit.antt =====
-- src/mlcache/policies/refit.py: the context of a decision and the signals that it looks at.
pub mod Policy
pub mod Justified
use mlcache.Prelude.{
  ℕ, ◌+◌, ◌-◌, max, String, Bool, false, not, ◌&&◌, ◌||◌, Option, none, some, ltb, leb,
  if◌then◌else◌, Result, ok, raise, value_error,
}
use mlcache.Prelude.{◌>>=◌, ◌>>◌}
use mlcache.Dict.{Dict}
use mlcache.Float.{FloatOps}
use mlcache.Types.{Value}
use mlcache.Stopping.{OnlineMetrics}

pub data RefitAction : Type 0 where
  noop recalibrate_threshold refit_scorer disable_semantic_hits : RefitAction

pub record RefitPolicyContext (F : Type 0) : Type 0 where
  pub total_h0 : ℕ
  pub total_h1 : ℕ
  pub target_false_accept_rate : F
  pub current_threshold : Option F
  pub metrics : Option (OnlineMetrics F)
  pub new_h0_since_fit : ℕ
  pub new_h1_since_fit : ℕ
  pub new_h0_since_calibration : ℕ
  pub monitor_fpr : Option F
  pub monitor_fpr_upper_bound : Option F
  pub monitor_tpr : Option F
  pub previous_monitor_tpr : Option F
  pub decisions_since_fit : ℕ
  pub decisions_since_calibration : ℕ
  pub seconds_since_fit : Option F
  pub seconds_since_calibration : Option F
  pub fit_in_progress : Bool
  pub scorer_changed : Bool
  pub embedding_model_changed : Bool
  pub traffic_distribution_changed : Bool
  pub metadata : Dict String (Value F)

pub record RefitPolicyDecision (F : Type 0) : Type 0 where
  pub action : RefitAction
  pub reason : Option String
  pub metadata : Dict String (Value F)

pub record ConservativeRefitConfig (F : Type 0) : Type 0 where
  pub min_h0_for_fit : ℕ
  pub min_h1_for_fit : ℕ
  pub min_h0_for_calibration : ℕ
  pub min_train_total : ℕ
  pub min_train_h0 : ℕ
  pub min_train_h1 : ℕ
  pub min_calibration_h0 : ℕ
  pub min_calibration_h1 : ℕ
  pub wilson_confidence_z : F
  pub fpr_wilson_margin : F
  pub require_finite_threshold : Bool
  pub deactivate_on_failed_refit : Bool
  pub min_new_h0_for_calibration : ℕ
  pub min_new_h0_for_refit : ℕ
  pub min_new_h1_for_refit : ℕ
  pub min_new_fraction_for_refit : F
  pub fpr_margin : F
  pub tpr_drop_margin : F
  pub min_decisions_between_calibrations : ℕ
  pub min_decisions_between_refits : ℕ
  pub max_decisions_between_calibrations : Option ℕ
  pub max_decisions_between_refits : Option ℕ
  pub min_seconds_between_calibrations : Option F
  pub min_seconds_between_refits : Option F
  pub max_seconds_between_calibrations : Option F
  pub max_seconds_between_refits : Option F

-- `limit is not None and count >= limit`
abbrev pub count_reached : Option ℕ → ℕ → Bool
count_reached none count = false
count_reached (some limit) count = leb limit count

module _ {F : Type 0} where
  abbrev pub effective_target : RefitPolicyContext F → F
  effective_target x = elim x.metrics [
    | none ↦ x.target_false_accept_rate
    | some m ↦ m.target_false_accept_rate
  ]

  -- The value that the context gives, or that of its metrics.
  abbrev pub first_known : Option F → Option F → Option F
  first_known none b = b
  first_known (some a) b = some a

  abbrev pub effective_monitor_fpr : RefitPolicyContext F → Option F
  effective_monitor_fpr x =
      first_known x.monitor_fpr (elim x.metrics [ none ↦ none | some m ↦ some m.monitor_fpr ])

  abbrev pub effective_monitor_tpr : RefitPolicyContext F → Option F
  effective_monitor_tpr x =
      first_known x.monitor_tpr (elim x.metrics [ none ↦ none | some m ↦ some m.monitor_tpr ])

  unfoldable pub has_enough_fit_data : ConservativeRefitConfig F → RefitPolicyContext F → Bool
  has_enough_fit_data c x = leb c.min_h0_for_fit x.total_h0 && leb c.min_h1_for_fit x.total_h1

  unfoldable pub has_enough_calibration_data :
      ConservativeRefitConfig F → RefitPolicyContext F → Bool
  has_enough_calibration_data c x = leb c.min_h0_for_calibration x.total_h0

  unfoldable pub has_new_calibration_data : ConservativeRefitConfig F → RefitPolicyContext F → Bool
  has_new_calibration_data c x = leb c.min_new_h0_for_calibration x.new_h0_since_calibration

  unfoldable pub requires_full_refit : RefitPolicyContext F → Bool
  requires_full_refit x =
      x.scorer_changed || (x.embedding_model_changed || x.traffic_distribution_changed)

module _ {F : Type 0} ⦃fl : FloatOps F⦄ where
  unfoldable pub new_fraction_since_fit : RefitPolicyContext F → F
  new_fraction_since_fit x =
      let new_total = x.new_h0_since_fit + x.new_h1_since_fit in
      fl.div (fl.of_ℕ new_total) (fl.of_ℕ (max 1 (x.total_h0 + x.total_h1 - new_total)))

  unfoldable pub has_new_refit_data : ConservativeRefitConfig F → RefitPolicyContext F → Bool
  has_new_refit_data c x =
      if ltb x.new_h0_since_fit c.min_new_h0_for_refit
      then false
      else if ltb x.new_h1_since_fit c.min_new_h1_for_refit
      then false
      else fl.le c.min_new_fraction_for_refit (new_fraction_since_fit x)

  unfoldable pub fpr_above_limit : ConservativeRefitConfig F → RefitPolicyContext F → Bool
  fpr_above_limit c x = elim x.monitor_fpr_upper_bound [
    | some bound ↦ fl.lt (effective_target x) bound
    | none ↦ elim (effective_monitor_fpr x) [
      | none ↦ false
      | some fpr ↦ fl.lt (fl.add (effective_target x) c.fpr_margin) fpr
    ]
  ]

  abbrev pub drop_at_least : Option F → Option F → F → Bool
  drop_at_least (some previous) (some tpr) margin = fl.le margin (fl.sub previous tpr)
  drop_at_least _ _ margin = false

  unfoldable pub tpr_dropped : ConservativeRefitConfig F → RefitPolicyContext F → Bool
  tpr_dropped c x = drop_at_least x.previous_monitor_tpr (effective_monitor_tpr x) c.tpr_drop_margin

  -- `limit is not None and elapsed is not None and elapsed >= limit`
  abbrev pub time_reached : Option F → Option F → Bool
  time_reached (some limit) (some elapsed) = fl.le limit elapsed
  time_reached _ _ = false

  unfoldable pub threshold_is_stale : ConservativeRefitConfig F → RefitPolicyContext F → Bool
  threshold_is_stale c x =
      count_reached c.max_decisions_between_calibrations x.decisions_since_calibration
      || (time_reached c.max_seconds_between_calibrations x.seconds_since_calibration
          || (count_reached c.max_decisions_between_refits x.decisions_since_fit
              || time_reached c.max_seconds_between_refits x.seconds_since_fit))

  -- `min_seconds is not None and elapsed is not None and elapsed < min_seconds`
  abbrev pub too_soon : Option F → Option F → Bool
  too_soon (some least) (some elapsed) = fl.lt elapsed least
  too_soon _ _ = false

  unfoldable pub calibration_cooldown_elapsed :
      ConservativeRefitConfig F → RefitPolicyContext F → Bool
  calibration_cooldown_elapsed c x =
      if ltb x.decisions_since_calibration c.min_decisions_between_calibrations
      then false
      else not (too_soon c.min_seconds_between_calibrations x.seconds_since_calibration)

  unfoldable pub refit_cooldown_elapsed : ConservativeRefitConfig F → RefitPolicyContext F → Bool
  refit_cooldown_elapsed c x =
      if ltb x.decisions_since_fit c.min_decisions_between_refits
      then false
      else not (too_soon c.min_seconds_between_refits x.seconds_since_fit)

  -- `_validate_context`; the counts are natural numbers.
  unfoldable pub validate_context : RefitPolicyContext F → Result (Unit {0})
  validate_context x =
      if fl.lt (fl.of_ℕ 0) (effective_target x) && fl.lt (effective_target x) (fl.of_ℕ 1)
      then ok tt
      else raise value_error
