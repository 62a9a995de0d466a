-- ===== src/Oracle.antt =====
-- src/mlcache/oracle/trainable.py: the state of the trainable oracle, its counters and what a
-- request reads of it. Scorers and feature builders are the interface `Models`.
pub mod Score
pub mod Best
pub mod Serving
pub mod Activation
pub mod Fit
pub mod Certified
pub mod Activated
pub mod Feedback
pub mod Split
pub mod Decide
pub mod Monitor
pub mod Partition
pub mod EndToEnd
use mlcache.Prelude.{
  ℕ, zero, suc, ◌+◌, String, Bool, false, not, ◌&&◌, ◌||◌, Option, none, some, List, [], leb, ◌==◌,
  if◌then◌else◌, Result, ok, raise, value_error,
}
use mlcache.Prelude.{◌>>=◌, ◌>>◌}
use mlcache.Dict.{Dict}
use mlcache.Float.{FloatOps}
use mlcache.Types.{CacheKey, CacheMetadata, OracleDecision, TieMode, Value}
use mlcache.Wilson.{wilson_upper_bound}
use mlcache.Refit.{RefitPolicyDecision, ConservativeRefitConfig}

abbrev pub Rows : Type 0 → Type 0
Rows F = List (List F)

-- What the oracle calls of a scorer `Sc` and of the feature builder, with features `X`. `fit` is
-- the fit of a copy of the scorer on its H0 and H1 rows.
pub record Models (F : Type 0) (X : Type 0) (Sc : Type 0) : Type 0 where
  pub name : Sc → String
  pub score : Sc → X → Result F
  pub fit : Rows F → Rows F → F → Sc → Result Sc
  pub calibrate : List F → F → TieMode → Sc → Result F
  pub build : List F → List F → Result X
  pub row_features : List F → X

pub record VectorSearchResult (F : Type 0) : Type 0 where
  pub cache_key : CacheKey
  pub embedding : List F
  pub score : F
  pub query : Option String
  pub metadata : CacheMetadata

pub record OracleFitResult (F : Type 0) : Type 0 where
  pub scorer : String
  pub threshold : F
  pub target_false_accept_rate : F
  pub n_h0_train : ℕ
  pub n_h1_train : ℕ
  pub n_h0_calib : ℕ
  pub n_h1_calib : ℕ
  pub metadata : Dict String (Value F)

pub record TrainableOracle (F : Type 0) (Sc : Type 0) : Type 0 where
  pub scorer : Sc
  pub config : ConservativeRefitConfig F
  pub judge_for_feedback : Bool
  pub judge_can_override_decision : Bool
  pub sync_recalibration_max_h0 : ℕ
  pub monitor_window_min_examples : ℕ
  pub target_false_accept_rate : F
  pub tie_mode : TieMode
  pub default_top_k : ℕ
  pub threshold : Option F
  pub threshold_version : ℕ
  pub semantic_hits_disabled : Bool
  pub fit_result : Option (OracleFitResult F)
  pub activation_metadata : Dict String (Value F)
  pub last_refit_decision : Option (RefitPolicyDecision F)
  pub new_h0_since_fit : ℕ
  pub new_h1_since_fit : ℕ
  pub new_h0_since_calibration : ℕ
  pub decisions_since_fit : ℕ
  pub decisions_since_calibration : ℕ
  pub monitor_h0_count : ℕ
  pub monitor_h1_count : ℕ
  pub monitor_false_accepts : ℕ
  pub monitor_true_accepts : ℕ
  pub previous_monitor_tpr : Option F

pub record OracleRuntimeSnapshot (F : Type 0) (Sc : Type 0) : Type 0 where
  pub scorer : Sc
  pub threshold : Option F
  pub top_k : ℕ
  pub tie_mode : TieMode
  pub threshold_version : ℕ
  pub semantic_hits_disabled : Bool

module _ {F : Type 0} where
  -- `provider` is what the threshold provider answers, if there is one.
  abbrev pub provided_threshold : Option (Result F) → Bool → Option F → Option F
  provided_threshold (some (ok t)) false local_threshold = some t
  provided_threshold _ _ local_threshold = local_threshold

  abbrev pub kept_tpr : Option F → Option F → Option F
  kept_tpr none previous = previous
  kept_tpr (some tpr) previous = some tpr

module _ {F : Type 0} ⦃fl : FloatOps F⦄ where
  -- `count / total` of a monitor, none without examples.
  abbrev pub monitor_rate : ℕ → ℕ → Option F
  monitor_rate count zero = none
  monitor_rate count (suc n) = some (fl.div (fl.of_ℕ count) (fl.of_ℕ (suc n)))

module _ {F : Type 0} {Sc : Type 0} ⦃fl : FloatOps F⦄ where
  -- The checks and the state of `__init__`.
  unfoldable pub init :
      Sc
      → ConservativeRefitConfig F
      → Bool
      → Bool
      → ℕ
      → ℕ
      → F
      → TieMode
      → ℕ
      → Result (TrainableOracle F Sc)
  init scorer config judge_for_feedback can_override sync_max window target tie_mode top_k =
      if (top_k == 0) || ((sync_max == 0) || (window == 0))
      then raise value_error
      else if not (fl.lt (fl.of_ℕ 0) target && fl.lt target (fl.of_ℕ 1))
      then raise value_error
      else ok (record {
        scorer = scorer;
        config = config;
        judge_for_feedback = judge_for_feedback;
        judge_can_override_decision = can_override;
        sync_recalibration_max_h0 = sync_max;
        monitor_window_min_examples = window;
        target_false_accept_rate = target;
        tie_mode = tie_mode;
        default_top_k = top_k;
        threshold = none;
        threshold_version = 0;
        semantic_hits_disabled = false;
        fit_result = none;
        activation_metadata = [];
        last_refit_decision = none;
        new_h0_since_fit = 0;
        new_h1_since_fit = 0;
        new_h0_since_calibration = 0;
        decisions_since_fit = 0;
        decisions_since_calibration = 0;
        monitor_h0_count = 0;
        monitor_h1_count = 0;
        monitor_false_accepts = 0;
        monitor_true_accepts = 0;
        previous_monitor_tpr = none;
      })

  -- `_resolve_top_k`
  abbrev pub resolve_top_k : TrainableOracle F Sc → Option ℕ → Result ℕ
  resolve_top_k o none = ok o.default_top_k
  resolve_top_k o (some zero) = raise value_error
  resolve_top_k o (some (suc k)) = ok (suc k)

  abbrev pub counted : TrainableOracle F Sc → TrainableOracle F Sc
  counted o = record o {
    decisions_since_fit = o.decisions_since_fit + 1;
    decisions_since_calibration = o.decisions_since_calibration + 1;
  }

  -- `_snapshot_runtime_state`
  unfoldable pub snapshot_runtime_state :
      TrainableOracle F Sc
      → Option (Result F)
      → CacheMetadata
      → Result (OracleRuntimeSnapshot F Sc × TrainableOracle F Sc)
  snapshot_runtime_state o provider metadata = resolve_top_k o metadata.top_k >>= λ k. ok (
    record {
      scorer = o.scorer;
      threshold = provided_threshold provider o.semantic_hits_disabled o.threshold;
      top_k = k;
      tie_mode = o.tie_mode;
      threshold_version = o.threshold_version;
      semantic_hits_disabled = o.semantic_hits_disabled;
    },
    counted o,
  )

  abbrev pub monitor_fpr : TrainableOracle F Sc → Option F
  monitor_fpr o = monitor_rate o.monitor_false_accepts o.monitor_h0_count

  abbrev pub monitor_tpr : TrainableOracle F Sc → Option F
  monitor_tpr o = monitor_rate o.monitor_true_accepts o.monitor_h1_count

  unfoldable pub monitor_fpr_upper_bound : TrainableOracle F Sc → Result (Option F)
  monitor_fpr_upper_bound o =
      wilson_upper_bound o.monitor_false_accepts o.monitor_h0_count (fl.decimal 196 2)

  -- `_reset_monitor_counts`
  unfoldable pub reset_monitor_counts : TrainableOracle F Sc → TrainableOracle F Sc
  reset_monitor_counts o = record o {
    previous_monitor_tpr =
        if leb o.monitor_window_min_examples (o.monitor_h0_count + o.monitor_h1_count)
        then kept_tpr (monitor_tpr o) o.previous_monitor_tpr
        else o.previous_monitor_tpr;
    monitor_h0_count = 0;
    monitor_h1_count = 0;
    monitor_false_accepts = 0;
    monitor_true_accepts = 0;
  }
