-- ===== src/Oracle/Fit.antt =====
-- src/mlcache/oracle/trainable.py: the fit of a new scorer and the recalibration of the threshold.
-- The work outside the lock is `prepare_fit` and `prepare_recalibration`, on the oracle as it was
-- when the work began; what the lock guards is `install_fit` and `install_recalibration`, on the
-- oracle as it is then. `fit_in_current_thread` and `recalibrate_threshold_from_rows` run both on
-- one oracle. Work that raises installs nothing. The threshold provider, if there is one, is told
-- afterwards and its errors are dropped, so it has no part here.
use mlcache.Prelude.{
  ◌+◌, String, true, false, not, ◌&&◌, ◌||◌, Option, none, some, List, [], ◌∷◌, if◌then◌else◌,
  is_some, length, Result, ok,
}
use mlcache.Prelude.{◌>>=◌}
use mlcache.Dict.{Dict}
use mlcache.Float.{FloatOps}
use mlcache.Types.{Value}
use mlcache.Refit.{RefitPolicyDecision, noop}
use mlcache.Oracle.{Models, Rows, OracleFitResult, TrainableOracle, reset_monitor_counts}
use mlcache.Oracle.Activation.{
  ActivationGateResult, TrainCalibEvalSplit, GateCounts, activation_gate_from_counts, score_rows,
  gate_metadata,
}

-- A fitted scorer with its threshold and the verdict of the gate.
pub record Fitted (F : Type 0) (Sc : Type 0) : Type 0 where
  pub scorer : Sc
  pub scorer_name : String
  pub threshold : F
  pub gate : ActivationGateResult F
  pub split : TrainCalibEvalSplit F

-- A new threshold of the present scorer.
pub record Recalibrated (F : Type 0) : Type 0 where
  pub threshold : F
  pub gate : ActivationGateResult F
  pub metadata : Dict String (Value F)

module _ {F : Type 0} where
  abbrev pub fit_counts : TrainCalibEvalSplit F → GateCounts
  fit_counts split = record {
    n_h0_train = length split.h0_train;
    n_h1_train = length split.h1_train;
    n_h0_calib = length split.h0_calib;
    n_h1_calib = length split.h1_calib;
    require_train_gates = true;
    require_calibration_h1 = true;
  }

  abbrev pub recalibration_counts : List F → GateCounts
  recalibration_counts scores = record {
    n_h0_train = 0;
    n_h1_train = 0;
    n_h0_calib = length scores;
    n_h1_calib = 0;
    require_train_gates = false;
    require_calibration_h1 = false;
  }

  -- A gate that refused: `reason` is the policy decision that the oracle reports.
  abbrev pub rejected : String → Dict String (Value F) → RefitPolicyDecision F
  rejected reason metadata = record { action = noop; reason = some reason; metadata = metadata }

module _ {F : Type 0} {Sc : Type 0} ⦃fl : FloatOps F⦄ where
  abbrev pub fit_result_of : Fitted F Sc → F → Dict String (Value F) → OracleFitResult F
  fit_result_of f alpha metadata = record {
    scorer = f.scorer_name;
    threshold = f.threshold;
    target_false_accept_rate = alpha;
    n_h0_train = length f.split.h0_train;
    n_h1_train = length f.split.h1_train;
    n_h0_calib = length f.split.h0_calib;
    n_h1_calib = length f.split.h1_calib;
    metadata = metadata;
  }

  abbrev pub refuse_fit : Fitted F Sc → TrainableOracle F Sc → TrainableOracle F Sc
  refuse_fit f o =
      let metadata = gate_metadata f.split.metadata f.gate f.threshold o.threshold in
      record o {
        fit_result = some (fit_result_of f o.target_false_accept_rate metadata);
        activation_metadata = metadata;
        semantic_hits_disabled = o.config.deactivate_on_failed_refit || o.semantic_hits_disabled;
        last_refit_decision = some (rejected "activation_gate_failed" metadata);
      }

  abbrev pub accept_fit : Fitted F Sc → TrainableOracle F Sc → TrainableOracle F Sc
  accept_fit f o =
      let metadata = gate_metadata f.split.metadata f.gate f.threshold (some f.threshold) in
      reset_monitor_counts (record o {
        fit_result = some (fit_result_of f o.target_false_accept_rate metadata);
        activation_metadata = metadata;
        scorer = f.scorer;
        threshold = some f.threshold;
        threshold_version = o.threshold_version + 1;
        semantic_hits_disabled = false;
        new_h0_since_fit = 0;
        new_h1_since_fit = 0;
        new_h0_since_calibration = 0;
        decisions_since_fit = 0;
        decisions_since_calibration = 0;
      })

  unfoldable pub install_fit : Fitted F Sc → TrainableOracle F Sc → TrainableOracle F Sc
  install_fit f o = if f.gate.passed then accept_fit f o else refuse_fit f o

  abbrev pub refuse_recalibration : Recalibrated F → TrainableOracle F Sc → TrainableOracle F Sc
  refuse_recalibration r o =
      let metadata = gate_metadata r.metadata r.gate r.threshold o.threshold in
      record o {
        activation_metadata = metadata;
        semantic_hits_disabled =
            (o.config.deactivate_on_failed_refit && not (is_some o.threshold))
            || o.semantic_hits_disabled;
        last_refit_decision = some (rejected "threshold_activation_gate_failed" metadata);
      }

  abbrev pub accept_recalibration : Recalibrated F → TrainableOracle F Sc → TrainableOracle F Sc
  accept_recalibration r o = reset_monitor_counts (record o {
    threshold = some r.threshold;
    threshold_version = o.threshold_version + 1;
    semantic_hits_disabled = false;
    activation_metadata = gate_metadata r.metadata r.gate r.threshold (some r.threshold);
    new_h0_since_calibration = 0;
    decisions_since_calibration = 0;
  })

  -- With the threshold that is returned: none if the gate refused it.
  unfoldable pub install_recalibration :
      Recalibrated F → TrainableOracle F Sc → Option F × TrainableOracle F Sc
  install_recalibration r o =
      if r.gate.passed
      then (some r.threshold, accept_recalibration r o)
      else (none, refuse_recalibration r o)

module _ {F : Type 0} {X : Type 0} {Sc : Type 0} ⦃fl : FloatOps F⦄ (m : Models F X Sc) where
  unfoldable pub prepare_fit : TrainableOracle F Sc → TrainCalibEvalSplit F → Result (Fitted F Sc)
  prepare_fit o split =
      m.fit split.h0_train split.h1_train o.target_false_accept_rate o.scorer >>= λ new_scorer.
      score_rows m new_scorer split.h0_calib >>= λ scores.
      m.calibrate scores o.target_false_accept_rate o.tie_mode new_scorer >>= λ threshold.
      activation_gate_from_counts o.config o.target_false_accept_rate o.tie_mode threshold scores
        (fit_counts split)
      >>= λ gate. ok (record {
        scorer = new_scorer;
        scorer_name = m.name new_scorer;
        threshold = threshold;
        gate = gate;
        split = split;
      })

  -- `_fit_in_current_thread`
  unfoldable pub fit_in_current_thread :
      TrainCalibEvalSplit F → TrainableOracle F Sc → Result (TrainableOracle F Sc)
  fit_in_current_thread split o = prepare_fit o split >>= λ f. ok (install_fit f o)

  unfoldable pub prepare_recalibration :
      TrainableOracle F Sc → Rows F → Dict String (Value F) → Result (Recalibrated F)
  prepare_recalibration o rows metadata = score_rows m o.scorer rows >>= λ scores.
      m.calibrate scores o.target_false_accept_rate o.tie_mode o.scorer >>= λ threshold.
      activation_gate_from_counts o.config o.target_false_accept_rate o.tie_mode threshold scores
        (recalibration_counts scores)
      >>= λ gate. ok (record { threshold = threshold; gate = gate; metadata = metadata })

  -- `_recalibrate_threshold_from_rows`
  unfoldable pub recalibrate_threshold_from_rows :
      Rows F
      → Dict String (Value F)
      → TrainableOracle F Sc
      → Result (Option F × TrainableOracle F Sc)
  recalibrate_threshold_from_rows [] metadata o = ok (none, o)
  recalibrate_threshold_from_rows (row ∷ rows) metadata o =
      prepare_recalibration o (row ∷ rows) metadata >>= λ r. ok (install_recalibration r o)
