-- ===== src/Oracle/Decide.antt =====
-- src/mlcache/oracle/trainable.py: `decide`, with and without shadow collection, and the maintenance
-- that it triggers. Threads that it starts are returned as jobs: their work is `fit_in_current_thread` and
-- `recalibrate_threshold_from_rows`.
use mlcache.Prelude.{
  ℕ, ◌+◌, String, Bool, true, false, ◌||◌, Option, none, some, List, [], ◌∷◌, ltb, if◌then◌else◌,
  length, Result, ok, raise, runtime_error,
}
use mlcache.Prelude.{◌>>=◌}
use mlcache.Dict.{Dict}
use mlcache.Float.{FloatOps}
use mlcache.Types.{OracleDecision, CacheLookup, Value, text, integer, boolean}
use mlcache.Refit.{
  RefitAction, noop, recalibrate_threshold, refit_scorer, disable_semantic_hits, RefitPolicyContext,
  RefitPolicyDecision,
}
use mlcache.Refit.Policy.{merge, number_or_null}
use mlcache.Refit.Policy
use mlcache.Oracle.{
  Models, Rows, VectorSearchResult, TrainableOracle, snapshot_runtime_state, monitor_fpr,
  monitor_tpr, monitor_fpr_upper_bound,
}
use mlcache.Oracle.Activation.{TrainCalibEvalSplit}
use mlcache.Oracle.Fit.{recalibrate_threshold_from_rows, rejected}
use mlcache.Oracle.Score.{OracleScoredResult, score_request}
use mlcache.Oracle.Feedback.{
  JudgeLabel, OracleJudgeFeedback, ShadowCollectionResult, record_judge_feedback,
  record_shadow_collection, finalize_decision,
}
use mlcache.Oracle.Split.{RefitRows, build_refit_split, build_explicit_refit_split}

pub data Job (F : Type 0) : Type 0 where
  no_job : Job F
  fit_job : TrainCalibEvalSplit F → Job F
  recalibration_job : Rows F → Dict String (Value F) → Job F

-- The threads of the oracle that are alive.
pub record Threads : Type 0 where
  pub fit : Bool
  pub recalibration : Bool

-- `_maybe_collect_shadow_feedback` drops errors.
abbrev pub shadow_result : Result ShadowCollectionResult → Option ShadowCollectionResult
shadow_result (ok r) = some r
shadow_result (raise e) = none

-- What the maintenance leaves: the decision, the thread to start and the oracle.
pub record Maintained (F : Type 0) (Sc : Type 0) : Type 0 where
  pub decision : RefitPolicyDecision F
  pub job : Job F
  pub oracle : TrainableOracle F Sc

module _ {F : Type 0} where
  abbrev pub recalibration_rows : RefitRows F → Rows F
  recalibration_rows r = if r.explicit_split then r.h0_calibration else r.h0_rows

  -- `_start_recalibration_async` starts no thread while one is alive.
  abbrev pub recalibration_thread : Bool → Rows F → Dict String (Value F) → Job F
  recalibration_thread running rows metadata =
      if running then no_job else recalibration_job rows metadata

module _ {F : Type 0} {Sc : Type 0} where
  abbrev pub noted : RefitPolicyDecision F → TrainableOracle F Sc → TrainableOracle F Sc
  noted d o = record o { last_refit_decision = some d }

  abbrev pub maintained : RefitPolicyDecision F → Job F → TrainableOracle F Sc → Maintained F Sc
  maintained d job o = record { decision = d; job = job; oracle = noted d o }

  -- `fit_async` raises while a fit runs.
  abbrev pub after_split :
      RefitPolicyDecision F
      → Bool
      → Option (TrainCalibEvalSplit F)
      → TrainableOracle F Sc
      → Result (Maintained F Sc)
  after_split d true (some split) o = raise runtime_error
  after_split d false (some split) o = ok (maintained d (fit_job split) o)
  after_split d running none o =
      ok (maintained (rejected "refit_split_not_ready" d.metadata) no_job o)

  abbrev pub apply_shadow :
      Option ShadowCollectionResult → OracleDecision F → TrainableOracle F Sc → TrainableOracle F Sc
  apply_shadow none d o = o
  apply_shadow (some r) d o = record_shadow_collection r d o

  abbrev pub apply_feedback :
      Option (OracleJudgeFeedback F) → TrainableOracle F Sc → TrainableOracle F Sc
  apply_feedback none o = o
  apply_feedback (some f) o = if o.judge_for_feedback then record_judge_feedback f o else o

  -- Whether the judge is asked: there is one, and its verdict has a use.
  abbrev pub should_call_judge : TrainableOracle F Sc → Bool
  should_call_judge o = o.judge_for_feedback || o.judge_can_override_decision

  -- An error of the body is a decision that says so; its text is left out.
  abbrev pub or_failed : TrainableOracle F Sc → Result (Maintained F Sc) → Maintained F Sc
  or_failed o (ok r) = r
  or_failed o (raise e) = maintained (rejected "auto_refit_failed" []) no_job o

module _ {F : Type 0} {X : Type 0} {Sc : Type 0} where
  -- `_maybe_collect_judge_feedback`; the judge answers with a label and its confidence.
  unfoldable pub collect_judge_feedback :
      Option (VectorSearchResult F → Result (JudgeLabel × Option F))
      → OracleScoredResult F X
      → TrainableOracle F Sc
      → Result (Option (OracleJudgeFeedback F))
  collect_judge_feedback none scored o = ok none
  collect_judge_feedback (some judge) scored o =
      if should_call_judge o
      then elim scored.feedback_candidate [
        | none ↦ ok none
        | some c ↦ judge c >>= λ v. ok (
            some (record {
              label = v.0;
              confidence = v.1;
              candidate = c;
              score = scored.feedback_score;
              scorer_decision = scored.decision;
              candidate_rank = scored.feedback_candidate_rank;
            }))
      ]
      else ok none

module _ {F : Type 0} {Sc : Type 0} ⦃fl : FloatOps F⦄ where
  -- The values that an absent fit result does not have.
  abbrev pub fit_metadata : TrainableOracle F Sc → Dict String (Value F)
  fit_metadata o = elim o.fit_result [ none ↦ [] | some f ↦ f.metadata ]

  unfoldable pub activation_status : TrainableOracle F Sc → Dict String (Value F)
  activation_status o = merge (merge (fit_metadata o) o.activation_metadata) (
      ("threshold", number_or_null o.threshold)
      ∷ ("threshold_version", integer o.threshold_version)
      ∷ ("semantic_hits_disabled", boolean o.semantic_hits_disabled)
      ∷ [])

  -- A recalibration in this thread has returned.
  abbrev pub after_recalibration :
      RefitPolicyDecision F → Option F × TrainableOracle F Sc → Maintained F Sc
  after_recalibration d (some t, o) = record { decision = d; job = no_job; oracle = o }
  after_recalibration d (none, o) =
      maintained (rejected "threshold_recalibration_not_activated" (activation_status o)) no_job o

  -- No score reaches the threshold, and hits are off.
  unfoldable pub disable_hits : TrainableOracle F Sc → TrainableOracle F Sc
  disable_hits o = record o {
    semantic_hits_disabled = true;
    threshold = some fl.inf;
    threshold_version = o.threshold_version + 1;
  }

  -- The context of `_maybe_auto_refit`.
  abbrev pub refit_context :
      RefitRows F → Option F → Bool → Option F → TrainableOracle F Sc → RefitPolicyContext F
  refit_context rows current_threshold fit_in_progress upper o = record {
    total_h0 = length rows.h0_rows;
    total_h1 = length rows.h1_rows;
    target_false_accept_rate = o.target_false_accept_rate;
    current_threshold = current_threshold;
    metrics = none;
    new_h0_since_fit = o.new_h0_since_fit;
    new_h1_since_fit = o.new_h1_since_fit;
    new_h0_since_calibration = o.new_h0_since_calibration;
    monitor_fpr = monitor_fpr o;
    monitor_fpr_upper_bound = upper;
    monitor_tpr = monitor_tpr o;
    previous_monitor_tpr = o.previous_monitor_tpr;
    decisions_since_fit = o.decisions_since_fit;
    decisions_since_calibration = o.decisions_since_calibration;
    seconds_since_fit = none;
    seconds_since_calibration = none;
    fit_in_progress = fit_in_progress;
    scorer_changed = false;
    embedding_model_changed = false;
    traffic_distribution_changed = false;
    metadata = ("source", text "decide") ∷ [];
  }

module _ {F : Type 0} {X : Type 0} {Sc : Type 0} ⦃fl : FloatOps F⦄ (m : Models F X Sc) where
  -- `_execute_refit_decision`, by its action.
  unfoldable pub execute_action :
      RefitAction
      → RefitPolicyDecision F
      → RefitRows F
      → Threads
      → TrainableOracle F Sc
      → Result (Maintained F Sc)
  execute_action noop d rows threads o = ok (maintained d no_job o)
  execute_action disable_semantic_hits d rows threads o = ok (maintained d no_job (disable_hits o))
  execute_action recalibrate_threshold d rows threads o =
      if ltb o.sync_recalibration_max_h0 (length (recalibration_rows rows))
      then ok (
          maintained d
            (recalibration_thread threads.recalibration (recalibration_rows rows) d.metadata) o)
      else (recalibrate_threshold_from_rows m (recalibration_rows rows) d.metadata (noted d o)
          >>= λ out. ok (after_recalibration d out))
  execute_action refit_scorer d rows threads o =
      after_split d threads.fit
        (if rows.explicit_split
          then build_explicit_refit_split rows d.metadata
          else build_refit_split rows.h0_rows rows.h1_rows d.metadata)
        o

  abbrev pub execute_refit_decision :
      RefitPolicyDecision F
      → RefitRows F
      → Threads
      → TrainableOracle F Sc
      → Result (Maintained F Sc)
  execute_refit_decision d rows threads o = execute_action d.action d rows threads o

  -- The guarded body of `_maybe_auto_refit`, on the rows of the training store.
  unfoldable pub try_auto_refit :
      Result (RefitRows F) → Option F → Threads → TrainableOracle F Sc → Result (Maintained F Sc)
  try_auto_refit rows current_threshold threads o = rows >>= λ r.
      monitor_fpr_upper_bound o >>= λ upper.
      Policy.decide o.config (refit_context r current_threshold threads.fit upper o) >>= λ d.
      execute_refit_decision d r threads o

  -- `_maybe_auto_refit`: no rows stand for `auto_refit` off or no training store.
  unfoldable pub maybe_auto_refit :
      Option (Result (RefitRows F))
      → Option F
      → Threads
      → TrainableOracle F Sc
      → Job F × TrainableOracle F Sc
  maybe_auto_refit none current_threshold threads o = (no_job, o)
  maybe_auto_refit (some rows) current_threshold threads o =
      let r = or_failed o (try_auto_refit rows current_threshold threads o) in (r.job, r.oracle)

  -- `_decide_with_shadow_collection`: the judge's verdict is not recorded.
  unfoldable pub decide_with_shadow_collection :
      (List (VectorSearchResult F) → OracleDecision F → Result ShadowCollectionResult)
      → Option (Result F)
      → (ℕ → Result (List (VectorSearchResult F)))
      → Option (VectorSearchResult F → Result (JudgeLabel × Option F))
      → (Option (OracleJudgeFeedback F)
          → Option ShadowCollectionResult
          → Option (Result (RefitRows F)))
      → Threads
      → CacheLookup F
      → TrainableOracle F Sc
      → Result (OracleDecision F × (Job F × TrainableOracle F Sc))
  decide_with_shadow_collection collect provider retrieve judge rows threads lookup o =
      snapshot_runtime_state o provider lookup.metadata >>= λ p.
      score_request m p.0 lookup.embedding (retrieve p.0.top_k) >>= λ scored.
      (if o.judge_can_override_decision then collect_judge_feedback judge scored p.1 else ok none)
      >>= λ f.
          (let serving = finalize_decision o.judge_can_override_decision scored.decision f in
            let result = shadow_result (collect scored.candidates serving) in
            ok (
              serving,
              maybe_auto_refit (rows none result) p.0.threshold threads
                  (apply_shadow result serving p.1),
            ))

  -- `decide` with no shadow collector, or with shadow collection off.
  unfoldable pub decide_without_collector :
      Option (Result F)
      → (ℕ → Result (List (VectorSearchResult F)))
      → Option (VectorSearchResult F → Result (JudgeLabel × Option F))
      → (Option (OracleJudgeFeedback F)
          → Option ShadowCollectionResult
          → Option (Result (RefitRows F)))
      → Threads
      → CacheLookup F
      → TrainableOracle F Sc
      → Result (OracleDecision F × (Job F × TrainableOracle F Sc))
  decide_without_collector provider retrieve judge rows threads lookup o =
      snapshot_runtime_state o provider lookup.metadata >>= λ p.
      score_request m p.0 lookup.embedding (retrieve p.0.top_k) >>= λ scored.
      collect_judge_feedback judge scored p.1 >>= λ f. ok (
        finalize_decision o.judge_can_override_decision scored.decision f,
        maybe_auto_refit (rows f none) p.0.threshold threads (apply_feedback f p.1),
      )

  -- `retrieve` is the vector store's answer for a `top_k`, and `rows` what the training store holds
  -- once the feedback or the collected pairs are added. The collector is none without
  -- `shadow_collection_enabled`.
  abbrev pub decide :
      Option (List (VectorSearchResult F) → OracleDecision F → Result ShadowCollectionResult)
      → Option (Result F)
      → (ℕ → Result (List (VectorSearchResult F)))
      → Option (VectorSearchResult F → Result (JudgeLabel × Option F))
      → (Option (OracleJudgeFeedback F)
          → Option ShadowCollectionResult
          → Option (Result (RefitRows F)))
      → Threads
      → CacheLookup F
      → TrainableOracle F Sc
      → Result (OracleDecision F × (Job F × TrainableOracle F Sc))
  decide (some collect) provider retrieve judge rows threads lookup o =
      decide_with_shadow_collection collect provider retrieve judge rows threads lookup o
  decide none provider retrieve judge rows threads lookup o =
      decide_without_collector provider retrieve judge rows threads lookup o
