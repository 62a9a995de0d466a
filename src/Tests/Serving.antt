-- ===== src/Tests/Serving.antt =====
-- Examples for the trainable oracle.
use mlcache.Prelude.{
  ℕ, String, ◌≡◌, refl, ◌⊎◌, true, false, Option, none, some, List, [], ◌∷◌, arith, length, Result,
  ok, raise,
}
use mlcache.Types.{CacheLookup, OracleDecision, miss, TieMode}
use mlcache.Tests.Numbers.{hundredths, hundredths_laws}
use mlcache.Tests.Online.{a_refit_config}
use mlcache.Wilson.{wilson_upper_bound}
use mlcache.Oracle.{
  Models, Rows, VectorSearchResult, TrainableOracle, OracleRuntimeSnapshot, snapshot_runtime_state,
  reset_monitor_counts,
}
use mlcache.Oracle.Score.{
  OracleScoredResult, visit, scan_from, by_threshold, decide_on, score_request,
}
use mlcache.Oracle.Serving.{ServesBest, score_request-ServesBest, score_request-accepts}
use mlcache.Oracle.Activation.{TrainCalibEvalSplit, activation_gate_from_counts, score_rows}
use mlcache.Oracle.Fit.{
  prepare_fit, fit_in_current_thread, prepare_recalibration, recalibrate_threshold_from_rows,
}
use mlcache.Oracle.Activated.{
  Activated, Unchanged, Recalibration, fit_in_current_thread-Activated, recalibrate-Certified,
}
use mlcache.Oracle.Split.{split_rows, calib_count}
use mlcache.Oracle.Partition.{IsPartition, split_rows-IsPartition}
use mlcache.Oracle.Feedback.{JudgeLabel, ShadowCollectionResult}
use mlcache.Oracle.Decide.{Job, Threads, decide}
use mlcache.Oracle.EndToEnd.{ServesRequest, decide-ServesRequest}
use mlcache.Oracle.Monitor.{IsValid, CountsServed, decide-IsValid}
use mlcache.Retrieval.Tables.{some_injective}
use mlcache.Prelude.{ok_injective, sym, ap, subst, ◌∙◌}

abbrev first_of : List ℕ → ℕ
first_of [] = 0
first_of (a ∷ rest) = a

-- The score of a pair is the first number of the candidate's embedding.
abbrev pub models : Models ℕ ℕ String
models = record {
  name = λ sc. sc;
  score = λ sc x. ok x;
  fit = λ h0 h1 alpha sc. ok "refitted";
  calibrate = λ scores alpha tie sc. ok 90;
  build = λ query embedding. ok (first_of embedding);
  row_features = first_of;
}

abbrev pub an_oracle : TrainableOracle ℕ String
an_oracle = record {
  scorer = "cosine";
  config = a_refit_config;
  judge_for_feedback = true;
  judge_can_override_decision = false;
  sync_recalibration_max_h0 = 10;
  monitor_window_min_examples = 30;
  target_false_accept_rate = 5;
  tie_mode = TieMode.ge;
  default_top_k = 3;
  threshold = some 80;
  threshold_version = 1;
  semantic_hits_disabled = false;
  fit_result = none;
  activation_metadata = [];
  last_refit_decision = none;
  new_h0_since_fit = 4;
  new_h1_since_fit = 3;
  new_h0_since_calibration = 2;
  decisions_since_fit = 9;
  decisions_since_calibration = 9;
  monitor_h0_count = 2;
  monitor_h1_count = 3;
  monitor_false_accepts = 1;
  monitor_true_accepts = 2;
  previous_monitor_tpr = none;
}

abbrev a_snapshot : OracleRuntimeSnapshot ℕ String
a_snapshot = record {
  scorer = "cosine";
  threshold = some 80;
  top_k = 3;
  tie_mode = TieMode.ge;
  threshold_version = 1;
  semantic_hits_disabled = false;
}

abbrev a_candidate : String → ℕ → VectorSearchResult ℕ
a_candidate key s = record {
  cache_key = key;
  embedding = s ∷ [];
  score = s;
  query = none;
  metadata = record { namespace = none; top_k = none; query_id = none; request_id = none };
}

abbrev pub candidates : List (VectorSearchResult ℕ)
candidates = a_candidate "a" 70 ∷ a_candidate "b" 85 ∷ a_candidate "c" 95 ∷ []

abbrev nothing_scored : OracleScoredResult ℕ ℕ
nothing_scored = record {
  decision = record {
    status = miss;
    accepted = false;
    cache_key = none;
    score = none;
    threshold = none;
    scorer = none;
    candidate_count = 0;
    accepted_candidate_rank = none;
    reason = none;
  };
  candidates = [];
  feedback_candidate = none;
  feedback_candidate_rank = none;
  feedback_features = none;
  feedback_score = none;
}

abbrev pub or_else : {A : Type 0} → A → Result A → A
or_else d (ok a) = a
or_else d (raise e) = d

abbrev pub scored : OracleScoredResult ℕ ℕ
scored = or_else nothing_scored (score_request models a_snapshot (1 ∷ []) (ok candidates))

scored_lem : score_request models a_snapshot (1 ∷ []) (ok candidates) ≡ ok scored
unfolding score_request decide_on by_threshold scan_from visit
    mlcache.Oracle.Decide.collect_judge_feedback
scored_lem = refl

scored_accepted : scored.decision.accepted ≡ true
unfolding score_request decide_on by_threshold scan_from visit
    mlcache.Oracle.Decide.collect_judge_feedback
scored_accepted = refl

score_request-ServesBest_example : ServesBest models a_snapshot (1 ∷ []) candidates scored.decision
score_request-ServesBest_example =
    score_request-ServesBest models hundredths_laws a_snapshot (1 ∷ []) candidates scored scored_lem
      scored_accepted

score_request-accepts_example : scored.decision.accepted ≡ true
score_request-accepts_example =
    score_request-accepts models hundredths_laws a_snapshot (1 ∷ []) candidates scored 80 1
      (a_candidate "b" 85) 85 refl refl refl (85, refl, refl, refl) scored_lem

abbrev rows : Rows ℕ
rows = (10 ∷ []) ∷ (20 ∷ []) ∷ (30 ∷ []) ∷ []

abbrev a_split : TrainCalibEvalSplit ℕ
a_split = record {
  h0_train = rows;
  h1_train = rows;
  h0_calib = rows;
  h1_calib = rows;
  h0_eval = [];
  h1_eval = [];
  metadata = [];
}

abbrev fitted : TrainableOracle ℕ String
fitted = or_else an_oracle (fit_in_current_thread models a_split an_oracle)

fitted_lem : fit_in_current_thread models a_split an_oracle ≡ ok fitted
unfolding fit_in_current_thread prepare_fit score_rows activation_gate_from_counts
    wilson_upper_bound
fitted_lem = refl

fit_in_current_thread-Activated_example :
    Activated models a_split an_oracle fitted ⊎ Unchanged models an_oracle fitted
fit_in_current_thread-Activated_example =
    fit_in_current_thread-Activated models a_split an_oracle fitted fitted_lem

abbrev recalibrated : Option ℕ × TrainableOracle ℕ String
recalibrated = or_else (none, an_oracle) (recalibrate_threshold_from_rows models rows [] an_oracle)

recalibrated_lem : recalibrate_threshold_from_rows models rows [] an_oracle ≡ ok recalibrated
unfolding recalibrate_threshold_from_rows prepare_recalibration score_rows
    activation_gate_from_counts wilson_upper_bound
recalibrated_lem = refl

recalibrate-Certified_example : Recalibration models rows an_oracle recalibrated
recalibrate-Certified_example =
    recalibrate-Certified models rows [] an_oracle recalibrated recalibrated_lem

a_fifth : calib_count hundredths (length rows) ≡ 1
unfolding calib_count
a_fifth = refl

split_rows-IsPartition_example : IsPartition rows (split_rows rows)
split_rows-IsPartition_example = split_rows-IsPartition rows (omega arith) (omega (arith, a_fifth))

abbrev pub a_lookup : CacheLookup ℕ
a_lookup = record {
  query = "q";
  embedding = 1 ∷ [];
  namespace = none;
  metadata = record { namespace = none; top_k = none; query_id = none; request_id = none };
}

abbrev pub no_threads : Threads
no_threads = record { fit = false; recalibration = false }

-- A shadow collector that judges the served candidate not reusable.
abbrev a_collector : List (VectorSearchResult ℕ) → OracleDecision ℕ → Result ShadowCollectionResult
a_collector cs d = ok (record { h0_added = 2; h1_added = 1; served_candidate_label = some false })

a_collector-CountsServed :
    (collect : List (VectorSearchResult ℕ) → OracleDecision ℕ → Result ShadowCollectionResult)
    (cs : List (VectorSearchResult ℕ)) (d : OracleDecision ℕ) (r : ShadowCollectionResult)
    → some a_collector ≡ some collect
    → collect cs d ≡ ok r
    → CountsServed r
a_collector-CountsServed collect cs d r q e =
    let same : collect ≡ a_collector = sym (some_injective q) in
    subst CountsServed (ok_injective (sym (ap (λ f. f cs d) same) ∙ e)) (omega arith)

-- The judge finds every candidate reusable, and there is no training store.
abbrev decided : Result (OracleDecision ℕ × (Job ℕ × TrainableOracle ℕ String))
decided =
    decide models (some a_collector) none (λ k. ok candidates)
      (some (λ c. ok (JudgeLabel.reusable, none))) (λ f r. none) no_threads a_lookup an_oracle

abbrev decided_value : OracleDecision ℕ × (Job ℕ × TrainableOracle ℕ String)
decided_value = or_else (scored.decision, (Job.no_job, an_oracle)) decided

decided_lem : decided ≡ ok decided_value
unfolding mlcache.Oracle.Decide.decide_with_shadow_collection snapshot_runtime_state score_request
    decide_on by_threshold scan_from visit mlcache.Oracle.Decide.collect_judge_feedback
decided_lem = refl

pub an_oracle-IsValid : IsValid an_oracle
unfolding IsValid
an_oracle-IsValid = (omega arith, omega arith)

decide-IsValid_example : IsValid decided_value.1.1
decide-IsValid_example =
    decide-IsValid models (some a_collector) none (λ k. ok candidates)
      (some (λ c. ok (JudgeLabel.reusable, none))) (λ f r. none) no_threads a_lookup an_oracle
      decided_value a_collector-CountsServed an_oracle-IsValid decided_lem

decided_accepted : decided_value.0.accepted ≡ true
unfolding mlcache.Oracle.Decide.decide_with_shadow_collection snapshot_runtime_state score_request
    decide_on by_threshold scan_from visit mlcache.Oracle.Decide.collect_judge_feedback
    mlcache.Oracle.Feedback.finalize_decision
decided_accepted = refl

decide-ServesRequest_example :
    (p : OracleRuntimeSnapshot ℕ String × TrainableOracle ℕ String) × (snapshot_runtime_state
        an_oracle none a_lookup.metadata
      ≡ ok p)
    × ServesRequest models p.0 (1 ∷ []) (λ k. ok candidates) decided_value.0
decide-ServesRequest_example =
    decide-ServesRequest models hundredths_laws (some a_collector) none (λ k. ok candidates)
      (some (λ c. ok (JudgeLabel.reusable, none))) (λ f r. none) no_threads a_lookup an_oracle
      decided_value refl decided_lem decided_accepted
