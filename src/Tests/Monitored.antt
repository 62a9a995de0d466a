-- ===== src/Tests/Monitored.antt =====
-- Examples for the shadow collection of the oracle's requests.
use mlcache.Prelude.{ℕ, String, ◌≡◌, refl, none, some, List, ◌∷◌, Result, ok}
use mlcache.Types.{OracleDecision}
use mlcache.Oracle.{TrainableOracle, snapshot_runtime_state}
use mlcache.Oracle.Score.{score_request, decide_on, by_threshold, scan_from, visit}
use mlcache.Oracle.Decide.{Job, decide}
use mlcache.Oracle.Monitor.{IsValid}
use mlcache.Feedback.{JudgedPairExample}
use mlcache.Feedback.Shadow.Collect.{TrainingStore}
use mlcache.Feedback.Shadow.Monitored.{collecting, decide-IsValid-collecting}
use mlcache.Tests.Numbers.{hundredths}
use mlcache.Tests.Shadow.{no_records, a_config, features, a_judge, new_collector}
use mlcache.Tests.Serving.{
  models, candidates, a_lookup, an_oracle, no_threads, or_else, scored, an_oracle-IsValid,
}

abbrev quiet_store : TrainingStore ℕ
quiet_store = record {
  State = List (JudgedPairExample ℕ);
  add_train = λ e s. (ok tt, e ∷ s);
  add_calibration = λ e s. (ok tt, e ∷ s);
}

abbrev decided : Result (OracleDecision ℕ × (Job ℕ × TrainableOracle ℕ String))
decided =
    decide models
      (some (
        collecting models quiet_store (λ e s. refl) (λ e s. refl) a_config no_records features
          (λ s. s) a_judge new_collector a_lookup))
      none (λ k. ok candidates) none (λ f r. none) no_threads a_lookup an_oracle

abbrev decided_value : OracleDecision ℕ × (Job ℕ × TrainableOracle ℕ String)
decided_value = or_else (scored.decision, (Job.no_job, an_oracle)) decided

decided_lem : decided ≡ ok decided_value
unfolding mlcache.Oracle.Decide.decide_with_shadow_collection snapshot_runtime_state score_request
    decide_on by_threshold scan_from visit
decided_lem = refl

decide-IsValid-collecting_example : IsValid decided_value.1.1
decide-IsValid-collecting_example =
    decide-IsValid-collecting models quiet_store (λ e s. refl) (λ e s. refl) a_config no_records
      features (λ s. s) a_judge new_collector a_lookup none (λ k. ok candidates) none (λ f r. none)
      no_threads an_oracle decided_value an_oracle-IsValid decided_lem
