-- ===== src/Oracle/Feedback.antt =====
-- src/mlcache/oracle/trainable.py: what verdicts of the judge do to the counters and to a decision.
use mlcache.Prelude.{ℕ, ◌+◌, String, Bool, true, false, not, Option, none, some, if◌then◌else◌}
use mlcache.Types.{OracleDecision, OracleDecisionStatus, hit, miss, abstain}
use mlcache.Oracle.{VectorSearchResult, TrainableOracle}

pub data JudgeLabel : Type 0 where
  reusable not_reusable uncertain : JudgeLabel

-- The verdict on a candidate and the decision that it is about.
pub record OracleJudgeFeedback (F : Type 0) : Type 0 where
  pub label : JudgeLabel
  pub confidence : Option F
  pub candidate : VectorSearchResult F
  pub score : Option F
  pub scorer_decision : OracleDecision F
  pub candidate_rank : Option ℕ

pub record ShadowCollectionResult : Type 0 where
  pub h0_added : ℕ
  pub h1_added : ℕ
  pub served_candidate_label : Option Bool

abbrev pub one_if : Bool → ℕ
one_if true = 1
one_if false = 0

-- 1 if the served candidate was judged and has this label.
abbrev pub served_as : Bool → Bool → Option Bool → ℕ
served_as label accepted none = 0
served_as label false (some l) = 0
served_as true true (some l) = one_if l
served_as false true (some l) = one_if (not l)

module _ {F : Type 0} {Sc : Type 0} where
  -- The counters of `_record_judge_feedback`; the training store is not part of the oracle.
  abbrev pub record_label : JudgeLabel → Bool → TrainableOracle F Sc → TrainableOracle F Sc
  record_label uncertain accepted o = o
  record_label reusable accepted o = record o {
    new_h1_since_fit = o.new_h1_since_fit + 1;
    monitor_h1_count = o.monitor_h1_count + 1;
    monitor_true_accepts = o.monitor_true_accepts + one_if accepted;
  }
  record_label not_reusable accepted o = record o {
    new_h0_since_fit = o.new_h0_since_fit + 1;
    new_h0_since_calibration = o.new_h0_since_calibration + 1;
    monitor_h0_count = o.monitor_h0_count + 1;
    monitor_false_accepts = o.monitor_false_accepts + one_if accepted;
  }

  unfoldable pub record_judge_feedback :
      OracleJudgeFeedback F → TrainableOracle F Sc → TrainableOracle F Sc
  record_judge_feedback f o = record_label f.label f.scorer_decision.accepted o

  -- `_record_shadow_collection_for_monitoring`
  unfoldable pub record_shadow_collection :
      ShadowCollectionResult → OracleDecision F → TrainableOracle F Sc → TrainableOracle F Sc
  record_shadow_collection r d o = record o {
    new_h0_since_fit = o.new_h0_since_fit + r.h0_added;
    new_h1_since_fit = o.new_h1_since_fit + r.h1_added;
    new_h0_since_calibration = o.new_h0_since_calibration + r.h0_added;
    monitor_h0_count = o.monitor_h0_count + r.h0_added;
    monitor_h1_count = o.monitor_h1_count + r.h1_added;
    monitor_true_accepts =
        o.monitor_true_accepts + served_as true d.accepted r.served_candidate_label;
    monitor_false_accepts =
        o.monitor_false_accepts + served_as false d.accepted r.served_candidate_label;
  }

module _ {F : Type 0} where
  -- The decision that a verdict makes of the scorer's decision `d`.
  abbrev pub judged :
      OracleDecision F
      → OracleDecisionStatus
      → Bool
      → Option String
      → Option F
      → Option ℕ
      → String
      → OracleDecision F
  judged d status accepted key s rank reason = record {
    status = status;
    accepted = accepted;
    cache_key = key;
    score = s;
    threshold = d.threshold;
    scorer = d.scorer;
    candidate_count = d.candidate_count;
    accepted_candidate_rank = rank;
    reason = some reason;
  }

  abbrev pub first_score : Option F → Option F → Option F
  first_score none s = s
  first_score (some c) s = some c

  abbrev pub by_label : JudgeLabel → OracleJudgeFeedback F → OracleDecision F
  by_label reusable f =
      judged f.scorer_decision hit true (some f.candidate.cache_key)
        (first_score f.confidence f.score) f.candidate_rank "judge_labeled_h1"
  by_label not_reusable f =
      judged f.scorer_decision miss false none (first_score f.confidence f.score) none
        "judge_labeled_h0"
  by_label uncertain f =
      judged f.scorer_decision abstain false none (first_score f.confidence f.score) none
        "judge_uncertain"

  -- `_finalize_decision`, with `_decision_from_judge_feedback`.
  unfoldable pub finalize_decision :
      Bool → OracleDecision F → Option (OracleJudgeFeedback F) → OracleDecision F
  finalize_decision can_override d none = d
  finalize_decision can_override d (some f) = if can_override then by_label f.label f else d
