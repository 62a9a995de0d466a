-- ===== src/QueryLevel/Policy.antt =====
-- src/mlcache/policies/query_level.py: `QueryLevelLearnedPolicy`. Of the metadata of a decision,
-- the model has the number of candidates, which serving reads.
use mlcache.Prelude.{
  ℕ, String, Bool, false, Option, none, some, List, [], ◌∷◌, if◌then◌else◌, length, Result, ok,
}
use mlcache.Prelude.{◌>>=◌}
use mlcache.Float.{FloatOps}
use mlcache.Types.{CacheKey, OracleDecisionStatus, hit, miss, abstain, TieMode}
use mlcache.Threshold.{predict_score}
use mlcache.QueryLevel.{QueryCalibrationCandidate, QueryCalibrationRecord, Selection}

pub data QueryLevelPolicyMode : Type 0 where
  disabled shadow active : QueryLevelPolicyMode

pub record QueryLevelPolicyDecision (F : Type 0) : Type 0 where
  pub status : OracleDecisionStatus
  pub accepted : Bool
  pub selected_candidate_key : Option CacheKey
  pub selected_candidate_rank : Option ℕ
  pub selected_score : Option F
  pub threshold : Option F
  pub reason : Option String
  pub candidate_count : ℕ

pub record QueryLevelLearnedPolicy (F : Type 0) : Type 0 where
  pub threshold : Option F
  pub tie_mode : TieMode
  pub selection_fn : Selection F

module _ {F : Type 0} where
  -- `threshold if threshold is not None else self.threshold`
  abbrev pub effective_threshold : Option F → Option F → Option F
  effective_threshold none own = own
  effective_threshold (some t) own = some t

  abbrev pub no_candidates : Option F → ℕ → QueryLevelPolicyDecision F
  no_candidates threshold n = record {
    status = abstain;
    accepted = false;
    selected_candidate_key = none;
    selected_candidate_rank = none;
    selected_score = none;
    threshold = threshold;
    reason = some "no_candidates";
    candidate_count = n;
  }

module _ {F : Type 0} ⦃fl : FloatOps F⦄ where
  -- The decision on the selected candidate.
  abbrev pub on_selected :
      TieMode → ℕ → QueryCalibrationCandidate F → Option F → QueryLevelPolicyDecision F
  on_selected tie n c none = record {
    status = abstain;
    accepted = false;
    selected_candidate_key = c.candidate_key;
    selected_candidate_rank = c.candidate_rank;
    selected_score = some c.score;
    threshold = none;
    reason = some "query_level_threshold_missing";
    candidate_count = n;
  }
  on_selected tie n c (some t) = record {
    status = if predict_score tie c.score t then hit else miss;
    accepted = predict_score tie c.score t;
    selected_candidate_key = c.candidate_key;
    selected_candidate_rank = c.candidate_rank;
    selected_score = some c.score;
    threshold = some t;
    reason = if predict_score tie c.score t then none else some "selected_score_below_threshold";
    candidate_count = n;
  }

  abbrev pub on_selection :
      TieMode → ℕ → Option F → Option (QueryCalibrationCandidate F) → QueryLevelPolicyDecision F
  on_selection tie n threshold none = no_candidates threshold n
  on_selection tie n threshold (some c) = on_selected tie n c threshold

  abbrev pub evaluate_candidates :
      QueryLevelLearnedPolicy F
      → Option F
      → List (QueryCalibrationCandidate F)
      → Result (QueryLevelPolicyDecision F)
  evaluate_candidates p threshold [] = ok (no_candidates threshold 0)
  evaluate_candidates p threshold (c ∷ cs) =
      p.selection_fn (c ∷ cs) >>= λ s. ok (on_selection p.tie_mode (length (c ∷ cs)) threshold s)

  unfoldable pub evaluate :
      QueryLevelLearnedPolicy F
      → QueryCalibrationRecord F
      → Option F
      → Result (QueryLevelPolicyDecision F)
  evaluate p r threshold =
      evaluate_candidates p (effective_threshold threshold p.threshold) r.candidates
