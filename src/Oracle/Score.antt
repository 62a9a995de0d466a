-- ===== src/Oracle/Score.antt =====
-- src/mlcache/oracle/trainable.py: `_score_request_with_snapshot`, on the candidates that the
-- vector store returned. The evidence for observers is left out.
use mlcache.Prelude.{
  ℕ, ◌+◌, String, Bool, true, false, ◌&&◌, Option, none, some, List, [], ◌∷◌, ◌++◌, if◌then◌else◌,
  length, Result, ok, raise,
}
use mlcache.Prelude.{◌>>=◌}
use mlcache.Float.{FloatOps}
use mlcache.Types.{OracleDecision, OracleDecisionStatus, hit, miss, abstain, TieMode}
use mlcache.Threshold.{predict_score}
use mlcache.Oracle.{Models, VectorSearchResult, OracleRuntimeSnapshot}

pub record OracleScoredResult (F : Type 0) (X : Type 0) : Type 0 where
  pub decision : OracleDecision F
  pub candidates : List (VectorSearchResult F)
  pub feedback_candidate : Option (VectorSearchResult F)
  pub feedback_candidate_rank : Option ℕ
  pub feedback_features : Option X
  pub feedback_score : Option F

-- An accepted candidate: its rank, its features and its score.
pub record Best (F : Type 0) (X : Type 0) : Type 0 where
  pub candidate : VectorSearchResult F
  pub rank : ℕ
  pub features : X
  pub score : F

-- What the loop over the candidates has: the best accepted one and the scores so far.
pub record Scan (F : Type 0) (X : Type 0) : Type 0 where
  pub best : Option (Best F X)
  pub scored : List F

module _ {F : Type 0} ⦃fl : FloatOps F⦄ where
  -- Python's `max(scores, default=None)`: the first of the greatest.
  abbrev pub max_score : List F → Option F
  max_score [] = none
  max_score (s ∷ ss) = some (max_from s ss)
    where
      max_from : F → List F → F
      max_from a [] = a
      max_from a (b ∷ bs) = max_from (if fl.lt a b then b else a) bs

module _ {F : Type 0} {X : Type 0} ⦃fl : FloatOps F⦄ where
  -- `accepted and (best_score is None or score > best_score)`
  abbrev pub better : Bool → F → Option (Best F X) → Bool
  better accepted s none = accepted
  better accepted s (some b) = accepted && fl.lt b.score s

  abbrev pub start : Scan F X
  start = record { best = none; scored = [] }

  -- One turn of the loop on a candidate with the score `s`, if it has one.
  unfoldable pub visit : F → TieMode → ℕ → VectorSearchResult F → X → Option F → Scan F X → Scan F X
  visit threshold tie rank candidate x none scan = scan
  visit threshold tie rank candidate x (some s) scan = record scan {
    best =
        if better (predict_score tie s threshold) s scan.best
        then some (record { candidate = candidate; rank = rank; features = x; score = s })
        else scan.best;
    scored = scan.scored ++ s ∷ [];
  }

  abbrev pub refused :
      List (VectorSearchResult F)
      → VectorSearchResult F
      → X
      → Option F
      → OracleDecision F
      → OracleScoredResult F X
  refused candidates first features first_score d = record {
    decision = d;
    candidates = candidates;
    feedback_candidate = some first;
    feedback_candidate_rank = some 1;
    feedback_features = some features;
    feedback_score = first_score;
  }

  -- The result once the loop has run, with its decision.
  abbrev pub scored_result :
      List (VectorSearchResult F)
      → VectorSearchResult F
      → X
      → Option F
      → OracleDecision F
      → Option (Best F X)
      → OracleScoredResult F X
  scored_result candidates first features first_score d none =
      refused candidates first features first_score d
  scored_result candidates first features first_score d (some b) = record {
    decision = d;
    candidates = candidates;
    feedback_candidate = some b.candidate;
    feedback_candidate_rank = some b.rank;
    feedback_features = some b.features;
    feedback_score = some b.score;
  }

module _ {F : Type 0} {X : Type 0} {Sc : Type 0} ⦃fl : FloatOps F⦄ (m : Models F X Sc) where
  abbrev pub safe_score : Sc → X → Option F
  safe_score sc x = elim (m.score sc x) [ ok s ↦ some s | raise e ↦ none ]

  -- The loop from the candidate of this rank on.
  unfoldable pub scan_from :
      Sc → F → TieMode → List F → ℕ → List (VectorSearchResult F) → Scan F X → Result (Scan F X)
  scan_from sc threshold tie query rank [] scan = ok scan
  scan_from sc threshold tie query rank (c ∷ cs) scan = m.build query c.embedding >>= λ x.
      scan_from sc threshold tie query (rank + 1) cs
        (visit threshold tie rank c x (safe_score sc x) scan)

  -- A decision that serves nothing.
  abbrev pub refusal :
      OracleRuntimeSnapshot F Sc → OracleDecisionStatus → Option F → ℕ → String → OracleDecision F
  refusal snapshot status s count reason = record {
    status = status;
    accepted = false;
    cache_key = none;
    score = s;
    threshold = snapshot.threshold;
    scorer = some (m.name snapshot.scorer);
    candidate_count = count;
    accepted_candidate_rank = none;
    reason = some reason;
  }

  -- The decision after the loop, whose best candidate is given.
  abbrev pub serve : OracleRuntimeSnapshot F Sc → ℕ → List F → Option (Best F X) → OracleDecision F
  serve snapshot count scored none =
      refusal snapshot miss (max_score scored) count "no_candidate_passed_threshold"
  serve snapshot count scored (some b) = record {
    status = hit;
    accepted = true;
    cache_key = some b.candidate.cache_key;
    score = some b.score;
    threshold = snapshot.threshold;
    scorer = some (m.name snapshot.scorer);
    candidate_count = count;
    accepted_candidate_rank = some b.rank;
    reason = none;
  }

  -- The decision while semantic hits are enabled, by the threshold.
  unfoldable pub by_threshold :
      OracleRuntimeSnapshot F Sc
      → List F
      → List (VectorSearchResult F)
      → VectorSearchResult F
      → X
      → Option F
      → Result (OracleScoredResult F X)
  by_threshold snapshot query candidates first features none = ok (
      refused candidates first features (safe_score snapshot.scorer features) (
        refusal snapshot abstain (safe_score snapshot.scorer features) (length candidates)
          "oracle_not_fitted"))
  by_threshold snapshot query candidates first features (some t) =
      scan_from snapshot.scorer t snapshot.tie_mode query 1 candidates start >>= λ scan. ok (
        scored_result candidates first features (safe_score snapshot.scorer features)
          (serve snapshot (length candidates) scan.scored scan.best) scan.best)

  -- The decision on the candidates, the first of which has these features.
  unfoldable pub decide_on :
      OracleRuntimeSnapshot F Sc
      → List F
      → List (VectorSearchResult F)
      → VectorSearchResult F
      → X
      → Result (OracleScoredResult F X)
  decide_on snapshot query candidates first features =
      if snapshot.semantic_hits_disabled
      then ok (
          refused candidates first features (safe_score snapshot.scorer features) (
            refusal snapshot miss (safe_score snapshot.scorer features) (length candidates)
              "semantic_hits_disabled"))
      else by_threshold snapshot query candidates first features snapshot.threshold

  unfoldable pub score_request :
      OracleRuntimeSnapshot F Sc
      → List F
      → Result (List (VectorSearchResult F))
      → Result (OracleScoredResult F X)
  score_request snapshot query (raise e) = raise e
  score_request snapshot query (ok []) = ok (record {
    decision = refusal snapshot miss none 0 "no_neighbors";
    candidates = [];
    feedback_candidate = none;
    feedback_candidate_rank = none;
    feedback_features = none;
    feedback_score = none;
  })
  score_request snapshot query (ok (c ∷ cs)) =
      m.build query c.embedding >>= λ x. decide_on snapshot query (c ∷ cs) c x
