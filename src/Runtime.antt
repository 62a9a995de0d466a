-- ===== src/Runtime.antt =====
-- src/mlcache/runtime/runtime.py: the lookup of the runtime, with the query-level policy in its
-- three modes. Metrics and audit events are left out; a failure that the code catches is an entry
-- of the diagnostics. The runtime's key-value store and oracle are those of its gateway.
pub mod Lookup
pub mod Active
pub mod Effects
pub mod Bounded
use mlcache.Prelude.{
  ℕ, zero, suc, ◌+◌, ◌-◌, ◌*◌, ◌%◌, ◌≤◌, ◌<◌, min, max, String, ◌≡◌, refl, sym, ap, ◌∙◌, subst, ◌≢◌,
  ◌↔◌, ◌⊎◌, inl, inr, ite, if_pos, if_neg, Bool, true, false, not, ◌&&◌, ◌||◌, Option, none, some,
  List, [], ◌∷◌, ◌++◌, map, arith, ltb, leb, ◌==◌, if◌then◌else◌, ltb→lt, leb→le, Bool-cases,
  Option-cases, is_some, if_true, if_false, str_dec, length, get_elem?, set, take, drop, count_if,
  All, get_elem?-some, get_elem?-All, length-append, length-drop, length-map, count_if-le,
  All-append, All-map, Error, Result, ok, raise, value_error, key_error, index_error, runtime_error,
}
use mlcache.Prelude.Exec.{Exec, pure, continue}
use mlcache.Dict.{Dict}
use mlcache.Float.{FloatOps}
use mlcache.Types.{
  CacheKey, Response, CacheEntry, CacheLookup, OracleDecision, OracleDecisionStatus, hit, miss,
  abstain, Value,
}
use mlcache.Eviction.{Datetime}
use mlcache.KvStore
use mlcache.Gateway
use mlcache.Gateway.{Oracle, Gateway, CacheGatewayResult}
use mlcache.QueryLevel.{QueryCalibrationRecord}
use mlcache.QueryLevel.Policy.{
  QueryLevelPolicyMode, QueryLevelPolicyDecision, QueryLevelLearnedPolicy, effective_threshold,
  evaluate,
}
use mlcache.QueryLevel.Store.{BoundedStore, add, latest}

pub record QueryLevelRuntimeConfig (F : Type 0) : Type 0 where
  pub enabled : Bool
  pub mode : QueryLevelPolicyMode
  pub threshold : Option F
  pub fallback_to_pair_level_on_abstain : Bool
  pub fallback_to_pair_level_on_missing_record : Bool
  pub fallback_to_pair_level_on_kv_miss : Bool

pub record Runtime (F : Type 0) (S : Type 0) : Type 0 where
  pub gateway : Gateway S
  pub query_level_policy : Option (QueryLevelLearnedPolicy F)
  pub query_level_shadow_store : Option (BoundedStore (QueryLevelPolicyDecision F))
  pub query_record_store : Option (BoundedStore (QueryCalibrationRecord F))
  pub config : QueryLevelRuntimeConfig F
  -- The hooks that failed.
  pub diagnostics : List String

-- The metadata of a lookup under the active policy.
pub record ActiveMetadata (F : Type 0) : Type 0 where
  pub pair_level_status : OracleDecisionStatus
  pub pair_level_accepted : Bool
  pub query_level_status : Option OracleDecisionStatus
  pub query_level_accepted : Option Bool
  pub selected_candidate_key : Option CacheKey
  pub selected_candidate_rank : Option ℕ
  pub selected_score : Option F
  pub threshold : Option F
  pub reason : Option String
  pub fallback_used : Bool
  pub final_decision_source : Option String
  pub kv_miss : Option Bool

-- `metadata` is that of the pair-level result; `active` is none unless the active policy ran.
pub record RuntimeResult (F : Type 0) : Type 0 where
  pub response : Option Response
  pub decision : OracleDecision F
  pub metadata : Dict String (Value F)
  pub active : Option (ActiveMetadata F)

abbrev pub reason_or : Option String → String → String
reason_or none default = default
reason_or (some r) default = if mlcache.Prelude.text_eq r "" then default else r

abbrev pub not_hit : OracleDecisionStatus → OracleDecisionStatus
not_hit hit = miss
not_hit miss = miss
not_hit abstain = abstain

module _ {F : Type 0} where
  -- `_query_level_threshold`
  abbrev pub policy_threshold : Option (QueryLevelLearnedPolicy F) → Option F
  policy_threshold none = none
  policy_threshold (some p) = p.threshold

  abbrev pub query_level_threshold : {S : Type 0} → Runtime F S → Option F
  query_level_threshold rt =
      effective_threshold rt.config.threshold (policy_threshold rt.query_level_policy)

  -- `_query_level_active_base_metadata`
  abbrev pub base_metadata : CacheGatewayResult F → Option F → ActiveMetadata F
  base_metadata pair threshold = record {
    pair_level_status = pair.decision.status;
    pair_level_accepted = pair.decision.accepted;
    query_level_status = none;
    query_level_accepted = none;
    selected_candidate_key = none;
    selected_candidate_rank = none;
    selected_score = none;
    threshold = threshold;
    reason = none;
    fallback_used = false;
    final_decision_source = none;
    kv_miss = none;
  }

  -- `_query_level_active_decision_metadata`
  abbrev pub decision_metadata : QueryLevelPolicyDecision F → ActiveMetadata F → ActiveMetadata F
  decision_metadata d m = record m {
    query_level_status = some d.status;
    query_level_accepted = some d.accepted;
    selected_candidate_key = d.selected_candidate_key;
    selected_candidate_rank = d.selected_candidate_rank;
    selected_score = d.selected_score;
    threshold = d.threshold;
  }

  -- `_fallback_pair_level_result`
  abbrev pub fallback_result : CacheGatewayResult F → ActiveMetadata F → RuntimeResult F
  fallback_result pair m = record {
    response = pair.response;
    decision = pair.decision;
    metadata = pair.metadata;
    active = some (record m {
      fallback_used = true;
      final_decision_source = some "query_level_active_fallback_pair_level";
    });
  }

  -- A result with no response of the active policy alone.
  abbrev pub no_fallback_result : OracleDecision F → ActiveMetadata F → RuntimeResult F
  no_fallback_result d m = record {
    response = none;
    decision = d;
    metadata = [];
    active = some (record m {
      fallback_used = false;
      final_decision_source = some "query_level_active_no_fallback";
    });
  }

  -- `_oracle_decision_from_query_level`
  abbrev pub oracle_decision :
      QueryLevelPolicyDecision F
      → Bool
      → Option CacheKey
      → OracleDecisionStatus
      → String
      → OracleDecision F
  oracle_decision d accepted key status reason = record {
    status = status;
    accepted = accepted;
    cache_key = key;
    score = d.selected_score;
    threshold = d.threshold;
    scorer = some "QueryLevelLearnedPolicy";
    candidate_count = d.candidate_count;
    accepted_candidate_rank = if accepted then d.selected_candidate_rank else none;
    reason = some reason;
  }

  -- `_query_level_no_response_decision`
  abbrev pub no_response_decision : OracleDecisionStatus → String → Option F → OracleDecision F
  no_response_decision status reason threshold = record {
    status = status;
    accepted = false;
    cache_key = none;
    score = none;
    threshold = threshold;
    scorer = some "QueryLevelLearnedPolicy";
    candidate_count = 0;
    accepted_candidate_rank = none;
    reason = some reason;
  }

  abbrev pub fallback_or :
      Bool → CacheGatewayResult F → OracleDecision F → ActiveMetadata F → RuntimeResult F
  fallback_or fallback pair d m =
      if fallback then fallback_result pair m else no_fallback_result d m

  -- `_query_level_active_no_record_or_policy_result`
  abbrev pub no_record_or_policy :
      Bool → CacheGatewayResult F → Option F → ActiveMetadata F → String → RuntimeResult F
  no_record_or_policy fallback pair threshold m reason =
      fallback_or fallback pair (no_response_decision abstain reason threshold) (record m {
        query_level_status = some abstain;
        query_level_accepted = some false;
        selected_candidate_key = none;
        selected_candidate_rank = none;
        selected_score = none;
        threshold = threshold;
        reason = some reason;
        kv_miss = some false;
      })

  -- `_query_level_active_rejected_or_abstained_result`
  abbrev pub rejected_or_abstained :
      Bool → CacheGatewayResult F → QueryLevelPolicyDecision F → ActiveMetadata F → RuntimeResult F
  rejected_or_abstained fallback pair d m =
      let reason = reason_or d.reason "query_level_policy_not_accepted" in
      fallback_or fallback pair (oracle_decision d false none (not_hit d.status) reason)
        (record m { reason = some reason; kv_miss = some false })

  -- `_query_level_active_kv_miss_result`
  abbrev pub kv_miss_result :
      Bool
      → CacheGatewayResult F
      → QueryLevelPolicyDecision F
      → ActiveMetadata F
      → String
      → RuntimeResult F
  kv_miss_result fallback pair d m reason =
      fallback_or fallback pair (oracle_decision d false none miss reason)
        (record m { reason = some reason; kv_miss = some true })

  abbrev pub accepted_result :
      CacheKey → Response → QueryLevelPolicyDecision F → ActiveMetadata F → RuntimeResult F
  accepted_result key response d m = record {
    response = some response;
    decision = oracle_decision d true (some key) hit "query_level_policy_accepted";
    metadata = [];
    active = some (record m {
      reason = some "query_level_policy_accepted";
      fallback_used = false;
      final_decision_source = some "query_level_active";
      kv_miss = some false;
    });
  }

  -- The branch for an exception.
  abbrev pub failed_result : CacheGatewayResult F → ActiveMetadata F → RuntimeResult F
  failed_result pair m = fallback_result pair (record m {
    query_level_status = some abstain;
    query_level_accepted = some false;
    reason = some "query_level_active_failed";
  })

  abbrev pub pair_level : CacheGatewayResult F → RuntimeResult F
  pair_level pair = record {
    response = pair.response;
    decision = pair.decision;
    metadata = pair.metadata;
    active = none;
  }
