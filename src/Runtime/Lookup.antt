-- ===== src/Runtime/Lookup.antt =====
-- src/mlcache/runtime/runtime.py: `lookup_with_decision` and the handlers of the active and the
-- shadow mode.
use mlcache.Prelude.{String, Option, none, some, [], ◌∷◌, ◌++◌, if◌then◌else◌, Result, ok, raise}
use mlcache.Prelude.Exec.{Exec, continue}
use mlcache.Float.{FloatOps}
use mlcache.Types.{CacheKey, CacheLookup, CacheEntry, Response}
use mlcache.Eviction.{Datetime}
use mlcache.KvStore
use mlcache.Gateway
use mlcache.Gateway.{Oracle, Gateway, CacheGatewayResult}
use mlcache.QueryLevel.{QueryCalibrationRecord}
use mlcache.QueryLevel.Policy.{
  QueryLevelPolicyMode, QueryLevelPolicyDecision, QueryLevelLearnedPolicy, evaluate,
}
use mlcache.QueryLevel.Store.{BoundedStore, add, latest}
use mlcache.Runtime.{
  QueryLevelRuntimeConfig, Runtime, ActiveMetadata, RuntimeResult, query_level_threshold,
  base_metadata, decision_metadata, no_record_or_policy, rejected_or_abstained, kv_miss_result,
  accepted_result, failed_result, pair_level,
}

-- Texts: `strip` is `str.strip`.
module _ {F : Type 0} ⦃fl : FloatOps F⦄ (o : Oracle F) (strip : String → String) where
  -- `_record_observability_failure`
  abbrev pub failed_hook : String → Runtime F o.State → Runtime F o.State
  failed_hook hook rt = record rt { diagnostics = rt.diagnostics ++ hook ∷ [] }

  -- `_remove_query_level_kv_miss_candidate`, with what `oracle.remove` answered.
  abbrev pub after_remove : Result (Unit {0}) × o.State → Runtime F o.State → Runtime F o.State
  after_remove (ok u, s) rt = record rt { gateway = record rt.gateway { oracle = s } }
  after_remove (raise e, s) rt =
      failed_hook "query_level_active_invalidate"
        (record rt { gateway = record rt.gateway { oracle = s } })

  -- The accepted decision of the policy: the response under its key, if there is one.
  abbrev pub serve_key :
      CacheGatewayResult F
      → QueryLevelPolicyDecision F
      → ActiveMetadata F
      → Runtime F o.State
      → CacheKey
      → Option Response
      → RuntimeResult F × Runtime F o.State
  serve_key pair d m rt key (some response) = (accepted_result key response d m, rt)
  serve_key pair d m rt key none = (
    kv_miss_result rt.config.fallback_to_pair_level_on_kv_miss pair d m
        "query_level_kv_key_missing_or_expired",
    after_remove (o.remove key rt.gateway.oracle) rt,
  )

  abbrev pub serve_accepted :
      CacheGatewayResult F
      → QueryLevelPolicyDecision F
      → ActiveMetadata F
      → Runtime F o.State
      → Option CacheKey
      → RuntimeResult F × Runtime F o.State
  serve_accepted pair d m rt none = (
    kv_miss_result rt.config.fallback_to_pair_level_on_kv_miss pair d m
        "query_level_selected_candidate_key_missing",
    rt,
  )
  serve_accepted pair d m rt (some key) =
      serve_key pair d m rt key (KvStore.get rt.gateway.kv_store key)

  -- What follows the evaluation of the policy; an exception falls back.
  abbrev pub on_evaluation :
      CacheGatewayResult F
      → Runtime F o.State
      → Result (QueryLevelPolicyDecision F)
      → RuntimeResult F × Runtime F o.State
  on_evaluation pair rt (raise e) = (
    failed_result pair (base_metadata pair (query_level_threshold rt)),
    failed_hook "query_level_active" rt,
  )
  on_evaluation pair rt (ok d) =
      let m = decision_metadata d (base_metadata pair (query_level_threshold rt)) in
      if d.accepted
      then serve_accepted pair d m rt d.selected_candidate_key
      else (rejected_or_abstained rt.config.fallback_to_pair_level_on_abstain pair d m, rt)

  abbrev pub without :
      CacheGatewayResult F → Runtime F o.State → String → RuntimeResult F × Runtime F o.State
  without pair rt reason = (
    no_record_or_policy rt.config.fallback_to_pair_level_on_missing_record pair
        (query_level_threshold rt) (base_metadata pair (query_level_threshold rt)) reason,
    rt,
  )

  abbrev pub on_record :
      CacheGatewayResult F
      → Runtime F o.State
      → QueryLevelLearnedPolicy F
      → Option (QueryCalibrationRecord F)
      → RuntimeResult F × Runtime F o.State
  on_record pair rt p none = without pair rt "query_level_record_missing"
  on_record pair rt p (some r) = on_evaluation pair rt (evaluate p r (query_level_threshold rt))

  abbrev pub with_parts :
      CacheLookup F
      → CacheGatewayResult F
      → Runtime F o.State
      → Option (QueryLevelLearnedPolicy F)
      → Option (BoundedStore (QueryCalibrationRecord F))
      → RuntimeResult F × Runtime F o.State
  with_parts request pair rt none store = without pair rt "query_level_policy_missing"
  with_parts request pair rt (some p) none = without pair rt "query_level_record_missing"
  with_parts request pair rt (some p) (some store) =
      on_record pair rt p (latest strip request store.items)

  -- `_lookup_with_query_level_active`
  unfoldable pub lookup_with_query_level_active :
      CacheLookup F → CacheGatewayResult F → Runtime F o.State → RuntimeResult F × Runtime F o.State
  lookup_with_query_level_active request pair rt =
      with_parts request pair rt rt.query_level_policy rt.query_record_store

  abbrev pub add_shadow :
      Result (QueryLevelPolicyDecision F)
      → BoundedStore (QueryLevelPolicyDecision F)
      → Runtime F o.State
      → Runtime F o.State
  add_shadow (ok d) shadow rt = record rt { query_level_shadow_store = some (add shadow d) }
  add_shadow (raise e) shadow rt = failed_hook "query_level_shadow" rt

  abbrev pub shadow_on_record :
      QueryLevelLearnedPolicy F
      → BoundedStore (QueryLevelPolicyDecision F)
      → Option (QueryCalibrationRecord F)
      → Runtime F o.State
      → Runtime F o.State
  shadow_on_record p shadow none rt = rt
  shadow_on_record p shadow (some r) rt =
      add_shadow (evaluate p r (query_level_threshold rt)) shadow rt

  abbrev pub shadow_with_parts :
      CacheLookup F
      → Option (QueryLevelLearnedPolicy F)
      → Option (BoundedStore (QueryLevelPolicyDecision F))
      → Option (BoundedStore (QueryCalibrationRecord F))
      → Runtime F o.State
      → Runtime F o.State
  shadow_with_parts request (some p) (some shadow) (some store) rt =
      shadow_on_record p shadow (latest strip request store.items) rt
  shadow_with_parts request _ _ _ rt = rt

  -- `_query_level_active_enabled` and `_query_level_shadow_enabled`
  abbrev pub mode_of : QueryLevelRuntimeConfig F → QueryLevelPolicyMode
  mode_of c = if c.enabled then c.mode else QueryLevelPolicyMode.disabled

  -- The rest of a lookup whose pair-level result is known.
  abbrev pub by_mode :
      CacheLookup F
      → CacheGatewayResult F
      → QueryLevelPolicyMode
      → Runtime F o.State
      → RuntimeResult F × Runtime F o.State
  by_mode request pair QueryLevelPolicyMode.active rt =
      lookup_with_query_level_active request pair rt
  by_mode request pair QueryLevelPolicyMode.shadow rt = (
    pair_level pair,
    shadow_with_parts request rt.query_level_policy rt.query_level_shadow_store
        rt.query_record_store rt,
  )
  by_mode request pair QueryLevelPolicyMode.disabled rt = (pair_level pair, rt)

  -- A call of the gateway.
  abbrev pub on_gateway : {A : Type 0} → Exec (Gateway o.State) A → Exec (Runtime F o.State) A
  on_gateway run rt = let (r, g) = run rt.gateway in (r, record rt { gateway = g })

  -- The handlers catch what the policy's `evaluate` and the oracle's `remove` raise; they have no
  -- other errors here.
  abbrev pub after_gateway :
      CacheLookup F → CacheGatewayResult F → Exec (Runtime F o.State) (RuntimeResult F)
  after_gateway request pair rt =
      let (r, rt') = by_mode request pair (mode_of rt.config) rt in (ok r, rt')

  unfoldable pub lookup_with_decision :
      CacheLookup F → Datetime → Exec (Runtime F o.State) (RuntimeResult F)
  lookup_with_decision request now rt =
      continue (on_gateway (Gateway.lookup_with_decision o request now) rt) (after_gateway request)

  unfoldable pub put : CacheEntry F → Datetime → Exec (Runtime F o.State) CacheKey
  put entry now = on_gateway (Gateway.put o entry now)

  unfoldable pub invalidate : CacheKey → Exec (Runtime F o.State) (Unit {0})
  invalidate key = on_gateway (Gateway.invalidate o key)
