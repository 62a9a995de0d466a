-- ===== src/Runtime/Effects.antt =====
-- src/mlcache/runtime/runtime.py: what a lookup of the runtime adds to the gateway's lookup.
use mlcache.Prelude.{
  String, ◌≡◌, refl, sym, subst, ◌≢◌, inl, inr, Option, none, some, Bool-cases, if_true, if_false,
  Result, ok, raise,
}
use mlcache.Prelude.{◌>>=◌ as then_result}
use mlcache.Prelude.Exec.{continue}
use mlcache.Float.{FloatOps}
use mlcache.Types.{CacheKey, CacheLookup, Response}
use mlcache.Eviction.{Datetime}
use mlcache.KvStore
use mlcache.Gateway
use mlcache.Gateway.{Oracle, Gateway, CacheGatewayResult}
use mlcache.QueryLevel.{QueryCalibrationRecord}
use mlcache.QueryLevel.Policy.{
  QueryLevelPolicyMode, QueryLevelPolicyDecision, QueryLevelLearnedPolicy, evaluate,
}
use mlcache.QueryLevel.Store.{BoundedStore, latest}
use mlcache.Runtime.{
  Runtime, ActiveMetadata, RuntimeResult, query_level_threshold, base_metadata, decision_metadata,
  rejected_or_abstained, pair_level,
}
use mlcache.Runtime.Lookup.{
  lookup_with_query_level_active, on_evaluation, serve_accepted, serve_key, with_parts, on_record,
  after_remove, add_shadow, shadow_on_record, shadow_with_parts, by_mode, mode_of, after_gateway,
  lookup_with_decision,
}

module _ {F : Type 0} ⦃fl : FloatOps F⦄ (o : Oracle F) (strip : String → String) where
  -- Of the gateway, only the oracle's state may have changed.
  abbrev pub SameButOracle : Runtime F o.State → Runtime F o.State → Type 0
  SameButOracle rt after = (s : o.State) × (after.gateway ≡ record rt.gateway { oracle = s })

  after_remove-Same :
      (rt : Runtime F o.State) (x : Result (Unit {0}) × o.State)
      → SameButOracle rt (after_remove o strip x rt)
  after_remove-Same rt (ok u, s) = (s, refl)
  after_remove-Same rt (raise e, s) = (s, refl)

  module _ (request : CacheLookup F) (pair : CacheGatewayResult F) (rt : Runtime F o.State) where
    serve_key-Same :
        (d : QueryLevelPolicyDecision F) (m : ActiveMetadata F) (key : CacheKey)
        (x : Option Response)
        → SameButOracle rt (serve_key o strip pair d m rt key x).1
    serve_key-Same d m key none = after_remove-Same rt (o.remove key rt.gateway.oracle)
    serve_key-Same d m key (some response) = (rt.gateway.oracle, refl)

    serve_accepted-Same :
        (d : QueryLevelPolicyDecision F) (m : ActiveMetadata F) (k : Option CacheKey)
        → SameButOracle rt (serve_accepted o strip pair d m rt k).1
    serve_accepted-Same d m none = (rt.gateway.oracle, refl)
    serve_accepted-Same d m (some key) =
        serve_key-Same d m key (KvStore.get rt.gateway.kv_store key)

    on_evaluation-Same :
        (run : Result (QueryLevelPolicyDecision F))
        → SameButOracle rt (on_evaluation o strip pair rt run).1
    on_evaluation-Same (raise e) = (rt.gateway.oracle, refl)
    on_evaluation-Same (ok d) =
        let m = decision_metadata d (base_metadata pair (query_level_threshold rt)) in
        let served : RuntimeResult F × Runtime F o.State =
          serve_accepted o strip pair d m rt d.selected_candidate_key in
        let rejected : RuntimeResult F × Runtime F o.State =
          (rejected_or_abstained rt.config.fallback_to_pair_level_on_abstain pair d m, rt) in
        elim (Bool-cases d.accepted) [
          | inl a ↦
              subst (λ x. SameButOracle rt x.1) (sym (if_true served rejected a))
                (serve_accepted-Same d m d.selected_candidate_key)
          | inr a ↦
              subst (λ x. SameButOracle rt x.1) (sym (if_false served rejected a))
                (rt.gateway.oracle, refl)
        ]

    on_record-Same :
        (p : QueryLevelLearnedPolicy F) (x : Option (QueryCalibrationRecord F))
        → SameButOracle rt (on_record o strip pair rt p x).1
    on_record-Same p none = (rt.gateway.oracle, refl)
    on_record-Same p (some rec) = on_evaluation-Same (evaluate p rec (query_level_threshold rt))

    with_parts-Same :
        (p : Option (QueryLevelLearnedPolicy F))
        (store : Option (BoundedStore (QueryCalibrationRecord F)))
        → SameButOracle rt (with_parts o strip request pair rt p store).1
    with_parts-Same none store = (rt.gateway.oracle, refl)
    with_parts-Same (some p) none = (rt.gateway.oracle, refl)
    with_parts-Same (some p) (some store) = on_record-Same p (latest strip request store.items)

    -- The shadow mode leaves the whole gateway as it is.
    shadow_on_record-gateway :
        (p : QueryLevelLearnedPolicy F) (shadow : BoundedStore (QueryLevelPolicyDecision F))
        (x : Option (QueryCalibrationRecord F))
        → (shadow_on_record o strip p shadow x rt).gateway ≡ rt.gateway
    shadow_on_record-gateway p shadow none = refl
    shadow_on_record-gateway p shadow (some rec) = added (evaluate p rec (query_level_threshold rt))
      where
        added :
            (run : Result (QueryLevelPolicyDecision F))
            → (add_shadow o strip run shadow rt).gateway ≡ rt.gateway
        added (ok d) = refl
        added (raise e) = refl

    pub shadow_with_parts-gateway :
        (p : Option (QueryLevelLearnedPolicy F))
        (shadow : Option (BoundedStore (QueryLevelPolicyDecision F)))
        (store : Option (BoundedStore (QueryCalibrationRecord F)))
        → (shadow_with_parts o strip request p shadow store rt).gateway ≡ rt.gateway
    shadow_with_parts-gateway none shadow store = refl
    shadow_with_parts-gateway (some p) none store = refl
    shadow_with_parts-gateway (some p) (some shadow) none = refl
    shadow_with_parts-gateway (some p) (some shadow) (some store) =
        shadow_on_record-gateway p shadow (latest strip request store.items)

    pub by_mode-Same :
        (mode : QueryLevelPolicyMode) → SameButOracle rt (by_mode o strip request pair mode rt).1
    unfolding lookup_with_query_level_active
    by_mode-Same QueryLevelPolicyMode.active =
        with_parts-Same rt.query_level_policy rt.query_record_store
    by_mode-Same QueryLevelPolicyMode.shadow = (
      rt.gateway.oracle,
      shadow_with_parts-gateway rt.query_level_policy rt.query_level_shadow_store
          rt.query_record_store,
    )
    by_mode-Same QueryLevelPolicyMode.disabled = (rt.gateway.oracle, refl)

  module _ (request : CacheLookup F) (now : Datetime) (rt : Runtime F o.State) where
    -- The gateway's own lookup.
    abbrev pub gateway_run : Result (CacheGatewayResult F) × Gateway o.State
    gateway_run = Gateway.lookup_with_decision o request now rt.gateway

    abbrev with_run :
        Result (CacheGatewayResult F) × Gateway o.State
        → Result (RuntimeResult F) × Runtime F o.State
    with_run x = continue (x.0, record rt { gateway = x.1 }) (after_gateway o strip request)

    lookup_lem : lookup_with_decision o strip request now rt ≡ with_run gateway_run
    unfolding lookup_with_decision
    lookup_lem = refl

    run-Same :
        (x : Result (CacheGatewayResult F) × Gateway o.State)
        → (s : o.State) × ((with_run x).1.gateway ≡ record x.1 { oracle = s })
    run-Same (raise e, g) = (g.oracle, refl)
    run-Same (ok pair, g) =
        by_mode-Same request pair (record rt { gateway = g }) (mode_of o strip rt.config)

    -- A lookup leaves the gateway's lookup behind, but for the oracle.
    pub lookup-Same :
        (s : o.State) × ((lookup_with_decision o strip request now rt).1.gateway
          ≡ record gateway_run.1 { oracle = s })
    lookup-Same = rw lookup_lem (run-Same gateway_run)

    run-transparent :
        (x : Result (CacheGatewayResult F) × Gateway o.State) (mode : QueryLevelPolicyMode)
        → mode_of o strip rt.config ≡ mode
        → mode ≢ QueryLevelPolicyMode.active
        → ((with_run x).0 ≡ then_result x.0 (λ pair. ok (pair_level pair)))
          × ((with_run x).1.gateway ≡ x.1)
    run-transparent (raise e, g) mode em h = (refl, refl)
    run-transparent (ok pair, g) QueryLevelPolicyMode.active em h = absurd (h refl)
    run-transparent (ok pair, g) QueryLevelPolicyMode.disabled em h = rw em (refl, refl)
    run-transparent (ok pair, g) QueryLevelPolicyMode.shadow em h = rw em (
      refl,
      shadow_with_parts-gateway request pair (record rt { gateway = g }) rt.query_level_policy
          rt.query_level_shadow_store rt.query_record_store,
    )

    -- Unless the active mode is on, a lookup of the runtime returns the gateway's response,
    -- decision and metadata, or its error, and leaves the gateway as the gateway's own lookup
    -- leaves it.
    pub shadow-transparent :
        mode_of o strip rt.config ≢ QueryLevelPolicyMode.active
        → ((lookup_with_decision o strip request now rt).0
            ≡ then_result gateway_run.0 (λ pair. ok (pair_level pair)))
          × ((lookup_with_decision o strip request now rt).1.gateway ≡ gateway_run.1)
    shadow-transparent h =
        rw lookup_lem (run-transparent gateway_run (mode_of o strip rt.config) refl h)
