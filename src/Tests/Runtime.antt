-- ===== src/Tests/Runtime.antt =====
-- Examples for the runtime.
use mlcache.Prelude.{
  ℕ, String, ◌≡◌, refl, ◌≢◌, true, false, none, some, [], ◌∷◌, arith, Bool-cases, str_dec, ok,
}
use mlcache.Prelude.{◌>>=◌ as then_result}
use mlcache.Types.{TieMode, miss}
use mlcache.Eviction
use mlcache.Eviction.{lru}
use mlcache.Gateway.{CacheGatewayResult}
use mlcache.Gateway.Serve.{Bounded}
use mlcache.Tests.Numbers.{hundredths}
use mlcache.Tests.Cache.{an_oracle, a_lookup, calls, start, an_oracle_removes, start-InSync}
use mlcache.QueryLevel.{select_max_score}
use mlcache.QueryLevel.Policy.{QueryLevelPolicyMode, QueryLevelLearnedPolicy}
use mlcache.Runtime.{Runtime, QueryLevelRuntimeConfig, pair_level}
use mlcache.Runtime.Lookup.{lookup_with_query_level_active, lookup_with_decision, mode_of}
use mlcache.Runtime.Active.{Justified, lookup_with_query_level_active-Justified}
use mlcache.Runtime.Effects.{gateway_run, shadow-transparent}
use mlcache.Runtime.Bounded.{call_all, call_all-Bounded}

abbrev plain : String → String
plain s = s

abbrev a_policy : QueryLevelLearnedPolicy ℕ
a_policy = record {
  threshold = some 80;
  tie_mode = TieMode.ge;
  selection_fn = λ cs. ok (select_max_score cs);
}

abbrev a_config : QueryLevelPolicyMode → QueryLevelRuntimeConfig ℕ
a_config mode = record {
  enabled = true;
  mode = mode;
  threshold = none;
  fallback_to_pair_level_on_abstain = false;
  fallback_to_pair_level_on_missing_record = false;
  fallback_to_pair_level_on_kv_miss = true;
}

abbrev a_runtime : QueryLevelPolicyMode → Runtime ℕ an_oracle.State
a_runtime mode = record {
  gateway = record start { kv_store = ("b", "stored") ∷ [] };
  query_level_policy = some a_policy;
  query_level_shadow_store = some (record { bound = 2; items = [] });
  query_record_store = some (record {
    bound = 2;
    items =
        record {
          query_id = "q";
          candidates =
              record {
                score = 90;
                label = some 1;
                candidate_rank = some 1;
                candidate_key = some "b";
              }
              ∷ [];
          query = some "q";
        }
        ∷ [];
  });
  config = a_config mode;
  diagnostics = [];
}

abbrev a_pair_result : CacheGatewayResult ℕ
a_pair_result = record {
  response = none;
  decision = record {
    status = miss;
    accepted = false;
    cache_key = none;
    score = none;
    threshold = some 80;
    scorer = none;
    candidate_count = 0;
    accepted_candidate_rank = none;
    reason = none;
  };
  metadata = [];
}

abbrev active : Runtime ℕ an_oracle.State
active = a_runtime QueryLevelPolicyMode.active

abbrev shadow : Runtime ℕ an_oracle.State
shadow = a_runtime QueryLevelPolicyMode.shadow

-- The active policy serves what is stored under its candidate's key.
active_serves :
    (lookup_with_query_level_active an_oracle plain a_lookup a_pair_result active).0.response
    ≡ some "stored"
unfolding lookup_with_query_level_active mlcache.QueryLevel.Store.latest
    mlcache.QueryLevel.Store.query_id mlcache.QueryLevel.Policy.evaluate select_max_score
    mlcache.QueryLevel.max_from mlcache.Dict.get str_dec Bool-cases
active_serves = refl

lookup_with_query_level_active-Justified_example :
    Justified an_oracle plain a_lookup a_pair_result active
      (lookup_with_query_level_active an_oracle plain a_lookup a_pair_result active).0
lookup_with_query_level_active-Justified_example =
    lookup_with_query_level_active-Justified an_oracle plain a_lookup a_pair_result active

shadow_mode : mode_of an_oracle plain shadow.config ≢ QueryLevelPolicyMode.active
shadow_mode e = ground arith

shadow-transparent_example :
    ((lookup_with_decision an_oracle plain a_lookup 1 shadow).0
      ≡ then_result
          (gateway_run an_oracle plain a_lookup 1 shadow).0
          (λ pair. ok (pair_level pair)))
    × ((lookup_with_decision an_oracle plain a_lookup 1 shadow).1.gateway
        ≡ (gateway_run an_oracle plain a_lookup 1 shadow).1)
shadow-transparent_example = shadow-transparent an_oracle plain a_lookup 1 shadow shadow_mode

abbrev new_runtime : Runtime ℕ an_oracle.State
new_runtime = record active { gateway = start }

call_all-Bounded_example : Bounded an_oracle 1 (call_all an_oracle plain new_runtime calls).gateway
call_all-Bounded_example =
    call_all-Bounded an_oracle plain an_oracle_removes 1 (λ entry s. refl) new_runtime calls
      ([], [], Eviction.init lru, refl, start-InSync, omega arith)
