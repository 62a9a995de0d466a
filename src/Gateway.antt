-- ===== src/Gateway.antt =====
-- src/mlcache/cache/gateway.py: the public facade. The oracle is an interface, `Oracle`; the
-- response store is the in-memory one.
pub mod Loop
pub mod Capacity
pub mod Serve
pub mod Newest
use mlcache.Prelude.{
  ℕ, zero, suc, String, true, false, Option, none, some, [], ◌∷◌, ltb, if◌then◌else◌, Result, ok,
  raise, value_error,
}
use mlcache.Prelude.Exec.{Exec, pure, ◌>>=◌, ◌>>◌, modify}
use mlcache.Dict.{Dict}
use mlcache.KvStore
use mlcache.KvStore.{KvStore}
use mlcache.Types.{CacheKey, Response, CacheEntry, CacheLookup, OracleDecision, Value}
use mlcache.Eviction
use mlcache.Eviction.{CacheEvictionPolicy, Datetime}

-- `SemanticCacheOracle`, as the gateway uses it. Each method may raise.
pub record Oracle (F : Type 0) : Type 1 where
  pub State : Type 0
  pub decide : CacheLookup F → Exec State (OracleDecision F)
  pub index : CacheEntry F → Exec State (Unit {0})
  pub remove : CacheKey → Exec State (Unit {0})

pub record CacheGatewayResult (F : Type 0) : Type 0 where
  pub response : Option Response
  pub decision : OracleDecision F
  pub metadata : Dict String (Value F)

pub record Gateway (S : Type 0) : Type 0 where
  pub kv_store : KvStore
  pub oracle : S
  pub eviction_policy : Option CacheEvictionPolicy
  pub max_entries : Option ℕ

unfoldable pub init :
    {S : Type 0} → KvStore → S → Option CacheEvictionPolicy → Option ℕ → Result (Gateway S)
init kv oracle policy (some zero) = raise value_error
init kv oracle policy max_entries =
    ok (record {
      kv_store = kv;
      oracle = oracle;
      eviction_policy = policy;
      max_entries = max_entries;
    })

module _ {S : Type 0} where
  -- `_record_removal`
  abbrev pub forget : CacheKey → Gateway S → Gateway S
  forget key g = record g {
    eviction_policy = elim g.eviction_policy [
      | none ↦ none
      | some p ↦ some (Eviction.record_removal p key)
    ];
  }

  abbrev pub note_hit : CacheKey → Datetime → Gateway S → Gateway S
  note_hit key now g = record g {
    eviction_policy = elim g.eviction_policy [
      | none ↦ none
      | some p ↦ some (Eviction.record_hit p key now)
    ];
  }

  -- A call of the oracle that the gateway holds.
  abbrev pub on_oracle : {A : Type 0} → Exec S A → Exec (Gateway S) A
  on_oracle m g = let (r, s) = m g.oracle in (r, record g { oracle = s })

module _ {F : Type 0} (o : Oracle F) where
  -- A result with no response.
  abbrev pub nothing : OracleDecision F → CacheGatewayResult F
  nothing d = record { response = none; decision = d; metadata = [] }

  -- The rest of `lookup_with_decision` for an accepted key: read the response, and forget a key
  -- that has none.
  unfoldable pub read_key :
      OracleDecision F → CacheKey → Datetime → Exec (Gateway o.State) (CacheGatewayResult F)
  read_key d key now g = elim (KvStore.get g.kv_store key) [
    | none ↦
        (do
          modify (forget key)
          on_oracle (o.remove key)
          pure (record {
            response = none;
            decision = d;
            metadata = ("reason", Value.text "kv_key_missing_or_expired") ∷ [];
          }))
          g
    | some response ↦
        (do
          modify (note_hit key now)
          pure (record { response = some response; decision = d; metadata = [] }))
          g
  ]

  unfoldable pub after_decision :
      OracleDecision F → Datetime → Exec (Gateway o.State) (CacheGatewayResult F)
  after_decision d now g =
      if d.accepted
      then elim d.cache_key [ none ↦ pure (nothing d) g | some key ↦ read_key d key now g ]
      else pure (nothing d) g

  unfoldable pub lookup_with_decision :
      CacheLookup F → Datetime → Exec (Gateway o.State) (CacheGatewayResult F)
  lookup_with_decision request now = do
    decision ← on_oracle (o.decide request)
    after_decision decision now

  unfoldable pub lookup : CacheLookup F → Datetime → Exec (Gateway o.State) (Option Response)
  lookup request now = do result ← lookup_with_decision request now; pure result.response

  unfoldable pub invalidate : CacheKey → Exec (Gateway o.State) (Unit {0})
  invalidate key = do
    modify (forget key)
    on_oracle (o.remove key)
    modify (λ g. record g { kv_store = KvStore.delete g.kv_store key })

  -- The loop of `_enforce_capacity`, on fuel: `Loop.enforce_loop_lem` shows that the number of
  -- entries is enough.
  unfoldable pub enforce_loop : ℕ → ℕ → Exec (Gateway o.State) (Unit {0})
  enforce_loop zero bound g = pure tt g
  enforce_loop (suc fuel) bound g = elim g.eviction_policy [
    | none ↦ pure tt g
    | some p ↦ elim (ltb bound (Eviction.len p)) [
      | false ↦ pure tt g
      | true ↦ elim (Eviction.select_victim p) [
        | none ↦ pure tt g
        | some victim ↦ (do invalidate victim; enforce_loop fuel bound) g
      ]
    ]
  ]

  unfoldable pub enforce_capacity : Exec (Gateway o.State) (Unit {0})
  enforce_capacity g = elim g.eviction_policy [
    | none ↦ pure tt g
    | some p ↦ elim g.max_entries [
      | none ↦ pure tt g
      | some bound ↦ enforce_loop (Eviction.len p) bound g
    ]
  ]

  unfoldable pub after_index : CacheEntry F → Datetime → Exec (Gateway o.State) CacheKey
  after_index entry now g = elim g.eviction_policy [
    | none ↦ pure entry.cache_key g
    | some p ↦
        (do
          modify (λ h. record h {
            eviction_policy = some (Eviction.record_insert p entry.cache_key now);
          })
          enforce_capacity
          pure entry.cache_key)
          g
  ]

  unfoldable pub put : CacheEntry F → Datetime → Exec (Gateway o.State) CacheKey
  put entry now = do
    modify (λ g. record g { kv_store = KvStore.set g.kv_store entry.cache_key entry.response })
    on_oracle (o.index entry)
    after_index entry now
