-- ===== src/Gateway/Capacity.antt =====
-- `put` and the capacity bound, over any sequence of calls.
use mlcache.Prelude.{
  ℕ, ◌≤◌, ◌<◌, ◌≡◌, sym, ◌∙◌, inl, inr, some, arith, Option-cases, str_dec, length, Result, ok,
}
use mlcache.Dict.{keys, get}
use mlcache.Dict.Keys.{assign_together, keys-assign_present, length_together}
use mlcache.KvStore
use mlcache.KvStore.{KvStore}
use mlcache.Types.{CacheKey, CacheEntry}
use mlcache.Eviction
use mlcache.Eviction.{
  CacheEvictionPolicy, EvictionEntryMetadata, Datetime, record_insert, record_hit, record_removal,
  select_victim, fresh,
}
use mlcache.Eviction.Invariant.{record_insert-IsValid, record_hit-IsValid}
use mlcache.Gateway.{Oracle, Gateway, enforce_capacity, after_index, put}
use mlcache.Gateway.Loop.{with_policy, InSync, RemoveReturns, enforce_loop_lem}

insert-InSync :
    (kv : KvStore) (p : CacheEvictionPolicy) (key response : CacheKey) (now : Datetime)
    → InSync kv p
    → InSync (KvStore.set kv key response) (record_insert p key now)
insert-InSync kv p key response now h = record {
  valid = record_insert-IsValid p key now h.valid;
  synced =
      unfold record_insert in
      assign_together str_dec key response (fresh p key now) kv p.entries h.synced;
}

pub hit-InSync :
    (kv : KvStore) (p : CacheEvictionPolicy) (key : CacheKey) (now : Datetime)
    → InSync kv p
    → InSync kv (record_hit p key now)
hit-InSync kv p key now h = record {
  valid = record_hit-IsValid p key now h.valid;
  synced = h.synced ∙ sym same;
}
  where
    same : keys (record_hit p key now).entries ≡ keys p.entries
    same = elim (Option-cases (get str_dec key p.entries)) [
      | inl e ↦ unfold record_hit in rw (e, record_hit)
      | inr (m, e) ↦
          unfold record_hit in
          rw (e, record_hit)
            (keys-assign_present str_dec key (Eviction.touched p m now) m p.entries e)
    ]

module _ {F : Type 0} (o : Oracle F) where
  -- `index` raises in no state.
  abbrev pub IndexReturns : Type 0
  IndexReturns = (entry : CacheEntry F) (s : o.State) → (o.index entry s).0 ≡ ok tt

  module _ (removes : RemoveReturns o) (n : ℕ) where
    -- A run of `put` that returned the key, in step and within the bound.
    abbrev pub Stored :
        (KvStore → CacheEvictionPolicy → Type 0)
        → CacheKey
        → Result CacheKey × Gateway o.State
        → Type 0
    Stored Keep key run =
        (kv : KvStore) × (s : o.State) × (p : CacheEvictionPolicy) × (run
          ≡ (ok key, with_policy kv s p (some n)))
        × InSync kv p
        × (length kv ≤ n)
        × Keep kv p

    pub put_lem :
        (Keep : KvStore → CacheEvictionPolicy → Type 0)
        → ((kv : KvStore) (p : CacheEvictionPolicy) (v : CacheKey)
            → InSync kv p
            → n < Eviction.len p
            → select_victim p ≡ some v
            → Keep kv p
            → Keep (KvStore.delete kv v) (record_removal p v))
        → (entry : CacheEntry F) (now : Datetime) (kv : KvStore) (s : o.State)
          (p : CacheEvictionPolicy)
        → (o.index entry s).0 ≡ ok tt
        → InSync kv p
        → Keep (KvStore.set kv entry.cache_key entry.response) (record_insert p entry.cache_key now)
        → Stored Keep entry.cache_key (put o entry now (with_policy kv s p (some n)))
    put_lem Keep keep entry now kv s p indexed h k =
        let key = entry.cache_key in
        let kv' = KvStore.set kv key entry.response in
        let p' = record_insert p key now in
        let (kv2, s2, p2, run, sync, fits, kept) =
          enforce_loop_lem o removes n Keep keep (Eviction.len p') kv' (o.index entry s).1 p'
            (some n) (insert-InSync kv p key entry.response now h) (omega arith) k in
        (
          kv2,
          s2,
          p2,
          unfold put after_index enforce_capacity in rw indexed (rw run),
          sync,
          rw (length_together str_dec kv2 p2.entries sync.synced) fits,
          kept,
        )

    -- A `put` whose indexing returns gives the key back and leaves the store and the policy with
    -- the same keys, a valid policy, and at most `max_entries` responses: it evicts until the
    -- bound holds. It is assumed that the store and the valid policy hold the same keys before and
    -- that the oracle's `remove` raises nothing.
    pub put-bounded :
        (entry : CacheEntry F) (now : Datetime) (kv : KvStore) (s : o.State)
        (p : CacheEvictionPolicy)
        → (o.index entry s).0 ≡ ok tt
        → InSync kv p
        → Stored (λ _ _. Unit) entry.cache_key (put o entry now (with_policy kv s p (some n)))
    put-bounded entry now kv s p indexed h =
        put_lem (λ _ _. Unit) (λ _ _ _ _ _ _ _. tt) entry now kv s p indexed h tt
