-- ===== src/Gateway/Newest.antt =====
-- What eviction does to the entry that was just stored.
use mlcache.Prelude.{
  ℕ, ◌≤◌, ◌<◌, ◌≡◌, sym, ◌∙◌, subst, none, some, [], ◌∷◌, arith, str_dec, length, ok,
}
use mlcache.Dict.{Dict, get, get-assign_self, get-pop_ne}
use mlcache.Dict.Entries.{UniqueKeys, get-column-All}
use mlcache.KvStore
use mlcache.KvStore.{KvStore}
use mlcache.Types.{CacheKey, CacheEntry}
use mlcache.Eviction
use mlcache.Eviction.{
  CacheEvictionPolicy, EvictionEntryMetadata, EvictionPolicyName, Datetime, record_insert,
  record_removal, select_victim, fresh,
}
use mlcache.Eviction.Victim.{Before, select_victim-Before}
use mlcache.Gateway.{Oracle, put}
use mlcache.Gateway.Loop.{with_policy, InSync, RemoveReturns}
use mlcache.Gateway.Capacity.{put_lem}

-- LRU and FIFO.
abbrev pub ByAge : EvictionPolicyName → Type 0
ByAge EvictionPolicyName.lfu = ⊥
ByAge _ = Unit

-- A dictionary of two entries or more has a key other than `k`.
another :
    {V : Type 0} (k : CacheKey) (m : Dict CacheKey V)
    → UniqueKeys str_dec m
    → 1 < length m
    → (j : CacheKey) × (v : V) × (¬ (j ≡ k)) × (get str_dec j m ≡ some v)
unfolding get
another k [] u h = absurd (omega arith)
another k (x ∷ []) u h = absurd (omega arith)
another k ((i, v) ∷ (j, w) ∷ m) u h = elim (str_dec i k) [
  | no p ↦ (i, v, p, ground arith)
  | yes p ↦ let apart : ¬ (j ≡ i) = λ q. clash q u.0 in (j, w, λ q. apart (q ∙ sym p), ground arith)
]
  where
    clash : j ≡ i → get str_dec i ((j, w) ∷ m) ≡ none → ⊥
    clash q e = ground arith

-- The key holds the response, under the newest insertion and access.
record IsNewest (key : CacheKey) (response : CacheKey) (kv : KvStore) (p : CacheEvictionPolicy)
    : Type 0 where
  by_age : ByAge p.name
  stored : get str_dec key kv ≡ some response
  meta : EvictionEntryMetadata
  tracked : get str_dec key p.entries ≡ some meta
  last_order : p.insertion_counter ≤ meta.insertion_order
  last_tick : p.clock ≤ meta.last_access_tick

age_conflict :
    (name : EvictionPolicyName) (m m' : EvictionEntryMetadata)
    → ByAge name
    → Before name m m'
    → m'.insertion_order ≤ m.insertion_order
    → m'.last_access_tick ≤ m.last_access_tick
    → ⊥
age_conflict EvictionPolicyName.lru m m' a b o t = omega arith
age_conflict EvictionPolicyName.fifo m m' a b o t = omega arith
age_conflict EvictionPolicyName.lfu m m' a b o t = a

module _ (key response : CacheKey) where
  -- With two entries or more, the newest one is no victim.
  victim_ne :
      (kv : KvStore) (p : CacheEvictionPolicy) (v : CacheKey)
      → InSync kv p
      → 1 < Eviction.len p
      → select_victim p ≡ some v
      → IsNewest key response kv p
      → ¬ (v ≡ key)
  victim_ne kv p v h two chosen newest same =
      let (m, found, before) = select_victim-Before p v h.valid chosen in
      let (j, m', other, e) = another v p.entries h.valid.unique two in
      let q : m ≡ newest.meta = same_meta m found in
      let order =
        get-column-All str_dec (λ x. x.insertion_order) (λ n. n ≤ p.insertion_counter) j p.entries
          m' h.valid.orders_counted e in
      let tick =
        get-column-All str_dec (λ x. x.last_access_tick) (λ n. n ≤ p.clock) j p.entries m'
          h.valid.ticks_counted e in
      age_conflict p.name newest.meta m' newest.by_age
        (subst (λ x. Before p.name x m') q (before j m' other e))
        (omega (arith, order, newest.last_order)) (omega (arith, tick, newest.last_tick))
    where
      same_meta : (m : EvictionEntryMetadata) → get str_dec v p.entries ≡ some m → m ≡ newest.meta
      same_meta m found = cc (newest.tracked, found, same)

  eviction-IsNewest :
      (n : ℕ)
      → 0 < n
      → (kv : KvStore) (p : CacheEvictionPolicy) (v : CacheKey) → InSync kv p
      → n < Eviction.len p
      → select_victim p ≡ some v
      → IsNewest key response kv p
      → IsNewest key response (KvStore.delete kv v) (record_removal p v)
  eviction-IsNewest n pos kv p v h over chosen newest =
      let ne = victim_ne kv p v h (omega arith) chosen newest in
      record {
        by_age = unfold record_removal in newest.by_age;
        stored = get-pop_ne str_dec v key kv ne ∙ newest.stored;
        meta = newest.meta;
        tracked = unfold record_removal in get-pop_ne str_dec v key p.entries ne ∙ newest.tracked;
        last_order = unfold record_removal in newest.last_order;
        last_tick = unfold record_removal in newest.last_tick;
      }

insert-IsNewest :
    (kv : KvStore) (p : CacheEvictionPolicy) (key response : CacheKey) (now : Datetime)
    → ByAge p.name
    → IsNewest key response (KvStore.set kv key response) (record_insert p key now)
unfolding record_insert
insert-IsNewest kv p key response now a = record {
  by_age = a;
  stored = get-assign_self str_dec key response kv;
  meta = fresh p key now;
  tracked = get-assign_self str_dec key (fresh p key now) p.entries;
  last_order = omega arith;
  last_tick = omega arith;
}

module _ {F : Type 0} (o : Oracle F) (removes : RemoveReturns o) where
  -- Under LRU and FIFO with a positive bound, the entry that a `put` stores survives the evictions
  -- of that `put`: its response is in the store afterwards. It is assumed that the store and the
  -- valid policy hold the same keys before, that the indexing returns and that the oracle's
  -- `remove` raises nothing.
  pub put-keeps_newest :
      (n : ℕ) (entry : CacheEntry F) (now : Datetime) (kv : KvStore) (s : o.State)
      (p : CacheEvictionPolicy)
      → 0 < n
      → ByAge p.name
      → (o.index entry s).0 ≡ ok tt
      → InSync kv p
      → KvStore.get (put o entry now (with_policy kv s p (some n))).1.kv_store entry.cache_key
        ≡ some entry.response
  put-keeps_newest n entry now kv s p pos a indexed h =
      let key = entry.cache_key in
      let (kv', s', p', run, _, _, newest) =
        put_lem o removes n (IsNewest key entry.response)
          (eviction-IsNewest key entry.response n pos) entry now kv s p indexed h
          (insert-IsNewest kv p key entry.response now a) in
      rw run newest.stored
