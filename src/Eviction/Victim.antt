-- ===== src/Eviction/Victim.antt =====
-- What `select_victim` chooses, for each policy.
use mlcache.Prelude.{
  ◌<◌, ◌≡◌, ◌⊎◌, refl, subst, if_neg, true, false, none, some, [], ◌∷◌, arith, All, All-map,
  str_dec,
}
use mlcache.Dict.{Dict, get, values}
use mlcache.Dict.Entries.{UniqueKeys, Distinct-ne}
use mlcache.Types.{CacheKey}
use mlcache.Eviction.{
  EvictionPolicyName, EvictionEntryMetadata, CacheEvictionPolicy, lex_lt, min_by, select_from,
  select_victim, eviction_sort_key, contains,
}
use mlcache.Eviction.Order.{min_by-All, min_by-least}
use mlcache.Eviction.Invariant.{Keyed, IsValid}

-- `m` goes before `m'`: the order that each policy documents.
abbrev pub Before : EvictionPolicyName → EvictionEntryMetadata → EvictionEntryMetadata → Type 0
Before EvictionPolicyName.fifo m m' = m.insertion_order < m'.insertion_order
Before EvictionPolicyName.lru m m' = m.last_access_tick < m'.last_access_tick
Before EvictionPolicyName.lfu m m' =
    (m.access_count < m'.access_count)
    ⊎ ((m.access_count ≡ m'.access_count) × (m.last_access_tick < m'.last_access_tick))

abbrev Stored : Dict CacheKey EvictionEntryMetadata → EvictionEntryMetadata → Type 0
Stored m x = get str_dec x.cache_key m ≡ some x

Stored-under :
    (j : CacheKey) (w x : EvictionEntryMetadata) (m : Dict CacheKey EvictionEntryMetadata)
    → get str_dec j m ≡ none
    → Stored m x
    → Stored ((j, w) ∷ m) x
unfolding get
Stored-under j w x m fresh h = elim (str_dec j x.cache_key) [
  | yes p ↦ absurd (clash (subst (λ k. get str_dec k m ≡ none) p fresh))
  | no p ↦ rw (if_neg _ p) h
]
  where
    clash : get str_dec x.cache_key m ≡ none → ⊥
    clash e = ground arith

values-Stored :
    (m : Dict CacheKey EvictionEntryMetadata)
    → All Keyed m
    → UniqueKeys str_dec m
    → All (Stored m) (values m)
values-Stored [] h u = tt
values-Stored ((j, w) ∷ m) h u = (
  first,
  All-map (Stored m) (Stored ((j, w) ∷ m)) (values m) (λ x s. Stored-under j w x m u.0 s)
      (values-Stored m h.1 u.1),
)
  where
    first : Stored ((j, w) ∷ m) w
    first = rw (h.0) (unfold get in ground arith)

get-values-All {κ} :
    (P : EvictionEntryMetadata → Type κ) (k : CacheKey) (m : Dict CacheKey EvictionEntryMetadata)
    (v : EvictionEntryMetadata)
    → All P (values m)
    → get str_dec k m ≡ some v
    → P v
unfolding get
get-values-All P k [] v h e = absurd (ground arith)
get-values-All P k ((j, w) ∷ m) v h e = elim (str_dec j k) [
  | yes p ↦ let q : w ≡ v = ground arith in subst P q h.0
  | no p ↦ get-values-All P k m v h.1 (ground arith)
]

-- The order of the sort keys, read as the policy documents it.
not_below-Before :
    (name : EvictionPolicyName) (m m' : EvictionEntryMetadata)
    → ¬ (m'.insertion_order ≡ m.insertion_order)
    → ¬ (m'.last_access_tick ≡ m.last_access_tick)
    → lex_lt (eviction_sort_key name m') (eviction_sort_key name m) ≡ false
    → Before name m m'
unfolding lex_lt
not_below-Before EvictionPolicyName.fifo m m' o t h = ground arith
not_below-Before EvictionPolicyName.lru m m' o t h = ground arith
not_below-Before EvictionPolicyName.lfu m m' o t h = ground arith

victim_of :
    (name : EvictionPolicyName) (e : Dict CacheKey EvictionEntryMetadata) (k : CacheKey)
    → All Keyed e
    → UniqueKeys str_dec e
    → select_from name (values e) ≡ some k
    → (m : EvictionEntryMetadata) × (get str_dec k e ≡ some m)
      × All (λ y. lex_lt (eviction_sort_key name y) (eviction_sort_key name m) ≡ false) (values e)
unfolding select_from
victim_of name [] k keyed unique h = absurd (ground arith)
victim_of name ((j, w) ∷ e) k keyed unique h =
    let key = eviction_sort_key name in
    let x = min_by key w (values e) in
    let all = values-Stored ((j, w) ∷ e) keyed unique in
    let s = min_by-All key (Stored ((j, w) ∷ e)) w (values e) all.0 all.1 in
    let q : x.cache_key ≡ k = ground arith in
    (x, subst (λ i. get str_dec i ((j, w) ∷ e) ≡ some x) q s, min_by-least key w (values e))

-- On a valid policy the victim that is selected is an entry, and it goes before every other entry:
-- FIFO takes the oldest insertion, LRU the oldest access, LFU the lowest count and of those the
-- oldest access.
pub select_victim-Before :
    (p : CacheEvictionPolicy) (k : CacheKey)
    → IsValid p
    → select_victim p ≡ some k
    → (m : EvictionEntryMetadata) × (get str_dec k p.entries ≡ some m)
      × ((j : CacheKey) (m' : EvictionEntryMetadata)
          → ¬ (j ≡ k)
          → get str_dec j p.entries ≡ some m'
          → Before p.name m m')
unfolding select_victim
select_victim-Before p k v h =
    let (m, found, least) = victim_of p.name p.entries k v.keyed v.unique h in
    (
      m,
      found,
      λ j m' other e.
          not_below-Before p.name m m'
            (Distinct-ne str_dec (λ x. x.insertion_order) j k m' m p.entries v.orders_distinct other
              e found)
            (Distinct-ne str_dec (λ x. x.last_access_tick) j k m' m p.entries v.ticks_distinct other
              e found)
            (get-values-All _ j p.entries m' least e),
    )

pub select_victim-contains :
    (p : CacheEvictionPolicy) (k : CacheKey)
    → IsValid p
    → select_victim p ≡ some k
    → contains p k ≡ true
select_victim-contains p k v h = let (m, found, _) = select_victim-Before p k v h in rw found

-- Only an empty policy has no victim.
pub select_victim-some :
    (p : CacheEvictionPolicy) → ¬ (p.entries ≡ []) → (k : CacheKey) × (select_victim p ≡ some k)
unfolding select_victim select_from
select_victim-some p h = some_of p.name p.entries h
  where
    some_of :
        (name : EvictionPolicyName) (e : Dict CacheKey EvictionEntryMetadata)
        → ¬ (e ≡ [])
        → (k : CacheKey) × (select_from name (values e) ≡ some k)
    some_of name [] h = absurd (h refl)
    some_of name ((j, w) ∷ e) h = ((min_by (eviction_sort_key name) w (values e)).cache_key, refl)
