-- ===== src/Eviction.antt =====
-- src/mlcache/cache/eviction.py: the bookkeeping of the eviction policies. The wall clock's
-- readings, `datetime.now(UTC)`, are arguments.
pub mod Order
pub mod Invariant
pub mod Victim
pub mod History
use mlcache.Prelude.{
  ℕ, ◌+◌, ◌≡◌, Bool, true, false, ◌||◌, ◌&&◌, Option, none, some, List, [], ◌∷◌, ltb, ◌==◌, length,
  str_dec, if◌then◌else◌, is_some,
}
use mlcache.Dict
use mlcache.Dict.{Dict, get, assign, pop, values}
use mlcache.Types.{CacheKey}

pub data EvictionPolicyName : Type 0 where
  lru lfu fifo : EvictionPolicyName

abbrev pub Datetime : Type 0
Datetime = ℕ

pub record EvictionEntryMetadata : Type 0 where
  pub cache_key : CacheKey
  pub insertion_order : ℕ
  pub created_at : Datetime
  pub last_accessed : Datetime
  pub access_count : ℕ
  pub last_access_tick : ℕ

pub record CacheEvictionPolicy : Type 0 where
  pub name : EvictionPolicyName
  pub entries : Dict CacheKey EvictionEntryMetadata
  pub insertion_counter : ℕ
  pub clock : ℕ

abbrev pub init : EvictionPolicyName → CacheEvictionPolicy
init name = record { name = name; entries = []; insertion_counter = 0; clock = 0 }

-- The metadata of a fresh entry, under the counters as they stand after the increments.
abbrev pub fresh : CacheEvictionPolicy → CacheKey → Datetime → EvictionEntryMetadata
fresh p key now = record {
  cache_key = key;
  insertion_order = p.insertion_counter + 1;
  created_at = now;
  last_accessed = now;
  access_count = 1;
  last_access_tick = p.clock + 1;
}

unfoldable pub record_insert : CacheEvictionPolicy → CacheKey → Datetime → CacheEvictionPolicy
record_insert p key now = record p {
  entries = assign str_dec key (fresh p key now) p.entries;
  insertion_counter = p.insertion_counter + 1;
  clock = p.clock + 1;
}

abbrev pub touched : CacheEvictionPolicy → EvictionEntryMetadata → Datetime → EvictionEntryMetadata
touched p m now = record m {
  access_count = m.access_count + 1;
  last_accessed = now;
  last_access_tick = p.clock + 1;
}

unfoldable pub record_hit : CacheEvictionPolicy → CacheKey → Datetime → CacheEvictionPolicy
record_hit p key now = elim (get str_dec key p.entries) [
  | none ↦ p
  | some m ↦ record p {
    entries = assign str_dec key (touched p m now) p.entries;
    clock = p.clock + 1;
  }
]

unfoldable pub record_removal : CacheEvictionPolicy → CacheKey → CacheEvictionPolicy
record_removal p key = record p { entries = pop str_dec key p.entries }

-- Python compares tuples of integers in lexicographic order.
unfoldable pub lex_lt : List ℕ → List ℕ → Bool
lex_lt [] [] = false
lex_lt [] (b ∷ bs) = true
lex_lt (a ∷ as') [] = false
lex_lt (a ∷ as') (b ∷ bs) = let rest = lex_lt as' bs in ltb a b || (a == b && rest)

abbrev pub eviction_sort_key : EvictionPolicyName → EvictionEntryMetadata → List ℕ
eviction_sort_key EvictionPolicyName.fifo m = m.insertion_order ∷ []
eviction_sort_key EvictionPolicyName.lru m = m.last_access_tick ∷ m.insertion_order ∷ []
eviction_sort_key EvictionPolicyName.lfu m =
    m.access_count ∷ m.last_access_tick ∷ m.insertion_order ∷ []

-- `min(..., key=...)`: the first of the least.
unfoldable pub min_by {ℓ} : {A : Type ℓ} → (A → List ℕ) → A → List A → A
min_by key best [] = best
min_by key best (x ∷ xs) = min_by key (if lex_lt (key x) (key best) then x else best) xs

unfoldable pub select_from : EvictionPolicyName → List EvictionEntryMetadata → Option CacheKey
select_from name [] = none
select_from name (m ∷ ms) = some (min_by (eviction_sort_key name) m ms).cache_key

unfoldable pub select_victim : CacheEvictionPolicy → Option CacheKey
unfolding select_from
select_victim p = select_from p.name (values p.entries)

abbrev pub len : CacheEvictionPolicy → ℕ
len p = length p.entries

abbrev pub contains : CacheEvictionPolicy → CacheKey → Bool
contains p key = is_some (get str_dec key p.entries)
