-- ===== src/Eviction/Invariant.antt =====
-- The invariant of the bookkeeping: every entry carries its own key, no key, insertion order or
-- access tick stands twice, and no number is past its counter.
use mlcache.Prelude.{
  ℕ, ◌+◌, ◌<◌, ◌≤◌, ◌≡◌, refl, some, List, arith, All, All-map, Option-cases, str_dec, inl, inr,
}
use mlcache.Dict.{Dict, get, assign}
use mlcache.Dict.Entries.{
  Distinct, UniqueKeys, assign-UniqueKeys, pop-UniqueKeys, assign-All, pop-All, column, get-All,
  assign-Distinct, pop-Distinct, assign-column_same, assign-column-All, pop-column-All,
}
use mlcache.Types.{CacheKey}
use mlcache.Eviction.{
  EvictionPolicyName, Datetime, EvictionEntryMetadata, CacheEvictionPolicy, init, fresh, touched,
  record_insert, record_hit, record_removal,
}

abbrev pub Keyed : CacheKey × EvictionEntryMetadata → Type 0
Keyed e = e.1.cache_key ≡ e.0

abbrev pub orders : Dict CacheKey EvictionEntryMetadata → List ℕ
orders = column str_dec (λ m. m.insertion_order)

abbrev pub ticks : Dict CacheKey EvictionEntryMetadata → List ℕ
ticks = column str_dec (λ m. m.last_access_tick)

pub record IsValid (p : CacheEvictionPolicy) : Type 0 where
  pub keyed : All Keyed p.entries
  pub unique : UniqueKeys str_dec p.entries
  pub orders_counted : All (λ n. n ≤ p.insertion_counter) (orders p.entries)
  pub ticks_counted : All (λ n. n ≤ p.clock) (ticks p.entries)
  pub orders_distinct : Distinct (orders p.entries)
  pub ticks_distinct : Distinct (ticks p.entries)

weaken : (n : ℕ) (ns : List ℕ) → All (λ m. m ≤ n) ns → All (λ m. m ≤ n + 1) ns
weaken n ns = All-map (λ m. m ≤ n) (λ m. m ≤ n + 1) ns (λ m h. omega arith)

strict : (n : ℕ) (ns : List ℕ) → All (λ m. m ≤ n) ns → All (λ m. m < n + 1) ns
strict n ns = All-map (λ m. m ≤ n) (λ m. m < n + 1) ns (λ m h. omega arith)

pub IsValid-init : (name : EvictionPolicyName) → IsValid (init name)
IsValid-init name = record {
  keyed = tt;
  unique = tt;
  orders_counted = tt;
  ticks_counted = tt;
  orders_distinct = tt;
  ticks_distinct = tt;
}

module _ (p : CacheEvictionPolicy) (key : CacheKey) where
  -- `record_insert` keeps the policy valid, for a new key and for one that is there: entries are
  -- kept under their own keys, no key twice, insertion orders and access ticks are at most their
  -- counters and differ from entry to entry.
  pub record_insert-IsValid : (now : Datetime) → IsValid p → IsValid (record_insert p key now)
  unfolding record_insert
  record_insert-IsValid now v =
      let m = fresh p key now in
      record {
        keyed = assign-All str_dec Keyed key m p.entries refl v.keyed;
        unique = assign-UniqueKeys str_dec key m p.entries v.unique;
        orders_counted =
            assign-column-All str_dec (λ x. x.insertion_order) (λ n. n ≤ p.insertion_counter + 1)
              key m p.entries (omega arith) (weaken _ _ v.orders_counted);
        ticks_counted =
            assign-column-All str_dec (λ x. x.last_access_tick) (λ n. n ≤ p.clock + 1) key m
              p.entries (omega arith) (weaken _ _ v.ticks_counted);
        orders_distinct =
            assign-Distinct str_dec (λ x. x.insertion_order) key m p.entries
              (strict _ _ v.orders_counted) v.orders_distinct;
        ticks_distinct =
            assign-Distinct str_dec (λ x. x.last_access_tick) key m p.entries
              (strict _ _ v.ticks_counted) v.ticks_distinct;
      }

  hit_present :
      (now : Datetime) (m : EvictionEntryMetadata)
      → get str_dec key p.entries ≡ some m
      → IsValid p
      → IsValid (record p {
        entries = assign str_dec key (touched p m now) p.entries;
        clock = p.clock + 1;
      })
  hit_present now m e v =
      let m' = touched p m now in
      let same = assign-column_same str_dec (λ x. x.insertion_order) key m' m p.entries e refl in
      record {
        keyed =
            assign-All str_dec Keyed key m' p.entries
              (get-All str_dec Keyed key p.entries m v.keyed e) v.keyed;
        unique = assign-UniqueKeys str_dec key m' p.entries v.unique;
        orders_counted = rw same v.orders_counted;
        ticks_counted =
            assign-column-All str_dec (λ x. x.last_access_tick) (λ n. n ≤ p.clock + 1) key m'
              p.entries (omega arith) (weaken _ _ v.ticks_counted);
        orders_distinct = rw same v.orders_distinct;
        ticks_distinct =
            assign-Distinct str_dec (λ x. x.last_access_tick) key m' p.entries
              (strict _ _ v.ticks_counted) v.ticks_distinct;
      }

  -- `record_hit` keeps the policy valid, for a tracked key and for an unknown one: entries under
  -- their own keys, no key twice, insertion orders and access ticks at most their counters and
  -- different from entry to entry.
  pub record_hit-IsValid : (now : Datetime) → IsValid p → IsValid (record_hit p key now)
  unfolding record_hit
  record_hit-IsValid now v = elim (Option-cases (get str_dec key p.entries)) [
    | inl e ↦ rw (e, record_hit) v
    | inr (m, e) ↦ rw (e, record_hit) (hit_present now m e v)
  ]

  -- `record_removal` keeps the policy valid, for a tracked key and for an unknown one: entries
  -- under their own keys, no key twice, insertion orders and access ticks at most their counters
  -- and different from entry to entry.
  pub record_removal-IsValid : IsValid p → IsValid (record_removal p key)
  unfolding record_removal
  record_removal-IsValid v = record {
    keyed = pop-All str_dec Keyed key p.entries v.keyed;
    unique = pop-UniqueKeys str_dec key p.entries v.unique;
    orders_counted =
        pop-column-All str_dec (λ x. x.insertion_order) (λ n. n ≤ p.insertion_counter) key p.entries
          v.orders_counted;
    ticks_counted =
        pop-column-All str_dec (λ x. x.last_access_tick) (λ n. n ≤ p.clock) key p.entries
          v.ticks_counted;
    orders_distinct = pop-Distinct str_dec (λ x. x.insertion_order) key p.entries v.orders_distinct;
    ticks_distinct = pop-Distinct str_dec (λ x. x.last_access_tick) key p.entries v.ticks_distinct;
  }
