-- ===== src/Gateway/Serve.antt =====
-- The capacity bound over any sequence of calls.
use mlcache.Prelude.{
  ℕ, ◌≤◌, ◌≡◌, refl, ap, inl, inr, none, some, List, [], ◌∷◌, arith, Bool-cases, Option-cases,
  str_dec, length, Result, ok, raise,
}
use mlcache.Dict
use mlcache.Dict.{get}
use mlcache.Dict.Keys.{absent_together}
use mlcache.KvStore
use mlcache.KvStore.{KvStore}
use mlcache.Types.{CacheKey, CacheEntry, CacheLookup, OracleDecision}
use mlcache.Eviction.{CacheEvictionPolicy, Datetime, EvictionPolicyName, record_removal}
use mlcache.Eviction
use mlcache.Eviction.Invariant.{record_removal-IsValid}
use mlcache.Gateway
use mlcache.Gateway.{Oracle, Gateway, read_key, after_decision, lookup_with_decision}
use mlcache.Gateway.Loop.{with_policy, InSync, RemoveReturns, invalidate_lem, removal-InSync}
use mlcache.Gateway.Capacity.{IndexReturns, hit-InSync, put-bounded}

-- A call of the gateway's public methods.
pub data Call (F : Type 0) : Type 0 where
  lookup : CacheLookup F → Datetime → Call F
  put : CacheEntry F → Datetime → Call F
  invalidate : CacheKey → Call F

module _ {F : Type 0} (o : Oracle F) where
  -- What a call leaves behind; the caller catches what it raises.
  unfoldable pub step : Gateway o.State → Call F → Gateway o.State
  step g (lookup request now) = (lookup_with_decision o request now g).1
  step g (put entry now) = (Gateway.put o entry now g).1
  step g (invalidate key) = (Gateway.invalidate o key g).1

  unfoldable pub serve : Gateway o.State → List (Call F) → Gateway o.State
  serve g [] = g
  serve g (c ∷ calls) = serve (step g c) calls

  -- In step, and within the bound.
  abbrev pub Bounded : ℕ → Gateway o.State → Type 0
  Bounded n g =
      (kv : KvStore) × (s : o.State) × (p : CacheEvictionPolicy) × (g ≡ with_policy kv s p (some n))
      × InSync kv p
      × (length kv ≤ n)

  module _ (removes : RemoveReturns o) (n : ℕ) where
    forget-InSync :
        (kv : KvStore) (p : CacheEvictionPolicy) (key : CacheKey)
        → get str_dec key kv ≡ none
        → InSync kv p
        → InSync kv (record_removal p key)
    forget-InSync kv p key absent h = record {
      valid = record_removal-IsValid p key h.valid;
      synced =
          unfold record_removal in
          rw
            (Dict.pop_absent str_dec key p.entries
              (absent_together str_dec key kv p.entries h.synced absent))
            h.synced;
    }

    read_key-Bounded :
        (d : OracleDecision F) (key : CacheKey) (now : Datetime) (kv : KvStore) (s : o.State)
        (p : CacheEvictionPolicy)
        → InSync kv p
        → length kv ≤ n
        → Bounded n (read_key o d key now (with_policy kv s p (some n))).1
    unfolding read_key
    read_key-Bounded d key now kv s p h fits = elim (Option-cases (get str_dec key kv)) [
      | inl e ↦
          rw (e, read_key)
            (rw (removes key s) (
              kv,
              (o.remove key s).1,
              record_removal p key,
              refl,
              forget-InSync kv p key e h,
              fits,
            ))
      | inr (response, e) ↦
          rw (e, read_key)
            (kv, s, Eviction.record_hit p key now, refl, hit-InSync kv p key now h, fits)
    ]

    after_decision-Bounded :
        (d : OracleDecision F) (now : Datetime) (kv : KvStore) (s : o.State)
        (p : CacheEvictionPolicy)
        → InSync kv p
        → length kv ≤ n
        → Bounded n (after_decision o d now (with_policy kv s p (some n))).1
    unfolding after_decision
    after_decision-Bounded d now kv s p h fits = elim (Bool-cases d.accepted) [
      | inr rejected ↦ rw rejected (kv, s, p, refl, h, fits)
      | inl accepted ↦ elim (Option-cases d.cache_key) [
        | inl e ↦ rw (accepted, e, after_decision) (kv, s, p, refl, h, fits)
        | inr (key, e) ↦ rw (accepted, e, after_decision) (read_key-Bounded d key now kv s p h fits)
      ]
    ]

    lookup-Bounded :
        (request : CacheLookup F) (now : Datetime) (kv : KvStore) (s : o.State)
        (p : CacheEvictionPolicy)
        → InSync kv p
        → length kv ≤ n
        → Bounded n (lookup_with_decision o request now (with_policy kv s p (some n))).1
    unfolding lookup_with_decision
    lookup-Bounded request now kv s p h fits = decided (o.decide request s).0 refl
      where
        decided :
            (r : Result (OracleDecision F))
            → (o.decide request s).0 ≡ r
            → Bounded n (lookup_with_decision o request now (with_policy kv s p (some n))).1
        decided (ok d) e = rw e (after_decision-Bounded d now kv (o.decide request s).1 p h fits)
        decided (raise x) e = rw e (kv, (o.decide request s).1, p, refl, h, fits)

    module _ (indexes : IndexReturns o) where
      pub step-Bounded : (g : Gateway o.State) (c : Call F) → Bounded n g → Bounded n (step g c)
      unfolding step
      step-Bounded g (lookup request now) (kv, s, p, e, h, fits) =
          rw e (lookup-Bounded request now kv s p h fits)
      step-Bounded g (put entry now) (kv, s, p, e, h, fits) =
          let (kv', s', p', run, sync, small, _) =
            put-bounded o removes n entry now kv s p (indexes entry s) h in
          rw e (kv', s', p', ap (λ r. r.1) run, sync, small)
      step-Bounded g (invalidate key) (kv, s, p, e, h, fits) = rw e (
        KvStore.delete kv key,
        (o.remove key s).1,
        record_removal p key,
        ap (λ r. r.1) (invalidate_lem o removes key kv s p (some n)),
        removal-InSync o removes kv p key h,
        omega (arith, Dict.length-pop-le str_dec key kv),
      )

      -- Whatever calls are made in whatever order (lookup, put, invalidate), a gateway with a
      -- policy and a bound, whose store and policy hold the same keys within the bound, still is
      -- one afterwards: it never holds more responses than the bound, and the policy stays valid
      -- and tracks exactly the keys of the stored responses. It is assumed that the oracle's
      -- `remove` and `index` raise nothing; its `decide` may answer anything and may raise.
      pub serve-Bounded :
          (g : Gateway o.State) (calls : List (Call F)) → Bounded n g → Bounded n (serve g calls)
      unfolding serve
      serve-Bounded g [] h = h
      serve-Bounded g (c ∷ calls) h = serve-Bounded (step g c) calls (step-Bounded g c h)
