-- ===== src/Gateway/Loop.antt =====
-- The eviction loop: with a removal that does not raise, it returns, and it keeps what each
-- eviction keeps.
use mlcache.Prelude.{
  ℕ, zero, suc, ◌≤◌, ◌<◌, ◌≡◌, refl, ap, inl, inr, true, Option, some, arith, ltb, ltb→lt,
  Bool-cases, str_dec, length, Result, ok,
}
use mlcache.Dict.{keys, length-pop-lt}
use mlcache.Dict.Keys.{pop_together}
use mlcache.KvStore
use mlcache.KvStore.{KvStore}
use mlcache.Types.{CacheKey}
use mlcache.Eviction
use mlcache.Eviction.{CacheEvictionPolicy, record_removal, select_victim}
use mlcache.Eviction.Victim.{select_victim-contains, select_victim-some}
use mlcache.Eviction.Invariant.{IsValid, record_removal-IsValid}
use mlcache.Gateway.{Oracle, Gateway, invalidate, enforce_loop}

-- A gateway that has a policy.
abbrev pub with_policy : {S : Type 0} → KvStore → S → CacheEvictionPolicy → Option ℕ → Gateway S
with_policy kv s p bound = record {
  kv_store = kv;
  oracle = s;
  eviction_policy = some p;
  max_entries = bound;
}

-- The policy is valid and tracks the keys of the store.
pub record InSync (kv : KvStore) (p : CacheEvictionPolicy) : Type 0 where
  pub valid : IsValid p
  pub synced : keys kv ≡ keys p.entries

module _ {F : Type 0} (o : Oracle F) where
  -- `remove` raises in no state.
  abbrev pub RemoveReturns : Type 0
  RemoveReturns = (key : CacheKey) (s : o.State) → (o.remove key s).0 ≡ ok tt

  module _ (returns : RemoveReturns) where
    pub invalidate_lem :
        (key : CacheKey) (kv : KvStore) (s : o.State) (p : CacheEvictionPolicy) (b : Option ℕ)
        → invalidate o key (with_policy kv s p b)
          ≡ (ok tt, with_policy (KvStore.delete kv key) (o.remove key s).1 (record_removal p key) b)
    unfolding invalidate
    invalidate_lem key kv s p b = rw (returns key s)

    enforce_step :
        (fuel bound : ℕ) (kv : KvStore) (s : o.State) (p : CacheEvictionPolicy) (b : Option ℕ)
        (victim : CacheKey)
        → ltb bound (Eviction.len p) ≡ true
        → select_victim p ≡ some victim
        → enforce_loop o (suc fuel) bound (with_policy kv s p b)
          ≡ enforce_loop o fuel bound (
              with_policy
                (KvStore.delete kv victim)
                (o.remove victim s).1
                (record_removal p victim)
                b)
    unfolding enforce_loop
    enforce_step fuel bound kv s p b victim over chosen =
        rw (over, enforce_loop)
          (rw (chosen, enforce_loop) (rw (invalidate_lem victim kv s p b) refl))

    pub removal-InSync :
        (kv : KvStore) (p : CacheEvictionPolicy) (key : CacheKey)
        → InSync kv p
        → InSync (KvStore.delete kv key) (record_removal p key)
    removal-InSync kv p key h = record {
      valid = record_removal-IsValid p key h.valid;
      synced = unfold record_removal in pop_together str_dec key kv p.entries h.synced;
    }

    module _ (bound : ℕ) (Keep : KvStore → CacheEvictionPolicy → Type 0)
        (keep : (kv : KvStore) (p : CacheEvictionPolicy) (v : CacheKey)
          → InSync kv p
          → bound < Eviction.len p
          → select_victim p ≡ some v
          → Keep kv p
          → Keep (KvStore.delete kv v) (record_removal p v)) where
      -- A run that returned, and left the gateway in step and within the bound.
      abbrev pub Ends : Result (Unit {0}) × Gateway o.State → Option ℕ → Type 0
      Ends run b =
          (kv : KvStore) × (s : o.State) × (p : CacheEvictionPolicy) × (run
            ≡ (ok tt, with_policy kv s p b))
          × InSync kv p
          × (Eviction.len p ≤ bound)
          × Keep kv p

      -- The loop that enforces the capacity ends by its own test: run on as much fuel as the
      -- policy has entries, from a store and a valid policy with the same keys, it returns with
      -- the policy and the store in step and at most the bound of entries, and with any property
      -- that each eviction keeps. It is assumed that the oracle's `remove` raises nothing.
      pub enforce_loop_lem :
          (fuel : ℕ) (kv : KvStore) (s : o.State) (p : CacheEvictionPolicy) (b : Option ℕ)
          → InSync kv p
          → Eviction.len p ≤ fuel
          → Keep kv p
          → Ends (enforce_loop o fuel bound (with_policy kv s p b)) b
      enforce_loop_lem zero kv s p b h enough k =
          (kv, s, p, unfold enforce_loop in refl, h, omega arith, k)
      enforce_loop_lem (suc fuel) kv s p b h enough k =
          elim (Bool-cases (ltb bound (Eviction.len p))) [
            | inl over ↦
                let lt = ltb→lt _ _ over in
                let (v, chosen) = select_victim-some p (λ e. omega (arith, ap length e)) in
                let shorter : Eviction.len (record_removal p v) < Eviction.len p =
                  unfold record_removal in
                  length-pop-lt str_dec v p.entries (select_victim-contains p v h.valid chosen) in
                rw (enforce_step fuel bound kv s p b v over chosen) (
                  enforce_loop_lem fuel (KvStore.delete kv v) (o.remove v s).1 (record_removal p v)
                    b (removal-InSync kv p v h) (omega arith) (keep kv p v h lt chosen k))
            | inr fits ↦
                (kv, s, p, unfold enforce_loop in rw (fits, enforce_loop), h, ground arith, k)
          ]
