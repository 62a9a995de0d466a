-- ===== src/Eviction/History.antt =====
-- src/mlcache/cache/eviction.py: what the policy knows of a key after any sequence of records.
use mlcache.Prelude.{
  ℕ, ◌+◌, ◌≡◌, refl, ap, ◌∙◌, subst, inl, inr, ite, Option, none, some, List, [], ◌∷◌, arith,
  Option-cases, str_dec,
}
use mlcache.Dict
use mlcache.Dict.{get-assign, get-pop}
use mlcache.Types.{CacheKey}
use mlcache.Eviction.{
  Datetime, EvictionEntryMetadata, CacheEvictionPolicy, touched, record_insert, record_hit,
  record_removal,
}
use mlcache.Eviction.Invariant.{
  IsValid, record_insert-IsValid, record_hit-IsValid, record_removal-IsValid,
}

-- The calls that the gateway makes.
pub data Event : Type 0 where
  to_insert to_hit : CacheKey → Datetime → Event
  to_remove : CacheKey → Event

unfoldable pub after : List Event → CacheEvictionPolicy → CacheEvictionPolicy
after [] p = p
after (to_insert key now ∷ es) p = after es (record_insert p key now)
after (to_hit key now ∷ es) p = after es (record_hit p key now)
after (to_remove key ∷ es) p = after es (record_removal p key)

-- The number of accesses, the time of the insertion and that of the last access.
abbrev pub Usage : Type 0
Usage = ℕ × (Datetime × Datetime)

abbrev usage : Option EvictionEntryMetadata → Option Usage
usage none = none
usage (some m) = some (m.access_count, (m.created_at, m.last_accessed))

abbrev accessed : Datetime → Option Usage → Option Usage
accessed now none = none
accessed now (some (n, (created, last))) = some (n + 1, (created, now))

abbrev pub usage_of : CacheEvictionPolicy → CacheKey → Option Usage
usage_of p k = usage (Dict.get str_dec k p.entries)

-- The usage of a key by the events alone: an insertion starts it over, a hit counts only for a key
-- that is there, and a removal ends it.
unfoldable pub history : CacheKey → List Event → Option Usage → Option Usage
history k [] u = u
history k (to_insert key now ∷ es) u = history k es (ite (str_dec key k) (some (1, (now, now))) u)
history k (to_hit key now ∷ es) u = history k es (ite (str_dec key k) (accessed now u) u)
history k (to_remove key ∷ es) u = history k es (ite (str_dec key k) none u)

module _ (k key : CacheKey) (p : CacheEvictionPolicy) where
  usage-record_insert :
      (now : Datetime)
      → usage_of (record_insert p key now) k
        ≡ ite (str_dec key k) (some (1, (now, now))) (usage_of p k)
  unfolding record_insert
  usage-record_insert now = rw get-assign (ground arith)

  usage-record_removal : usage_of (record_removal p key) k ≡ ite (str_dec key k) none (usage_of p k)
  unfolding record_removal
  usage-record_removal = rw get-pop (ground arith)

  absent :
      (now : Datetime) (d : Dec (key ≡ k))
      → Dict.get str_dec key p.entries ≡ none
      → usage_of p k ≡ ite d (accessed now (usage_of p k)) (usage_of p k)
  absent now (yes q) e = subst (λ j. usage_of p j ≡ accessed now (usage_of p j)) q (rw e refl)
  absent now (no q) e = refl

  present :
      (now : Datetime) (m : EvictionEntryMetadata) (d : Dec (key ≡ k))
      → Dict.get str_dec key p.entries ≡ some m
      → usage (ite d (some (touched p m now)) (Dict.get str_dec k p.entries))
        ≡ ite d (accessed now (usage_of p k)) (usage_of p k)
  present now m (yes q) e =
      subst (λ j. usage (some (touched p m now)) ≡ accessed now (usage_of p j)) q (rw e refl)
  present now m (no q) e = refl

  usage-record_hit :
      (now : Datetime)
      → usage_of (record_hit p key now) k
        ≡ ite (str_dec key k) (accessed now (usage_of p k)) (usage_of p k)
  unfolding record_hit
  usage-record_hit now = elim (Option-cases (Dict.get str_dec key p.entries)) [
    | inl e ↦ rw (e, record_hit) (absent now (str_dec key k) e)
    | inr (m, e) ↦ rw (e, record_hit) (rw get-assign (present now m (str_dec key k) e))
  ]

-- After any sequence of insertions, hits and removals on a valid policy, the policy is valid, and
-- what it knows of a key is what the events say, where it knew nothing of the key before: nothing
-- if the key was not inserted since its last removal; else the time of the last insertion, the
-- number of accesses since then, the insertion included, and the time of the last of them. What it
-- knew before counts as if it came from earlier events.
pub after-history :
    (k : CacheKey) (es : List Event) (p : CacheEvictionPolicy)
    → IsValid p
    → IsValid (after es p) × (usage_of (after es p) k ≡ history k es (usage_of p k))
unfolding after history
after-history k [] p v = (v, refl)
after-history k (to_insert key now ∷ es) p v =
    let (w, e) = after-history k es (record_insert p key now) (record_insert-IsValid p key now v) in
    (w, e ∙ ap (history k es) (usage-record_insert k key p now))
after-history k (to_hit key now ∷ es) p v =
    let (w, e) = after-history k es (record_hit p key now) (record_hit-IsValid p key now v) in
    (w, e ∙ ap (history k es) (usage-record_hit k key p now))
after-history k (to_remove key ∷ es) p v =
    let (w, e) = after-history k es (record_removal p key) (record_removal-IsValid p key v) in
    (w, e ∙ ap (history k es) (usage-record_removal k key p))
