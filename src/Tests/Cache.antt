-- ===== src/Tests/Cache.antt =====
-- Examples for the gateway and the eviction policy.
use mlcache.Prelude.{ℕ, ◌≡◌, refl, true, none, some, List, [], ◌∷◌, arith, Bool-cases, str_dec}
use mlcache.Prelude.Exec.{modify, pure}
use mlcache.Types.{CacheKey, CacheEntry, CacheLookup, hit}
use mlcache.KvStore
use mlcache.Dict.{get, assign}
use mlcache.Eviction
use mlcache.Eviction.{
  EvictionPolicyName, lru, fifo, EvictionEntryMetadata, CacheEvictionPolicy, record_insert,
  record_hit, record_removal, select_victim, select_from,
}
use mlcache.Eviction.Invariant.{IsValid, IsValid-init, record_insert-IsValid, record_hit-IsValid}
use mlcache.Eviction.History.{
  to_insert, to_hit, to_remove, Event, after, usage_of, history, after-history,
}
use mlcache.Eviction.Victim.{Before, select_victim-Before}
use mlcache.Prelude.{◌≤◌}
use mlcache.Gateway.{Oracle, Gateway, put, enforce_loop}
use mlcache.Gateway.Loop.{InSync, RemoveReturns, with_policy, Ends, enforce_loop_lem}
use mlcache.Gateway.Capacity.{Stored, put-bounded}
use mlcache.Gateway.Newest.{put-keeps_newest}
use mlcache.Gateway.Serve.{Call, serve, Bounded, serve-Bounded}

-- An oracle that serves the key "a" for everything and keeps the keys it indexed.
abbrev pub an_oracle : Oracle ℕ
an_oracle = record {
  State = List CacheKey;
  decide = λ request. pure (record {
    status = hit;
    accepted = true;
    cache_key = some "a";
    score = some 90;
    threshold = some 80;
    scorer = some "cosine";
    candidate_count = 1;
    accepted_candidate_rank = some 1;
    reason = none;
  });
  index = λ entry. modify (λ ks. entry.cache_key ∷ ks);
  remove = λ key. modify (λ ks. ks);
}

abbrev pub an_entry : CacheKey → CacheEntry ℕ
an_entry key = record {
  cache_key = key;
  query = "q";
  response = "r";
  embedding = 1 ∷ [];
  metadata = record { namespace = none; top_k = none; query_id = none; request_id = none };
}

abbrev pub a_lookup : CacheLookup ℕ
a_lookup = record {
  query = "q";
  embedding = 1 ∷ [];
  namespace = none;
  metadata = record { namespace = none; top_k = none; query_id = none; request_id = none };
}

abbrev pub start : Gateway (List CacheKey)
start = with_policy [] [] (Eviction.init lru) (some 1)

abbrev pub calls : List (Call ℕ)
calls = Call.put (an_entry "a") 1 ∷ Call.put (an_entry "b") 2 ∷ Call.lookup a_lookup 3 ∷ []

abbrev two_entries : CacheEvictionPolicy
two_entries = record_insert (record_insert (Eviction.init fifo) "a" 1) "b" 2

two_entries-IsValid : IsValid two_entries
two_entries-IsValid =
    record_insert-IsValid (record_insert (Eviction.init fifo) "a" 1) "b" 2
      (record_insert-IsValid (Eviction.init fifo) "a" 1 (IsValid-init fifo))

pub an_oracle_removes : RemoveReturns an_oracle
an_oracle_removes key s = refl

victim_of_two : select_victim two_entries ≡ some "a"
unfolding select_victim record_insert assign str_dec select_from Bool-cases Eviction.min_by
    Eviction.lex_lt
victim_of_two = refl

pub start-InSync : InSync [] (Eviction.init lru)
start-InSync = record { valid = IsValid-init lru; synced = refl }

abbrev two_responses : KvStore.KvStore
two_responses = ("a", "r") ∷ ("b", "r") ∷ []

two-InSync : InSync two_responses two_entries
unfolding record_insert assign str_dec Bool-cases
two-InSync = record { valid = two_entries-IsValid; synced = refl }

two_fit : Eviction.len two_entries ≤ 2
unfolding record_insert assign str_dec Bool-cases
two_fit = omega arith

serve-Bounded_example : Bounded an_oracle 1 (serve an_oracle start calls)
serve-Bounded_example =
    serve-Bounded an_oracle an_oracle_removes 1 (λ entry s. refl) start calls
      ([], [], Eviction.init lru, refl, start-InSync, omega arith)

put-bounded_example :
    Stored an_oracle an_oracle_removes 1
      (λ _ _. Unit)
      "a"
      (put an_oracle (an_entry "a") 1 (with_policy [] [] (Eviction.init lru) (some 1)))
put-bounded_example =
    put-bounded an_oracle an_oracle_removes 1 (an_entry "a") 1 [] [] (Eviction.init lru) refl
      start-InSync

put-keeps_newest_example :
    KvStore.get
      (put an_oracle (an_entry "a") 1 (with_policy [] [] (Eviction.init lru) (some 1))).1.kv_store
      "a"
    ≡ some "r"
put-keeps_newest_example =
    put-keeps_newest an_oracle an_oracle_removes 1 (an_entry "a") 1 [] [] (Eviction.init lru)
      (omega arith) tt refl start-InSync

record_insert-IsValid_example : IsValid two_entries
record_insert-IsValid_example =
    record_insert-IsValid (record_insert (Eviction.init fifo) "a" 1) "b" 2
      (record_insert-IsValid (Eviction.init fifo) "a" 1 (IsValid-init fifo))

record_hit-IsValid_example : IsValid (record_hit two_entries "a" 3)
record_hit-IsValid_example = record_hit-IsValid two_entries "a" 3 two_entries-IsValid

abbrev events : List Event
events =
    to_insert "a" 1
    ∷ to_hit "a" 2
    ∷ to_insert "b" 3
    ∷ to_remove "a"
    ∷ to_hit "a" 4
    ∷ to_hit "b" 5
    ∷ []

after-history_example :
    IsValid (after events two_entries)
    × (usage_of (after events two_entries) "b" ≡ history "b" events (usage_of two_entries "b"))
after-history_example = after-history "b" events two_entries two_entries-IsValid

select_victim-Before_example :
    (m : EvictionEntryMetadata) × (get str_dec "a" two_entries.entries ≡ some m)
    × ((j : CacheKey) (m' : EvictionEntryMetadata)
        → ¬ (j ≡ "a")
        → get str_dec j two_entries.entries ≡ some m'
        → Before two_entries.name m m')
select_victim-Before_example =
    select_victim-Before two_entries "a" two_entries-IsValid victim_of_two

enforce_loop_lem_example :
    Ends an_oracle an_oracle_removes 1
      (λ kv p. Unit)
      (λ kv p v h lt chosen k. tt)
      (enforce_loop an_oracle 2 1 (with_policy two_responses [] two_entries (some 1)))
      (some 1)
enforce_loop_lem_example =
    enforce_loop_lem an_oracle an_oracle_removes 1 (λ kv p. Unit) (λ kv p v h lt chosen k. tt) 2
      two_responses [] two_entries (some 1) two-InSync two_fit tt
