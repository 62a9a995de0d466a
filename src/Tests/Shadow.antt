-- ===== src/Tests/Shadow.antt =====
-- Examples for the shadow collector.
use mlcache.Prelude.{
  arith, ℕ, String, ◌≡◌, refl, true, false, none, some, List, [], ◌∷◌, ◌++◌, Result, ok, raise,
  key_error, runtime_error,
}
use mlcache.Types.{CacheLookup, CacheMetadata, OracleDecision, miss}
use mlcache.Oracle.{VectorSearchResult}
use mlcache.Oracle.Feedback.{JudgeLabel}
use mlcache.Feedback.{JudgedPairExample}
use mlcache.Feedback.Shadow.{ShadowCollectionConfig, PairFeatures, Prepared, no_counts}
use mlcache.Feedback.Shadow.Collect.{
  JudgeResult, TrainingStore, QueryRecords, Collector, CollectionResult, collect,
}
use mlcache.Feedback.Shadow.Accounts.{Accounted, collect-Accounted}
use mlcache.Feedback.Shadow.Sent.{Sent, noting, Shares}
use mlcache.Feedback.Shadow.Balanced.{collect-Shares}
use mlcache.Tests.Numbers.{hundredths}

abbrev a_store : TrainingStore ℕ
a_store = record {
  State = List (JudgedPairExample ℕ);
  add_train = λ e s. (ok tt, e ∷ s);
  add_calibration = λ e s. (raise key_error, s);
}

abbrev pub no_records : QueryRecords ℕ
no_records = record { State = ℕ; record_query = λ l cs d labels n. (raise runtime_error, n) }

abbrev pub a_config : ShadowCollectionConfig ℕ
a_config = record {
  enabled = true;
  top_k = 4;
  max_pairs_per_request = some 3;
  calibration_every_n = 2;
  calibration_fraction = none;
  collect_uncertain = false;
  include_served_candidate = true;
  include_unserved_candidates = true;
  skip_self_pairs = true;
  skip_duplicate_candidates = true;
  raise_on_failure = false;
}

abbrev no_metadata : CacheMetadata
no_metadata = record { namespace = none; top_k = none; query_id = none; request_id = none }

abbrev a_request : CacheLookup ℕ
a_request = record { query = "q"; embedding = 1 ∷ []; namespace = none; metadata = no_metadata }

abbrev a_result : String → ℕ → VectorSearchResult ℕ
a_result k x = record {
  cache_key = k;
  embedding = x ∷ [];
  score = x;
  query = some k;
  metadata = no_metadata;
}

abbrev results : List (VectorSearchResult ℕ)
results = a_result "a" 3 ∷ a_result "a" 3 ∷ a_result "q" 5 ∷ a_result "b" 4 ∷ a_result "c" 2 ∷ []

abbrev a_miss : OracleDecision ℕ
a_miss = record {
  status = miss;
  accepted = false;
  cache_key = some "a";
  score = none;
  threshold = none;
  scorer = none;
  candidate_count = 5;
  accepted_candidate_rank = none;
  reason = none;
}

abbrev pub features : List ℕ → List ℕ → Result (PairFeatures ℕ)
features q c =
    ok (record { concat = q ++ c; hadamard = []; abs_diff = []; cosine = none; main = none })

abbrev pub a_judge : Prepared ℕ → Result JudgeResult
a_judge p = ok (record {
  query = "q";
  candidate_key = some p.candidate.cache_key;
  label = JudgeLabel.reusable;
})

abbrev pub new_collector : Collector (List (JudgedPairExample ℕ)) ℕ
new_collector = record {
  counts = no_counts;
  splits = record {
    h0_split_count = 0;
    h1_split_count = 0;
    h0_calib_count = 0;
    h1_calib_count = 0;
  };
  store = [];
  records = some 0;
}

abbrev collected : Result CollectionResult × Collector (List (JudgedPairExample ℕ)) ℕ
collected =
    collect a_store no_records features (λ s. s) a_config a_request a_miss a_judge results
      new_collector

collect-Accounted_example : Accounted a_config new_collector collected
collect-Accounted_example =
    collect-Accounted a_store no_records features (λ s. s) a_config a_request a_miss a_judge results
      new_collector

-- Two pairs of four candidates: one example is stored, one fails, and so does the query record.
collected_lem : collected.1.counts ≡ record {
  pairs_observed = 2;
  judge_calls = 2;
  h0_added = 0;
  h1_added = 1;
  uncertain = 0;
  skipped = 2;
  failures = 2;
}
unfolding collect mlcache.Feedback.Shadow.Collect.prepare mlcache.Feedback.Shadow.Collect.judge_all
    mlcache.Feedback.Shadow.Collect.on_outcome mlcache.Feedback.Shadow.next_split
collected_lem = refl

-- The same collector over the store that notes its calls.
abbrev noting_collector : Collector (List (JudgedPairExample ℕ) × Sent) ℕ
noting_collector = record {
  counts = no_counts;
  splits = new_collector.splits;
  store = ([], []);
  records = some 0;
}

abbrev noted : Result CollectionResult × Collector (List (JudgedPairExample ℕ) × Sent) ℕ
noted =
    collect (noting a_store) no_records features (λ s. s) a_config a_request a_miss a_judge results
      noting_collector

no_splits-Shares : Shares 2 noting_collector.splits []
unfolding Shares
no_splits-Shares = ((refl, refl, refl), (refl, refl, refl), refl)

collect-Shares_example : Shares 2 noted.1.splits noted.1.store.1
collect-Shares_example =
    collect-Shares a_config refl (omega arith) a_store no_records features (λ s. s) a_request a_miss
      a_judge results noting_collector no_splits-Shares

-- Of the two pairs the second went to calibration.
noted_lem : noted.1.store.1 ≡ (true, JudgeLabel.reusable) ∷ (false, JudgeLabel.reusable) ∷ []
unfolding collect mlcache.Feedback.Shadow.Collect.prepare mlcache.Feedback.Shadow.Collect.judge_all
    mlcache.Feedback.Shadow.Collect.on_outcome mlcache.Feedback.Shadow.next_split
noted_lem = refl
