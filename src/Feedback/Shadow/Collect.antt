-- ===== src/Feedback/Shadow/Collect.antt =====
-- src/mlcache/feedback/shadow_collector.py: `collect`. The judge's answers are an argument: with an
-- executor they come in the same order, so only that each request has one matters.
use mlcache.Prelude.{
  ℕ, ◌+◌, String, Bool, true, false, Option, none, some, List, [], ◌∷◌, ◌++◌, if◌then◌else◌,
  str_dec, take, Error, Result, ok, raise,
}
use mlcache.Prelude.{str_dec}
use mlcache.Prelude.Exec.{Exec}
use mlcache.Dict
use mlcache.Dict.{Dict}
use mlcache.Float.{FloatOps}
use mlcache.Types.{CacheKey, CacheLookup, OracleDecision}
use mlcache.Oracle.{VectorSearchResult}
use mlcache.Oracle.Feedback.{JudgeLabel}
use mlcache.Feedback.{JudgedPairExample}
use mlcache.Feedback.Shadow.{
  ShadowCollectionConfig, Counts, Splits, PairFeatures, Prepared, no_counts, plus, label_to_int,
  enough_pairs, features_to_tuple, should_skip_candidate, next_split,
}

-- A `JudgeResult`, without what the collector does not read.
pub record JudgeResult : Type 0 where
  pub query : String
  pub candidate_key : Option CacheKey
  pub label : JudgeLabel

-- A `SplitJudgeTrainingStore` with a state.
pub record TrainingStore (F : Type 0) : Type 1 where
  pub State : Type 0
  pub add_train : JudgedPairExample F → Exec State (Unit {0})
  pub add_calibration : JudgedPairExample F → Exec State (Unit {0})

-- The builder and the store of query records, whose state is none without
-- `record_query_calibration`.
pub record QueryRecords (F : Type 0) : Type 1 where
  pub State : Type 0
  pub record_query :
      CacheLookup F
      → List (VectorSearchResult F)
      → OracleDecision F
      → Dict CacheKey (Option ℕ)
      → Exec State (Unit {0})

-- How a loop ends: by itself, by an exception after the counters are committed, or by one that
-- leaves them.
pub data Stop : Type 0 where
  go : Stop
  commit_and_raise raise_at_once : Error → Stop

pub record Run (S : Type 0) : Type 0 where
  pub counts : Counts
  pub labels : Dict CacheKey (Option ℕ)
  pub splits : Splits
  pub store : S

pub record Collector (S : Type 0) (R : Type 0) : Type 0 where
  pub counts : Counts
  pub splits : Splits
  pub store : S
  pub records : Option R

pub record CollectionResult : Type 0 where
  pub enabled : Bool
  pub counts : Counts
  pub served_candidate_label : Option ℕ

abbrev pub failed : Counts → Counts
failed c = record c { failures = c.failures + 1 }

abbrev pub stop_if : Bool → Error → Stop
stop_if raise_on_failure e = if raise_on_failure then commit_and_raise e else go

abbrev pub added : JudgeLabel → Counts → Counts
added JudgeLabel.reusable c = record c { h1_added = c.h1_added + 1 }
added _ c = record c { h0_added = c.h0_added + 1 }

module _ {F : Type 0} ⦃fl : FloatOps F⦄ (build : List F → List F → Result (PairFeatures F))
    (strip : String → String) (c : ShadowCollectionConfig F) (request : CacheLookup F)
    (served : OracleDecision F) where
  -- What the first loop makes of a candidate that it keeps.
  abbrev pub prepare_built :
      ℕ
      → VectorSearchResult F
      → Result (PairFeatures F)
      → Counts
      → Stop × (Counts × List (Prepared F))
  prepare_built rank candidate (ok f) n =
      (go, (n, record { rank = rank; candidate = candidate; features = f } ∷ []))
  prepare_built rank candidate (raise e) n = (stop_if c.raise_on_failure e, (failed n, []))

  abbrev pub prepare_one :
      ℕ → VectorSearchResult F → Bool → Counts → Stop × (Counts × List (Prepared F))
  prepare_one rank candidate true n = (go, (record n { skipped = n.skipped + 1 }, []))
  prepare_one rank candidate false n =
      prepare_built rank candidate (build request.embedding candidate.embedding)
        (record n { pairs_observed = n.pairs_observed + 1 })

  abbrev pub then_prepare :
      Stop × (Counts × List (Prepared F))
      → (Counts → Stop × (Counts × List (Prepared F)))
      → Stop × (Counts × List (Prepared F))
  then_prepare (go, (n, ps)) next = let (s, (m, qs)) = next n in (s, (m, ps ++ qs))
  then_prepare (commit_and_raise e, r) next = (commit_and_raise e, r)
  then_prepare (raise_at_once e, r) next = (raise_at_once e, r)

  -- The first loop, from the candidate of this rank on.
  unfoldable pub prepare :
      ℕ → List (VectorSearchResult F) → List CacheKey → Counts → Stop × (Counts × List (Prepared F))
  prepare rank [] seen n = (go, (n, []))
  prepare rank (x ∷ xs) seen n =
      let (skip, seen') = should_skip_candidate strip c request served x seen in
      let more = then_prepare (prepare_one rank x skip n) (λ m. prepare (rank + 1) xs seen' m) in
      if enough_pairs c.max_pairs_per_request n.pairs_observed then (go, (n, [])) else more

module _ {F : Type 0} ⦃fl : FloatOps F⦄ (ts : TrainingStore F) (c : ShadowCollectionConfig F) where
  abbrev pub example_of : Prepared F → JudgeResult → JudgedPairExample F
  example_of p j = record {
    query = j.query;
    candidate_key = j.candidate_key;
    features = features_to_tuple p.features;
    label = j.label;
  }

  -- `_store_example`
  abbrev pub store_example : Bool → JudgedPairExample F → Exec ts.State (Unit {0})
  store_example true e = ts.add_calibration e
  store_example false e = ts.add_train e

  -- What follows the store's answer for a pair with a label.
  abbrev pub on_stored : JudgeLabel → Result (Unit {0}) → Run ts.State → Stop × Run ts.State
  on_stored label (ok u) r = (go, record r { counts = added label r.counts })
  on_stored label (raise e) r =
      (stop_if c.raise_on_failure e, record r { counts = failed r.counts })

  abbrev pub store_labeled : Prepared F → JudgeResult → Run ts.State → Stop × Run ts.State
  store_labeled p j r =
      let (calibration, splits) = next_split c j.label r.splits in
      let (answer, s) = store_example calibration (example_of p j) r.store in
      on_stored j.label answer (record r { splits = splits; store = s })

  abbrev pub on_uncertain : Result (Unit {0}) → Run ts.State → Stop × Run ts.State
  on_uncertain (ok u) r = (go, r)
  on_uncertain (raise e) r = (raise_at_once e, r)

  abbrev pub store_uncertain : Prepared F → JudgeResult → Run ts.State → Stop × Run ts.State
  store_uncertain p j r =
      if c.collect_uncertain
      then (let (answer, s) = ts.add_train (example_of p j) r.store in
          on_uncertain answer (record r { store = s }))
      else (go, r)

  abbrev pub by_label : JudgeLabel → Prepared F → JudgeResult → Run ts.State → Stop × Run ts.State
  by_label JudgeLabel.uncertain p j r =
      store_uncertain p j
        (record r { counts = record r.counts { uncertain = r.counts.uncertain + 1 } })
  by_label _ p j r = store_labeled p j r

  -- A turn of the second loop.
  unfoldable pub on_outcome : Prepared F → Result JudgeResult → Run ts.State → Stop × Run ts.State
  on_outcome p (raise e) r = (
    stop_if c.raise_on_failure e,
    record r { counts = failed (record r.counts { judge_calls = r.counts.judge_calls + 1 }) },
  )
  on_outcome p (ok j) r = by_label j.label p j (record r {
    counts = record r.counts { judge_calls = r.counts.judge_calls + 1 };
    labels = Dict.assign str_dec p.candidate.cache_key (label_to_int j.label) r.labels;
  })

  abbrev pub then_loop :
      Stop × Run ts.State → (Run ts.State → Stop × Run ts.State) → Stop × Run ts.State
  then_loop (go, r) next = next r
  then_loop (commit_and_raise e, r) next = (commit_and_raise e, r)
  then_loop (raise_at_once e, r) next = (raise_at_once e, r)

  -- The second loop, with the judge's answers.
  unfoldable pub judge_all :
      (Prepared F → Result JudgeResult) → List (Prepared F) → Run ts.State → Stop × Run ts.State
  judge_all judge [] r = (go, r)
  judge_all judge (p ∷ ps) r = then_loop (on_outcome p (judge p) r) (λ t. judge_all judge ps t)

-- `candidate_labels.get(served.cache_key)`
abbrev pub served_label : Option CacheKey → Dict CacheKey (Option ℕ) → Option ℕ
served_label none labels = none
served_label (some k) labels = elim (Dict.get str_dec k labels) [ none ↦ none | some l ↦ l ]

module _ {F : Type 0} ⦃fl : FloatOps F⦄ (ts : TrainingStore F) (qr : QueryRecords F)
    (build : List F → List F → Result (PairFeatures F)) (strip : String → String)
    (c : ShadowCollectionConfig F) (request : CacheLookup F) (served : OracleDecision F) where
  abbrev pub finish :
      Dict CacheKey (Option ℕ)
      → Counts
      → Collector ts.State qr.State
      → Result CollectionResult × Collector ts.State qr.State
  finish labels n col = (
    ok (record {
      enabled = true;
      counts = n;
      served_candidate_label = served_label served.cache_key labels;
    }),
    record col { counts = plus col.counts n },
  )

  abbrev pub on_recorded :
      Result (Unit {0})
      → Dict CacheKey (Option ℕ)
      → Counts
      → Collector ts.State qr.State
      → Result CollectionResult × Collector ts.State qr.State
  on_recorded (ok u) labels n col = finish labels n col
  on_recorded (raise e) labels n col =
      if c.raise_on_failure then (raise e, col) else finish labels (failed n) col

  -- `_maybe_store_query_record` and what follows.
  abbrev pub record_and_finish :
      List (VectorSearchResult F)
      → Option qr.State
      → Dict CacheKey (Option ℕ)
      → Counts
      → Collector ts.State qr.State
      → Result CollectionResult × Collector ts.State qr.State
  record_and_finish selected none labels n col = finish labels n col
  record_and_finish selected (some records) labels n col =
      let (answer, records') = qr.record_query request selected served labels records in
      on_recorded answer labels n (record col { records = some records' })

  abbrev pub after_loops :
      List (VectorSearchResult F)
      → Stop × Run ts.State
      → Collector ts.State qr.State
      → Result CollectionResult × Collector ts.State qr.State
  after_loops selected (go, r) col =
      record_and_finish selected col.records r.labels r.counts
        (record col { splits = r.splits; store = r.store })
  after_loops selected (commit_and_raise e, r) col = (
    raise e,
    record col { splits = r.splits; store = r.store; counts = plus col.counts r.counts },
  )
  after_loops selected (raise_at_once e, r) col =
      (raise e, record col { splits = r.splits; store = r.store })

  abbrev pub after_prepare :
      (Prepared F → Result JudgeResult)
      → List (VectorSearchResult F)
      → Stop × (Counts × List (Prepared F))
      → Collector ts.State qr.State
      → Result CollectionResult × Collector ts.State qr.State
  after_prepare judge selected (go, (n, ps)) col =
      after_loops selected
        (judge_all ts c judge ps
          (record { counts = n; labels = []; splits = col.splits; store = col.store }))
        col
  after_prepare judge selected (commit_and_raise e, (n, ps)) col =
      (raise e, record col { counts = plus col.counts n })
  after_prepare judge selected (raise_at_once e, (n, ps)) col = (raise e, col)

  unfoldable pub collect :
      (Prepared F → Result JudgeResult)
      → List (VectorSearchResult F)
      → Exec (Collector ts.State qr.State) CollectionResult
  collect judge candidates col =
      let selected = take c.top_k candidates in
      if c.enabled
      then after_prepare judge selected
          (prepare build strip c request served 1 selected [] no_counts) col
      else (ok (record { enabled = false; counts = no_counts; served_candidate_label = none }), col)
