-- ===== src/Feedback/Shadow/Accounts.antt =====
-- src/mlcache/feedback/shadow_collector.py: what `collect` counts, and when it raises.
use mlcache.Prelude.{
  ℕ, zero, suc, ◌+◌, ◌≤◌, String, ◌≡◌, refl, sym, ap, subst, inl, inr, Option, none, some, List, [],
  ◌∷◌, arith, Bool-cases, if_true, if_false, length, take, Result, ok, raise,
}
use mlcache.Dict.{Dict}
use mlcache.Float.{FloatOps}
use mlcache.Types.{CacheKey, CacheLookup, OracleDecision}
use mlcache.Oracle.{VectorSearchResult}
use mlcache.Feedback.Shadow.{ShadowCollectionConfig, Counts, PairFeatures, Prepared, no_counts}
use mlcache.Feedback.Shadow.Collect.{
  JudgeResult, TrainingStore, QueryRecords, Stop, go, commit_and_raise, raise_at_once, Run,
  Collector, CollectionResult, failed, prepare, finish, on_recorded, record_and_finish, after_loops,
  after_prepare, collect,
}
use mlcache.Feedback.Shadow.{plus, no_counts}
use mlcache.Feedback.Shadow.Conserved.{
  Prep, Judging, MayRaise, PreparedAs, JudgedAs, prepare_lem, judge_all_lem,
}

length-take_le : {A : Type 0} (k : ℕ) (xs : List A) → length (take k xs) ≤ k
length-take_le zero xs = ground arith
length-take_le (suc k) [] = ground arith
length-take_le (suc k) (x ∷ xs) = ground (arith, length-take_le k xs)

plus-no_counts : (a : Counts) → plus a no_counts ≡ a
plus-no_counts a i = record {
  pairs_observed = same a.pairs_observed i;
  judge_calls = same a.judge_calls i;
  h0_added = same a.h0_added i;
  h1_added = same a.h1_added i;
  uncertain = same a.uncertain i;
  skipped = same a.skipped i;
  failures = same a.failures i;
}
  where
    same : (n : ℕ) → n + 0 ≡ n
    same n = omega arith

-- The counters of a result: each pair has a label or a failure, and a query record that is not
-- stored is one failure more.
CountsAdd : Counts → ℕ → Type 0
CountsAdd n top_k =
    (n.pairs_observed ≤ n.h0_added + (n.h1_added + n.uncertain) + n.failures)
    × (n.h0_added + (n.h1_added + n.uncertain) + n.failures ≤ n.pairs_observed + 1)
    × (n.judge_calls ≤ n.pairs_observed)
    × (n.pairs_observed + n.skipped ≤ top_k)

module _ {F : Type 0} {S R : Type 0} where
  -- A result's counters add up and are the ones that the collector adds to its own. An exception
  -- needs `raise_on_failure` or `collect_uncertain`.
  pub Accounted :
      ShadowCollectionConfig F → Collector S R → Result CollectionResult × Collector S R → Type 0
  Accounted c col (ok r, after) =
      (after.counts ≡ plus col.counts r.counts) × CountsAdd r.counts c.top_k
  Accounted c col (raise e, after) = MayRaise c

module _ {F : Type 0} ⦃fl : FloatOps F⦄ (ts : TrainingStore F) (qr : QueryRecords F)
    (build : List F → List F → Result (PairFeatures F)) (strip : String → String)
    (c : ShadowCollectionConfig F) (request : CacheLookup F) (served : OracleDecision F) where
  record_lem :
      (selected : List (VectorSearchResult F)) (records : Option qr.State)
      (labels : Dict CacheKey (Option ℕ)) (n : Counts) (col after : Collector ts.State qr.State)
      → after.counts ≡ col.counts
      → Judging n 0 c.top_k
      → Accounted c col
          (record_and_finish ts qr build strip c request served selected records labels n after)
  unfolding Accounted CountsAdd Judging MayRaise
  record_lem selected none labels n col after e (h, i, k) =
      (ap (λ (s : Counts). plus s n) e, (ground arith, ground arith, ground arith, k))
  record_lem selected (some records) labels n col after e (h, i, k) =
      let (answer, records') = qr.record_query request selected served labels records in
      answered answer (record after { records = some records' }) e
    where
      answered :
          (answer : Result (Unit {0})) (last : Collector ts.State qr.State)
          → last.counts ≡ col.counts
          → Accounted c col (on_recorded ts qr build strip c request served answer labels n last)
      answered (ok u) last e =
          (ap (λ (s : Counts). plus s n) e, (ground arith, ground arith, ground arith, k))
      answered (raise x) last e =
          let counted = finish ts qr build strip c request served labels (failed n) last in
          elim (Bool-cases c.raise_on_failure) [
            | inl b ↦
                subst
                  (λ (o : Result CollectionResult × Collector ts.State qr.State). Accounted c col o)
                  (sym (if_true (raise x, last) counted b)) (inl b)
            | inr b ↦
                subst
                  (λ (o : Result CollectionResult × Collector ts.State qr.State). Accounted c col o)
                  (sym (if_false (raise x, last) counted b))
                  (
                    ap (λ (s : Counts). plus s (failed n)) e,
                    (ground arith, ground arith, ground arith, k),
                  )
          ]

  loops_lem :
      (selected : List (VectorSearchResult F)) (o : Stop × Run ts.State)
      (col : Collector ts.State qr.State)
      → JudgedAs c o 0 c.top_k
      → Accounted c col (after_loops ts qr build strip c request served selected o col)
  unfolding JudgedAs Accounted
  loops_lem selected (go, r) col h = record_lem selected col.records r.labels r.counts col _ refl h
  loops_lem selected (commit_and_raise e, r) col h = h
  loops_lem selected (raise_at_once e, r) col h = h

  longer_lem :
      (o : Stop × (Counts × List (Prepared F))) (w t u : ℕ)
      → PreparedAs c o w t
      → t ≤ u
      → PreparedAs c o w u
  unfolding PreparedAs Prep
  longer_lem (go, (n, ps)) w t u (h, zy, k) le = (h, zy, ground arith)
  longer_lem (commit_and_raise e, r) w t u h le = h
  longer_lem (raise_at_once e, r) w t u h le = h

  prepared_lem :
      (judge : Prepared F → Result JudgeResult) (selected : List (VectorSearchResult F))
      (o : Stop × (Counts × List (Prepared F))) (col : Collector ts.State qr.State)
      → PreparedAs c o 0 c.top_k
      → Accounted c col (after_prepare ts qr build strip c request served judge selected o col)
  unfolding PreparedAs Accounted Prep Judging
  prepared_lem judge selected (go, (n, ps)) col (h, (z, y), k) =
      loops_lem selected _ col
        (judge_all_lem ts c judge ps _ c.top_k (ground arith, ground arith, k))
  prepared_lem judge selected (commit_and_raise e, r) col h = h
  prepared_lem judge selected (raise_at_once e, r) col h = h

  -- The shadow collection of a request, with any judge, stores and builder of features: where it
  -- returns, the collector's counters have grown by those of the result, at most `top_k`
  -- candidates are observed or skipped, the judge is asked at most once for an observed pair, and
  -- labels and failures add up to the observed pairs, or to one more. Where it raises,
  -- `raise_on_failure` or `collect_uncertain` is set.
  pub collect-Accounted :
      (judge : Prepared F → Result JudgeResult) (candidates : List (VectorSearchResult F))
      (col : Collector ts.State qr.State)
      → Accounted c col (collect ts qr build strip c request served judge candidates col)
  unfolding collect Accounted CountsAdd Prep
  collect-Accounted judge candidates col =
      let selected = take c.top_k candidates in
      let run =
        prepared_lem judge selected (prepare build strip c request served 1 selected [] no_counts)
          col
          (longer_lem _ 0 (0 + length selected) c.top_k
            (prepare_lem build strip c request served 1 selected [] no_counts 0 0
              (ground arith, (ground arith, ground arith), ground arith))
            (ground (arith, length-take_le c.top_k candidates))) in
      elim (Bool-cases c.enabled) [
        | inl b ↦
            subst (λ (o : Result CollectionResult × Collector ts.State qr.State). Accounted c col o)
              (sym (if_true _ _ b)) run
        | inr b ↦
            subst (λ (o : Result CollectionResult × Collector ts.State qr.State). Accounted c col o)
              (sym (if_false _ _ b))
              (
                sym (plus-no_counts col.counts),
                (ground arith, ground arith, ground arith, ground arith),
              )
      ]
