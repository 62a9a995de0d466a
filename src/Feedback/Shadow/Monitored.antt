-- ===== src/Feedback/Shadow/Monitored.antt =====
-- src/mlcache/feedback/shadow_collector.py and src/mlcache/oracle/trainable.py: what `collect` tells
-- the monitor of the oracle, if the training store raises nothing.
use mlcache.Prelude.{
  ℕ, zero, suc, ◌+◌, ◌≤◌, String, ◌≡◌, refl, sym, ap, ◌∙◌, subst, inl, inr, Bool, true, false,
  Option, none, some, List, [], ◌∷◌, arith, Bool-cases, if_true, if_false, str_dec, take, All,
  All-map, Result, ok, raise,
}
use mlcache.Dict
use mlcache.Dict.{Dict}
use mlcache.Dict.Entries.{assign-All, get-All}
use mlcache.Prelude.{ok_injective}
use mlcache.Float.{FloatOps}
use mlcache.Types.{CacheKey, CacheLookup, OracleDecision}
use mlcache.Oracle.{VectorSearchResult, Models, TrainableOracle}
use mlcache.Oracle.Feedback.{JudgeLabel, OracleJudgeFeedback, ShadowCollectionResult}
use mlcache.Oracle.Split.{RefitRows}
use mlcache.Oracle.Decide.{Job, Threads, decide}
use mlcache.Oracle.Monitor.{IsValid, ServedIn, CountsServed, decide-IsValid}
use mlcache.Retrieval.Tables.{some_injective}
use mlcache.Feedback.{JudgedPairExample}
use mlcache.Feedback.Shadow.{
  ShadowCollectionConfig, Counts, PairFeatures, Prepared, label_to_int, next_split, no_counts,
}
use mlcache.Feedback.Shadow.Collect.{
  JudgeResult, TrainingStore, QueryRecords, Stop, go, commit_and_raise, raise_at_once, Run,
  Collector, CollectionResult, failed, added, example_of, store_example, on_stored, store_labeled,
  on_uncertain, store_uncertain, by_label, on_outcome, then_loop, judge_all, served_label, finish,
  on_recorded, record_and_finish, after_loops, prepare, after_prepare, collect,
}

-- A label of a pair is counted: 0 among the H0 pairs that were added, others among the H1 pairs.
abbrev Counted : ℕ → ℕ → Option ℕ → Type 0
Counted h0 h1 none = Unit {0}
Counted h0 h1 (some zero) = 1 ≤ h0
Counted h0 h1 (some (suc k)) = 1 ≤ h1

abbrev AllCounted : ℕ → ℕ → Dict CacheKey (Option ℕ) → Type 0
AllCounted h0 h1 labels = All (λ (e : CacheKey × Option ℕ). Counted h0 h1 e.1) labels

more-Counted :
    (h0 h1 k0 k1 : ℕ) (l : Option ℕ) → h0 ≤ k0 → h1 ≤ k1 → Counted h0 h1 l → Counted k0 k1 l
more-Counted h0 h1 k0 k1 none le0 le1 h = tt
more-Counted h0 h1 k0 k1 (some zero) le0 le1 h = omega (arith, le0, h)
more-Counted h0 h1 k0 k1 (some (suc k)) le0 le1 h = omega (arith, le1, h)

assign-Counted :
    (h0 h1 k0 k1 : ℕ) (key : CacheKey) (l : Option ℕ) (labels : Dict CacheKey (Option ℕ))
    → h0 ≤ k0
    → h1 ≤ k1
    → Counted k0 k1 l
    → AllCounted h0 h1 labels
    → AllCounted k0 k1 (Dict.assign str_dec key l labels)
assign-Counted h0 h1 k0 k1 key l labels le0 le1 h all =
    assign-All str_dec (λ (e : CacheKey × Option ℕ). Counted k0 k1 e.1) key l labels h
      (All-map (λ (e : CacheKey × Option ℕ). Counted h0 h1 e.1)
        (λ (e : CacheKey × Option ℕ). Counted k0 k1 e.1) labels
        (λ e. more-Counted h0 h1 k0 k1 e.1 le0 le1) all)

served_label-Counted :
    (h0 h1 : ℕ) (key : Option CacheKey) (labels : Dict CacheKey (Option ℕ))
    → AllCounted h0 h1 labels
    → Counted h0 h1 (served_label key labels)
served_label-Counted h0 h1 none labels all = tt
served_label-Counted h0 h1 (some k) labels all = found (Dict.get str_dec k labels) refl
  where
    found :
        (l : Option (Option ℕ))
        → Dict.get str_dec k labels ≡ l
        → Counted h0 h1 (elim l [ none ↦ none | some x ↦ x ])
    found none e = tt
    found (some x) e =
        get-All str_dec (λ (e : CacheKey × Option ℕ). Counted h0 h1 e.1) k labels x all e

module _ {F : Type 0} ⦃fl : FloatOps F⦄ (ts : TrainingStore F)
    (trains : (e : JudgedPairExample F) (s : ts.State) → (ts.add_train e s).0 ≡ ok tt)
    (calibrates : (e : JudgedPairExample F) (s : ts.State) → (ts.add_calibration e s).0 ≡ ok tt)
    (c : ShadowCollectionConfig F) where
  abbrev Kept : Run ts.State → Type 0
  Kept r = AllCounted r.counts.h0_added r.counts.h1_added r.labels

  stores :
      (b : Bool) (e : JudgedPairExample F) (s : ts.State) → (store_example ts c b e s).0 ≡ ok tt
  stores true e s = calibrates e s
  stores false e s = trains e s

  labeled-Kept :
      (p : Prepared F) (j : JudgeResult) (r : Run ts.State)
      → Kept (record r { counts = added j.label r.counts })
      → Kept (store_labeled ts c p j r).1
  labeled-Kept p j r h =
      let (b, splits) = next_split c j.label r.splits in
      let s = (store_example ts c b (example_of ts c p j) r.store).1 in
      subst (λ a. Kept (on_stored ts c j.label a (record r { splits = splits; store = s })).1)
        (sym (stores b (example_of ts c p j) r.store)) h

  uncertain-Kept :
      (p : Prepared F) (j : JudgeResult) (r : Run ts.State)
      → Kept r
      → Kept (store_uncertain ts c p j r).1
  uncertain-Kept p j r h =
      let (answer, s) = ts.add_train (example_of ts c p j) r.store in
      let told = on_uncertain ts c answer (record r { store = s }) in
      elim (Bool-cases c.collect_uncertain) [
        | inl b ↦
            subst (λ (o : Stop × Run ts.State). Kept o.1) (sym (if_true told (go, r) b))
              (answered answer s)
        | inr b ↦ subst (λ (o : Stop × Run ts.State). Kept o.1) (sym (if_false told (go, r) b)) h
      ]
    where
      answered :
          (answer : Result (Unit {0})) (s : ts.State)
          → Kept (on_uncertain ts c answer (record r { store = s })).1
      answered (ok u) s = h
      answered (raise e) s = h

  by_label-Kept :
      (label : JudgeLabel) (p : Prepared F) (j : JudgeResult) (r : Run ts.State)
      (labels : Dict CacheKey (Option ℕ))
      → j.label ≡ label
      → r.labels ≡ Dict.assign str_dec p.candidate.cache_key (label_to_int label) labels
      → AllCounted r.counts.h0_added r.counts.h1_added labels
      → Kept (by_label ts c label p j r).1
  by_label-Kept JudgeLabel.uncertain p j r labels e same all =
      let h0 = r.counts.h0_added in
      let h1 = r.counts.h1_added in
      uncertain-Kept p j
        (record r { counts = record r.counts { uncertain = r.counts.uncertain + 1 } })
        (subst (AllCounted h0 h1) (sym same) (
          assign-Counted h0 h1 h0 h1 p.candidate.cache_key none labels (omega arith) (omega arith)
            tt all))
  by_label-Kept JudgeLabel.reusable p j r labels e same all =
      let h0 = r.counts.h0_added in
      let h1 = r.counts.h1_added in
      labeled-Kept p j r (
        subst (λ l. Kept (record r { counts = added l r.counts })) (sym e)
          (subst (AllCounted h0 (h1 + 1)) (sym same) (
            assign-Counted h0 h1 h0 (h1 + 1) p.candidate.cache_key (some 1) labels (omega arith)
              (omega arith) (omega arith) all)))
  by_label-Kept JudgeLabel.not_reusable p j r labels e same all =
      let h0 = r.counts.h0_added in
      let h1 = r.counts.h1_added in
      labeled-Kept p j r (
        subst (λ l. Kept (record r { counts = added l r.counts })) (sym e)
          (subst (AllCounted (h0 + 1) h1) (sym same) (
            assign-Counted h0 h1 (h0 + 1) h1 p.candidate.cache_key (some 0) labels (omega arith)
              (omega arith) (omega arith) all)))

  outcome-Kept :
      (p : Prepared F) (a : Result JudgeResult) (r : Run ts.State)
      → Kept r
      → Kept (on_outcome ts c p a r).1
  unfolding on_outcome
  outcome-Kept p (raise e) r h = h
  outcome-Kept p (ok j) r h = by_label-Kept j.label p j _ r.labels refl refl h

  judge_all-Kept :
      (judge : Prepared F → Result JudgeResult) (ps : List (Prepared F)) (r : Run ts.State)
      → Kept r
      → Kept (judge_all ts c judge ps r).1
  unfolding judge_all
  judge_all-Kept judge [] r h = h
  judge_all-Kept judge (p ∷ ps) r h =
      later (on_outcome ts c p (judge p) r) (outcome-Kept p (judge p) r h)
        (λ q k. judge_all-Kept judge ps q k)
    where
      later :
          (o : Stop × Run ts.State)
          → Kept o.1
          → ((q : Run ts.State) → Kept q → Kept (judge_all ts c judge ps q).1)
          → Kept (then_loop ts c o (λ q. judge_all ts c judge ps q)).1
      later (go, q) k rest = rest q k
      later (commit_and_raise e, q) k rest = k
      later (raise_at_once e, q) k rest = k

  module _ (qr : QueryRecords F) (build : List F → List F → Result (PairFeatures F))
      (strip : String → String) (request : CacheLookup F) (served : OracleDecision F) where
    ServedCounted : Result CollectionResult → Type 0
    ServedCounted (ok r) = Counted r.counts.h0_added r.counts.h1_added r.served_candidate_label
    ServedCounted (raise e) = Unit {0}

    finished-ServedCounted :
        (selected : List (VectorSearchResult F)) (records : Option qr.State)
        (labels : Dict CacheKey (Option ℕ)) (n : Counts) (col : Collector ts.State qr.State)
        → AllCounted n.h0_added n.h1_added labels
        → ServedCounted
            (record_and_finish ts qr build strip c request served selected records labels n col).0
    unfolding ServedCounted
    finished-ServedCounted selected none labels n col h =
        served_label-Counted n.h0_added n.h1_added served.cache_key labels h
    finished-ServedCounted selected (some records) labels n col h =
        let (answer, records') = qr.record_query request selected served labels records in
        answered answer (record col { records = some records' })
      where
        answered :
            (answer : Result (Unit {0})) (last : Collector ts.State qr.State)
            → ServedCounted (on_recorded ts qr build strip c request served answer labels n last).0
        answered (ok u) last = served_label-Counted n.h0_added n.h1_added served.cache_key labels h
        answered (raise e) last =
            let counted = finish ts qr build strip c request served labels (failed n) last in
            elim (Bool-cases c.raise_on_failure) [
              | inl b ↦
                  subst
                    (λ (o : Result CollectionResult × Collector ts.State qr.State).
                      ServedCounted o.0)
                    (sym (if_true (raise e, last) counted b)) tt
              | inr b ↦
                  subst
                    (λ (o : Result CollectionResult × Collector ts.State qr.State).
                      ServedCounted o.0)
                    (sym (if_false (raise e, last) counted b))
                    (served_label-Counted n.h0_added n.h1_added served.cache_key labels h)
            ]

    loops-ServedCounted :
        (selected : List (VectorSearchResult F)) (o : Stop × Run ts.State)
        (col : Collector ts.State qr.State)
        → Kept o.1
        → ServedCounted (after_loops ts qr build strip c request served selected o col).0
    unfolding ServedCounted
    loops-ServedCounted selected (go, r) col h =
        finished-ServedCounted selected col.records r.labels r.counts
          (record col { splits = r.splits; store = r.store }) h
    loops-ServedCounted selected (commit_and_raise e, r) col h = tt
    loops-ServedCounted selected (raise_at_once e, r) col h = tt

    prepared-ServedCounted :
        (judge : Prepared F → Result JudgeResult) (selected : List (VectorSearchResult F))
        (o : Stop × (Counts × List (Prepared F))) (col : Collector ts.State qr.State)
        → ServedCounted (after_prepare ts qr build strip c request served judge selected o col).0
    unfolding ServedCounted
    prepared-ServedCounted judge selected (go, (n, ps)) col = loops-ServedCounted selected _ col (
        judge_all-Kept judge ps
          (record { counts = n; labels = []; splits = col.splits; store = col.store }) tt)
    prepared-ServedCounted judge selected (commit_and_raise e, r) col = tt
    prepared-ServedCounted judge selected (raise_at_once e, r) col = tt

    collect-ServedCounted :
        (judge : Prepared F → Result JudgeResult) (candidates : List (VectorSearchResult F))
        (col : Collector ts.State qr.State)
        → ServedCounted (collect ts qr build strip c request served judge candidates col).0
    unfolding collect ServedCounted
    collect-ServedCounted judge candidates col =
        let selected = take c.top_k candidates in
        let run =
          prepared-ServedCounted judge selected
            (prepare build strip c request served 1 selected [] no_counts) col in
        elim (Bool-cases c.enabled) [
          | inl b ↦
              subst
                (λ (o : Result CollectionResult × Collector ts.State qr.State). ServedCounted o.0)
                (sym (if_true _ _ b)) run
          | inr b ↦
              subst
                (λ (o : Result CollectionResult × Collector ts.State qr.State). ServedCounted o.0)
                (sym (if_false _ _ b)) tt
        ]

-- The label as the oracle reads it: it compares with 1 and with 0.
abbrev pub read_label : Option ℕ → Option Bool
read_label none = none
read_label (some zero) = some false
read_label (some (suc zero)) = some true
read_label (some (suc (suc k))) = none

-- What the oracle reads of a `ShadowCollectionResult`.
abbrev pub read_by_oracle : Result CollectionResult → Result ShadowCollectionResult
read_by_oracle (raise e) = raise e
read_by_oracle (ok r) = ok (record {
  h0_added = r.counts.h0_added;
  h1_added = r.counts.h1_added;
  served_candidate_label = read_label r.served_candidate_label;
})

read_label-Counted : (h0 h1 : ℕ) (l : Option ℕ) → Counted h0 h1 l → ServedIn h0 h1 (read_label l)
read_label-Counted h0 h1 none h = tt
read_label-Counted h0 h1 (some zero) h = h
read_label-Counted h0 h1 (some (suc zero)) h = h
read_label-Counted h0 h1 (some (suc (suc k))) h = tt

module _ {F : Type 0} {X : Type 0} {Sc : Type 0} ⦃fl : FloatOps F⦄ (m : Models F X Sc)
    (ts : TrainingStore F)
    (trains : (e : JudgedPairExample F) (s : ts.State) → (ts.add_train e s).0 ≡ ok tt)
    (calibrates : (e : JudgedPairExample F) (s : ts.State) → (ts.add_calibration e s).0 ≡ ok tt)
    (c : ShadowCollectionConfig F) (qr : QueryRecords F)
    (build : List F → List F → Result (PairFeatures F)) (strip : String → String)
    (judge_pair : Prepared F → Result JudgeResult) (col : Collector ts.State qr.State)
    (request : CacheLookup F) where
  -- The shadow collector in a state, as the oracle calls it.
  abbrev pub collecting :
      List (VectorSearchResult F) → OracleDecision F → Result ShadowCollectionResult
  collecting cs d = read_by_oracle (collect ts qr build strip c request d judge_pair cs col).0

  collecting-CountsServed :
      (cs : List (VectorSearchResult F)) (d : OracleDecision F) (r : ShadowCollectionResult)
      → collecting cs d ≡ ok r
      → CountsServed r
  unfolding ServedCounted
  collecting-CountsServed cs d r e =
      told (collect ts qr build strip c request d judge_pair cs col).0
        (collect-ServedCounted ts trains calibrates c qr build strip request d judge_pair cs col) e
    where
      told :
          (x : Result CollectionResult)
          → ServedCounted ts trains calibrates c qr build strip request d x
          → read_by_oracle x ≡ ok r
          → CountsServed r
      told (ok x) h e =
          subst CountsServed (ok_injective e)
            (read_label-Counted x.counts.h0_added x.counts.h1_added x.served_candidate_label h)
      told (raise w) h e = absurd (ground arith)

  -- With the shadow collector's `collect` over a training store that raises nothing, a request
  -- leaves the oracle's monitor valid: if no more judged pairs were accepted than there are, of
  -- either label, then this is so after a `decide` that returns, in whatever state the collector
  -- is, and whatever the judges, the builder, the records of queries, the vector store and the
  -- threshold provider answer.
  pub decide-IsValid-collecting :
      (provider : Option (Result F)) (retrieve : ℕ → Result (List (VectorSearchResult F)))
      (judge : Option (VectorSearchResult F → Result (JudgeLabel × Option F)))
      (rows : Option (OracleJudgeFeedback F)
        → Option ShadowCollectionResult
        → Option (Result (RefitRows F)))
      (threads : Threads) (o : TrainableOracle F Sc)
      (out : OracleDecision F × (Job F × TrainableOracle F Sc))
      → IsValid o
      → decide m (some collecting) provider retrieve judge rows threads request o ≡ ok out
      → IsValid out.1.1
  decide-IsValid-collecting provider retrieve judge rows threads o out v h =
      decide-IsValid m (some collecting) provider retrieve judge rows threads request o out
        (λ f cs d r same e.
          collecting-CountsServed cs d r (ap (λ g. g cs d) (some_injective same) ∙ e))
        v h
