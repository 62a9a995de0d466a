-- ===== src/Feedback/Shadow/Balanced.antt =====
-- src/mlcache/feedback/shadow_collector.py: `collect` keeps the share of the calibration part.
use mlcache.Prelude.{
  ℕ, true, false, ◌<◌, String, ◌≡◌, refl, sym, ap, subst, inl, inr, Bool, Option, none, some, List,
  [], ◌∷◌, Bool-cases, if_true, if_false, take, Result, ok, raise,
}
use mlcache.Dict.{Dict}
use mlcache.Float.{FloatOps}
use mlcache.Types.{CacheKey, CacheLookup, OracleDecision}
use mlcache.Oracle.{VectorSearchResult}
use mlcache.Oracle.Feedback.{JudgeLabel}
use mlcache.Feedback.{JudgedPairExample}
use mlcache.Feedback.Shadow.{
  ShadowCollectionConfig, Counts, Splits, PairFeatures, Prepared, next_split, no_counts,
}
use mlcache.Feedback.Shadow.Collect.{
  JudgeResult, TrainingStore, QueryRecords, Stop, go, commit_and_raise, raise_at_once, Run,
  Collector, CollectionResult, on_stored, store_labeled, example_of, store_example, on_uncertain,
  store_uncertain, by_label, on_outcome, then_loop, judge_all, on_recorded, record_and_finish,
  after_loops, prepare, finish, failed, after_prepare, collect,
}
use mlcache.Feedback.Shadow.Sent.{
  Sent, noting, same_label, Shares, next_split-Shares, uncertain-Shares,
}

module _ {F : Type 0} ⦃fl : FloatOps F⦄ (c : ShadowCollectionConfig F)
    (modulo : c.calibration_fraction ≡ none) (pos : 0 < c.calibration_every_n) where
  module _ (store : TrainingStore F) where
    abbrev ts : TrainingStore F
    ts = noting store

    abbrev Kept : Run ts.State → Type 0
    Kept r = Shares c.calibration_every_n r.splits r.store.1

    stored-Kept :
        (label : JudgeLabel) (answer : Result (Unit {0})) (r : Run ts.State)
        → Kept r
        → Kept (on_stored ts c label answer r).1
    stored-Kept label (ok u) r h = h
    stored-Kept label (raise e) r h = h

    sent-Kept :
        (b : Bool) (e : JudgedPairExample F) (r : Run ts.State) (s : Splits)
        → Shares c.calibration_every_n s ((b, e.label) ∷ r.store.1)
        → Kept (record r { splits = s; store = (store_example ts c b e r.store).1 })
    sent-Kept true e r s h = h
    sent-Kept false e r s h = h

    uncertain-Kept :
        (p : Prepared F) (j : JudgeResult) (r : Run ts.State)
        → j.label ≡ JudgeLabel.uncertain
        → Kept r
        → Kept (store_uncertain ts c p j r).1
    uncertain-Kept p j r e h =
        let (answer, s) = ts.add_train (example_of ts c p j) r.store in
        let told = on_uncertain ts c answer (record r { store = s }) in
        elim (Bool-cases c.collect_uncertain) [
          | inl b ↦
              subst (λ (o : Stop × Run ts.State). Kept o.1) (sym (if_true told (go, r) b))
                (answered answer s (uncertain-Shares c modulo pos j.label r.splits r.store.1 e h))
          | inr b ↦ subst (λ (o : Stop × Run ts.State). Kept o.1) (sym (if_false told (go, r) b)) h
        ]
      where
        answered :
            (answer : Result (Unit {0})) (s : ts.State)
            → Kept (record r { store = s })
            → Kept (on_uncertain ts c answer (record r { store = s })).1
        answered (ok u) s k = k
        answered (raise e) s k = k

    labeled-Kept :
        (p : Prepared F) (j : JudgeResult) (r : Run ts.State)
        → same_label JudgeLabel.uncertain j.label ≡ false
        → Kept r
        → Kept (store_labeled ts c p j r).1
    labeled-Kept p j r labeled h =
        let (calibration, splits) = next_split c j.label r.splits in
        let (answer, s) = store_example ts c calibration (example_of ts c p j) r.store in
        stored-Kept j.label answer (record r { splits = splits; store = s })
          (sent-Kept calibration (example_of ts c p j) r splits
            (next_split-Shares c modulo pos j.label r.splits r.store.1 labeled h))

    by_label-Kept :
        (label : JudgeLabel) (p : Prepared F) (j : JudgeResult) (r : Run ts.State)
        → j.label ≡ label
        → Kept r
        → Kept (by_label ts c label p j r).1
    by_label-Kept JudgeLabel.uncertain p j r e h = uncertain-Kept p j _ e h
    by_label-Kept JudgeLabel.reusable p j r e h =
        labeled-Kept p j r (ap (same_label JudgeLabel.uncertain) e) h
    by_label-Kept JudgeLabel.not_reusable p j r e h =
        labeled-Kept p j r (ap (same_label JudgeLabel.uncertain) e) h

    outcome-Kept :
        (p : Prepared F) (a : Result JudgeResult) (r : Run ts.State)
        → Kept r
        → Kept (on_outcome ts c p a r).1
    unfolding on_outcome
    outcome-Kept p (raise e) r h = h
    outcome-Kept p (ok j) r h = by_label-Kept j.label p j _ refl h

    judge_all-Kept :
        (judge : Prepared F → Result JudgeResult) (ps : List (Prepared F)) (r : Run ts.State)
        → Kept r
        → Kept (judge_all ts c judge ps r).1
    unfolding judge_all
    judge_all-Kept judge [] r h = h
    judge_all-Kept judge (p ∷ ps) r h =
        later (on_outcome ts c p (judge p) r) (outcome-Kept p (judge p) r h)
          (λ q k. judge_all-Kept judge ps q k)
      where
        later :
            (o : Stop × Run ts.State)
            → Kept o.1
            → ((q : Run ts.State) → Kept q → Kept (judge_all ts c judge ps q).1)
            → Kept (then_loop ts c o (λ q. judge_all ts c judge ps q)).1
        later (go, q) k rest = rest q k
        later (commit_and_raise e, q) k rest = k
        later (raise_at_once e, q) k rest = k

    module _ (qr : QueryRecords F) (build : List F → List F → Result (PairFeatures F))
        (strip : String → String) (request : CacheLookup F) (served : OracleDecision F) where
      abbrev KeptIn : Collector ts.State qr.State → Type 0
      KeptIn col = Shares c.calibration_every_n col.splits col.store.1

      recorded-KeptIn :
          (answer : Result (Unit {0})) (labels : Dict CacheKey (Option ℕ)) (n : Counts)
          (col : Collector ts.State qr.State)
          → KeptIn col
          → KeptIn (on_recorded ts qr build strip c request served answer labels n col).1
      recorded-KeptIn (ok u) labels n col h = h
      recorded-KeptIn (raise e) labels n col h =
          let counted = finish ts qr build strip c request served labels (failed n) col in
          elim (Bool-cases c.raise_on_failure) [
            | inl b ↦
                subst (λ (o : Result CollectionResult × Collector ts.State qr.State). KeptIn o.1)
                  (sym (if_true (raise e, col) counted b)) h
            | inr b ↦
                subst (λ (o : Result CollectionResult × Collector ts.State qr.State). KeptIn o.1)
                  (sym (if_false (raise e, col) counted b)) h
          ]

      finished-KeptIn :
          (selected : List (VectorSearchResult F)) (records : Option qr.State)
          (labels : Dict CacheKey (Option ℕ)) (n : Counts) (col : Collector ts.State qr.State)
          → KeptIn col
          → KeptIn
              (record_and_finish ts qr build strip c request served selected records labels n col).1
      finished-KeptIn selected none labels n col h = h
      finished-KeptIn selected (some records) labels n col h =
          let (answer, records') = qr.record_query request selected served labels records in
          recorded-KeptIn answer labels n (record col { records = some records' }) h

      loops-KeptIn :
          (selected : List (VectorSearchResult F)) (o : Stop × Run ts.State)
          (col : Collector ts.State qr.State)
          → Kept o.1
          → KeptIn (after_loops ts qr build strip c request served selected o col).1
      loops-KeptIn selected (go, r) col h =
          finished-KeptIn selected col.records r.labels r.counts
            (record col { splits = r.splits; store = r.store }) h
      loops-KeptIn selected (commit_and_raise e, r) col h = h
      loops-KeptIn selected (raise_at_once e, r) col h = h

      prepared-KeptIn :
          (judge : Prepared F → Result JudgeResult) (selected : List (VectorSearchResult F))
          (o : Stop × (Counts × List (Prepared F))) (col : Collector ts.State qr.State)
          → KeptIn col
          → KeptIn (after_prepare ts qr build strip c request served judge selected o col).1
      prepared-KeptIn judge selected (go, (n, ps)) col h =
          loops-KeptIn selected _ col (judge_all-Kept judge ps _ h)
      prepared-KeptIn judge selected (commit_and_raise e, r) col h = h
      prepared-KeptIn judge selected (raise_at_once e, r) col h = h

      -- The shadow collection sends the pairs to the two parts in their shares, whether it returns
      -- or raises and whatever the judge, the stores and the builder do. Without
      -- `calibration_fraction`, if of the pairs that were split, of either label, all were sent to
      -- the store, as many to calibration as there are full rounds of `calibration_every_n` and
      -- the others to training, and no uncertain pair was sent to calibration, then this is so
      -- afterwards. `calibration_every_n` is positive, and the training store notes its calls.
      pub collect-Shares :
          (judge : Prepared F → Result JudgeResult) (candidates : List (VectorSearchResult F))
          (col : Collector (store.State × Sent) qr.State)
          → Shares c.calibration_every_n col.splits col.store.1
          → Shares c.calibration_every_n
              (collect (noting store) qr build strip c request served judge candidates col).1.splits
              (collect
                (noting store)
                qr
                build
                strip
                c
                request
                served
                judge
                candidates
                col).1.store.1
      unfolding collect
      collect-Shares judge candidates col h =
          let selected = take c.top_k candidates in
          let run =
            prepared-KeptIn judge selected
              (prepare build strip c request served 1 selected [] no_counts) col h in
          elim (Bool-cases c.enabled) [
            | inl b ↦
                subst (λ (o : Result CollectionResult × Collector ts.State qr.State). KeptIn o.1)
                  (sym (if_true _ _ b)) run
            | inr b ↦
                subst (λ (o : Result CollectionResult × Collector ts.State qr.State). KeptIn o.1)
                  (sym (if_false _ _ b)) h
          ]
