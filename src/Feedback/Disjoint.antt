-- ===== src/Feedback/Disjoint.antt =====
-- src/mlcache/feedback/store.py: no judged pair is in both parts of the split store.
use mlcache.Prelude.{
  ℕ, zero, suc, ◌+◌, ◌≤◌, ◌≡◌, refl, ap, ◌∙◌, subst, ◌⊎◌, inl, inr, false, arith, Bool-cases,
  is_some, ok,
}
use mlcache.Prelude.{bind_ok, ok_injective}
use mlcache.Dict
use mlcache.Dict.{Dict}
use mlcache.Oracle.Feedback.{JudgeLabel}
use mlcache.Feedback.{
  JudgedPairExample, ExampleKey, Bucket, EvictionPolicy, SplitStore, add_to_bucket, example_key,
  add_train_labeled, add_train, add_calibration_labeled, add_calibration,
}
use mlcache.Feedback.Counting.{as_count, occurrences, Counts, Holds, add_to_bucket_lem}

module _ {F : Type 0} (dec : Discrete (ExampleKey F)) where
  -- How often a key stands in two buckets.
  abbrev pub total : ExampleKey F → Bucket F → Bucket F → ℕ
  total k a b = occurrences dec k a.keys + occurrences dec k b.keys

  -- One part of the store: its two buckets and its counter.
  abbrev pub PartIsValid : ℕ → ℕ → Bucket F → Bucket F → Dict (ExampleKey F) ℕ → Type 0
  PartIsValid n m a b c =
      Holds dec n a
      × Holds dec m b
      × ((k : ExampleKey F) → Dict.get dec k c ≡ as_count (total k a b))

  -- No key in both parts.
  abbrev pub Disjoint : Bucket F → Bucket F → Bucket F → Bucket F → Type 0
  Disjoint a b c d = (k : ExampleKey F) → (total k a b ≡ 0) ⊎ (total k c d ≡ 0)

  pub record IsValid (s : SplitStore F) : Type 0 where
    pub train : PartIsValid s.max_h0_train s.max_h1_train s.h0_train s.h1_train s.train_keys
    pub calibration :
        PartIsValid s.max_h0_calibration s.max_h1_calibration s.h0_calibration s.h1_calibration
          s.calibration_keys
    pub disjoint : Disjoint s.h0_train s.h1_train s.h0_calibration s.h1_calibration

  module _ (n m : ℕ) (a b : Bucket F) (c : Dict (ExampleKey F) ℕ) (h : PartIsValid n m a b c)
      (policy : EvictionPolicy F) (label : JudgeLabel) (e : JudgedPairExample F)
      (r : Bucket F × Dict (ExampleKey F) ℕ) where
    -- An addition to the first bucket of a part.
    add_first :
        add_to_bucket dec policy a c n label e (example_key e) ≡ ok r
        → PartIsValid n m r.0 b r.1
          × ((k : ExampleKey F) → ¬ (example_key e ≡ k) → total k r.0 b ≤ total k a b)
    add_first run =
        let (holds, counts, fewer) =
          add_to_bucket_lem dec n a c (λ k. occurrences dec k b.keys) h.0 h.2 policy label e r
            run in
        ((holds, h.1, counts), λ k ne. omega (arith, fewer k ne))

    add_second :
        add_to_bucket dec policy b c m label e (example_key e) ≡ ok r
        → PartIsValid n m a r.0 r.1
          × ((k : ExampleKey F) → ¬ (example_key e ≡ k) → total k a r.0 ≤ total k a b)
    add_second run =
        let swapped : Counts dec c b.keys (λ k. occurrences dec k a.keys) =
          λ k. h.2 k ∙ ap as_count (omega arith) in
        let (holds, counts, fewer) =
          add_to_bucket_lem dec m b c (λ k. occurrences dec k a.keys) h.1 swapped policy label e r
            run in
        ((h.0, holds, λ k. counts k ∙ ap as_count (omega arith)), λ k ne. omega (arith, fewer k ne))

  -- A part that only gains a key that the other part lacks stays disjoint from it.
  keeps_apart :
      (key : ExampleKey F) (a b a' b' c d : Bucket F) (counter : Dict (ExampleKey F) ℕ)
      → Dict.get dec key counter ≡ as_count (total key c d)
      → is_some (Dict.get dec key counter) ≡ false
      → ((k : ExampleKey F) → ¬ (key ≡ k) → total k a' b' ≤ total k a b)
      → Disjoint a b c d
      → Disjoint a' b' c d
  keeps_apart key a b a' b' c d counter counted absent fewer apart k = elim (dec key k) [
    | yes p ↦
        inr (subst (λ y. total y c d ≡ 0) p (not_counted (total key c d) (rw (← counted) absent)))
    | no p ↦ elim (apart k) [ inl z ↦ inl (omega (arith, z, fewer k p)) | inr z ↦ inr z ]
  ]
    where
      not_counted : (n : ℕ) → is_some (as_count n) ≡ false → n ≡ 0
      not_counted zero h = refl
      not_counted (suc n) h = absurd (ground arith)

  flip : (a b c d : Bucket F) → Disjoint a b c d → Disjoint c d a b
  flip a b c d h k = elim (h k) [ inl z ↦ inr z | inr z ↦ inl z ]

  module _ (policy : EvictionPolicy F) (e : JudgedPairExample F) (s t : SplitStore F)
      (h : IsValid s) where
    train_labeled : (label : JudgeLabel) → add_train_labeled dec policy label e s ≡ ok t → IsValid t
    train_labeled JudgeLabel.uncertain run = subst IsValid (ok_injective run) h
    train_labeled JudgeLabel.reusable run =
        elim (Bool-cases (is_some (Dict.get dec (example_key e) s.calibration_keys))) [
          | inl skip ↦ subst IsValid (ok_injective (rw skip at run)) h
          | inr new ↦
              let (r, u, v) =
                bind_ok
                  (add_to_bucket dec policy s.h1_train s.train_keys s.max_h1_train
                    JudgeLabel.reusable e (example_key e))
                  _ t (rw new at run) in
              let (part, fewer) =
                add_second s.max_h0_train s.max_h1_train s.h0_train s.h1_train s.train_keys h.train
                  policy JudgeLabel.reusable e r u in
              subst IsValid (ok_injective v) (record {
                train = part;
                calibration = h.calibration;
                disjoint =
                    keeps_apart (example_key e) s.h0_train s.h1_train s.h0_train r.0
                      s.h0_calibration s.h1_calibration s.calibration_keys
                      (h.calibration.2 (example_key e)) new fewer h.disjoint;
              })
        ]
    train_labeled JudgeLabel.not_reusable run =
        elim (Bool-cases (is_some (Dict.get dec (example_key e) s.calibration_keys))) [
          | inl skip ↦ subst IsValid (ok_injective (rw skip at run)) h
          | inr new ↦
              let (r, u, v) =
                bind_ok
                  (add_to_bucket dec policy s.h0_train s.train_keys s.max_h0_train
                    JudgeLabel.not_reusable e (example_key e))
                  _ t (rw new at run) in
              let (part, fewer) =
                add_first s.max_h0_train s.max_h1_train s.h0_train s.h1_train s.train_keys h.train
                  policy JudgeLabel.not_reusable e r u in
              subst IsValid (ok_injective v) (record {
                train = part;
                calibration = h.calibration;
                disjoint =
                    keeps_apart (example_key e) s.h0_train s.h1_train r.0 s.h1_train
                      s.h0_calibration s.h1_calibration s.calibration_keys
                      (h.calibration.2 (example_key e)) new fewer h.disjoint;
              })
        ]

    calibration_labeled :
        (label : JudgeLabel) → add_calibration_labeled dec policy label e s ≡ ok t → IsValid t
    calibration_labeled JudgeLabel.uncertain run = subst IsValid (ok_injective run) h
    calibration_labeled JudgeLabel.reusable run =
        elim (Bool-cases (is_some (Dict.get dec (example_key e) s.train_keys))) [
          | inl skip ↦ subst IsValid (ok_injective (rw skip at run)) h
          | inr new ↦
              let (r, u, v) =
                bind_ok
                  (add_to_bucket dec policy s.h1_calibration s.calibration_keys s.max_h1_calibration
                    JudgeLabel.reusable e (example_key e))
                  _ t (rw new at run) in
              let (part, fewer) =
                add_second s.max_h0_calibration s.max_h1_calibration s.h0_calibration
                  s.h1_calibration s.calibration_keys h.calibration policy JudgeLabel.reusable e r
                  u in
              subst IsValid (ok_injective v) (record {
                train = h.train;
                calibration = part;
                disjoint = flip s.h0_calibration r.0 s.h0_train s.h1_train (
                    keeps_apart (example_key e) s.h0_calibration s.h1_calibration s.h0_calibration
                      r.0 s.h0_train s.h1_train s.train_keys (h.train.2 (example_key e)) new fewer
                      (flip s.h0_train s.h1_train s.h0_calibration s.h1_calibration h.disjoint));
              })
        ]
    calibration_labeled JudgeLabel.not_reusable run =
        elim (Bool-cases (is_some (Dict.get dec (example_key e) s.train_keys))) [
          | inl skip ↦ subst IsValid (ok_injective (rw skip at run)) h
          | inr new ↦
              let (r, u, v) =
                bind_ok
                  (add_to_bucket dec policy s.h0_calibration s.calibration_keys s.max_h0_calibration
                    JudgeLabel.not_reusable e (example_key e))
                  _ t (rw new at run) in
              let (part, fewer) =
                add_first s.max_h0_calibration s.max_h1_calibration s.h0_calibration
                  s.h1_calibration s.calibration_keys h.calibration policy JudgeLabel.not_reusable e
                  r u in
              subst IsValid (ok_injective v) (record {
                train = h.train;
                calibration = part;
                disjoint = flip r.0 s.h1_calibration s.h0_train s.h1_train (
                    keeps_apart (example_key e) s.h0_calibration s.h1_calibration r.0
                      s.h1_calibration s.h0_train s.h1_train s.train_keys
                      (h.train.2 (example_key e)) new fewer
                      (flip s.h0_train s.h1_train s.h0_calibration s.h1_calibration h.disjoint));
              })
        ]

    -- An addition to the training part that returns, under any eviction policy, keeps the store
    -- valid: no pair in both parts, buckets within their capacities with the keys of their
    -- examples, and counters that count exactly the keys of their parts.
    pub add_train-IsValid : add_train dec policy e s ≡ ok t → IsValid t
    unfolding add_train
    add_train-IsValid run = train_labeled e.label run

    pub add_calibration-IsValid : add_calibration dec policy e s ≡ ok t → IsValid t
    unfolding add_calibration
    add_calibration-IsValid run = calibration_labeled e.label run
