-- ===== src/Feedback/Collected.antt =====
-- src/mlcache/feedback/store.py: a split store that any pairs were added to, with the default policy.
use mlcache.Prelude.{
  ℕ, ◌<◌, ◌≡◌, refl, ap, ◌∙◌, subst, inl, inr, Bool, true, false, ◌||◌, List, [], ◌∷◌, arith, ◌==◌,
  if◌then◌else◌, Bool-cases, is_some, Result, ok,
}
use mlcache.Prelude.{◌>>=◌, ok_injective}
use mlcache.Dict
use mlcache.Dict.{Dict}
use mlcache.Oracle.Feedback.{JudgeLabel}
use mlcache.Feedback.{
  fifo, JudgedPairExample, ExampleKey, Bucket, SplitStore, init_split, example_key,
  add_train_labeled, add_train, add_calibration_labeled, add_calibration,
}
use mlcache.Feedback.Counting.{as_count, occurrences, Counts, add_to_bucket-fifo}
use mlcache.Feedback.Disjoint.{PartIsValid, IsValid, add_train-IsValid, add_calibration-IsValid}

module _ {F : Type 0} (dec : Discrete (ExampleKey F)) where
  -- The additions in order, each to the part that it names: true for calibration.
  unfoldable pub add_pairs :
      List (Bool × JudgedPairExample F) → SplitStore F → Result (SplitStore F)
  add_pairs [] s = ok s
  add_pairs ((false, e) ∷ more) s = add_train dec fifo e s >>= λ t. add_pairs more t
  add_pairs ((true, e) ∷ more) s = add_calibration dec fifo e s >>= λ t. add_pairs more t

  -- A store with the additions that the code makes under a test, on a known result.
  returns_if :
      {A : Type 0} (b : Bool) (s : SplitStore F) (m : Result A) (f : A → SplitStore F)
      → ((a : A) × (m ≡ ok a))
      → (t : SplitStore F) × ((if b then ok s else (m >>= λ a. ok (f a))) ≡ ok t)
  returns_if true s m f h = (s, refl)
  returns_if false s m f (a, e) = (f a, ap (λ x. x >>= λ a. ok (f a)) e)

  module _ (e : JudgedPairExample F) (s : SplitStore F) (h : IsValid dec s) where
    swapped :
        (n m : ℕ) (a b : Bucket F) (c : Dict (ExampleKey F) ℕ)
        → PartIsValid dec n m a b c
        → Counts dec c b.keys (λ k. occurrences dec k a.keys)
    swapped n m a b c p k = p.2 k ∙ ap as_count (omega arith)

    train_returns :
        (label : JudgeLabel) → (t : SplitStore F) × (add_train_labeled dec fifo label e s ≡ ok t)
    train_returns JudgeLabel.uncertain = (s, refl)
    train_returns JudgeLabel.reusable =
        returns_if (is_some (Dict.get dec (example_key e) s.calibration_keys)) s _
          (λ r. record s { h1_train = r.0; train_keys = r.1 })
          (add_to_bucket-fifo dec s.max_h1_train s.h1_train s.train_keys
            (λ k. occurrences dec k s.h0_train.keys) h.train.1
            (swapped s.max_h0_train s.max_h1_train s.h0_train s.h1_train s.train_keys h.train)
            JudgeLabel.reusable e)
    train_returns JudgeLabel.not_reusable =
        returns_if (is_some (Dict.get dec (example_key e) s.calibration_keys)) s _
          (λ r. record s { h0_train = r.0; train_keys = r.1 })
          (add_to_bucket-fifo dec s.max_h0_train s.h0_train s.train_keys
            (λ k. occurrences dec k s.h1_train.keys) h.train.0 h.train.2 JudgeLabel.not_reusable e)

    calibration_returns :
        (label : JudgeLabel)
        → (t : SplitStore F) × (add_calibration_labeled dec fifo label e s ≡ ok t)
    calibration_returns JudgeLabel.uncertain = (s, refl)
    calibration_returns JudgeLabel.reusable =
        returns_if (is_some (Dict.get dec (example_key e) s.train_keys)) s _
          (λ r. record s { h1_calibration = r.0; calibration_keys = r.1 })
          (add_to_bucket-fifo dec s.max_h1_calibration s.h1_calibration s.calibration_keys
            (λ k. occurrences dec k s.h0_calibration.keys) h.calibration.1
            (swapped s.max_h0_calibration s.max_h1_calibration s.h0_calibration s.h1_calibration
              s.calibration_keys h.calibration)
            JudgeLabel.reusable e)
    calibration_returns JudgeLabel.not_reusable =
        returns_if (is_some (Dict.get dec (example_key e) s.train_keys)) s _
          (λ r. record s { h0_calibration = r.0; calibration_keys = r.1 })
          (add_to_bucket-fifo dec s.max_h0_calibration s.h0_calibration s.calibration_keys
            (λ k. occurrences dec k s.h1_calibration.keys) h.calibration.0 h.calibration.2
            JudgeLabel.not_reusable e)

  add_pairs-IsValid :
      (pairs : List (Bool × JudgedPairExample F)) (s : SplitStore F)
      → IsValid dec s
      → (t : SplitStore F) × (add_pairs pairs s ≡ ok t) × IsValid dec t
  unfolding add_pairs add_train add_calibration
  add_pairs-IsValid [] s h = (s, refl, h)
  add_pairs-IsValid ((false, e) ∷ more) s h =
      let (t, p) = train_returns e s h e.label in
      let (u, q, v) = add_pairs-IsValid more t (add_train-IsValid dec fifo e s t h p) in
      (u, ap (λ x. x >>= λ t. add_pairs more t) p ∙ q, v)
  add_pairs-IsValid ((true, e) ∷ more) s h =
      let (t, p) = calibration_returns e s h e.label in
      let (u, q, v) = add_pairs-IsValid more t (add_calibration-IsValid dec fifo e s t h p) in
      (u, ap (λ x. x >>= λ t. add_pairs more t) p ∙ q, v)

  -- From a new split store, whatever judged pairs are added to whatever part, with the default
  -- eviction policy no addition raises, and afterwards no pair is in both the training and the
  -- calibration part, no bucket has more examples than its capacity, the keys of a bucket are
  -- those of its examples, and each counter counts exactly the keys of its part.
  pub collected-IsValid :
      (h0_train h1_train h0_calibration h1_calibration : ℕ) (s : SplitStore F)
      (pairs : List (Bool × JudgedPairExample F))
      → init_split h0_train h1_train h0_calibration h1_calibration ≡ ok s
      → (t : SplitStore F) × (add_pairs pairs s ≡ ok t) × IsValid dec t
  unfolding init_split
  collected-IsValid a b c d s pairs h =
      let bad = a == 0 || b == 0 || c == 0 || d == 0 in
      elim (Bool-cases bad) [
        | inl e ↦ absurd (ground (arith, rw e at h))
        | inr e ↦
            let (pa, pb, pc, pd) = positive a b c d e in
            let q = ok_injective (rw e at h) in
            add_pairs-IsValid pairs s (
              subst (IsValid dec) q (record {
                train = (
                  (refl, omega arith, pa),
                  (refl, omega arith, pb),
                  λ k. unfold Dict.get in refl,
                );
                calibration = (
                  (refl, omega arith, pc),
                  (refl, omega arith, pd),
                  λ k. unfold Dict.get in refl,
                );
                disjoint = λ k. inl refl;
              }))
      ]
    where
      positive :
          (a b c d : ℕ)
          → (a == 0 || b == 0 || c == 0 || d == 0) ≡ false
          → (0 < a) × (0 < b) × (0 < c) × (0 < d)
      positive a b c d e = (ground arith, ground arith, ground arith, ground arith)
