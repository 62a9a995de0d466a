-- ===== src/Feedback.antt =====
-- src/mlcache/feedback/store.py: the stores of judged pairs. Of an example, the model has what the
-- stores read.
pub mod Counting
pub mod Disjoint
pub mod Collected
pub mod Shadow
use mlcache.Prelude.{
  ℕ, zero, suc, ◌+◌, ◌-◌, ◌*◌, ◌%◌, ◌≤◌, ◌<◌, min, max, String, ◌≡◌, refl, sym, ap, ◌∙◌, subst, ◌≢◌,
  ◌↔◌, ◌⊎◌, inl, inr, ite, if_pos, if_neg, Bool, true, false, not, ◌&&◌, ◌||◌, Option, none, some,
  List, [], ◌∷◌, ◌++◌, map, arith, ltb, leb, ◌==◌, if◌then◌else◌, ltb→lt, leb→le, Bool-cases,
  Option-cases, is_some, if_true, if_false, str_dec, length, get_elem?, set, take, drop, count_if,
  All, get_elem?-some, get_elem?-All, length-append, length-drop, length-map, count_if-le,
  All-append, All-map, Error, Result, ok, raise, value_error, key_error, index_error, runtime_error,
}
use mlcache.Prelude.{◌>>=◌, item_at}
use mlcache.Dict
use mlcache.Dict.{Dict}
use mlcache.Types.{CacheKey}
use mlcache.Oracle.Feedback.{JudgeLabel}

pub record JudgedPairExample (F : Type 0) : Type 0 where
  pub query : String
  pub candidate_key : Option CacheKey
  pub features : List F
  pub label : JudgeLabel

-- `xs.pop(i)` for an index in range.
abbrev pub remove_at : {A : Type 0} → List A → ℕ → List A
remove_at [] i = []
remove_at (x ∷ xs) zero = xs
remove_at (x ∷ xs) (suc i) = x ∷ remove_at xs i

-- A `TrainingExampleEvictionPolicy`; it may raise, and none is an index below 0.
abbrev pub EvictionPolicy : Type 0 → Type 0
EvictionPolicy F = JudgeLabel → List (JudgedPairExample F) → JudgedPairExample F → Result (Option ℕ)

abbrev pub fifo : {F : Type 0} → EvictionPolicy F
fifo label existing incoming = ok (some 0)

-- The test of the index, against a bucket of this length.
abbrev pub checked_index : ℕ → Option ℕ → Result ℕ
checked_index n none = raise index_error
checked_index n (some i) = if leb n i then raise index_error else ok i

-- The index to evict from a full bucket, if it is full.
abbrev pub room :
    {F : Type 0}
    → EvictionPolicy F
    → JudgeLabel
    → ℕ
    → List (JudgedPairExample F)
    → JudgedPairExample F
    → Result (Option ℕ)
room policy label capacity bucket incoming =
    if leb capacity (length bucket)
    then (policy label bucket incoming >>= λ i.
        checked_index (length bucket) i >>= λ j. ok (some j))
    else ok none

abbrev pub remove_if : {A : Type 0} → Option ℕ → List A → List A
remove_if none xs = xs
remove_if (some i) xs = remove_at xs i

-- `InMemoryJudgeTrainingStore`
pub record JudgeTrainingStore (F : Type 0) : Type 0 where
  pub max_h0 : ℕ
  pub max_h1 : ℕ
  pub h0 : List (JudgedPairExample F)
  pub h1 : List (JudgedPairExample F)

module _ {F : Type 0} where
  unfoldable pub init : ℕ → ℕ → Result (JudgeTrainingStore F)
  init max_h0 max_h1 =
      if max_h0 == 0 || max_h1 == 0
      then raise value_error
      else ok (record { max_h0 = max_h0; max_h1 = max_h1; h0 = []; h1 = [] })

  unfoldable pub add :
      EvictionPolicy F → JudgedPairExample F → JudgeTrainingStore F → Result (JudgeTrainingStore F)
  add policy e s = elim e.label [
    | JudgeLabel.uncertain ↦ ok s
    | JudgeLabel.reusable ↦ room policy JudgeLabel.reusable s.max_h1 s.h1 e >>= λ i.
        ok (record s { h1 = remove_if i s.h1 ++ e ∷ [] })
    | JudgeLabel.not_reusable ↦ room policy JudgeLabel.not_reusable s.max_h0 s.h0 e >>= λ i.
        ok (record s { h0 = remove_if i s.h0 ++ e ∷ [] })
  ]

-- `_example_key`
pub record ExampleKey (F : Type 0) : Type 0 where
  pub query : String
  pub candidate_key : Option CacheKey
  pub features : List F
  pub label : JudgeLabel

-- A list of examples with the list of their keys.
pub record Bucket (F : Type 0) : Type 0 where
  pub examples : List (JudgedPairExample F)
  pub keys : List (ExampleKey F)

-- `InMemorySplitJudgeTrainingStore`
pub record SplitStore (F : Type 0) : Type 0 where
  pub max_h0_train : ℕ
  pub max_h1_train : ℕ
  pub max_h0_calibration : ℕ
  pub max_h1_calibration : ℕ
  pub h0_train : Bucket F
  pub h1_train : Bucket F
  pub h0_calibration : Bucket F
  pub h1_calibration : Bucket F
  pub train_keys : Dict (ExampleKey F) ℕ
  pub calibration_keys : Dict (ExampleKey F) ℕ

module _ {F : Type 0} where
  abbrev pub example_key : JudgedPairExample F → ExampleKey F
  example_key e = record {
    query = e.query;
    candidate_key = e.candidate_key;
    features = e.features;
    label = e.label;
  }

  abbrev pub no_examples : Bucket F
  no_examples = record { examples = []; keys = [] }

  unfoldable pub init_split : ℕ → ℕ → ℕ → ℕ → Result (SplitStore F)
  init_split h0t h1t h0c h1c =
      if h0t == 0 || h1t == 0 || h0c == 0 || h1c == 0
      then raise value_error
      else ok (record {
        max_h0_train = h0t;
        max_h1_train = h1t;
        max_h0_calibration = h0c;
        max_h1_calibration = h1c;
        h0_train = no_examples;
        h1_train = no_examples;
        h0_calibration = no_examples;
        h1_calibration = no_examples;
        train_keys = [];
        calibration_keys = [];
      })

-- `dec` is the comparison of keys, Python's `==` on tuples.
module _ {F : Type 0} (dec : Discrete (ExampleKey F)) where
  abbrev pub amount : ExampleKey F → Dict (ExampleKey F) ℕ → ℕ
  amount k c = elim (Dict.get dec k c) [ none ↦ 0 | some n ↦ n ]

  -- `c[k] -= 1`, and the deletion of what is not positive.
  unfoldable pub decrement : ExampleKey F → Dict (ExampleKey F) ℕ → Dict (ExampleKey F) ℕ
  decrement k c =
      if leb (amount k c) 1 then Dict.pop dec k c else Dict.assign dec k (amount k c - 1) c

  unfoldable pub increment : ExampleKey F → Dict (ExampleKey F) ℕ → Dict (ExampleKey F) ℕ
  increment k c = Dict.assign dec k (amount k c + 1) c

  -- The eviction at an index. Both lists have it, since they have the same length.
  unfoldable pub evict :
      Option ℕ → Bucket F → Dict (ExampleKey F) ℕ → Result (Bucket F × Dict (ExampleKey F) ℕ)
  evict none b c = ok (b, c)
  evict (some i) b c = item_at b.keys i >>= λ k.
      ok (record { examples = remove_at b.examples i; keys = remove_at b.keys i }, decrement k c)

  -- `_add_to_bucket`
  unfoldable pub add_to_bucket :
      EvictionPolicy F
      → Bucket F
      → Dict (ExampleKey F) ℕ
      → ℕ
      → JudgeLabel
      → JudgedPairExample F
      → ExampleKey F
      → Result (Bucket F × Dict (ExampleKey F) ℕ)
  add_to_bucket policy b c capacity label e key = room policy label capacity b.examples e >>= λ i.
      evict i b c >>= λ (b', c').
      ok (record { examples = b'.examples ++ e ∷ []; keys = b'.keys ++ key ∷ [] }, increment key c')

  abbrev pub add_train_labeled :
      EvictionPolicy F → JudgeLabel → JudgedPairExample F → SplitStore F → Result (SplitStore F)
  add_train_labeled policy JudgeLabel.uncertain e s = ok s
  add_train_labeled policy JudgeLabel.reusable e s =
      if is_some (Dict.get dec (example_key e) s.calibration_keys)
      then ok s
      else add_to_bucket policy s.h1_train s.train_keys s.max_h1_train JudgeLabel.reusable e
          (example_key e)
        >>= λ (b, c). ok (record s { h1_train = b; train_keys = c })
  add_train_labeled policy JudgeLabel.not_reusable e s =
      if is_some (Dict.get dec (example_key e) s.calibration_keys)
      then ok s
      else add_to_bucket policy s.h0_train s.train_keys s.max_h0_train JudgeLabel.not_reusable e
          (example_key e)
        >>= λ (b, c). ok (record s { h0_train = b; train_keys = c })

  unfoldable pub add_train :
      EvictionPolicy F → JudgedPairExample F → SplitStore F → Result (SplitStore F)
  add_train policy e s = add_train_labeled policy e.label e s

  abbrev pub add_calibration_labeled :
      EvictionPolicy F → JudgeLabel → JudgedPairExample F → SplitStore F → Result (SplitStore F)
  add_calibration_labeled policy JudgeLabel.uncertain e s = ok s
  add_calibration_labeled policy JudgeLabel.reusable e s =
      if is_some (Dict.get dec (example_key e) s.train_keys)
      then ok s
      else add_to_bucket policy s.h1_calibration s.calibration_keys s.max_h1_calibration
          JudgeLabel.reusable e (example_key e)
        >>= λ (b, c). ok (record s { h1_calibration = b; calibration_keys = c })
  add_calibration_labeled policy JudgeLabel.not_reusable e s =
      if is_some (Dict.get dec (example_key e) s.train_keys)
      then ok s
      else add_to_bucket policy s.h0_calibration s.calibration_keys s.max_h0_calibration
          JudgeLabel.not_reusable e (example_key e)
        >>= λ (b, c). ok (record s { h0_calibration = b; calibration_keys = c })

  unfoldable pub add_calibration :
      EvictionPolicy F → JudgedPairExample F → SplitStore F → Result (SplitStore F)
  add_calibration policy e s = add_calibration_labeled policy e.label e s

  -- `h0` and `h1`
  unfoldable pub h0 : SplitStore F → List (JudgedPairExample F)
  h0 s = s.h0_train.examples ++ s.h0_calibration.examples

  unfoldable pub h1 : SplitStore F → List (JudgedPairExample F)
  h1 s = s.h1_train.examples ++ s.h1_calibration.examples
