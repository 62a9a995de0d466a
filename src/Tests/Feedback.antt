-- ===== src/Tests/Feedback.antt =====
-- Examples for the store of judged pairs.
use mlcache.Prelude.{
  ℕ, String, ◌≡◌, refl, sym, ap, ◌∙◌, subst, inl, inr, Bool, true, false, Option, none, some, List,
  [], ◌∷◌, arith, ◌==◌, Bool-cases, str_dec, Result, ok, raise,
}
use mlcache.Prelude.{ok_injective}
use mlcache.Oracle.Feedback.{JudgeLabel}
use mlcache.Feedback.{
  JudgedPairExample, ExampleKey, SplitStore, no_examples, init_split, add_train, fifo,
}
use mlcache.Feedback.Disjoint.{IsValid, add_train-IsValid}
use mlcache.Feedback.Collected.{add_pairs, collected-IsValid}

nat_dec : Discrete ℕ
nat_dec a b = elim (Bool-cases (a == b)) [
  | inl e ↦ yes (ground arith)
  | inr e ↦ no (λ p. ground arith)
]

pub option_dec : {A : Type 0} → Discrete A → Discrete (Option A)
option_dec dec none none = yes refl
option_dec dec none (some b) = no (λ p. ground arith)
option_dec dec (some a) none = no (λ p. ground arith)
option_dec dec (some a) (some b) = elim (dec a b) [
  | yes p ↦ yes (ap (λ x. some x) p)
  | no p ↦ no (λ q. p (ground arith))
]

list_dec : {A : Type 0} → Discrete A → Discrete (List A)
list_dec dec [] [] = yes refl
list_dec dec [] (y ∷ ys) = no (λ p. ground arith)
list_dec dec (x ∷ xs) [] = no (λ p. ground arith)
list_dec dec (x ∷ xs) (y ∷ ys) = elim (dec x y) [
  | no p ↦ no (λ q. p (ground arith))
  | yes p ↦ elim (list_dec dec xs ys) [
    | no q ↦ no (λ r. q (ground arith))
    | yes q ↦ yes (ap (λ z. z ∷ xs) p ∙ ap (λ zs. y ∷ zs) q)
  ]
]

label_dec : Discrete JudgeLabel
label_dec JudgeLabel.reusable JudgeLabel.reusable = yes refl
label_dec JudgeLabel.not_reusable JudgeLabel.not_reusable = yes refl
label_dec JudgeLabel.uncertain JudgeLabel.uncertain = yes refl
label_dec JudgeLabel.reusable JudgeLabel.not_reusable = no (λ p. ground arith)
label_dec JudgeLabel.reusable JudgeLabel.uncertain = no (λ p. ground arith)
label_dec JudgeLabel.not_reusable JudgeLabel.reusable = no (λ p. ground arith)
label_dec JudgeLabel.not_reusable JudgeLabel.uncertain = no (λ p. ground arith)
label_dec JudgeLabel.uncertain JudgeLabel.reusable = no (λ p. ground arith)
label_dec JudgeLabel.uncertain JudgeLabel.not_reusable = no (λ p. ground arith)

abbrev key_of : String → Option String → List ℕ → JudgeLabel → ExampleKey ℕ
key_of q c f l = record { query = q; candidate_key = c; features = f; label = l }

key_dec : Discrete (ExampleKey ℕ)
key_dec a b = elim (str_dec a.query b.query) [
  | no p ↦ no (λ e. p (ap (λ (x : ExampleKey ℕ). x.query) e))
  | yes p ↦ elim (option_dec str_dec a.candidate_key b.candidate_key) [
    | no q ↦ no (λ e. q (ap (λ (x : ExampleKey ℕ). x.candidate_key) e))
    | yes q ↦ elim (list_dec nat_dec a.features b.features) [
      | no r ↦ no (λ e. r (ap (λ (x : ExampleKey ℕ). x.features) e))
      | yes r ↦ elim (label_dec a.label b.label) [
        | no t ↦ no (λ e. t (ap (λ (x : ExampleKey ℕ). x.label) e))
        | yes t ↦ yes (
            ap (λ x. key_of x a.candidate_key a.features a.label) p
            ∙ ap (λ x. key_of b.query x a.features a.label) q
            ∙ ap (λ x. key_of b.query b.candidate_key x a.label) r
            ∙ ap (λ x. key_of b.query b.candidate_key b.features x) t)
      ]
    ]
  ]
]

abbrev a_pair : String → JudgeLabel → JudgedPairExample ℕ
a_pair q l = record { query = q; candidate_key = some "a"; features = 3 ∷ []; label = l }

abbrev pairs : List (Bool × JudgedPairExample ℕ)
pairs =
    (false, a_pair "q" JudgeLabel.reusable)
    ∷ (true, a_pair "q" JudgeLabel.reusable)
    ∷ (true, a_pair "r" JudgeLabel.not_reusable)
    ∷ (true, a_pair "s" JudgeLabel.not_reusable)
    ∷ []

abbrev new_store : SplitStore ℕ
new_store = record {
  max_h0_train = 1;
  max_h1_train = 2;
  max_h0_calibration = 1;
  max_h1_calibration = 3;
  h0_train = no_examples;
  h1_train = no_examples;
  h0_calibration = no_examples;
  h1_calibration = no_examples;
  train_keys = [];
  calibration_keys = [];
}

made : init_split 1 2 1 3 ≡ ok new_store
unfolding init_split
made = refl

collected-IsValid_example :
    (t : SplitStore ℕ) × (add_pairs key_dec pairs new_store ≡ ok t) × IsValid key_dec t
collected-IsValid_example = collected-IsValid key_dec 1 2 1 3 new_store pairs made

new_store-IsValid : IsValid key_dec new_store
unfolding add_pairs
new_store-IsValid =
    let (t, run, valid) = collected-IsValid key_dec 1 2 1 3 new_store [] made in
    subst (IsValid key_dec) (sym (ok_injective run)) valid

abbrev or_store : Result (SplitStore ℕ) → SplitStore ℕ
or_store (ok t) = t
or_store (raise e) = new_store

abbrev trained : SplitStore ℕ
trained = or_store (add_train key_dec fifo (a_pair "q" JudgeLabel.reusable) new_store)

trained_lem : add_train key_dec fifo (a_pair "q" JudgeLabel.reusable) new_store ≡ ok trained
unfolding add_train mlcache.Feedback.add_to_bucket mlcache.Dict.get mlcache.Feedback.evict
trained_lem = refl

add_train-IsValid_example : IsValid key_dec trained
add_train-IsValid_example =
    add_train-IsValid key_dec fifo (a_pair "q" JudgeLabel.reusable) new_store trained
      new_store-IsValid trained_lem
