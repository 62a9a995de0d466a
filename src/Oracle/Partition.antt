-- ===== src/Oracle/Partition.antt =====
-- src/mlcache/oracle/trainable.py: the split of the rows into training, calibration and evaluation.
use mlcache.Prelude.{
  ℕ, zero, suc, ◌+◌, ◌-◌, ◌≤◌, ◌<◌, ◌≡◌, refl, sym, ap, ◌∙◌, subst, false, List, [], ◌∷◌, ◌++◌,
  arith, ltb, if◌then◌else◌, length, take, drop, length-drop,
}
use mlcache.Float.{FloatOps}
use mlcache.Oracle.{Rows}
use mlcache.Oracle.Split.{is_empty, train_count, calib_count, cut, split_rows}

module _ {A : Type 0} where
  take-drop : (n : ℕ) (xs : List A) → take n xs ++ drop n xs ≡ xs
  take-drop zero xs = refl
  take-drop (suc n) [] = refl
  take-drop (suc n) (x ∷ xs) = ap (λ ys. x ∷ ys) (take-drop n xs)

  drop_nil : (n : ℕ) → drop {A = A} n [] ≡ []
  drop_nil zero = refl
  drop_nil (suc n) = refl

  drop-drop : (n k : ℕ) (xs : List A) → drop k (drop n xs) ≡ drop (n + k) xs
  drop-drop zero k xs = ap (λ j. drop j xs) (omega arith)
  drop-drop (suc n) k [] = drop_nil k ∙ sym (drop_nil (suc n + k))
  drop-drop (suc n) k (x ∷ xs) =
      let e : suc (n + k) ≡ suc n + k = omega arith in
      drop-drop n k xs ∙ ap (λ j. drop j (x ∷ xs)) e

  take_not_empty : (n : ℕ) (xs : List A) → 1 ≤ n → 1 ≤ length xs → is_empty (take n xs) ≡ false
  take_not_empty zero xs p q = absurd (omega arith)
  take_not_empty (suc n) [] p q = absurd (omega arith)
  take_not_empty (suc n) (x ∷ xs) p q = refl

module _ {F : Type 0} where
  abbrev pub joined : Rows F × Rows F × Rows F → Rows F
  joined p = p.0 ++ (p.1 ++ p.2)

  joined-cut : (n k : ℕ) (rows : Rows F) → joined (cut n k rows) ≡ rows
  joined-cut n k rows =
      ap (λ ys. take n rows ++ (take k (drop n rows) ++ ys)) (sym (drop-drop n k rows))
      ∙ ap (λ ys. take n rows ++ ys) (take-drop k (drop n rows))
      ∙ take-drop n rows

  -- The first part of a cut that has room for both is not empty, and nor is the second.
  cut_not_empty :
      (n k : ℕ) (rows : Rows F)
      → 1 ≤ n
      → 1 ≤ k
      → n + k ≤ length rows
      → (is_empty (cut n k rows).0 ≡ false) × (is_empty (cut n k rows).1 ≡ false)
  cut_not_empty n k rows p q r = (
    take_not_empty n rows p (omega arith),
    take_not_empty k (drop n rows) q (omega (arith, length-drop n rows)),
  )

  -- The three parts of a split, put together again, are the rows.
  abbrev pub IsPartition : Rows F → Rows F × Rows F × Rows F → Type 0
  IsPartition rows p = (joined p ≡ rows) × (is_empty p.0 ≡ false) × (is_empty p.1 ≡ false)

  cut-IsPartition :
      (n k : ℕ) (rows : Rows F)
      → 1 ≤ n
      → 1 ≤ k
      → n + k ≤ length rows
      → IsPartition rows (cut n k rows)
  cut-IsPartition n k rows p q r =
      (joined-cut n k rows, (cut_not_empty n k rows p q r).0, (cut_not_empty n k rows p q r).1)

module _ {F : Type 0} (fl : FloatOps F) where
  at_least_one : (n : ℕ) → (1 ≤ train_count fl n) × (1 ≤ calib_count fl n)
  unfolding train_count calib_count
  at_least_one n = (omega arith, omega arith)

  train_room :
      (n : ℕ)
      → calib_count fl n < n
      → (1 ≤ (
          if ltb n (train_count fl n + calib_count fl n)
          then n - calib_count fl n
          else train_count fl n))
        × ((if ltb n (train_count fl n + calib_count fl n)
                then n - calib_count fl n
                else train_count fl n)
              + calib_count fl n
            ≤ n)
  train_room n h = ground (arith, at_least_one n)

module _ {F : Type 0} ⦃fl : FloatOps F⦄ where
  -- The split of two or more rows loses and repeats none of them: the training, the calibration
  -- and the evaluation part, put together, are the rows in their order, and the first two are not
  -- empty. It is assumed that a fifth of the number of rows, rounded down but at least one, is
  -- less than that number.
  pub split_rows-IsPartition :
      (rows : Rows F)
      → 2 ≤ length rows
      → calib_count fl (length rows) < length rows
      → IsPartition rows (split_rows rows)
  unfolding split_rows
  split_rows-IsPartition [] h k = absurd (omega arith)
  split_rows-IsPartition (a ∷ []) h k = absurd (omega arith)
  split_rows-IsPartition (a ∷ b ∷ []) h k = (refl, refl, refl)
  split_rows-IsPartition (a ∷ b ∷ c ∷ rows) h k =
      let n = length rows + 3 in
      let size : length (a ∷ b ∷ c ∷ rows) ≡ n = omega arith in
      let t =
        (if ltb n (train_count fl n + calib_count fl n)
          then n - calib_count fl n
          else train_count fl n) in
      let fits : calib_count fl n < n = subst (λ j. calib_count fl j < j) size k in
      cut-IsPartition t (calib_count fl n) (a ∷ b ∷ c ∷ rows) (train_room fl n fits).0
        (at_least_one fl n).1
        (subst (λ j. t + calib_count fl n ≤ j) (sym size) (train_room fl n fits).1)
