-- ===== src/QueryLevel/Bounded.antt =====
-- src/mlcache/calibration/query_record_store.py and src/mlcache/policies/query_level_shadow.py: the
-- bounded stores hold the latest values.
use mlcache.Prelude.{
  ℕ, zero, suc, ◌+◌, ◌-◌, ◌≤◌, ◌<◌, ◌≡◌, refl, sym, ap, ◌∙◌, subst, inl, inr, List, [], ◌∷◌, ◌++◌,
  arith, leb, Bool-cases, length, drop, length-append, length-drop, ok,
}
use mlcache.Prelude.{append_nil, append_step, ok_injective, drop-append_early, drop-drop}
use mlcache.QueryLevel.Store.{BoundedStore, init, pop_first, add, add_all}

module _ {A : Type 0} where
  -- The last `n` of a list.
  abbrev pub last : ℕ → List A → List A
  last n xs = drop (length xs - n) xs

  pop_first-drop : (xs : List A) → pop_first xs ≡ drop 1 xs
  pop_first-drop [] = refl
  pop_first-drop (x ∷ xs) = refl

  -- The last values of a list of which only the last values were kept.
  last-last : (n : ℕ) (xs ys : List A) → last n (last n xs ++ ys) ≡ last n (xs ++ ys)
  last-last n xs ys =
      let k = length xs - n in
      let j = length (drop k xs ++ ys) - n in
      let size : k + j ≡ length (xs ++ ys) - n =
        omega (arith, length-append (drop k xs) ys, length-append xs ys, length-drop k xs) in
      ap (drop j) (sym (drop-append_early k xs ys (omega arith)))
      ∙ drop-drop j k (length (xs ++ ys) - n) (xs ++ ys) size

  last_all : (n : ℕ) (xs : List A) → length xs ≤ n → last n xs ≡ xs
  last_all n xs h = let e : length xs - n ≡ 0 = omega arith in ap (λ i. drop i xs) e

  length-last : (n : ℕ) (xs : List A) → length (last n xs) ≤ n
  length-last n xs = omega (arith, length-drop (length xs - n) xs)

  items-add :
      (s : BoundedStore A) (x : A)
      → 0 < s.bound
      → length s.items ≤ s.bound
      → (add s x).items ≡ last s.bound (s.items ++ x ∷ [])
  unfolding add
  items-add s x pos h = elim (Bool-cases (leb s.bound (length s.items))) [
    | inr e ↦ rw e (
        sym (last_all s.bound (s.items ++ x ∷ []) (ground (arith, length-append s.items (x ∷ [])))))
    | inl e ↦
        let one : length (s.items ++ x ∷ []) - s.bound ≡ 1 =
          ground (arith, length-append s.items (x ∷ [])) in
        rw e (
          ap (λ l. l ++ x ∷ []) (pop_first-drop s.items)
          ∙ sym (drop-append_early 1 s.items (x ∷ []) (ground arith))
          ∙ ap (λ i. drop i (s.items ++ x ∷ [])) (sym one))
  ]

  bound-add : (s : BoundedStore A) (x : A) → (add s x).bound ≡ s.bound
  unfolding add
  bound-add s x = refl

  pub add_all-last :
      (s : BoundedStore A) (xs : List A)
      → 0 < s.bound
      → length s.items ≤ s.bound
      → ((add_all s xs).items ≡ last s.bound (s.items ++ xs)) × ((add_all s xs).bound ≡ s.bound)
  unfolding add_all
  add_all-last s [] pos h = (sym (rw append_nil (last_all s.bound s.items h)), refl)
  add_all-last s (x ∷ xs) pos h =
      let e = items-add s x pos h in
      let b = bound-add s x in
      let fits : length (add s x).items ≤ (add s x).bound =
        rw e (rw b (length-last s.bound (s.items ++ x ∷ []))) in
      let (items, bound) = add_all-last (add s x) xs (omega (arith, b)) fits in
      (
        items
            ∙ ap (λ n. last n ((add s x).items ++ xs)) b
            ∙ ap (λ l. last s.bound (l ++ xs)) e
            ∙ last-last s.bound (s.items ++ x ∷ []) xs
            ∙ ap (last s.bound) (append_step s.items x xs),
        bound ∙ b,
      )

  -- A bounded store that is made with a bound and then given values one by one holds the last of
  -- all the values, as many as the bound, in their order.
  pub filled-last :
      (n : ℕ) (s : BoundedStore A) (xs : List A)
      → init n ≡ ok s
      → ((add_all s xs).items ≡ last n xs) × (length (add_all s xs).items ≤ n)
  unfolding init
  filled-last zero s xs h = absurd (ground arith)
  filled-last (suc n) s xs h =
      let q : record { bound = suc n; items = [] } ≡ s = ok_injective h in
      let e =
        (add_all-last (record { bound = suc n; items = [] }) xs (omega arith) (omega arith)).0 in
      subst (λ t. ((add_all t xs).items ≡ last (suc n) xs) × (length (add_all t xs).items ≤ suc n))
        q (e, rw e (length-last (suc n) xs))
