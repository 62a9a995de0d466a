-- ===== src/Dict/Entries.antt =====
-- What an assignment or a removal does to the entries as a whole: predicates on all of them, the
-- uniqueness of the keys, and numbers that tell the entries apart.
use mlcache.Prelude.{
  ℕ, ◌<◌, ◌≡◌, ◌≢◌, refl, ap, none, some, List, [], ◌∷◌, map, arith, All, All-map, if_pos, if_neg,
  subst, sym, ◌∙◌,
}
use mlcache.Dict.{Dict, get, assign, pop, get-assign, get-pop}

-- No number stands twice.
abbrev pub Distinct : List ℕ → Type 0
Distinct [] = Unit
Distinct (n ∷ ns) = All (λ m. m ≢ n) ns × Distinct ns

module _ {ℓ} {K V : Type ℓ} (dec : Discrete K) where
  abbrev pub UniqueKeys : Dict K V → Type ℓ
  UniqueKeys [] = Unit
  UniqueKeys ((k, v) ∷ m) = (get dec k m ≡ none) × UniqueKeys m

  assign_fresh :
      (j k : K) (v : V) (m : Dict K V)
      → ¬ (j ≡ k)
      → get dec j m ≡ none
      → get dec j (assign dec k v m) ≡ none
  assign_fresh j k v m other h = rw get-assign (ground arith)

  pop_fresh : (j k : K) (m : Dict K V) → get dec j m ≡ none → get dec j (pop dec k m) ≡ none
  pop_fresh j k m h = rw get-pop (ground arith)

  pub assign-UniqueKeys :
      (k : K) (v : V) (m : Dict K V) → UniqueKeys m → UniqueKeys (assign dec k v m)
  unfolding assign
  assign-UniqueKeys k v [] h = (unfold get in refl, tt)
  assign-UniqueKeys k v ((j, w) ∷ m) h = elim (dec j k) [
    | yes p ↦ rw (if_pos _ p) h
    | no p ↦ rw (if_neg _ p) (assign_fresh j k v m p h.0, assign-UniqueKeys k v m h.1)
  ]

  pub pop-UniqueKeys : (k : K) (m : Dict K V) → UniqueKeys m → UniqueKeys (pop dec k m)
  unfolding pop
  pop-UniqueKeys k [] h = tt
  pop-UniqueKeys k ((j, w) ∷ m) h = elim (dec j k) [
    | yes p ↦ rw (if_pos _ p) (pop-UniqueKeys k m h.1)
    | no p ↦ rw (if_neg _ p) (pop_fresh j k m h.0, pop-UniqueKeys k m h.1)
  ]

  -- The entry of a key is among the entries.
  pub get-All {κ} :
      (P : K × V → Type κ) (k : K) (m : Dict K V) (v : V)
      → All P m
      → get dec k m ≡ some v
      → P (k, v)
  unfolding get
  get-All P k [] v h e = absurd (ground arith)
  get-All P k ((j, w) ∷ m) v h e = elim (dec j k) [
    | yes p ↦ let q : (j, w) ≡ (k, v) = ground arith in subst P q h.0
    | no p ↦ get-All P k m v h.1 (ground arith)
  ]

  pub assign-All {κ} :
      (P : K × V → Type κ) (k : K) (v : V) (m : Dict K V)
      → P (k, v)
      → All P m
      → All P (assign dec k v m)
  unfolding assign
  assign-All P k v [] new h = (new, tt)
  assign-All P k v ((j, w) ∷ m) new h = elim (dec j k) [
    | yes p ↦ rw (if_pos _ p) (subst (λ i. P (i, v)) (sym p) new, h.1)
    | no p ↦ rw (if_neg _ p) (h.0, assign-All P k v m new h.1)
  ]

  pub pop-All {κ} : (P : K × V → Type κ) (k : K) (m : Dict K V) → All P m → All P (pop dec k m)
  unfolding pop
  pop-All P k [] h = tt
  pop-All P k ((j, w) ∷ m) h = elim (dec j k) [
    | yes p ↦ rw (if_pos _ p) (pop-All P k m h.1)
    | no p ↦ rw (if_neg _ p) (h.0, pop-All P k m h.1)
  ]

  module _ (f : V → ℕ) where
    abbrev pub column : Dict K V → List ℕ
    column = map (λ e. f e.1)

    pub assign-column-All {κ} :
        (Q : ℕ → Type κ) (k : K) (v : V) (m : Dict K V)
        → Q (f v)
        → All Q (column m)
        → All Q (column (assign dec k v m))
    unfolding assign
    assign-column-All Q k v [] new h = (new, tt)
    assign-column-All Q k v ((j, w) ∷ m) new h = elim (dec j k) [
      | yes p ↦ rw (if_pos _ p) (new, h.1)
      | no p ↦ rw (if_neg _ p) (h.0, assign-column-All Q k v m new h.1)
    ]

    pub pop-column-All {κ} :
        (Q : ℕ → Type κ) (k : K) (m : Dict K V) → All Q (column m) → All Q (column (pop dec k m))
    unfolding pop
    pop-column-All Q k [] h = tt
    pop-column-All Q k ((j, w) ∷ m) h = elim (dec j k) [
      | yes p ↦ rw (if_pos _ p) (pop-column-All Q k m h.1)
      | no p ↦ rw (if_neg _ p) (h.0, pop-column-All Q k m h.1)
    ]

    pub pop-Distinct :
        (k : K) (m : Dict K V) → Distinct (column m) → Distinct (column (pop dec k m))
    unfolding pop
    pop-Distinct k [] h = tt
    pop-Distinct k ((j, w) ∷ m) h = elim (dec j k) [
      | yes p ↦ rw (if_pos _ p) (pop-Distinct k m h.1)
      | no p ↦ rw (if_neg _ p) (pop-column-All (λ n. n ≢ f w) k m h.0, pop-Distinct k m h.1)
    ]

    -- A number above every number of the column tells its entry from all others.
    pub assign-Distinct :
        (k : K) (v : V) (m : Dict K V)
        → All (λ n. n < f v) (column m)
        → Distinct (column m)
        → Distinct (column (assign dec k v m))
    unfolding assign
    assign-Distinct k v [] below h = (tt, tt)
    assign-Distinct k v ((j, w) ∷ m) below h = elim (dec j k) [
      | yes p ↦
          rw (if_pos _ p)
            (All-map (λ n. n < f v) (λ n. n ≢ f v) (column m) (λ n lt. omega arith) below.1, h.1)
      | no p ↦ rw (if_neg _ p) (
        assign-column-All (λ n. n ≢ f w) k v m (omega (arith, below.0)) h.0,
        assign-Distinct k v m below.1 h.1,
      )
    ]

    -- An assignment that keeps the number of the key's entry keeps the column.
    pub assign-column_same :
        (k : K) (v w : V) (m : Dict K V)
        → get dec k m ≡ some w
        → f v ≡ f w
        → column (assign dec k v m) ≡ column m
    unfolding assign get
    assign-column_same k v w [] h e = absurd (ground arith)
    assign-column_same k v w ((j, x) ∷ m) h e = ground (arith, assign-column_same k v w m)

    pub get-column-All {κ} :
        (Q : ℕ → Type κ) (k : K) (m : Dict K V) (v : V)
        → All Q (column m)
        → get dec k m ≡ some v
        → Q (f v)
    unfolding get
    get-column-All Q k [] v h e = absurd (ground arith)
    get-column-All Q k ((j, w) ∷ m) v h e = elim (dec j k) [
      | yes p ↦ let q : w ≡ v = ground arith in subst (λ x. Q (f x)) q h.0
      | no p ↦ get-column-All Q k m v h.1 (ground arith)
    ]

    -- Two keys of a column with no repetition have different numbers.
    pub Distinct-ne :
        (j k : K) (v w : V) (m : Dict K V)
        → Distinct (column m)
        → ¬ (j ≡ k)
        → get dec j m ≡ some v
        → get dec k m ≡ some w
        → f v ≢ f w
    unfolding get
    Distinct-ne j k v w [] h other a b = absurd (ground arith)
    Distinct-ne j k v w ((i, x) ∷ m) h other a b = elim (dec i j) [
      | yes p ↦ elim (dec i k) [
        | yes q ↦ absurd (other (sym p ∙ q))
        | no q ↦
            let e : x ≡ v = ground arith in
            let g : get dec k m ≡ some w = ground arith in
            let apart : f w ≢ f x = get-column-All (λ n. n ≢ f x) k m w h.0 g in
            λ same. apart (sym same ∙ ap f (sym e))
      ]
      | no p ↦ elim (dec i k) [
        | yes q ↦
            let e : x ≡ w = ground arith in
            let g : get dec j m ≡ some v = ground arith in
            let apart : f v ≢ f x = get-column-All (λ n. n ≢ f x) j m v h.0 g in
            λ same. apart (same ∙ ap f (sym e))
        | no q ↦ Distinct-ne j k v w m h.1 other (ground arith) (ground arith)
      ]
    ]
