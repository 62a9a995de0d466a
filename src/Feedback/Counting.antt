-- ===== src/Feedback/Counting.antt =====
-- src/mlcache/feedback/store.py: the counters of the split store count the keys of its buckets.
use mlcache.Prelude.{
  ℕ, zero, suc, ◌+◌, ◌-◌, ◌≤◌, ◌<◌, ◌≡◌, refl, sym, ap, ◌∙◌, subst, ◌⊎◌, inl, inr, ite, if_pos,
  if_neg, Option, none, some, List, [], ◌∷◌, ◌++◌, map, arith, leb, leb→le, Bool-cases, length,
  get_elem?, get_elem?-some, length-append, length-map, Result, ok,
}
use mlcache.Prelude.{◌>>=◌, bind_ok, ok_injective, item_at}
use mlcache.Dict
use mlcache.Dict.{Dict}
use mlcache.Oracle.Feedback.{JudgeLabel}
use mlcache.Feedback.{
  fifo, JudgedPairExample, ExampleKey, Bucket, EvictionPolicy, room, checked_index, remove_at,
  amount, decrement, increment, evict, add_to_bucket, example_key,
}

length-remove_at :
    {A : Type 0} (xs : List A) (i : ℕ) → i < length xs → length (remove_at xs i) + 1 ≡ length xs
length-remove_at [] i h = absurd (omega arith)
length-remove_at (x ∷ xs) zero h = omega arith
length-remove_at (x ∷ xs) (suc i) h = omega (arith, length-remove_at xs i (omega arith))

map-remove_at :
    {A B : Type 0} (f : A → B) (xs : List A) (i : ℕ)
    → map f (remove_at xs i) ≡ remove_at (map f xs) i
map-remove_at f [] i = refl
map-remove_at f (x ∷ xs) zero = refl
map-remove_at f (x ∷ xs) (suc i) = ap (λ l. f x ∷ l) (map-remove_at f xs i)

map-append : {A B : Type 0} (f : A → B) (xs ys : List A) → map f (xs ++ ys) ≡ map f xs ++ map f ys
map-append f [] ys = refl
map-append f (x ∷ xs) ys = ap (λ l. f x ∷ l) (map-append f xs ys)

-- A positive count as a counter has it.
abbrev pub as_count : ℕ → Option ℕ
as_count zero = none
as_count (suc n) = some (suc n)

as_count_pos : (n : ℕ) → 0 < n → as_count n ≡ some n
as_count_pos zero h = absurd (omega arith)
as_count_pos (suc n) h = refl

module _ {F : Type 0} (dec : Discrete (ExampleKey F)) where
  -- How often a key stands in a list.
  abbrev pub occurrences : ExampleKey F → List (ExampleKey F) → ℕ
  occurrences k [] = 0
  occurrences k (j ∷ js) = ite (dec j k) 1 0 + occurrences k js

  occurrences-append :
      (k : ExampleKey F) (xs ys : List (ExampleKey F))
      → occurrences k (xs ++ ys) ≡ occurrences k xs + occurrences k ys
  occurrences-append k [] ys = omega arith
  occurrences-append k (x ∷ xs) ys = omega (arith, occurrences-append k xs ys)

  occurrences-remove_at :
      (k : ExampleKey F) (xs : List (ExampleKey F)) (i : ℕ) (j : ExampleKey F)
      → get_elem? xs i ≡ some j
      → occurrences k xs ≡ ite (dec j k) 1 0 + occurrences k (remove_at xs i)
  occurrences-remove_at k [] i j h = absurd (ground arith)
  occurrences-remove_at k (x ∷ xs) zero j h =
      let q : x ≡ j = ground arith in ap (λ y. ite (dec y k) 1 0 + occurrences k xs) q
  occurrences-remove_at k (x ∷ xs) (suc i) j h = omega (arith, occurrences-remove_at k xs i j h)

  -- The counter counts the keys of a bucket and those elsewhere.
  abbrev pub Counts : Dict (ExampleKey F) ℕ → List (ExampleKey F) → (ExampleKey F → ℕ) → Type 0
  Counts c ks others =
      (k : ExampleKey F) → Dict.get dec k c ≡ as_count (occurrences k ks + others k)

  amount_lem :
      (k : ExampleKey F) (c : Dict (ExampleKey F) ℕ) (n : ℕ)
      → Dict.get dec k c ≡ as_count n
      → amount dec k c ≡ n
  amount_lem k c zero h = rw (h, amount) refl
  amount_lem k c (suc n) h = rw (h, amount) refl

  increment-Counts :
      (key : ExampleKey F) (c : Dict (ExampleKey F) ℕ) (ks : List (ExampleKey F))
      (others : ExampleKey F → ℕ)
      → Counts c ks others
      → Counts (increment dec key c) (ks ++ key ∷ []) others
  unfolding increment
  increment-Counts key c ks others h k = elim (dec key k) [
    | yes p ↦
        let a : amount dec key c ≡ occurrences k ks + others k =
          subst (λ y. amount dec key c ≡ occurrences y ks + others y) p
            (amount_lem key c (occurrences key ks + others key) (h key)) in
        let o = occurrences-append k ks (key ∷ []) in
        let one : ◌≡◌ {A = ℕ} (ite (dec key k) 1 0) 1 = if_pos (dec key k) p 1 0 in
        let total : amount dec key c + 1 ≡ occurrences k (ks ++ key ∷ []) + others k =
          omega (arith, a, o, one) in
        subst
          (λ y.
            Dict.get dec y (Dict.assign dec key (amount dec key c + 1) c)
            ≡ some (amount dec key c + 1))
          p (Dict.get-assign_self dec key (amount dec key c + 1) c)
        ∙ ap (λ n. some n) total
        ∙ sym (as_count_pos (occurrences k (ks ++ key ∷ []) + others k) (omega (arith, total)))
    | no p ↦
        let o = occurrences-append k ks (key ∷ []) in
        let none_ : ◌≡◌ {A = ℕ} (ite (dec key k) 1 0) 0 = if_neg (dec key k) p 1 0 in
        Dict.get-assign_ne dec key k (amount dec key c + 1) c p
        ∙ h k
        ∙ ap as_count (omega (arith, o, none_))
  ]

  decrement-Counts :
      (key : ExampleKey F) (c : Dict (ExampleKey F) ℕ) (ks : List (ExampleKey F)) (i : ℕ)
      (others : ExampleKey F → ℕ)
      → get_elem? ks i ≡ some key
      → Counts c ks others
      → Counts (decrement dec key c) (remove_at ks i) others
  unfolding decrement
  decrement-Counts key c ks i others e h k = elim (dec key k) [
    | yes p ↦
        let a : amount dec key c ≡ occurrences k ks + others k =
          subst (λ y. amount dec key c ≡ occurrences y ks + others y) p
            (amount_lem key c (occurrences key ks + others key) (h key)) in
        let o = occurrences-remove_at k ks i key e in
        let one : ◌≡◌ {A = ℕ} (ite (dec key k) 1 0) 1 = if_pos (dec key k) p 1 0 in
        elim (Bool-cases (leb (amount dec key c) 1)) [
          | inl b ↦
              let zero_left : 0 ≡ occurrences k (remove_at ks i) + others k =
                omega (arith, a, o, one, leb→le _ _ b) in
              rw b (
                subst (λ y. Dict.get dec y (Dict.pop dec key c) ≡ none) p
                  (Dict.get-pop_self dec key c)
                ∙ ap as_count zero_left)
          | inr b ↦
              let left : amount dec key c - 1 ≡ occurrences k (remove_at ks i) + others k =
                omega (arith, a, o, one) in
              let more : 1 < amount dec key c = ground arith in
              rw b (
                subst
                  (λ y.
                    Dict.get dec y (Dict.assign dec key (amount dec key c - 1) c)
                    ≡ some (amount dec key c - 1))
                  p (Dict.get-assign_self dec key (amount dec key c - 1) c)
                ∙ ap (λ n. some n) left
                ∙ sym (
                    as_count_pos (occurrences k (remove_at ks i) + others k)
                      (omega (arith, left, more))))
        ]
    | no p ↦
        let o = occurrences-remove_at k ks i key e in
        let none_ : ◌≡◌ {A = ℕ} (ite (dec key k) 1 0) 0 = if_neg (dec key k) p 1 0 in
        let same = h k ∙ ap (λ m. as_count (m + others k)) (omega (arith, o, none_)) in
        elim (Bool-cases (leb (amount dec key c) 1)) [
          | inl b ↦ rw b (Dict.get-pop_ne dec key k c p ∙ same)
          | inr b ↦ rw b (Dict.get-assign_ne dec key k (amount dec key c - 1) c p ∙ same)
        ]
  ]

item_at_ok :
    {A : Type 0} (xs : List A) (i : ℕ) (a : A) → item_at xs i ≡ ok a → get_elem? xs i ≡ some a
item_at_ok [] i a h = absurd (ground arith)
item_at_ok (x ∷ xs) zero a h = ap (λ y. some y) (ok_injective h)
item_at_ok (x ∷ xs) (suc i) a h = item_at_ok xs i a h

-- The index is none while there is room, and an index of the bucket otherwise.
room_lem :
    {F : Type 0} (policy : EvictionPolicy F) (label : JudgeLabel) (capacity : ℕ)
    (bucket : List (JudgedPairExample F)) (e : JudgedPairExample F) (x : Option ℕ)
    → room policy label capacity bucket e ≡ ok x
    → ((x ≡ none) × (length bucket < capacity)) ⊎ ((i : ℕ) × (x ≡ some i) × (i < length bucket))
room_lem policy label capacity bucket e x h = elim (Bool-cases (leb capacity (length bucket))) [
  | inr b ↦ inl (sym (ok_injective (rw b at h)), ground arith)
  | inl b ↦
      let (c, p, q) =
        bind_ok (policy label bucket e) (λ i. checked_index (length bucket) i >>= λ j. ok (some j))
          x (rw b at h) in
      let (j, u, v) = bind_ok (checked_index (length bucket) c) (λ j. ok (some j)) x q in
      inr (j, sym (ok_injective v), in_range c j u)
]
  where
    in_range : (c : Option ℕ) (j : ℕ) → checked_index (length bucket) c ≡ ok j → j < length bucket
    in_range none j u = absurd (ground arith)
    in_range (some i) j u = ground arith

module _ {F : Type 0} (dec : Discrete (ExampleKey F)) where
  -- The keys are those of the examples, which fit in the bucket; it may hold some.
  abbrev pub Holds : ℕ → Bucket F → Type 0
  Holds capacity b =
      (b.keys ≡ map example_key b.examples) × (length b.examples ≤ capacity) × (0 < capacity)

  module _ (capacity : ℕ) (b : Bucket F) (c : Dict (ExampleKey F) ℕ) (others : ExampleKey F → ℕ)
      (holds : Holds capacity b) (counts : Counts dec c b.keys others) where
    -- The bucket and the counter after an eviction leave room for one more.
    abbrev Evicted : Bucket F × Dict (ExampleKey F) ℕ → Type 0
    Evicted (b', c') =
        (b'.keys ≡ map example_key b'.examples)
        × (length b'.examples < capacity)
        × Counts dec c' b'.keys others
        × ((k : ExampleKey F) → occurrences dec k b'.keys ≤ occurrences dec k b.keys)

    evict_lem :
        (x : Option ℕ) (r : Bucket F × Dict (ExampleKey F) ℕ)
        → ((x ≡ none) × (length b.examples < capacity))
          ⊎ ((i : ℕ) × (x ≡ some i) × (i < length b.examples))
        → evict dec x b c ≡ ok r
        → Evicted r
    unfolding evict
    evict_lem none r (inl (p, below)) h =
        subst Evicted (ok_injective h) (holds.0, below, counts, λ k. omega arith)
    evict_lem none r (inr (i, p, lt)) h = absurd (ground arith)
    evict_lem (some i) r (inl (p, below)) h = absurd (ground arith)
    evict_lem (some i) r (inr (j, p, lt)) h =
        let (key, e, f) = bind_ok (item_at b.keys i) _ r h in
        let at_key : get_elem? b.keys i ≡ some key = item_at_ok b.keys i key e in
        let q : i ≡ j = ground arith in
        subst Evicted (ok_injective f) (
          ap (λ l. remove_at l i) holds.0 ∙ sym (map-remove_at example_key b.examples i),
          omega (arith, length-remove_at b.examples i (omega (arith, lt, q)), holds.1),
          decrement-Counts dec key c b.keys i others at_key counts,
          λ k. omega (arith, occurrences-remove_at dec k b.keys i key at_key),
        )

    pub add_to_bucket_lem :
        (policy : EvictionPolicy F) (label : JudgeLabel) (e : JudgedPairExample F)
        (r : Bucket F × Dict (ExampleKey F) ℕ)
        → add_to_bucket dec policy b c capacity label e (example_key e) ≡ ok r
        → Holds capacity r.0
          × Counts dec r.1 r.0.keys others
          × ((k : ExampleKey F)
              → ¬ (example_key e ≡ k)
              → occurrences dec k r.0.keys ≤ occurrences dec k b.keys)
    unfolding add_to_bucket
    add_to_bucket_lem policy label e r h =
        let (x, p, q) = bind_ok (room policy label capacity b.examples e) _ r h in
        let (s, u, v) = bind_ok (evict dec x b c) _ r q in
        let (whole, below, counted, fewer) =
          evict_lem x s (room_lem policy label capacity b.examples e x p) u in
        subst
          (λ (y : Bucket F × Dict (ExampleKey F) ℕ).
            Holds capacity y.0
            × Counts dec y.1 y.0.keys others
            × ((k : ExampleKey F)
                → ¬ (example_key e ≡ k)
                → occurrences dec k y.0.keys ≤ occurrences dec k b.keys))
          (ok_injective v)
          (
            (
              ap (λ l. l ++ example_key e ∷ []) whole
                  ∙ sym (map-append example_key s.0.examples (e ∷ [])),
              omega (arith, length-append s.0.examples (e ∷ []), below),
              holds.2,
            ),
            increment-Counts dec (example_key e) s.1 s.0.keys others counted,
            λ k ne.
                let zero_ : ◌≡◌ {A = ℕ} (ite (dec (example_key e) k) 1 0) 0 =
                  if_neg (dec (example_key e) k) ne 1 0 in
                omega
                  (arith, fewer k, occurrences-append dec k s.0.keys (example_key e ∷ []), zero_),
          )

    room-fifo :
        (label : JudgeLabel) (e : JudgedPairExample F)
        → (x : Option ℕ) × (room fifo label capacity b.examples e ≡ ok x)
          × ((x ≡ none) ⊎ ((x ≡ some 0) × (0 < length b.examples)))
    room-fifo label e = elim (Bool-cases (leb capacity (length b.examples))) [
      | inr n ↦ (none, rw n refl, inl refl)
      | inl f ↦
          let pos : 0 < length b.examples = omega (arith, leb→le _ _ f, holds.2) in
          let checked : checked_index (length b.examples) (some 0) ≡ ok 0 = ground arith in
          (some 0, rw f (ap (λ m. m >>= λ j. ok (some j)) checked), inr (refl, pos))
    ]

    evict_fifo :
        (x : Option ℕ)
        → (x ≡ none) ⊎ ((x ≡ some 0) × (0 < length b.examples))
        → (r : Bucket F × Dict (ExampleKey F) ℕ) × (evict dec x b c ≡ ok r)
    unfolding evict
    evict_fifo none h = ((b, c), refl)
    evict_fifo (some (suc i)) h = absurd (ground arith)
    evict_fifo (some zero) h =
        let sizes : length b.keys ≡ length b.examples =
          ap length holds.0 ∙ length-map example_key b.examples in
        let pos : 0 < length b.examples = ground arith in
        let (k, e) = get_elem?-some b.keys 0 (omega (arith, sizes, pos)) in
        (
          (
            record { examples = remove_at b.examples 0; keys = remove_at b.keys 0 },
            decrement dec k c,
          ),
          rw (e, item_at) refl,
        )

    -- The policy that the store has by default never fails.
    pub add_to_bucket-fifo :
        (label : JudgeLabel) (e : JudgedPairExample F)
        → (r : Bucket F × Dict (ExampleKey F) ℕ) × (add_to_bucket dec fifo b c capacity label e
              (example_key e)
            ≡ ok r)
    unfolding add_to_bucket
    add_to_bucket-fifo label e =
        let (x, p, q) = room-fifo label e in
        let (s, u) = evict_fifo x q in
        (
          (
            record { examples = s.0.examples ++ e ∷ []; keys = s.0.keys ++ example_key e ∷ [] },
            increment dec (example_key e) s.1,
          ),
          rw p (
              ap
                (λ (m : Result (Bucket F × Dict (ExampleKey F) ℕ)). m >>= λ (b', c'). ok (
                  record { examples = b'.examples ++ e ∷ []; keys = b'.keys ++ example_key e ∷ [] },
                  increment dec (example_key e) c',
                ))
                u),
        )
