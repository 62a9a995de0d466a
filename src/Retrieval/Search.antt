-- ===== src/Retrieval/Search.antt =====
-- src/mlcache/retrieval/in_memory.py: `search`. The scores are computed on lists, one operation of
-- numpy after the other.
use mlcache.Prelude.{
  ℕ, zero, suc, ◌+◌, min, String, Bool, false, ◌||◌, Option, none, some, List, [], ◌∷◌, map, ltb,
  ◌==◌, if◌then◌else◌, str_dec, take, Result, ok, raise, key_error,
}
use mlcache.Prelude.{◌>>=◌, item_at, text_eq}
use mlcache.Dict
use mlcache.Dict.{Dict}
use mlcache.Float.{FloatOps}
use mlcache.Types.{CacheKey}
use mlcache.Oracle.{VectorSearchResult}
use mlcache.Retrieval.{Similarity, cosine, dot, Numpy, InMemoryVectorStore, on_some}
use mlcache.QueryLevel.{feq}

-- `arange(n)`, from a number on.
abbrev pub arange : ℕ → ℕ → List ℕ
arange zero from = []
arange (suc n) from = from ∷ arange n (from + 1)

-- Python's `==` of `str | None` values with a text.
abbrev pub same_namespace : String → Option String → Bool
same_namespace ns none = false
same_namespace ns (some m) = text_eq m ns

-- A call for each item, in order.
abbrev pub for_each : {A B : Type 0} → (A → Result B) → List A → Result (List B)
for_each f [] = ok []
for_each f (x ∷ xs) = f x >>= λ y. for_each f xs >>= λ ys. ok (y ∷ ys)

module _ {F : Type 0} ⦃fl : FloatOps F⦄ where
  -- `divide(dots, denom, out=zeros, where=denom > 0.0)`
  abbrev pub quotients : List F → List F → List F
  quotients [] denom = []
  quotients (d ∷ ds) [] = []
  quotients (d ∷ ds) (n ∷ ns) =
      (if fl.lt (fl.of_ℕ 0) n then fl.div d n else fl.of_ℕ 0) ∷ quotients ds ns

  unfoldable pub similarity_scores : Numpy F → Similarity → List F → List F → List F → List F
  similarity_scores np dot norms query dots = dots
  similarity_scores np cosine norms query dots =
      quotients dots (map (λ n. fl.mul n (np.norm query)) norms)

  -- `where(mask, scores, -inf)`
  abbrev pub masked_by : String → List (Option String) → List F → List F
  masked_by ns [] scores = []
  masked_by ns (m ∷ ms) [] = []
  masked_by ns (m ∷ ms) (s ∷ ss) =
      (if same_namespace ns m then s else fl.neg_inf) ∷ masked_by ns ms ss

  abbrev pub masked : Option String → List (Option String) → List F → List F
  masked none spaces scores = scores
  masked (some ns) spaces scores = masked_by ns spaces scores

  -- `<` on the keys `(-score, key)`; `str_lt` is Python's `<` on texts.
  abbrev pub goes_before : (String → String → Bool) → F × CacheKey → F × CacheKey → Bool
  goes_before str_lt (a, j) (b, k) =
      if feq (fl.neg a) (fl.neg b) then str_lt j k else fl.lt (fl.neg a) (fl.neg b)

  -- Python's stable sort.
  abbrev pub insert :
      (String → String → Bool) → F × CacheKey → List (F × CacheKey) → List (F × CacheKey)
  insert str_lt x [] = x ∷ []
  insert str_lt x (y ∷ ys) =
      let rest = insert str_lt x ys in if goes_before str_lt x y then x ∷ y ∷ ys else y ∷ rest

  unfoldable pub sorted :
      (String → String → Bool) → List (F × CacheKey) → List (F × CacheKey) → List (F × CacheKey)
  sorted str_lt done [] = done
  sorted str_lt done (x ∷ xs) = sorted str_lt (insert str_lt x done) xs

  -- The score and the key of a row.
  abbrev pub scored_row : List F → List CacheKey → ℕ → Result (F × CacheKey)
  scored_row scores keys i = item_at scores i >>= λ s. item_at keys i >>= λ k. ok (s, k)

  -- `self._entries[key]`
  abbrev pub entry_of :
      Dict CacheKey (VectorSearchResult F) → CacheKey → Result (VectorSearchResult F)
  entry_of entries key = elim (Dict.get str_dec key entries) [
    | none ↦ raise key_error
    | some e ↦ ok e
  ]

  unfoldable pub collect :
      Dict CacheKey (VectorSearchResult F)
      → List (F × CacheKey)
      → Result (List (VectorSearchResult F))
  collect entries [] = ok []
  collect entries ((score, key) ∷ more) =
      let rest = collect entries more in
      if feq score fl.neg_inf
      then rest
      else (entry_of entries key >>= λ e. rest >>= λ rs. ok (record e { score = score } ∷ rs))

  abbrev pub top_idx : Numpy F → ℕ → ℕ → List F → List ℕ
  top_idx np k count scores = if ltb k count then np.top scores k else arange count 0

  unfoldable pub rank_rows :
      Numpy F
      → (String → String → Bool)
      → InMemoryVectorStore F
      → ℕ
      → List F
      → Result (List (VectorSearchResult F))
  rank_rows np str_lt s k scores =
      for_each (scored_row scores s.idx_to_key) (top_idx np (min k s.count) s.count scores)
      >>= λ rows. collect s.entries (sorted str_lt [] rows)

  unfoldable pub search :
      Numpy F
      → (String → String → Bool)
      → InMemoryVectorStore F
      → List F
      → Option String
      → ℕ
      → Result (List (VectorSearchResult F))
  search np str_lt s query namespace top_k =
      if s.count == 0 || top_k == 0
      then ok []
      else (on_some s.matrix (λ rows. np.dots (take s.count rows) query) >>= λ dots.
          on_some s.norms
            (λ ns. ok (similarity_scores np s.similarity (take s.count ns) query dots))
          >>= λ scores.
              rank_rows np str_lt s top_k (masked namespace (take s.count s.namespaces) scores))
