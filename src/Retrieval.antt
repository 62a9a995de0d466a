-- ===== src/Retrieval.antt =====
-- src/mlcache/retrieval/in_memory.py: the in-memory vector store. The matrix and the norms are
-- lists of rows and of numbers; what numpy computes is a parameter, `Numpy`. The payload of a
-- result, which nothing in serving reads, is left out, and a copy of a result is the result.
pub mod Delete
pub mod Tables
pub mod Valid
pub mod Upserted
pub mod Deleted
pub mod Refinement
pub mod Search
pub mod Ranks
pub mod Found
use mlcache.Prelude.{
  ℕ, zero, suc, ◌+◌, ◌-◌, ◌*◌, ◌%◌, ◌≤◌, ◌<◌, min, max, String, ◌≡◌, refl, sym, ap, ◌∙◌, subst, ◌≢◌,
  ◌↔◌, ◌⊎◌, inl, inr, ite, if_pos, if_neg, Bool, true, false, not, ◌&&◌, ◌||◌, Option, none, some,
  List, [], ◌∷◌, ◌++◌, map, arith, ltb, leb, ◌==◌, if◌then◌else◌, ltb→lt, leb→le, Bool-cases,
  Option-cases, is_some, if_true, if_false, str_dec, length, get_elem?, set, take, drop, count_if,
  All, get_elem?-some, get_elem?-All, length-append, length-drop, length-map, count_if-le,
  All-append, All-map, Error, Result, ok, raise, value_error, key_error, index_error, runtime_error,
}
use mlcache.Prelude.{pop_last, item_at, set_item, type_error, text_eq}
use mlcache.Prelude.{◌>>=◌ as bind}
use mlcache.Prelude.Exec.{Exec, pure, modify, ◌>>◌, ◌>>=◌}
use mlcache.Dict
use mlcache.Dict.{Dict}
use mlcache.Float.{FloatOps}
use mlcache.Types.{CacheKey, CacheEntry}
use mlcache.Oracle.{VectorSearchResult}

pub data Similarity : Type 0 where
  cosine dot : Similarity

-- The calls of numpy.
pub record Numpy (F : Type 0) : Type 0 where
  -- The row of this width that an assignment of the vector writes: numpy raises on a vector that
  -- does not fit.
  pub as_row : ℕ → List F → Result (List F)
  pub norm : List F → F
  -- `rows @ query`
  pub dots : List (List F) → List F → Result (List F)
  -- The first `k` positions of `argpartition(-scores, k - 1)`.
  pub top : List F → ℕ → List ℕ

pub record InMemoryVectorStore (F : Type 0) : Type 0 where
  pub similarity : Similarity
  pub entries : Dict CacheKey (VectorSearchResult F)
  pub key_to_idx : Dict CacheKey ℕ
  pub idx_to_key : List CacheKey
  pub namespaces : List (Option String)
  pub matrix : Option (List (List F))
  pub norms : Option (List F)
  pub dim : Option ℕ
  pub count : ℕ

abbrev pub replicate : {A : Type 0} → ℕ → A → List A
replicate zero a = []
replicate (suc n) a = a ∷ replicate n a

abbrev pub width : Option ℕ → ℕ
width none = 0
width (some d) = d

-- What a method call on `None` does.
abbrev pub on_some : {A B : Type 0} → Option A → (A → Result B) → Result B
on_some none f = raise type_error
on_some (some a) f = f a

-- An assignment of one item to another index, `xs[i] = xs[j]`.
abbrev pub copy_item : {A : Type 0} → List A → ℕ → ℕ → Result (List A)
copy_item xs i j = bind (item_at xs j) (λ a. set_item xs i a)

module _ {F : Type 0} where
  abbrev pub empty_store : Similarity → InMemoryVectorStore F
  empty_store sim = record {
    similarity = sim;
    entries = [];
    key_to_idx = [];
    idx_to_key = [];
    namespaces = [];
    matrix = none;
    norms = none;
    dim = none;
    count = 0;
  }

  unfoldable pub init : String → Result (InMemoryVectorStore F)
  init sim =
      if text_eq sim "cosine"
      then ok (empty_store cosine)
      else if text_eq sim "dot"
      then ok (empty_store dot)
      else raise value_error

  unfoldable pub clear : InMemoryVectorStore F → InMemoryVectorStore F
  clear s = empty_store s.similarity

  unfoldable pub get : InMemoryVectorStore F → CacheKey → Option (VectorSearchResult F)
  get s key = Dict.get str_dec key s.entries

  -- The first embedding fixes the width of the matrix.
  abbrev pub set_dim : List F → InMemoryVectorStore F → InMemoryVectorStore F
  set_dim embedding s = record s {
    dim = elim s.dim [ none ↦ some (length embedding) | some d ↦ some d ];
  }

  abbrev pub writes :
      {A : Type 0}
      → Result A
      → (A → InMemoryVectorStore F → InMemoryVectorStore F)
      → Exec (InMemoryVectorStore F) (Unit {0})
  writes (ok a) f s = (ok tt, f a s)
  writes (raise e) f s = (raise e, s)

module _ {F : Type 0} ⦃fl : FloatOps F⦄ where
  abbrev pub zero_rows : ℕ → ℕ → List (List F)
  zero_rows n d = replicate n (replicate d (fl.of_ℕ 0))

  -- A matrix of another capacity that starts with the old rows.
  abbrev pub grown : ℕ → ℕ → List (List F) → List (List F)
  grown capacity d rows = rows ++ zero_rows (capacity - length rows) d

  abbrev pub grown_norms : ℕ → List F → List F
  grown_norms capacity ns = ns ++ replicate (capacity - length ns) (fl.of_ℕ 0)

  -- `_ensure_capacity`; the norms have been there since the matrix was.
  unfoldable pub ensure_capacity : ℕ → InMemoryVectorStore F → InMemoryVectorStore F
  ensure_capacity needed s = elim s.matrix [
    | none ↦ record s {
      matrix = some (zero_rows (max 16 needed) (width s.dim));
      norms = some (replicate (max 16 needed) (fl.of_ℕ 0));
    }
    | some rows ↦
        if ltb (length rows) needed
        then record s {
          matrix = some (grown (max needed (length rows * 2)) (width s.dim) rows);
          norms = elim s.norms [
            | none ↦ none
            | some ns ↦ some (grown_norms (max needed (length rows * 2)) ns)
          ];
        }
        else s
  ]

  -- The row of a new key.
  abbrev pub add_key : VectorSearchResult F → InMemoryVectorStore F → InMemoryVectorStore F
  add_key r s =
      let t = ensure_capacity (s.count + 1) s in
      record t {
        key_to_idx = Dict.assign str_dec r.cache_key s.count t.key_to_idx;
        idx_to_key = t.idx_to_key ++ r.cache_key ∷ [];
        namespaces = t.namespaces ++ r.metadata.namespace ∷ [];
        count = s.count + 1;
      }

  -- `self._matrix[idx, :] = embedding`
  unfoldable pub write_row : Numpy F → ℕ → List F → Exec (InMemoryVectorStore F) (Unit {0})
  write_row np idx v s =
      writes
        (on_some s.matrix (λ rows.
          bind (item_at rows idx)
            (λ old. bind (np.as_row (length old) v) (λ row. set_item rows idx row))))
        (λ rows t. record t { matrix = some rows }) s

  -- `self._norms[idx] = norm`
  unfoldable pub write_norm : ℕ → F → Exec (InMemoryVectorStore F) (Unit {0})
  write_norm idx n s =
      writes (on_some s.norms (λ ns. set_item ns idx n)) (λ ns t. record t { norms = some ns }) s

  -- `self._namespaces[idx] = namespace`
  unfoldable pub write_namespace : ℕ → Option String → Exec (InMemoryVectorStore F) (Unit {0})
  write_namespace idx ns s =
      writes (set_item s.namespaces idx ns) (λ nss t. record t { namespaces = nss }) s

  -- The end of `_add_result`, for the row at this index.
  unfoldable pub place :
      Numpy F → VectorSearchResult F → ℕ → Exec (InMemoryVectorStore F) (Unit {0})
  place np r idx =
      write_row np idx r.embedding
      >> write_norm idx (np.norm r.embedding)
      >> modify (λ t. record t { entries = Dict.assign str_dec r.cache_key r t.entries })

  unfoldable pub add_at :
      Numpy F → VectorSearchResult F → Option ℕ → Exec (InMemoryVectorStore F) (Unit {0})
  add_at np r none s = place np r s.count (add_key r s)
  add_at np r (some idx) s = (write_namespace idx r.metadata.namespace >> place np r idx) s

  unfoldable pub add_result :
      Numpy F → VectorSearchResult F → Exec (InMemoryVectorStore F) (Unit {0})
  add_result np r s =
      add_at np r (Dict.get str_dec r.cache_key s.key_to_idx) (set_dim r.embedding s)

  abbrev pub result_of : CacheEntry F → VectorSearchResult F
  result_of entry = record {
    cache_key = entry.cache_key;
    embedding = entry.embedding;
    score = fl.of_ℕ 1;
    query = some entry.query;
    metadata = entry.metadata;
  }

  unfoldable pub upsert : Numpy F → CacheEntry F → Exec (InMemoryVectorStore F) (Unit {0})
  upsert np entry = add_result np (result_of entry)
