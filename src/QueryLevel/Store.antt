-- ===== src/QueryLevel/Store.antt =====
-- src/mlcache/calibration/query_record_store.py and src/mlcache/policies/query_level_shadow.py: the
-- two bounded stores, and the search for a query's latest record in src/mlcache/runtime/runtime.py.
-- Records are not mutated, so the copies that the stores make are the records.
use mlcache.Prelude.{
  ℕ, zero, suc, String, Bool, false, not, ◌&&◌, ◌||◌, Option, none, some, List, [], ◌∷◌, ◌++◌, leb,
  if◌then◌else◌, is_some, length, Result, ok, raise, value_error,
}
use mlcache.Prelude.{text_eq}
use mlcache.Types.{CacheLookup}
use mlcache.QueryLevel.{QueryCalibrationRecord}

-- A store of at most `bound` values, the oldest first.
pub record BoundedStore (A : Type 0) : Type 0 where
  pub bound : ℕ
  pub items : List A

module _ {A : Type 0} where
  unfoldable pub init : ℕ → Result (BoundedStore A)
  init zero = raise value_error
  init (suc n) = ok (record { bound = suc n; items = [] })

  -- `pop(0)`
  abbrev pub pop_first : List A → List A
  pop_first [] = []
  pop_first (x ∷ xs) = xs

  unfoldable pub add : BoundedStore A → A → BoundedStore A
  add s x = record s {
    items = (if leb s.bound (length s.items) then pop_first s.items else s.items) ++ x ∷ [];
  }

  unfoldable pub add_all : BoundedStore A → List A → BoundedStore A
  add_all s [] = s
  add_all s (x ∷ xs) = add_all (add s x) xs

  unfoldable pub clear : BoundedStore A → BoundedStore A
  clear s = record s { items = [] }

-- `a or b` on texts that may be missing.
abbrev pub text_or : Option String → Option String → Option String
text_or none b = b
text_or (some a) b = if text_eq a "" then b else some a

abbrev pub or_query : Option String → String → String
or_query none stripped = if text_eq stripped "" then "anonymous_query" else stripped
or_query (some a) stripped =
    if text_eq a "" then (if text_eq stripped "" then "anonymous_query" else stripped) else a

abbrev pub has_query : String → Option String → Bool
has_query query none = false
has_query query (some q) = text_eq q query

module _ {F : Type 0} where
  -- `attributes.get("query_id") or attributes.get("request_id")`
  abbrev pub explicit_query_id : CacheLookup F → Option String
  explicit_query_id request = text_or request.metadata.query_id request.metadata.request_id

  -- `_query_id`; `strip` is `str.strip`.
  unfoldable pub query_id : (String → String) → CacheLookup F → String
  query_id strip request = or_query (explicit_query_id request) (strip request.query)

  -- The test of `_latest_query_calibration_record` on one record.
  abbrev pub matches : (String → String) → CacheLookup F → QueryCalibrationRecord F → Bool
  matches strip request r =
      text_eq r.query_id (query_id strip request)
      || (not (is_some (explicit_query_id request)) && has_query request.query r.query)

  -- The last record that matches.
  unfoldable pub latest :
      (String → String)
      → CacheLookup F
      → List (QueryCalibrationRecord F)
      → Option (QueryCalibrationRecord F)
  latest strip request [] = none
  latest strip request (r ∷ rs) = elim (latest strip request rs) [
    | some found ↦ some found
    | none ↦ if matches strip request r then some r else none
  ]
