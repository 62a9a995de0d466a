-- ===== src/Types.antt =====
-- src/mlcache/semantic_types.py: the data that the components exchange. `F` is the type of
-- floating-point numbers. What only observers read (`evidence`, the dates) is left out.
use mlcache.Prelude.{ℕ, String, Bool, Option, List}

abbrev pub CacheKey : Type 0
CacheKey = String

abbrev pub Response : Type 0
Response = String

pub data OracleDecisionStatus : Type 0 where
  hit miss abstain : OracleDecisionStatus

pub data TieMode : Type 0 where
  ge gt : TieMode

-- `attributes` holds the three keys that the code reads: `top_k` and the two request identifiers.
pub record CacheMetadata : Type 0 where
  pub namespace : Option String
  pub top_k : Option ℕ
  pub query_id : Option String
  pub request_id : Option String

pub record CacheEntry (F : Type 0) : Type 0 where
  pub cache_key : CacheKey
  pub query : String
  pub response : Response
  pub embedding : List F
  pub metadata : CacheMetadata

pub record CacheLookup (F : Type 0) : Type 0 where
  pub query : String
  pub embedding : List F
  pub namespace : Option String
  pub metadata : CacheMetadata

pub record OracleDecision (F : Type 0) : Type 0 where
  pub status : OracleDecisionStatus
  pub accepted : Bool
  pub cache_key : Option CacheKey
  pub score : Option F
  pub threshold : Option F
  pub scorer : Option String
  pub candidate_count : ℕ
  pub accepted_candidate_rank : Option ℕ
  pub reason : Option String

-- The values of a metadata dictionary (`dict[str, Any]`) that the code puts there and reads.
pub data Value (F : Type 0) : Type 0 where
  null : Value F
  boolean : Bool → Value F
  number : F → Value F
  integer : ℕ → Value F
  text : String → Value F
  numbers : List F → Value F
  integers : List ℕ → Value F
  booleans : List Bool → Value F
