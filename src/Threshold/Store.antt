-- ===== src/Threshold/Store.antt =====
-- src/mlcache/calibration/threshold_store.py: `InMemoryThresholdProvider`. `==` on keys is an
-- argument; the context and the date of a record are left out, since nothing reads them.
use mlcache.Prelude.{ℕ, String, Option, none, some, [], length, Result, ok, raise, key_error}
use mlcache.Dict
use mlcache.Dict.{Dict}

pub data ThresholdScope : Type 0 where
  global local cluster_local : ThresholdScope

-- A key, and the arguments that name it.
pub record ThresholdKey : Type 0 where
  pub scorer : String
  pub scope : ThresholdScope
  pub region_id : Option String
  pub cluster_id : Option String

pub record ThresholdRecord (F : Type 0) : Type 0 where
  pub threshold : F
  pub key : ThresholdKey

abbrev pub InMemoryThresholdProvider : Type 0 → Type 0
InMemoryThresholdProvider F = Dict ThresholdKey (ThresholdRecord F)

module _ {F : Type 0} (dec : Discrete ThresholdKey) where
  abbrev pub found : Option (ThresholdRecord F) → Result F
  found none = raise key_error
  found (some r) = ok r.threshold

  unfoldable pub get_threshold : ThresholdKey → InMemoryThresholdProvider F → Result F
  get_threshold k records = found (Dict.get dec k records)

  unfoldable pub set_threshold :
      F → ThresholdKey → InMemoryThresholdProvider F → InMemoryThresholdProvider F
  set_threshold t k records = Dict.assign dec k (record { threshold = t; key = k }) records

abbrev pub clear : {F : Type 0} → InMemoryThresholdProvider F → InMemoryThresholdProvider F
clear records = []

abbrev pub size : {F : Type 0} → InMemoryThresholdProvider F → ℕ
size records = length records
