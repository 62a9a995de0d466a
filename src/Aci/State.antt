-- ===== src/Aci/State.antt =====
-- src/mlcache/adaptive/aci_controller.py: `state_dict` and `load_state_dict`. `float()`, `int()`
-- and `bool()` convert values as Python does, but for two things: a text that is to be a number is
-- a ValueError also where Python can read it as one, and a negative number that is to be an integer
-- is 0.
use mlcache.Prelude.{
  ℕ, zero, suc, String, Bool, true, false, not, ◌&&◌, ltb, map, Option, none, some, List, [], ◌∷◌,
  if◌then◌else◌, str_dec, length, Result, ok, raise, value_error, key_error,
}
use mlcache.Prelude.{◌>>=◌, type_error}
use mlcache.Dict.{Dict, get}
use mlcache.Float.{FloatOps}
use mlcache.Types.{
  TieMode, Value, null, boolean, number, integer, text, numbers, integers, booleans,
}
use mlcache.Aci.{Config, Controller, trim}
use mlcache.Prelude.{text_eq}

abbrev pub State : Type 0 → Type 0
State F = Dict String (Value F)

unfoldable pub tie_mode_value : TieMode → String
tie_mode_value TieMode.ge = "ge"
tie_mode_value TieMode.gt = "gt"

-- `TieMode(value)`
unfoldable pub tie_mode_of : String → Result TieMode
tie_mode_of s =
    if text_eq s "ge"
    then ok TieMode.ge
    else if text_eq s "gt"
    then ok TieMode.gt
    else raise value_error

abbrev pub one_or_zero : Bool → ℕ
one_or_zero true = 1
one_or_zero false = 0

abbrev pub all_false : ℕ → List Bool
all_false zero = []
all_false (suc n) = false ∷ all_false n

module _ {F : Type 0} where
  unfoldable pub option_value : Option F → Value F
  option_value none = null
  option_value (some x) = number x

  unfoldable pub state_dict : Controller F → State F
  state_dict c =
      ("alpha_target", number c.config.alpha_target)
      ∷ ("alpha_t", number c.alpha_t)
      ∷ ("gamma", number c.config.gamma)
      ∷ ("alpha_min", number c.config.alpha_min)
      ∷ ("alpha_max", number c.config.alpha_max)
      ∷ ("buffer_size", integer c.config.buffer_size)
      ∷ ("min_buffer_size", integer c.config.min_buffer_size)
      ∷ ("fallback_threshold", option_value c.fallback_threshold)
      ∷ ("tie_mode", text (tie_mode_value c.config.tie_mode))
      ∷ ("wilson_gate", boolean c.config.wilson_gate)
      ∷ ("wilson_z", number c.config.wilson_z)
      ∷ ("wilson_window", integer c.config.wilson_window)
      ∷ ("buffer", numbers c.buffer)
      ∷ ("buffer_origin", booleans c.buffer_origin)
      ∷ ("ctrl_outcomes", integers c.ctrl_outcomes)
      ∷ ("update_count", integer c.update_count)
      ∷ ("h0_seen", integer c.h0_seen)
      ∷ ("blocked_loosen_count", integer c.blocked_loosen_count)
      ∷ []

  -- `state[key]`
  abbrev pub item : Option (Value F) → Result (Value F)
  item none = raise key_error
  item (some v) = ok v

module _ {F : Type 0} ⦃fl : FloatOps F⦄ where
  -- `float(value)`
  abbrev pub as_number : Value F → Result F
  as_number (number x) = ok x
  as_number (integer n) = ok (fl.of_ℕ n)
  as_number (boolean b) = ok (fl.of_ℕ (one_or_zero b))
  as_number (text s) = raise value_error
  as_number _ = raise type_error

  -- `int(value)` of a float.
  abbrev pub truncated : F → Result ℕ
  truncated x = if fl.is_finite x then ok (fl.floor x) else raise value_error

  -- `int(value)`
  abbrev pub as_integer : Value F → Result ℕ
  as_integer (integer n) = ok n
  as_integer (number x) = truncated x
  as_integer (boolean b) = ok (one_or_zero b)
  as_integer (text s) = raise value_error
  as_integer _ = raise type_error

  abbrev pub is_nonzero : F → Bool
  is_nonzero x = not (fl.le x (fl.of_ℕ 0) && fl.le (fl.of_ℕ 0) x)

  -- `bool(value)`
  abbrev pub as_boolean : Value F → Result Bool
  as_boolean (boolean b) = ok b
  as_boolean (integer n) = ok (ltb 0 n)
  as_boolean (number x) = ok (is_nonzero x)
  as_boolean null = ok false
  as_boolean (text s) = ok (not (text_eq s ""))
  as_boolean (numbers xs) = ok (ltb 0 (length xs))
  as_boolean (integers xs) = ok (ltb 0 (length xs))
  as_boolean (booleans xs) = ok (ltb 0 (length xs))

  unfoldable pub as_option : Value F → Result (Option F)
  as_option null = ok none
  as_option v = as_number v >>= λ x. ok (some x)

  -- `TieMode(value)`
  abbrev pub as_tie_mode : Value F → Result TieMode
  as_tie_mode (text s) = tie_mode_of s
  as_tie_mode _ = raise value_error

  -- `float(v)` of each item of a list.
  abbrev pub as_numbers : Value F → Result (List F)
  as_numbers (numbers xs) = ok xs
  as_numbers (integers ns) = ok (map (λ n. fl.of_ℕ n) ns)
  as_numbers (booleans bs) = ok (map (λ b. fl.of_ℕ (one_or_zero b)) bs)
  as_numbers (text s) = if text_eq s "" then ok [] else raise value_error
  as_numbers _ = raise type_error

  abbrev pub all_truncated : List F → Result (List ℕ)
  all_truncated [] = ok []
  all_truncated (x ∷ xs) = truncated x >>= λ n. all_truncated xs >>= λ ns. ok (n ∷ ns)

  -- `int(v)` of each item of a list.
  abbrev pub as_integers : Value F → Result (List ℕ)
  as_integers (integers ns) = ok ns
  as_integers (booleans bs) = ok (map one_or_zero bs)
  as_integers (numbers xs) = all_truncated xs
  as_integers (text s) = if text_eq s "" then ok [] else raise value_error
  as_integers _ = raise type_error

  -- The origins, or as many `False` as there are scores; `bool(v)` of each item. A text
  -- raises here, though Python takes its letters for items.
  abbrev pub as_origins : ℕ → Option (Value F) → Result (List Bool)
  as_origins n none = ok (all_false n)
  as_origins n (some null) = ok (all_false n)
  as_origins n (some (booleans bs)) = ok bs
  as_origins n (some (integers ns)) = ok (map (λ k. ltb 0 k) ns)
  as_origins n (some (numbers xs)) = ok (map is_nonzero xs)
  as_origins n (some _) = raise type_error

  -- `state.get(key, default)`, read by `f`.
  abbrev pub read_or : {A : Type 0} → (Value F → Result A) → A → Option (Value F) → Result A
  read_or f default none = ok default
  read_or f default (some v) = f v

  abbrev pub load_config : State F → Result (Config F)
  load_config s = do
    alpha_target ← item (get str_dec "alpha_target" s) >>= as_number
    gamma ← item (get str_dec "gamma" s) >>= as_number
    alpha_min ← item (get str_dec "alpha_min" s) >>= as_number
    alpha_max ← item (get str_dec "alpha_max" s) >>= as_number
    buffer_size ← item (get str_dec "buffer_size" s) >>= as_integer
    min_buffer_size ← item (get str_dec "min_buffer_size" s) >>= as_integer
    tie_mode ← item (get str_dec "tie_mode" s) >>= as_tie_mode
    wilson_gate ← read_or as_boolean false (get str_dec "wilson_gate" s)
    wilson_z ← read_or as_number (fl.decimal 196 2) (get str_dec "wilson_z" s)
    wilson_window ← read_or as_integer 1000 (get str_dec "wilson_window" s)
    ok (record {
      alpha_target = alpha_target;
      gamma = gamma;
      alpha_min = alpha_min;
      alpha_max = alpha_max;
      buffer_size = buffer_size;
      min_buffer_size = min_buffer_size;
      tie_mode = tie_mode;
      wilson_gate = wilson_gate;
      wilson_z = wilson_z;
      wilson_window = wilson_window;
    })

  -- The controller after `load_state_dict`, whatever it was before.
  unfoldable pub load_state_dict : State F → Result (Controller F)
  load_state_dict s = do
    config ← load_config s
    alpha_t ← item (get str_dec "alpha_t" s) >>= as_number
    fallback ← item (get str_dec "fallback_threshold" s) >>= as_option
    scores ← read_or as_numbers [] (get str_dec "buffer" s)
    origins ← as_origins (length (trim config.buffer_size scores)) (get str_dec "buffer_origin" s)
    outcomes ← read_or as_integers [] (get str_dec "ctrl_outcomes" s)
    update_count ← read_or as_integer 0 (get str_dec "update_count" s)
    h0_seen ← read_or as_integer 0 (get str_dec "h0_seen" s)
    blocked ← read_or as_integer 0 (get str_dec "blocked_loosen_count" s)
    ok (record {
      config = config;
      fallback_threshold = fallback;
      alpha_t = alpha_t;
      buffer = trim config.buffer_size scores;
      buffer_origin = trim config.buffer_size origins;
      ctrl_outcomes = trim config.wilson_window outcomes;
      update_count = update_count;
      h0_seen = h0_seen;
      blocked_loosen_count = blocked;
    })
