-- ===== src/Versioning/Strict.antt =====
-- Strict JSON: `validate_strict_json_value` of crates/graphrefly/src/json.rs.
use Prim.Native.String.{◌++◌ as str_append}
use graphrefly_rs.Prelude.{
  ℕ, zero, suc, ◌||◌, Bool, Option, none, some, List, [], ◌∷◌, String, str_eq, leb, ltb, ℤ, pos,
  negsuc, if◌then◌else◌,
}
use graphrefly_rs.Versioning.{Result, ok, err, ◌and_then◌, max_safe_integer}

-- The JSON values of serde_json: how they are built, and the questions that are asked of one. An object
-- is built from the entries that are inserted into its map, in turn. Of the floating-point number
-- `x` of a JSON number, `is_subnormal` is `x.abs() > 0.0 && x.abs() < f64::MIN_POSITIVE`, and
-- `is_unsafe` is `x.fract() == 0.0 && x.abs() > JS_MAX_SAFE_INTEGER_F64`; `show` is `to_string`.
pub record JsonValues : Type 1 where
  pub Value : Type 0
  pub Float : Type 0
  pub null : Value
  pub number : ℕ → Value
  pub text : String → Value
  pub object : List (String × Value) → Value
  pub as_object : Value → Option (List (String × Value))
  pub as_array : Value → Option (List Value)
  pub as_u64 : Value → Option ℕ
  pub as_i64 : Value → Option ℤ
  pub as_f64 : Value → Option Float
  pub as_str : Value → Option String
  pub is_null : Value → Bool
  pub is_number : Value → Bool
  pub number_text : Value → String
  pub is_subnormal : Float → Bool
  pub is_unsafe : Float → Bool
  pub show : ℕ → String

-- Not between the safe integers.
unfoldable pub out_of_safe : ℤ → Bool
out_of_safe (pos n) = ltb max_safe_integer n
out_of_safe (negsuc n) = leb max_safe_integer n

module _ (json : JsonValues) where
  unfoldable pub check_integer : json.Value → String → Result {0} Unit
  check_integer value path =
      let outside = err (
        str_append "strictJsonCodec: JSON integer at "
          (str_append path " is outside the safe integer range")) in
      elim (json.as_i64 value) [
        | some i ↦ if out_of_safe i then outside else ok tt
        | none ↦ elim (json.as_u64 value) [
          | some n ↦ if ltb max_safe_integer n then outside else ok tt
          | none ↦ ok tt
        ]
      ]

  unfoldable pub check_float : json.Value → String → Result {0} Unit
  check_float value path = elim (json.as_f64 value) [
    | none ↦ ok tt
    | some x ↦
        if json.is_subnormal x
        then err (
            str_append "strictJsonCodec: JSON number at "
              (str_append path " is subnormal and not strict canonical JSON compatible"))
        else if json.is_unsafe x
        then err (
            str_append "strictJsonCodec: JSON integer at "
              (str_append path " is outside the safe integer range"))
        else ok tt
  ]

  unfoldable pub check_number : json.Value → String → Result {0} Unit
  unfolding check_integer check_float
  check_number value path =
      let shown = json.number_text value in
      if str_eq shown "-0.0" || str_eq shown "-0"
      then err (
          str_append "strictJsonCodec: JSON number at "
            (str_append path " is not strict canonical JSON compatible"))
      else (check_integer value path and_then λ safe. check_float value path)

  unfoldable pub each_field :
      (json.Value → String → Result {0} Unit)
      → List (String × json.Value)
      → String
      → Result {0} Unit
  each_field visit [] path = ok tt
  each_field visit ((key, value) ∷ rest) path =
      visit value (str_append path (str_append "." key)) and_then λ known.
      each_field visit rest path

  unfoldable pub each_value :
      (json.Value → String → Result {0} Unit) → ℕ → List json.Value → String → Result {0} Unit
  each_value visit index [] path = ok tt
  each_value visit index (value ∷ rest) path =
      visit value (str_append path (str_append "[" (str_append (json.show index) "]")))
      and_then λ known. each_value visit (suc index) rest path

  -- The number of levels that may still be entered: `129 - depth`.
  unfoldable pub validate_inner : ℕ → json.Value → String → Result {0} Unit
  unfolding each_field each_value check_number
  validate_inner zero value path =
      err (
        str_append "strictJsonCodec: JSON value at " (str_append path " exceeds maximum depth 128"))
  validate_inner (suc levels) value path = elim (json.as_object value) [
    | some fields ↦ each_field (validate_inner levels) fields path
    | none ↦ elim (json.as_array value) [
      | some values ↦ each_value (validate_inner levels) 0 values path
      | none ↦ if json.is_number value then check_number value path else ok tt
    ]
  ]

  unfoldable pub validate_strict_json_value : json.Value → String → Result {0} Unit
  unfolding validate_inner
  validate_strict_json_value value path = validate_inner 129 value path
