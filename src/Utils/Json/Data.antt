-- ===== src/Utils/Json/Data.antt =====
-- common/utils/src/utils_json.c: the data of a value. The conversions of sscanf are parameters.
use iot_hub_device_c_sdk.Prelude.{
  ℕ, List, ℤ, Bool, not, Option, none, some, ltb, ◌==◌, eq_bytes, take, length, [], ◌∷◌,
  if◌then◌else◌,
}
use iot_hub_device_c_sdk.Utils.Json.Scan.{JsonElement}

-- sscanf with the formats for int32_t and uint32_t: the number, if there is one.
pub record Scanf : Type 0 where
  pub int32 : List ℕ → Option ℤ
  pub uint32 : List ℕ → Option ℕ

-- sizeof(value_tmp)
abbrev pub value_tmp_size : ℕ
value_tmp_size = 32

-- UtilsJsonValue, as its bytes
unfoldable pub value_text : JsonElement → List ℕ
value_text v = take v.element_len v.pos_begin

-- What utils_json_value_data_get comes to: a failure, the data, or a read behind value_tmp, which has no NUL.
pub data Converted (A : Type 0) : Type 0 where
  no_data unterminated : Converted A
  converted : A → Converted A

abbrev pub scanned : {A : Type 0} → Option A → Converted A
scanned none = no_data
scanned (some a) = converted a

-- utils_json_value_data_get for one type: a value that fills value_tmp leaves it without a NUL, so that sscanf
-- and strcmp read on behind it.
unfoldable pub utils_json_value_data_get : {A : Type 0} → (List ℕ → Option A) → List ℕ → Converted A
utils_json_value_data_get scan text =
    if ltb value_tmp_size (length text)
    then no_data
    else if length text == value_tmp_size
    then unterminated
    else scanned (scan text)

-- The data of the type UTILS_JSON_VALUE_TYPE_BOOLEAN: what strcmp says of "false".
unfoldable pub boolean_data : List ℕ → Option Bool
boolean_data text = some (not (eq_bytes text (b'f' ∷ b'a' ∷ b'l' ∷ b's' ∷ b'e' ∷ [])))
