-- ===== src/Utils/Json/Tests.antt =====
-- common/utils/src/utils_json.c at concrete texts: what the theorems about it say there.
use iot_hub_device_c_sdk.Prelude.{ℕ, ◌≡◌, ◌≢◌, List, [], ◌∷◌, pos, none, length, arith}
use iot_hub_device_c_sdk.Utils.Json.{
  json_get_value_by_key, utils_json_value_get, utils_json_strip_transfer,
}
use iot_hub_device_c_sdk.Utils.Json.Members.{object_text, lookup, Shows}
use iot_hub_device_c_sdk.Utils.Json.Printed.{json_get_value_by_key_printed}
use iot_hub_device_c_sdk.Utils.Json.Ends.{utils_json_value_get_ends}
use iot_hub_device_c_sdk.Utils.Json.Strip.{escape, strip_transfer-escape}

abbrev ab : List ℕ
ab = b'a' ∷ b'b' ∷ []

-- {"a":"x","ab":"yz"}
abbrev two_pairs : List (List ℕ × List ℕ)
two_pairs = (b'a' ∷ [], b'x' ∷ []) ∷ (ab, b'y' ∷ b'z' ∷ []) ∷ []

json_get_value_by_key_printed_example : Shows (lookup ab two_pairs) (
    json_get_value_by_key
      (object_text two_pairs)
      (length (object_text two_pairs))
      ab
      (pos (length ab)))
json_get_value_by_key_printed_example = json_get_value_by_key_printed two_pairs ab (ground arith)

utils_json_value_get_ends_example :
    utils_json_value_get (b'a' ∷ b'.' ∷ b'b' ∷ []) 3 (object_text two_pairs) 20 ≢ none
utils_json_value_get_ends_example =
    utils_json_value_get_ends (b'a' ∷ b'.' ∷ b'b' ∷ []) 3 (object_text two_pairs) 20

strip_transfer-escape_example :
    utils_json_strip_transfer (escape (b'"' ∷ b'a' ∷ b'\\' ∷ [])) ≡ b'"' ∷ b'a' ∷ b'\\' ∷ []
strip_transfer-escape_example = strip_transfer-escape (b'"' ∷ b'a' ∷ b'\\' ∷ [])
