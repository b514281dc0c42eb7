-- ===== src/Services/Ota.antt =====
-- services/common/ota/src/ota_mqtt.c: the messages of the OTA service. A callback that is called is an
-- entry of a list.
pub mod Messages
pub mod Init
mod Tests
use iot_hub_device_c_sdk.Prelude.{
  ℕ, List, [], ◌∷◌, ◌++◌, ℤ, Bool, true, false, Option, none, some, length, not, if◌then◌else◌,
}
use iot_hub_device_c_sdk.Utils.Strings.{starts_with}
use iot_hub_device_c_sdk.Utils.Json.{utils_json_value_get}
use iot_hub_device_c_sdk.Utils.Json.Scan.{JsonElement}
use iot_hub_device_c_sdk.Utils.Json.Data.{
  Converted, no_data, unterminated, converted, Scanf, value_text, utils_json_value_data_get,
}

-- IotOTAUpdateCallback: which of the functions are there.
pub record UpdateCallback : Type 0 where
  pub update_firmware : Bool
  pub report_version_reply : Bool

-- OTAUpdateType
pub data UpdateType : Type 0 where
  report_version_rsp update_firmware_type : UpdateType

pub data Called : Type 0 where
  report_version_reply_callback : (result_code : ℤ) → Called
  update_firmware_callback : (version url md5sum : List ℕ) → (file_size : ℕ) → Called
  -- The value of the file size is read though it was not found.
  uninitialised_value : Called
  -- The value of a number has 32 bytes, and is read on behind the buffer that it fills.
  unterminated_value : Called

abbrev pub type_text : List ℕ
type_text = b't' ∷ b'y' ∷ b'p' ∷ b'e' ∷ []

abbrev pub result_code_text : List ℕ
result_code_text = b'r' ∷ b'e' ∷ b's' ∷ b'u' ∷ b'l' ∷ b't' ∷ b'_' ∷ b'c' ∷ b'o' ∷ b'd' ∷ b'e' ∷ []

abbrev pub version_text : List ℕ
version_text = b'v' ∷ b'e' ∷ b'r' ∷ b's' ∷ b'i' ∷ b'o' ∷ b'n' ∷ []

abbrev pub url_text : List ℕ
url_text = b'u' ∷ b'r' ∷ b'l' ∷ []

abbrev pub md5sum_text : List ℕ
md5sum_text = b'm' ∷ b'd' ∷ b'5' ∷ b's' ∷ b'u' ∷ b'm' ∷ []

abbrev pub file_size_text : List ℕ
file_size_text = b'f' ∷ b'i' ∷ b'l' ∷ b'e' ∷ b'_' ∷ b's' ∷ b'i' ∷ b'z' ∷ b'e' ∷ []

-- ota_update_str
abbrev pub ota_update_str : UpdateType → List ℕ
ota_update_str report_version_rsp =
    b'r' ∷ b'e' ∷ b'p' ∷ b'o' ∷ b'r' ∷ b't' ∷ b'_' ∷ b'v' ∷ b'e' ∷ b'r' ∷ b's' ∷ b'i' ∷ b'o' ∷ b'n'
    ∷ b'_' ∷ b'r' ∷ b's' ∷ b'p' ∷ []
ota_update_str update_firmware_type =
    b'u' ∷ b'p' ∷ b'd' ∷ b'a' ∷ b't' ∷ b'e' ∷ b'_' ∷ b'f' ∷ b'i' ∷ b'r' ∷ b'm' ∷ b'w' ∷ b'a' ∷ b'r'
    ∷ b'e' ∷ []

-- The text of the value of a key in a payload, if it is found.
abbrev pub found_text : Option (Option JsonElement) → Option (List ℕ)
found_text none = none
found_text (some none) = none
found_text (some (some v)) = some (value_text v)

unfoldable pub payload_value : List ℕ → List ℕ → Option (List ℕ)
payload_value payload key =
    found_text (utils_json_value_get key (length key) payload (length payload))

-- The callback for a new firmware, from what was found of its version, URL, digest and size.
unfoldable pub firmware_calls :
    (version url md5sum : Option (List ℕ)) → (file_size : Converted ℕ) → List Called
firmware_calls version url md5sum unterminated = unterminated_value ∷ []
firmware_calls (some version) (some url) (some md5sum) (converted file_size) =
    update_firmware_callback version url md5sum file_size ∷ []
firmware_calls (some version) (some url) none (converted file_size) = []
firmware_calls (some version) none md5sum (converted file_size) = []
firmware_calls none url md5sum (converted file_size) = []
firmware_calls version url md5sum no_data = []

module _ (scanf : Scanf) (callback : UpdateCallback) (payload : List ℕ) where
  -- _parse_update_payload_and_callback
  unfoldable pub parse_update_payload_and_callback : UpdateType → List Called
  unfolding payload_value firmware_calls utils_json_value_data_get
  parse_update_payload_and_callback report_version_rsp =
      if not callback.report_version_reply
      then []
      else elim (payload_value payload result_code_text) [
        | none ↦ []
        | some text ↦ elim (utils_json_value_data_get scanf.int32 text) [
          | no_data ↦ []
          | unterminated ↦ unterminated_value ∷ []
          | converted result_code ↦ report_version_reply_callback result_code ∷ []
        ]
      ]
  parse_update_payload_and_callback update_firmware_type =
      if not callback.update_firmware then [] else elim (payload_value payload file_size_text) [
        | none ↦ uninitialised_value ∷ []
        | some text ↦
            firmware_calls (payload_value payload version_text) (payload_value payload url_text)
              (payload_value payload md5sum_text) (utils_json_value_data_get scanf.uint32 text)
      ]

  -- The round of the loop of _ota_mqtt_message_callback for a type: strncmp on the length of the value.
  unfoldable pub update_round : List ℕ → UpdateType → List Called
  unfolding parse_update_payload_and_callback starts_with
  update_round update_type type =
      if starts_with update_type (ota_update_str type)
      then parse_update_payload_and_callback type
      else []

  -- _ota_mqtt_message_callback
  unfoldable pub ota_mqtt_message_callback : List Called
  unfolding payload_value update_round
  ota_mqtt_message_callback = elim (payload_value payload type_text) [
    | none ↦ []
    | some update_type ↦
        update_round update_type report_version_rsp ++ update_round update_type update_firmware_type
  ]
