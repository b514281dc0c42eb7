-- ===== src/Services/Ota/Tests.antt =====
-- Messages of services/common/ota at concrete payloads: what the theorems about them say there.
use iot_hub_device_c_sdk.Prelude.{ℕ, ◌≡◌, refl, List, [], ◌∷◌, pos, true, some, arith, eq_bytes}
use iot_hub_device_c_sdk.Utils.Json.Data.{Scanf}
use iot_hub_device_c_sdk.Utils.Json.Members.{object_text, lookup}
use iot_hub_device_c_sdk.Services.Ota.{
  UpdateCallback, update_firmware_type, update_firmware_callback, type_text, version_text, url_text,
  md5sum_text, file_size_text, ota_update_str, ota_mqtt_message_callback,
}
use iot_hub_device_c_sdk.Services.Ota.Messages.{firmware_message_delivered}

-- Numbers of one digit.
abbrev digit : Scanf
digit = record { int32 = λ text. some (pos 0); uint32 = λ text. some 7 }

abbrev both : UpdateCallback
both = record { update_firmware = true; report_version_reply = true }

abbrev message : List (List ℕ × List ℕ)
message =
    (file_size_text, b'7' ∷ [])
    ∷ (md5sum_text, b'f' ∷ b'0' ∷ [])
    ∷ (type_text, ota_update_str update_firmware_type)
    ∷ (url_text, b'u' ∷ [])
    ∷ (version_text, b'v' ∷ b'2' ∷ [])
    ∷ []

message_type : lookup type_text message ≡ some (ota_update_str update_firmware_type)
unfolding lookup eq_bytes
message_type = refl

message_version : lookup version_text message ≡ some (b'v' ∷ b'2' ∷ [])
unfolding lookup eq_bytes
message_version = refl

message_url : lookup url_text message ≡ some (b'u' ∷ [])
unfolding lookup eq_bytes
message_url = refl

message_md5sum : lookup md5sum_text message ≡ some (b'f' ∷ b'0' ∷ [])
unfolding lookup eq_bytes
message_md5sum = refl

message_file_size : lookup file_size_text message ≡ some (b'7' ∷ [])
unfolding lookup eq_bytes
message_file_size = refl

firmware_message_delivered_example :
    ota_mqtt_message_callback digit both (object_text message)
    ≡ update_firmware_callback (b'v' ∷ b'2' ∷ []) (b'u' ∷ []) (b'f' ∷ b'0' ∷ []) 7 ∷ []
firmware_message_delivered_example =
    firmware_message_delivered digit both message (b'v' ∷ b'2' ∷ []) (b'u' ∷ []) (b'f' ∷ b'0' ∷ [])
      (b'7' ∷ []) 7 (ground arith) refl message_type message_version message_url message_md5sum
      message_file_size (ground arith) refl
