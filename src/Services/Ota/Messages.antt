-- ===== src/Services/Ota/Messages.antt =====
-- services/common/ota/src/ota_mqtt.c: a message that was printed as JSON and the callback that it leads to.
use iot_hub_device_c_sdk.Prelude.{
  ℕ, ◌<◌, ◌==◌, ◌≡◌, refl, List, [], ◌∷◌, ◌++◌, pos, true, false, Option, none, some, ltb, sub_ℕ,
  length, append_assoc, append-nil, arith, All, ap, ◌∙◌, sym,
}
use iot_hub_device_c_sdk.Utils.Strings.{Lacks, starts_with}
use iot_hub_device_c_sdk.Utils.Json.{json_get_value_by_key, value_get, utils_json_value_get}
use iot_hub_device_c_sdk.Utils.Json.Scan.{JsonElement}
use iot_hub_device_c_sdk.Utils.Json.Data.{
  value_tmp_size, Scanf, value_text, utils_json_value_data_get,
}
use iot_hub_device_c_sdk.Utils.Json.Members.{Plain, object_text, lookup, Shows}
use iot_hub_device_c_sdk.Utils.Json.Printed.{json_get_value_by_key_printed}
use iot_hub_device_c_sdk.Services.Ota.{
  UpdateCallback, report_version_rsp, update_firmware_type, update_firmware_callback, type_text,
  version_text, url_text, md5sum_text, file_size_text, ota_update_str, found_text, payload_value,
  firmware_calls, parse_update_payload_and_callback, update_round, ota_mqtt_message_callback,
}

module _ (src : List ℕ) (src_len used key_len : ℕ) where
  -- A key without a point is looked up as a whole.
  value_get-whole :
      (key part : List ℕ)
      → Lacks b'.' key
      → value_get src src_len used part key key_len
        ≡ json_get_value_by_key src src_len (part ++ key) (sub_ℕ key_len used)
  unfolding value_get
  value_get-whole [] part whole =
      ap (λ (k : List ℕ). json_get_value_by_key src src_len k (sub_ℕ key_len used))
        (sym (append-nil part))
  value_get-whole (c ∷ key) part whole =
      rw (value_get, whole.0)
        (value_get-whole key (part ++ (c ∷ [])) whole.1
          ∙ ap (λ (k : List ℕ). json_get_value_by_key src src_len k (sub_ℕ key_len used))
              (append_assoc part (c ∷ []) key))

-- The rounds of the loop for a message with the type of a new firmware.
own_round :
    (scanf : Scanf) (callback : UpdateCallback) (payload : List ℕ)
    → (update_round scanf callback payload (ota_update_str update_firmware_type) report_version_rsp
        ≡ [])
      × (update_round scanf callback payload
            (ota_update_str update_firmware_type)
            update_firmware_type
          ≡ parse_update_payload_and_callback scanf callback payload update_firmware_type)
unfolding update_round starts_with
own_round scanf callback payload = (refl, refl)

from_start : (n : ℕ) → sub_ℕ n 0 ≡ pos n
from_start n = ground arith

Shows-found_text :
    (o : Option (List ℕ)) (r : Option (Option JsonElement)) → Shows o r → found_text r ≡ o
unfolding value_text
Shows-found_text none r h = rw h refl
Shows-found_text (some v) r (e, found, type, text) = rw found (ap some text)

pub payload_value_printed :
    (pairs : List (List ℕ × List ℕ)) (key : List ℕ)
    → All (λ p. Plain p.0 × Plain p.1) pairs
    → Lacks b'.' key
    → payload_value (object_text pairs) key ≡ lookup key pairs
unfolding payload_value utils_json_value_get
payload_value_printed pairs key plain whole =
    rw
      (
        value_get-whole (object_text pairs) (length (object_text pairs)) 0 (length key) key []
            whole,
        from_start (length key),
      )
      (Shows-found_text (lookup key pairs) _ (json_get_value_by_key_printed pairs key plain))

-- A message that is an object of strings without quote and backslash, printed without spaces, whose first
-- members with these keys are the type update_firmware, a version, a URL, a digest and a size of fewer than 32
-- bytes that sscanf takes for a number: if there is a callback for a new firmware, it is called with just
-- these, once, and no other callback is.
pub firmware_message_delivered :
    (scanf : Scanf) (callback : UpdateCallback) (pairs : List (List ℕ × List ℕ))
    (version url md5sum file_size : List ℕ) (size : ℕ)
    → All (λ p. Plain p.0 × Plain p.1) pairs
    → callback.update_firmware ≡ true
    → lookup type_text pairs ≡ some (ota_update_str update_firmware_type)
    → lookup version_text pairs ≡ some version
    → lookup url_text pairs ≡ some url
    → lookup md5sum_text pairs ≡ some md5sum
    → lookup file_size_text pairs ≡ some file_size
    → length file_size < 32
    → scanf.uint32 file_size ≡ some size
    → ota_mqtt_message_callback scanf callback (object_text pairs)
      ≡ update_firmware_callback version url md5sum size ∷ []
unfolding ota_mqtt_message_callback update_round parse_update_payload_and_callback
    utils_json_value_data_get firmware_calls
firmware_message_delivered scanf callback pairs version url md5sum file_size size plain there t v u
      m f short number =
    let value : (key : List ℕ)
        → Lacks b'.' key
        → payload_value (object_text pairs) key ≡ lookup key pairs =
      λ key whole. payload_value_printed pairs key plain whole in
    let rounds = own_round scanf callback (object_text pairs) in
    let fits : ltb 32 (length file_size) ≡ false = ground (arith, short) in
    let terminated : (length file_size == value_tmp_size) ≡ false = ground (arith, short) in
    let firmware : parse_update_payload_and_callback scanf callback (object_text pairs)
          update_firmware_type
        ≡ update_firmware_callback version url md5sum size ∷ [] =
      rw
        (
          parse_update_payload_and_callback,
          there,
          value file_size_text (ground arith) ∙ f,
          value version_text (ground arith) ∙ v,
          value url_text (ground arith) ∙ u,
          value md5sum_text (ground arith) ∙ m,
          utils_json_value_data_get,
          fits,
          terminated,
          number,
        )
        refl in
    rw (ota_mqtt_message_callback, value type_text (ground arith) ∙ t, rounds.0, rounds.1, firmware)
      refl
