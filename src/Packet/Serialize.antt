-- ===== src/Packet/Serialize.antt =====
-- The packet builders of common/mqtt_packet/src/mqtt_packet_serialize.c. A builder that returns
-- `ok out` has written the bytes `out` from the start of the buffer, and returns their number.
use iot_hub_device_c_sdk.Prelude.{
  ℕ, ◌+◌, List, [], ◌∷◌, ◌++◌, Bool, true, false, not, ◌&&◌, Option, none, some, if◌then◌else◌, ltb,
  ◌==◌, length,
}
use iot_hub_device_c_sdk.Packet.Defs.{
  Result, ok, err, ◌>>=◌, ◌>>◌, invalid_packet_type, version_unsupported, short_buffer_check,
  min_mqtt_fixed_header_len, max_mqtt_fixed_header_len, ConnectOption, connect_flags_byte,
  ConnectFlags, PublishFlags, connect, publish, puback, subscribe, unsubscribe, pingreq, disconnect,
}
use iot_hub_device_c_sdk.Packet.Write.{
  write_char, write_int, write_string, header_serialize, remaining_length_serialize,
}

-- `pflags` is null for every type but PUBLISH, and is not read.
abbrev pub no_flags : PublishFlags
no_flags = record { dup = 0; qos = 0; retain = 0 }

abbrev pub is_set : Option (List ℕ) → Bool
is_set none = false
is_set (some s) = true

-- `if (s) len += strlen(s) + 2`
abbrev pub optional_len : Option (List ℕ) → ℕ
optional_len none = 0
optional_len (some s) = length s + 2

-- `if (s) _write_string(s, pptr)`
abbrev pub write_optional : Option (List ℕ) → List ℕ → List ℕ
write_optional none out = out
write_optional (some s) out = write_string s out

-- The value of `len` in _mqtt_connect_remaining_length_serialize.
unfoldable pub connect_len : ConnectOption → ℕ
connect_len o =
    (if o.mqtt_version == 3 then 12 else 10)
    + (length o.client_id + 2)
    + (if o.will_flag == 0 then 0 else length o.will.topic_name + 2 + length o.will.message + 2)
    + optional_len o.username
    + optional_len o.password

-- _mqtt_connect_remaining_length_serialize
unfoldable pub connect_remaining_length_serialize : ConnectOption → ℕ → List ℕ → Result (List ℕ)
connect_remaining_length_serialize o buf_len out =
    if not (o.mqtt_version == 3) && not (o.mqtt_version == 4) then err version_unsupported else do
      short_buffer_check buf_len (connect_len o)
      ok (remaining_length_serialize (connect_len o) out)

-- "MQIsdp" and "MQTT"
abbrev pub protocol_mqisdp : List ℕ
protocol_mqisdp = b'M' ∷ b'Q' ∷ b'I' ∷ b's' ∷ b'd' ∷ b'p' ∷ []

abbrev pub protocol_mqtt : List ℕ
protocol_mqtt = b'M' ∷ b'Q' ∷ b'T' ∷ b'T' ∷ []

-- The initializer of `flags` in _mqtt_connect_variable_header_serialize.
unfoldable pub connect_flags : ConnectOption → ConnectFlags
connect_flags o = record {
  clean_session = o.clean_session;
  will = o.will_flag;
  will_qos = if o.will_flag == 0 then 0 else o.will.qos;
  will_retain = if o.will_flag == 0 then 0 else o.will.retained;
  password = if is_set o.password then 1 else 0;
  username = if is_set o.username then 1 else 0;
}

-- The protocol name and level: the `switch` of _mqtt_connect_variable_header_serialize.
unfoldable pub write_protocol : ℕ → List ℕ → List ℕ
write_protocol mqtt_version out =
    if mqtt_version == 3
    then write_char 3 (write_string protocol_mqisdp out)
    else (if mqtt_version == 4 then write_char 4 (write_string protocol_mqtt out) else out)

-- _mqtt_connect_variable_header_serialize
unfoldable pub connect_variable_header_serialize : ConnectOption → List ℕ → Result (List ℕ)
connect_variable_header_serialize o out =
    if is_set o.password && not (is_set o.username)
    then err invalid_packet_type
    else ok (write_char (connect_flags_byte (connect_flags o)) (write_protocol o.mqtt_version out))

-- The writes of mqtt_connect_packet_serialize from "3.1.3 Payload" on.
unfoldable pub connect_payload : ConnectOption → List ℕ → List ℕ
connect_payload o out =
    let out = write_string o.client_id (write_int o.keep_alive_interval out) in
    let out =
      if o.will_flag == 0
      then out
      else write_string o.will.message (write_string o.will.topic_name out) in
    write_optional o.password (write_optional o.username out)

-- mqtt_connect_packet_serialize
unfoldable pub connect_packet_serialize : ℕ → ConnectOption → Result (List ℕ)
connect_packet_serialize buf_len o = do
  short_buffer_check buf_len min_mqtt_fixed_header_len
  out ← connect_remaining_length_serialize o buf_len (header_serialize connect no_flags [])
  out ← connect_variable_header_serialize o out
  ok (connect_payload o out)

-- mqtt_disconnect_packet_serialize
unfoldable pub disconnect_packet_serialize : ℕ → Result (List ℕ)
disconnect_packet_serialize buf_len = do
  short_buffer_check buf_len min_mqtt_fixed_header_len
  ok (remaining_length_serialize 0 (header_serialize disconnect no_flags []))

-- mqtt_pingreq_packet_serialize
unfoldable pub pingreq_packet_serialize : ℕ → Result (List ℕ)
pingreq_packet_serialize buf_len = do
  short_buffer_check buf_len min_mqtt_fixed_header_len
  ok (remaining_length_serialize 0 (header_serialize pingreq no_flags []))

-- The value of `len` in _mqtt_publish_remaining_length_serialize.
unfoldable pub publish_len : ℕ → List ℕ → ℕ → ℕ
publish_len qos topic_name payload_len =
    (2 + length topic_name + payload_len) + (if ltb 0 qos then 2 else 0)

-- _mqtt_publish_remaining_length_serialize
unfoldable pub publish_remaining_length_serialize : ℕ → List ℕ → ℕ → ℕ → List ℕ → Result (List ℕ)
publish_remaining_length_serialize qos topic_name payload_len buf_len out = do
  let len = publish_len qos topic_name payload_len
  short_buffer_check buf_len (len + max_mqtt_fixed_header_len)
  ok (remaining_length_serialize len out)

-- mqtt_publish_packet_serialize. The payload is the `payload_len` bytes at `payload`.
unfoldable pub publish_packet_serialize : ℕ → PublishFlags → ℕ → List ℕ → List ℕ → Result (List ℕ)
publish_packet_serialize buf_len flags packet_id topic_name payload = do
  short_buffer_check buf_len min_mqtt_fixed_header_len
  out ←
      publish_remaining_length_serialize flags.qos topic_name (length payload) buf_len
        (header_serialize publish flags [])
  let out = write_string topic_name out
  let out = if ltb 0 flags.qos then write_int packet_id out else out
  ok (out ++ payload)

-- mqtt_puback_packet_serialize
unfoldable pub puback_packet_serialize : ℕ → ℕ → Result (List ℕ)
puback_packet_serialize buf_len packet_id = do
  short_buffer_check buf_len (min_mqtt_fixed_header_len + 2)
  ok (write_int packet_id (remaining_length_serialize 2 (header_serialize puback no_flags [])))

-- The sum in the loop of _mqtt_sub_unsub_remaining_length_serialize.
unfoldable pub filters_len : ℕ → List (List ℕ) → ℕ
filters_len is_sub [] = 0
filters_len is_sub (t ∷ ts) = (2 + length t + is_sub) + filters_len is_sub ts

-- _mqtt_sub_unsub_remaining_length_serialize
unfoldable pub sub_unsub_remaining_length_serialize :
    List (List ℕ) → ℕ → ℕ → List ℕ → Result (List ℕ)
sub_unsub_remaining_length_serialize topic_filters buf_len is_sub out = do
  let len = 2 + filters_len is_sub topic_filters
  short_buffer_check buf_len (len + max_mqtt_fixed_header_len)
  ok (remaining_length_serialize len out)

-- The loop of mqtt_subscribe_packet_serialize, over pairs of a filter and its requested QoS.
unfoldable pub write_subscriptions : List (List ℕ × ℕ) → List ℕ → List ℕ
write_subscriptions [] out = out
write_subscriptions ((t, qos) ∷ ts) out =
    write_subscriptions ts (write_char qos (write_string t out))

abbrev pub filters_of : List (List ℕ × ℕ) → List (List ℕ)
filters_of [] = []
filters_of ((t, qos) ∷ ts) = t ∷ filters_of ts

-- mqtt_subscribe_packet_serialize
unfoldable pub subscribe_packet_serialize : ℕ → ℕ → List (List ℕ × ℕ) → Result (List ℕ)
subscribe_packet_serialize buf_len packet_id topics = do
  short_buffer_check buf_len min_mqtt_fixed_header_len
  out ←
      sub_unsub_remaining_length_serialize (filters_of topics) buf_len 1
        (header_serialize subscribe no_flags [])
  ok (write_subscriptions topics (write_int packet_id out))

-- The loop of mqtt_unsubscribe_packet_serialize.
unfoldable pub write_filters : List (List ℕ) → List ℕ → List ℕ
write_filters [] out = out
write_filters (t ∷ ts) out = write_filters ts (write_string t out)

-- mqtt_unsubscribe_packet_serialize
unfoldable pub unsubscribe_packet_serialize : ℕ → ℕ → List (List ℕ) → Result (List ℕ)
unsubscribe_packet_serialize buf_len packet_id topic_filters = do
  short_buffer_check buf_len min_mqtt_fixed_header_len
  out ←
      sub_unsub_remaining_length_serialize topic_filters buf_len 0
        (header_serialize unsubscribe no_flags [])
  ok (write_filters topic_filters (write_int packet_id out))
