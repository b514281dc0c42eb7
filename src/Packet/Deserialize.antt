-- ===== src/Packet/Deserialize.antt =====
-- The packet readers of common/mqtt_packet/src/mqtt_packet_deserialize.c. `buf` is the memory from the
-- buffer's start on, and `buf_len` the length that the caller gives.
use iot_hub_device_c_sdk.Prelude.{
  ℕ, zero, suc, ◌+◌, ◌-◌, ◌%◌, Option, none, some, List, [], ◌∷◌, ◌++◌, ℤ, pos, sub_ℕ, pred_ℤ,
  is_zero, if◌then◌else◌, ltb, ◌==◌, length,
}
use iot_hub_device_c_sdk.Packet.Defs.{
  Result, ok, err, fault, out_of_bounds, PacketType, ◌>>=◌, ◌>>◌, invalid_packet_type,
  sub_count_exceed, short_buffer_check, min_mqtt_fixed_header_len, PublishFlags, connack, publish,
  puback, suback, unsuback, pingresp,
}
use iot_hub_device_c_sdk.Packet.Read.{
  read_char, read_int, read_string, packet_type_check, remaining_length_deserialize,
}

-- The checks that every reader starts with: what follows the fixed header, and the remaining length.
abbrev pub fixed_header : PacketType → ℕ → List ℕ → Result (PublishFlags × ℕ × List ℕ)
fixed_header packet_type buf_len buf = do
  short_buffer_check buf_len min_mqtt_fixed_header_len
  (flags, ptr) ← packet_type_check packet_type buf
  (len, ptr) ← remaining_length_deserialize buf_len ptr
  ok (flags, len, ptr)

-- mqtt_connack_packet_deserialize: session_present and connack_rc.
unfoldable pub connack_packet_deserialize : ℕ → List ℕ → Result (ℕ × ℕ)
connack_packet_deserialize buf_len buf = do
  (flags, len, ptr) ← fixed_header connack buf_len buf
  (all, ptr) ← read_char ptr
  (connack_rc, ptr) ← read_char ptr
  ok (all % 2, connack_rc)

-- mqtt_pingresp_packet_deserialize
unfoldable pub pingresp_packet_deserialize : ℕ → List ℕ → Result (Unit {0})
pingresp_packet_deserialize buf_len buf = do
  (flags, len, ptr) ← fixed_header pingresp buf_len buf
  ok tt

-- What mqtt_publish_packet_deserialize returns through its pointers. `packet_id` is set for QoS above
-- 0 only; `payload` is the memory from the payload's start on.
pub record Publish : Type 0 where
  pub flags : PublishFlags
  pub packet_id : Option ℕ
  pub topic_name : List ℕ
  pub payload : List ℕ
  pub payload_len : ℤ

-- `if (flags->qos > 0) *packet_id = _read_int(&ptr)`
unfoldable pub read_packet_id : ℕ → List ℕ → Result (Option ℕ × List ℕ)
read_packet_id qos ptr =
    if ltb 0 qos
    then (do (packet_id, ptr) ← read_int ptr; ok (some packet_id, ptr))
    else ok (none, ptr)

-- mqtt_publish_packet_deserialize. `ptr - ptr_remain` is the number of bytes between the pointers.
unfoldable pub publish_packet_deserialize : ℕ → List ℕ → Result Publish
publish_packet_deserialize buf_len buf = do
  (flags, len, ptr_remain) ← fixed_header publish buf_len buf
  (topic_name, ptr) ← read_string ptr_remain
  if length topic_name == 0 then err invalid_packet_type else do
    (packet_id, ptr) ← read_packet_id flags.qos ptr
    ok (record {
      flags = flags;
      packet_id = packet_id;
      topic_name = topic_name;
      payload = ptr;
      payload_len = sub_ℕ len (length ptr_remain - length ptr);
    })

-- mqtt_puback_packet_deserialize
unfoldable pub puback_packet_deserialize : ℕ → List ℕ → Result ℕ
puback_packet_deserialize buf_len buf = do
  (flags, len, ptr) ← fixed_header puback buf_len buf
  (packet_id, ptr) ← read_int ptr
  ok packet_id

-- Whether the C type `char` is signed, which is the compiler's choice.
pub data CharKind : Type 0 where
  signed_char unsigned_char : CharKind

-- A byte that goes through `char` into an int.
abbrev pub char_to_int : CharKind → ℕ → ℤ
char_to_int unsigned_char c = pos c
char_to_int signed_char c = if ltb c 128 then pos c else sub_ℕ c 256

-- The loop of mqtt_suback_packet_deserialize: `room` is how often `*count > maxcount` still fails.
unfoldable pub suback_loop : CharKind → ℕ → ℤ → List ℤ → List ℕ → Result (List ℤ)
suback_loop kind zero len granted_qos ptr =
    if is_zero len then ok granted_qos else err sub_count_exceed
suback_loop kind (suc room) len granted_qos [] =
    if is_zero len then ok granted_qos else fault out_of_bounds
suback_loop kind (suc room) len granted_qos (c ∷ ptr) =
    let rest = suback_loop kind room (pred_ℤ len) (granted_qos ++ (char_to_int kind c ∷ [])) ptr in
    if is_zero len then ok granted_qos else rest

-- mqtt_suback_packet_deserialize: packet_id and the list of *count granted QoS codes.
unfoldable pub suback_packet_deserialize : CharKind → ℕ → ℕ → List ℕ → Result (ℕ × List ℤ)
suback_packet_deserialize kind buf_len maxcount buf = do
  (flags, len, ptr) ← fixed_header suback buf_len buf
  (packet_id, ptr) ← read_int ptr
  granted_qos ← suback_loop kind (maxcount + 1) (sub_ℕ len 2) [] ptr
  ok (packet_id, granted_qos)

-- mqtt_unsuback_packet_deserialize
unfoldable pub unsuback_packet_deserialize : ℕ → List ℕ → Result ℕ
unsuback_packet_deserialize buf_len buf = do
  (flags, len, ptr) ← fixed_header unsuback buf_len buf
  (packet_id, ptr) ← read_int ptr
  ok packet_id
