-- ===== src/Packet/Examples.antt =====
-- Runs of the codec of common/mqtt_packet, and its theorems at concrete packets.
use iot_hub_device_c_sdk.Prelude.{
  ℕ, ◌+◌, ◌≤◌, ◌≡◌, refl, List, [], ◌∷◌, ◌++◌, arith, length, some, pos, negsuc, inr, ap,
}
use iot_hub_device_c_sdk.Packet.Defs.{
  ok, err, fault, null_pointer, out_of_bounds, PublishFlags, ConnectOption, puback, short_buffer,
}
use iot_hub_device_c_sdk.Packet.Write.{
  write_char, write_int, write_string, header_serialize, remaining_length_serialize,
  remaining_length_loop,
}
use iot_hub_device_c_sdk.Packet.Serialize.{
  publish_packet_serialize, publish_remaining_length_serialize, publish_len,
  puback_packet_serialize, connect_packet_serialize, connect_len,
  connect_remaining_length_serialize, connect_variable_header_serialize, connect_flags,
  write_protocol, connect_payload, subscribe_packet_serialize, unsubscribe_packet_serialize,
  filters_len, sub_unsub_remaining_length_serialize, write_subscriptions, write_filters,
}
use iot_hub_device_c_sdk.Packet.Read.{packet_type_check, remaining_length_deserialize, read_int}
use iot_hub_device_c_sdk.Packet.Deserialize.{
  publish_packet_deserialize, puback_packet_deserialize, connack_packet_deserialize,
  suback_packet_deserialize, signed_char,
}
use iot_hub_device_c_sdk.Packet.Wire.{int_bytes}
use iot_hub_device_c_sdk.Packet.RemainingLength.{deserialize-serialize}
use iot_hub_device_c_sdk.Packet.RoundTrip.{
  publish_packet_serialize_lem, publish_packet_serialize_bounded, publish_roundtrip,
}
use iot_hub_device_c_sdk.Packet.Acks.{
  puback_roundtrip, connack_reads, packet_type_check_foreign, puback_packet_deserialize_lem,
}
use iot_hub_device_c_sdk.Packet.Suback.{suback_reads, suback_bounded}
use iot_hub_device_c_sdk.Packet.Connect.{connect_overrun}
use iot_hub_device_c_sdk.Packet.Subscribe.{
  framed, subscriptions_bytes, filters_bytes, subscribe_packet_serialize_lem,
  unsubscribe_packet_serialize_lem, subscribe_bounded, unsubscribe_bounded,
}

-- PUBLISH with QoS 1 and identifier 258 of "hi" to the topic "a/b".
abbrev flags : PublishFlags
flags = record { dup = 0; qos = 1; retain = 1 }

abbrev topic : List ℕ
topic = b'a' ∷ b'/' ∷ b'b' ∷ []

abbrev message : List ℕ
message = b'h' ∷ b'i' ∷ []

abbrev packet : List ℕ
packet = 51 ∷ 9 ∷ 0 ∷ 3 ∷ b'a' ∷ b'/' ∷ b'b' ∷ 1 ∷ 2 ∷ b'h' ∷ b'i' ∷ []

packet_written : publish_packet_serialize 64 flags 258 topic message ≡ ok packet
unfolding publish_packet_serialize publish_remaining_length_serialize publish_len write_char
    write_int write_string header_serialize remaining_length_serialize remaining_length_loop
packet_written = refl

long_length : remaining_length_serialize 321 [] ≡ 193 ∷ 2 ∷ []
unfolding remaining_length_serialize remaining_length_loop write_char
long_length = refl

deserialize-serialize_example :
    remaining_length_deserialize 400 (remaining_length_serialize 321 [] ++ (7 ∷ []))
    ≡ ok (321, 7 ∷ [])
deserialize-serialize_example =
    deserialize-serialize 400 321 (7 ∷ []) (omega arith) (omega (arith, ap length long_length))

publish_packet_serialize_lem_example :
    publish_packet_serialize 4 flags 258 topic message ≡ err short_buffer
unfolding publish_len
publish_packet_serialize_lem_example = publish_packet_serialize_lem 4 flags 258 topic message

publish_packet_serialize_bounded_at : length packet ≤ 64
publish_packet_serialize_bounded_at =
    publish_packet_serialize_bounded 64 flags 258 topic message packet
      (unfold publish_len in omega arith) packet_written

publish_roundtrip_example :
    publish_packet_deserialize 64 (packet ++ (9 ∷ []))
    ≡ ok (record {
      flags = flags;
      packet_id = some 258;
      topic_name = topic;
      payload = message ++ (9 ∷ []);
      payload_len = pos 2;
    })
publish_roundtrip_example =
    publish_roundtrip 64 64 flags 258 topic message packet (9 ∷ []) (omega arith) (omega arith)
      (omega arith) (omega arith) (omega arith) (omega arith) (unfold publish_len in omega arith)
      packet_written (omega arith)

puback_written : puback_packet_serialize 16 258 ≡ ok (64 ∷ 2 ∷ 1 ∷ 2 ∷ [])
unfolding puback_packet_serialize write_int header_serialize write_char remaining_length_serialize
    remaining_length_loop
puback_written = refl

puback_roundtrip_at : puback_packet_deserialize 16 (64 ∷ 2 ∷ 1 ∷ 2 ∷ 0 ∷ []) ≡ ok 258
puback_roundtrip_at =
    puback_roundtrip 16 16 258 (64 ∷ 2 ∷ 1 ∷ 2 ∷ []) (0 ∷ []) (omega arith) (omega arith)
      puback_written

-- A PUBACK of remaining length 0 in a buffer of two bytes is read past its end.
puback_packet_deserialize_lem_at : puback_packet_deserialize 2 (64 ∷ 0 ∷ []) ≡ fault out_of_bounds
unfolding read_int
puback_packet_deserialize_lem_at = puback_packet_deserialize_lem 2 0 [] (omega arith) (omega arith)

connack_refusal : connack_packet_deserialize 16 (32 ∷ 2 ∷ 1 ∷ 5 ∷ []) ≡ ok (1, 5)
connack_refusal = connack_reads 16 1 5 [] (omega arith)

packet_type_check_foreign_example : packet_type_check puback (0x30 ∷ 0 ∷ []) ≡ fault null_pointer
packet_type_check_foreign_example =
    packet_type_check_foreign puback 0x30 (0 ∷ []) (omega arith) (omega arith)

-- A SUBACK with two codes overruns a `granted_qos` of one element.
suback_reads_example :
    suback_packet_deserialize signed_char 64 1
      (144 ∷ 4 ∷ (int_bytes 258 ++ ((0 ∷ 128 ∷ []) ++ (7 ∷ []))))
    ≡ ok (258, pos 0 ∷ negsuc 127 ∷ [])
suback_reads_example =
    suback_reads signed_char 64 1 258 (0 ∷ 128 ∷ []) (7 ∷ []) (omega arith) (omega arith)
      (omega arith)

suback_bounded_at : length (pos 0 ∷ negsuc 127 ∷ []) ≤ 1 + 1
suback_bounded_at = suback_bounded signed_char 64 1 _ suback_reads_example

abbrev options : ConnectOption
options = record {
  mqtt_version = 4;
  client_id = b'd' ∷ b'1' ∷ [];
  keep_alive_interval = 240;
  clean_session = 1;
  will_flag = 0;
  will = record { topic_name = []; message = []; retained = 0; qos = 0 };
  username = some (b'u' ∷ []);
  password = some (b'p' ∷ []);
}

abbrev connect_bytes : List ℕ
connect_bytes =
    16 ∷ 20 ∷ 0 ∷ 4 ∷ b'M' ∷ b'Q' ∷ b'T' ∷ b'T' ∷ 4 ∷ 194 ∷ 0 ∷ 240 ∷ 0 ∷ 2 ∷ b'd' ∷ b'1' ∷ 0 ∷ 1
    ∷ b'u' ∷ 0 ∷ 1 ∷ b'p' ∷ []

connect_written : connect_packet_serialize 20 options ≡ ok connect_bytes
unfolding connect_packet_serialize connect_remaining_length_serialize
    connect_variable_header_serialize connect_flags write_protocol connect_payload connect_len
    write_char write_int write_string header_serialize remaining_length_serialize
    remaining_length_loop
connect_written = refl

connect_overrun_example :
    (out : List ℕ) × (connect_packet_serialize (connect_len options) options ≡ ok out)
    × (connect_len options + 2 ≤ length out)
connect_overrun_example = connect_overrun options (inr refl) (inr refl)

subscribe_packet_serialize_lem_example :
    subscribe_packet_serialize 64 258 ((topic, 1) ∷ [])
    ≡ framed 64 130 (int_bytes 258 ++ subscriptions_bytes ((topic, 1) ∷ []))
subscribe_packet_serialize_lem_example = subscribe_packet_serialize_lem 64 258 ((topic, 1) ∷ [])

unsubscribe_packet_serialize_lem_at :
    unsubscribe_packet_serialize 64 258 (topic ∷ [])
    ≡ framed 64 162 (int_bytes 258 ++ filters_bytes (topic ∷ []))
unsubscribe_packet_serialize_lem_at = unsubscribe_packet_serialize_lem 64 258 (topic ∷ [])

abbrev subscribe_bytes : List ℕ
subscribe_bytes = 130 ∷ 8 ∷ 1 ∷ 2 ∷ 0 ∷ 3 ∷ b'a' ∷ b'/' ∷ b'b' ∷ 1 ∷ []

subscribe_written : subscribe_packet_serialize 64 258 ((topic, 1) ∷ []) ≡ ok subscribe_bytes
unfolding subscribe_packet_serialize sub_unsub_remaining_length_serialize write_subscriptions
    filters_len write_char write_int write_string header_serialize remaining_length_serialize
    remaining_length_loop
subscribe_written = refl

subscribe_bounded_at : length subscribe_bytes ≤ 64
subscribe_bounded_at =
    subscribe_bounded 64 258 ((topic, 1) ∷ []) (unfold filters_len in omega arith) subscribe_written

abbrev unsubscribe_bytes : List ℕ
unsubscribe_bytes = 162 ∷ 7 ∷ 1 ∷ 2 ∷ 0 ∷ 3 ∷ b'a' ∷ b'/' ∷ b'b' ∷ []

unsubscribe_written : unsubscribe_packet_serialize 64 258 (topic ∷ []) ≡ ok unsubscribe_bytes
unfolding unsubscribe_packet_serialize sub_unsub_remaining_length_serialize write_filters
    filters_len write_char write_int write_string header_serialize remaining_length_serialize
    remaining_length_loop
unsubscribe_written = refl

unsubscribe_bounded_at : length unsubscribe_bytes ≤ 64
unsubscribe_bounded_at =
    unsubscribe_bounded 64 258 (topic ∷ []) (unfold filters_len in omega arith) unsubscribe_written
