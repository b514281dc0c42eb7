-- ===== src/Client/Examples/Messages.antt =====
-- Messages, acknowledgements and subscriptions.
use iot_hub_device_c_sdk.Prelude.{
  ℕ, ◌≤◌, ◌≡◌, refl, List, [], ◌∷◌, ◌++◌, arith, length, none, some, pos, negsuc, if◌then◌else◌,
  eq_bytes,
}
use iot_hub_device_c_sdk.Packet.Defs.{ok, subscribe}
use iot_hub_device_c_sdk.Packet.Write.{
  write_char, write_int, write_string, header_serialize, remaining_length_serialize,
  remaining_length_loop,
}
use iot_hub_device_c_sdk.Packet.Serialize.{
  publish_packet_serialize, publish_remaining_length_serialize, publish_len,
}
use iot_hub_device_c_sdk.Packet.Read
use iot_hub_device_c_sdk.Packet.Read.{
  packet_type_check, remaining_length_deserialize, read_int, read_char, read_string, check_header,
}
use iot_hub_device_c_sdk.Packet.Deserialize.{
  Publish, fixed_header, publish_packet_deserialize, signed_char, read_packet_id,
}
use iot_hub_device_c_sdk.Packet.Wire.{int_bytes}
use iot_hub_device_c_sdk.Client.State.{Client, SubInfo, net_write}
use iot_hub_device_c_sdk.Client.Common.{next_id, send_mqtt_packet}
use iot_hub_device_c_sdk.Client.PacketId.{get_next_packet_id}
use iot_hub_device_c_sdk.Client.RepeatBuf.{get_packet_id_repeat_buf}
use iot_hub_device_c_sdk.Client.Handles.Laws.{find}
use iot_hub_device_c_sdk.Client.WaitList.{max_repub_num, pop_sub_info, push_pub_info_to_list}
use iot_hub_device_c_sdk.Client.Publish.{
  PublishParams, mqtt_publish, publish_waiting, handle_publish, handle_puback, deliver_message,
}
use iot_hub_device_c_sdk.Client.Publish.Deliver.{
  handle_publish_delivers, handle_publishes, handle_publish_again,
}
use iot_hub_device_c_sdk.Client.Publish.Outgoing.{
  new_info, waiting_packet, mqtt_publish_failed, mqtt_publish_queued,
}
use iot_hub_device_c_sdk.Client.Publish.Acked.{publish_acknowledged}
use iot_hub_device_c_sdk.Client.Subscribe.{handle_suback}
use iot_hub_device_c_sdk.Client.Subscribe.Ack.{Refused, handle_suback_refusal}
use iot_hub_device_c_sdk.Client.Subscribe.{mqtt_unsubscribe}
use iot_hub_device_c_sdk.Client.Subscribe.Remove.{FailsWithout, mqtt_unsubscribe_removes}
use iot_hub_device_c_sdk.Client.Examples.{network, broken, client, topic, handle}
use iot_hub_device_c_sdk.Client.Examples.Topics.{ring, handles, valid, topic_plain}

-- PUBLISH with QoS 1 and identifier 3 of "h" to the topic.
abbrev incoming : List ℕ
incoming = 50 ∷ 8 ∷ 0 ∷ 3 ∷ b'a' ∷ b'/' ∷ b'b' ∷ 0 ∷ 3 ∷ b'h' ∷ []

abbrev receiving : Client
receiving = record client { read_buf = incoming }

abbrev received : Publish
received = record {
  flags = record { dup = 0; qos = 1; retain = 0 };
  packet_id = some 3;
  topic_name = topic;
  payload = b'h' ∷ [];
  payload_len = pos 1;
}

received_read : publish_packet_deserialize 16 incoming ≡ ok received
unfolding publish_packet_deserialize fixed_header packet_type_check check_header read_char read_int
    read_string remaining_length_deserialize Read.remaining_length_loop read_packet_id
received_read = refl

handle_publish_delivers_at :
    (handle_publish (network 0) receiving).1.trace
    ≡ (if get_packet_id_repeat_buf (ring.ids) 3
        then []
        else (deliver_message received receiving).1.trace)
      ++ (net_write (64 ∷ 2 ∷ int_bytes 3) ∷ [])
handle_publish_delivers_at =
    handle_publish_delivers (network 0) receiving received 3 received_read refl (omega arith)

-- Two other packets: one with the identifier 4, and one that cannot be read.
abbrev others : List (List ℕ)
others = (50 ∷ 8 ∷ 0 ∷ 3 ∷ b'a' ∷ b'/' ∷ b'b' ∷ 0 ∷ 4 ∷ b'h' ∷ []) ∷ (64 ∷ []) ∷ []

handle_publish_again_example :
    let c' = handle_publishes (network 0) others (handle_publish (network 0) receiving).1 in
    (handle_publish (network 0) (record c' { read_buf = incoming })).1.trace
    ≡ c'.trace ++ (net_write (64 ∷ 2 ∷ int_bytes 3) ∷ [])
handle_publish_again_example =
    handle_publish_again (network 0) receiving received 3 others received_read refl (omega arith)
      valid (unfold get_packet_id_repeat_buf in refl) (omega arith)

abbrev sending : PublishParams
sending = record { qos = 1; retain = 0; dup = 0; payload = b'h' ∷ [] }

publish_fails : (mqtt_publish broken topic sending client).0 ≡ negsuc 606
unfolding mqtt_publish publish_waiting next_id push_pub_info_to_list send_mqtt_packet
    get_next_packet_id publish_packet_serialize publish_remaining_length_serialize publish_len
    write_char write_int write_string header_serialize remaining_length_serialize
    remaining_length_loop
publish_fails = refl

mqtt_publish_failed_example : (mqtt_publish broken topic sending client).1.list_pub_wait_ack ≡ []
mqtt_publish_failed_example =
    mqtt_publish_failed broken topic sending client 606 (omega arith) tt publish_fails

abbrev packet : List ℕ
packet = 50 ∷ 8 ∷ 0 ∷ 3 ∷ b'a' ∷ b'/' ∷ b'b' ∷ 0 ∷ 5 ∷ b'h' ∷ []

packet_written : waiting_packet (network 0) topic sending client ≡ ok packet
unfolding get_next_packet_id publish_packet_serialize publish_remaining_length_serialize publish_len
    write_char write_int write_string header_serialize remaining_length_serialize
    remaining_length_loop
packet_written = refl

publish_sent : (mqtt_publish (network 0) topic sending client).0 ≡ pos 5
unfolding mqtt_publish publish_waiting next_id push_pub_info_to_list send_mqtt_packet
    get_next_packet_id publish_packet_serialize publish_remaining_length_serialize publish_len
    write_char write_int write_string header_serialize remaining_length_serialize
    remaining_length_loop
publish_sent = refl

writes_whole : (k m : ℕ) → (network 0).write k ≡ pos m → m ≡ 0
writes_whole k m e = ground arith

mqtt_publish_queued_example :
    let c' = (mqtt_publish (network 0) topic sending client).1 in
    (5 ≡ get_next_packet_id (client.next_packet_id))
    × (c'.list_pub_wait_ack ≡ new_info (network 0) packet 5 client ∷ [])
    × (c'.trace ≡ net_write packet ∷ [])
    × (length c'.list_pub_wait_ack ≤ max_repub_num)
mqtt_publish_queued_example =
    mqtt_publish_queued (network 0) topic sending client packet 5 (omega arith) writes_whole
      packet_written publish_sent

abbrev published : Client
published = record ((mqtt_publish (network 0) topic sending client).1) {
  read_buf_size = 16;
  read_buf = 64 ∷ 2 ∷ (int_bytes 5 ++ []);
}

publish_acknowledged_example : (handle_puback published).1.list_pub_wait_ack ≡ []
publish_acknowledged_example =
    publish_acknowledged (network 0) topic sending client published packet [] 5 (omega arith)
      writes_whole packet_written publish_sent (omega arith) tt refl (omega arith) refl

-- A subscription that waits, and the SUBACK that grants QoS 1.
abbrev waiting : SubInfo
waiting = record {
  node = 3;
  buf = [];
  kind = subscribe;
  packet_id = 5;
  sub_start_time = 0;
  handler = handle;
}

abbrev granted_client : Client
granted_client = record client {
  list_sub_wait_ack = waiting ∷ [];
  read_buf = 144 ∷ 3 ∷ 0 ∷ 5 ∷ 1 ∷ [];
}

waiting_popped : pop_sub_info 5 (waiting ∷ []) ≡ (handle, [])
unfolding pop_sub_info
waiting_popped = refl

abbrev refused_client : Client
refused_client = record client {
  list_sub_wait_ack = waiting ∷ [];
  read_buf = 144 ∷ 3 ∷ (int_bytes 5 ++ (128 ∷ []));
}

handle_suback_refusal_example :
    let (rc, c') = handle_suback (network 0) refused_client in
    Refused signed_char rc (find topic handles) (find topic c'.sub_handles)
handle_suback_refusal_example =
    handle_suback_refusal (network 0) refused_client 5 [] (omega arith) (omega arith) refl
      waiting_popped refl topic_plain

mqtt_unsubscribe_removes_example :
    let (rc, c') = mqtt_unsubscribe (network 0) topic client in
    (find topic c'.sub_handles ≡ (if eq_bytes topic topic then none else find topic handles))
    × FailsWithout (find topic handles) rc
mqtt_unsubscribe_removes_example =
    mqtt_unsubscribe_removes (network 0) topic topic client topic_plain
