-- ===== src/Client/Publish.antt =====
-- services/common/mqtt_client/src/mqtt_client_publish.c: publishing, and the packets that come in.
pub mod Deliver
pub mod Outgoing
pub mod Acked
use iot_hub_device_c_sdk.Prelude.{
  ℕ, zero, suc, ◌+◌, ◌<◌, ◌≤◌, ◌≡◌, refl, List, [], ◌∷◌, ◌++◌, Bool, true, false, not, ◌&&◌, Option,
  none, some, if◌then◌else◌, ltb, ◌==◌, ℤ, pos, length,
}
use iot_hub_device_c_sdk.Packet.Defs.{Result, ok, err, fault, Fault, PublishFlags}
use iot_hub_device_c_sdk.Packet.Serialize.{publish_packet_serialize, puback_packet_serialize}
use iot_hub_device_c_sdk.Packet.Deserialize.{
  Publish, publish_packet_deserialize, puback_packet_deserialize,
}
use iot_hub_device_c_sdk.Client.Topic.{is_topic_matched}
use iot_hub_device_c_sdk.Client.RepeatBuf.{get_packet_id_repeat_buf, add_packet_id_to_repeat_buf}
use iot_hub_device_c_sdk.Client.State.{
  Client, Env, M, ◌>>=◌, ◌>>◌, pure, emit, modify, notify, SubTopicHandle, Effect, message,
  publish_received, undefined_behaviour, event_publish_success, failed, packet_rc, serialize_rc,
  err_failure, ret_success,
}
use iot_hub_device_c_sdk.Client.Common.{next_id, send_mqtt_packet}
use iot_hub_device_c_sdk.Client.WaitList.{remove_pub_node, remove_pub_info, push_pub_info_to_list}

-- PublishParams
pub record PublishParams : Type 0 where
  pub qos : ℕ
  pub retain : ℕ
  pub dup : ℕ
  pub payload : List ℕ

-- The loop of _deliver_message: the user data of the handler that it calls.
unfoldable pub receiver : List ℕ → List SubTopicHandle → Option ℕ
receiver topic [] = none
receiver topic (h ∷ hs) =
    let matched : Bool = elim h.topic_filter [
      | none ↦ false
      | some t ↦ is_topic_matched t.bytes topic
    ] in
    if matched && h.params.on_message_handler then some h.params.user_data else receiver topic hs

-- _deliver_message
unfoldable pub deliver_message : Publish → M (Unit {0})
deliver_message m c = elim (receiver m.topic_name c.sub_handles) [
  | some user_data ↦ emit (message user_data m) c
  | none ↦ (if c.h_fp then emit (publish_received m) c else (tt, c))
]

-- A reader ran into undefined behaviour: the trace says so, and nothing after it is known.
abbrev pub undefined_rc : Fault → M ℤ
undefined_rc u c = (err_failure, record c { trace = c.trace ++ (undefined_behaviour u ∷ []) })

module _ (env : Env) where
  -- qcloud_iot_mqtt_publish behind the serialization of a packet with a QoS above 0.
  unfoldable pub publish_waiting : ℕ → List ℕ → M ℤ
  publish_waiting packet_id packet = do
    node ← push_pub_info_to_list env packet packet_id
    elim node [
      | none ↦ pure err_failure
      | some node ↦ (do
        rc ← send_mqtt_packet env packet
        if failed rc
            then (do
              modify λ c. record c { list_pub_wait_ack = remove_pub_node node c.list_pub_wait_ack }
              pure rc)
            else pure (pos packet_id))
    ]

  -- qcloud_iot_mqtt_publish
  unfoldable pub mqtt_publish : List ℕ → PublishParams → M ℤ
  mqtt_publish topic_name params = do
    packet_id ← (if ltb 0 params.qos then next_id else pure 0)
    packet ← (λ c. (
      publish_packet_serialize c.write_buf_size
          (record { dup = params.dup; qos = params.qos; retain = params.retain }) packet_id
          topic_name params.payload,
      c,
    ))
    elim packet [
      | err e ↦ pure (serialize_rc e)
      | fault u ↦ undefined_rc u
      | ok packet ↦
          (if ltb 0 params.qos then publish_waiting packet_id packet else (do
            rc ← send_mqtt_packet env packet
            if failed rc then pure rc else pure (pos packet_id)))
    ]

  -- The reply of qcloud_iot_mqtt_handle_publish.
  unfoldable pub reply_puback : ℕ → M ℤ
  reply_puback packet_id c = elim (puback_packet_serialize c.write_buf_size packet_id) [
    | ok packet ↦ send_mqtt_packet env packet c
    | err e ↦ (serialize_rc e, c)
    | fault u ↦ undefined_rc u c
  ]

  -- qcloud_iot_mqtt_handle_publish for a message with a QoS above 0.
  unfoldable pub handle_publish_id : ℕ → Publish → M ℤ
  handle_publish_id packet_id m = do
    known ← (λ c. (get_packet_id_repeat_buf c.repeat_buf.ids packet_id, c))
    if known then pure tt else deliver_message m
    modify λ c. record c { repeat_buf = add_packet_id_to_repeat_buf c.repeat_buf packet_id }
    reply_puback packet_id

  -- qcloud_iot_mqtt_handle_publish
  unfoldable pub handle_publish : M ℤ
  handle_publish c = elim (publish_packet_deserialize c.read_buf_size c.read_buf) [
    | err e ↦ (packet_rc e, c)
    | fault u ↦ undefined_rc u c
    | ok m ↦ elim m.packet_id [
      | none ↦ (do deliver_message m; pure ret_success) c
      | some packet_id ↦ handle_publish_id packet_id m c
    ]
  ]

-- qcloud_iot_mqtt_handle_puback
unfoldable pub handle_puback : M ℤ
handle_puback c = elim (puback_packet_deserialize c.read_buf_size c.read_buf) [
  | err e ↦ (packet_rc e, c)
  | fault u ↦ undefined_rc u c
  | ok packet_id ↦
      (do
        modify λ c. record c { list_pub_wait_ack = remove_pub_info packet_id c.list_pub_wait_ack }
        notify event_publish_success packet_id
        pure ret_success)
        c
]
