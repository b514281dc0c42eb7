-- ===== src/Client/Subscribe.antt =====
-- services/common/mqtt_client/src/mqtt_client_subscribe.c: subscribing and unsubscribing.
pub mod Ack
pub mod Undo
pub mod Remove
use iot_hub_device_c_sdk.Prelude.{
  ℕ, ◌+◌, ◌≡◌, refl, List, [], ◌∷◌, ◌++◌, Bool, true, false, not, Option, none, some, if◌then◌else◌,
  ℤ, pos, negsuc, ◌==ℤ◌,
}
use iot_hub_device_c_sdk.Packet.Defs.{
  Result, ok, err, fault, PacketType, subscribe, unsubscribe, out_of_bounds, uninitialized,
}
use iot_hub_device_c_sdk.Packet.Serialize.{subscribe_packet_serialize, unsubscribe_packet_serialize}
use iot_hub_device_c_sdk.Packet.Deserialize.{suback_packet_deserialize, unsuback_packet_deserialize}
use iot_hub_device_c_sdk.Client.State.{
  Client, Env, M, ◌>>=◌, ◌>>◌, pure, emit, modify, notify, SubTopicHandle, SubscribeParams, Text,
  sub_event, event_subscribe_success, event_subscribe_nack, event_unsubscribe_success, failed,
  packet_rc, serialize_rc, err_failure, err_malloc, err_mqtt_sub, err_mqtt_unsub_fail, ret_success,
}
use iot_hub_device_c_sdk.Client.Common.{next_id, ask, send_mqtt_packet}
use iot_hub_device_c_sdk.Client.Handles.{add_handle, remove_handles, set_status, clear_effects}
use iot_hub_device_c_sdk.Client.WaitList.{
  no_handle, emit_all, push_sub_info_to_list, remove_sub_node, pop_sub_info,
}
use iot_hub_device_c_sdk.Client.Publish.{undefined_rc}

-- _remove_sub_handle_from_array
unfoldable pub remove_sub_handle : List ℕ → M Bool
remove_sub_handle topic c =
    let (exists, effects, hs) = remove_handles topic c.sub_handles in
    (exists, record c { trace = c.trace ++ effects; sub_handles = hs })

-- _add_sub_handle_to_array
unfoldable pub add_sub_handle : SubTopicHandle → List ℕ → M ℤ
add_sub_handle handle topic c = elim (add_handle handle topic c.sub_handles) [
  | none ↦ (err_failure, c)
  | some r ↦ (ret_success, record c { trace = c.trace ++ r.0; sub_handles = r.1 })
]

-- The label `exit` of qcloud_iot_mqtt_subscribe.
unfoldable pub subscribe_exit : List ℕ → ℤ → M ℤ
subscribe_exit topic rc = do exists ← remove_sub_handle topic; pure rc

-- _pop_sub_info_from_list
unfoldable pub pop_handle : ℕ → M SubTopicHandle
pop_handle packet_id c =
    let (handle, rest) = pop_sub_info packet_id c.list_sub_wait_ack in
    (handle, record c { list_sub_wait_ack = rest })

-- `0x80 == granted_qos`
abbrev pub is_nack : ℤ → Bool
is_nack code = code ==ℤ pos 128

-- qcloud_iot_mqtt_handle_suback behind the search for the subscription.
unfoldable pub suback_result : ℕ → ℤ → SubTopicHandle → List ℕ → M ℤ
suback_result packet_id code handle topic = do
  if is_nack code
      then (do exists ← remove_sub_handle topic; pure tt)
      else modify (λ c. record c { sub_handles = set_status topic true c.sub_handles })
  notify (if is_nack code then event_subscribe_nack else event_subscribe_success) packet_id
  if handle.params.on_sub_event_handler
      then emit (
          sub_event (if is_nack code then event_subscribe_nack else event_subscribe_success)
            handle.params.user_data)
      else pure tt
  pure (if is_nack code then err_mqtt_sub else ret_success)

-- qcloud_iot_mqtt_handle_suback behind the reader, by the codes that it has written to the one
-- variable `granted_qos`.
unfoldable pub suback_codes : ℕ → List ℤ → M ℤ
suback_codes packet_id [] = do
  handle ← pop_handle packet_id
  elim handle.topic_filter [ none ↦ pure ret_success | some t ↦ undefined_rc uninitialized ]
suback_codes packet_id (code ∷ []) = do
  handle ← pop_handle packet_id
  elim handle.topic_filter [
    | none ↦ pure ret_success
    | some t ↦ suback_result packet_id code handle t.bytes
  ]
suback_codes packet_id (code ∷ code' ∷ codes) = undefined_rc out_of_bounds

module _ (env : Env) where
  -- qcloud_iot_mqtt_subscribe behind the storing of the handle.
  unfoldable pub subscribe_waiting : SubTopicHandle → List ℕ → ℕ → M ℤ
  subscribe_waiting handle topic qos = do
    packet_id ← next_id
    packet ← (λ c. (subscribe_packet_serialize c.write_buf_size packet_id ((topic, qos) ∷ []), c))
    elim packet [
      | err e ↦ subscribe_exit topic (serialize_rc e)
      | fault u ↦ undefined_rc u
      | ok packet ↦ (do
        node ← push_sub_info_to_list env packet packet_id subscribe handle
        elim node [
          | none ↦ subscribe_exit topic err_failure
          | some node ↦ (do
            rc ← send_mqtt_packet env packet
            if failed rc
                then (do
                  modify
                      λ c. record c { list_sub_wait_ack = remove_sub_node node c.list_sub_wait_ack }
                  subscribe_exit topic rc)
                else pure (pos packet_id))
        ])
    ]

  -- qcloud_iot_mqtt_subscribe. The address of the stored topic is the number of the call that allocates
  -- it.
  unfoldable pub mqtt_subscribe : List ℕ → SubscribeParams → M ℤ
  mqtt_subscribe topic params = do
    addr ← (λ c. (c.step, c))
    stored ← ask env.malloc
    default ← (λ c. (c.default_subscribe, c))
    let handle : SubTopicHandle = record {
      topic_filter = some (record { addr = addr; bytes = topic });
      status = default;
      params = params;
    }
    if not stored then pure err_malloc else do
      rc ← add_sub_handle handle topic
      if failed rc
          then subscribe_exit topic rc
          else if default
          then pure ret_success
          else subscribe_waiting handle topic params.qos

  -- qcloud_iot_mqtt_handle_suback
  unfoldable pub handle_suback : M ℤ
  handle_suback c = elim (suback_packet_deserialize env.char_kind c.read_buf_size 1 c.read_buf) [
    | err e ↦ (packet_rc e, c)
    | fault u ↦ undefined_rc u c
    | ok m ↦ suback_codes m.0 m.1 c
  ]

  -- qcloud_iot_mqtt_unsubscribe behind the copy of the topic.
  unfoldable pub unsubscribe_waiting : SubTopicHandle → List ℕ → M ℤ
  unsubscribe_waiting handle topic = do
    packet_id ← next_id
    packet ← (λ c. (unsubscribe_packet_serialize c.write_buf_size packet_id (topic ∷ []), c))
    elim packet [
      | err e ↦ (do emit_all (clear_effects handle); pure (serialize_rc e))
      | fault u ↦ undefined_rc u
      | ok packet ↦ (do
        node ← push_sub_info_to_list env packet packet_id unsubscribe handle
        elim node [
          | none ↦ (do emit_all (clear_effects handle); pure err_failure)
          | some node ↦ (do
            rc ← send_mqtt_packet env packet
            if failed rc
                then (do
                  modify
                      λ c. record c { list_sub_wait_ack = remove_sub_node node c.list_sub_wait_ack }
                  emit_all (clear_effects handle)
                  pure rc)
                else pure (pos packet_id))
        ])
    ]

  -- qcloud_iot_mqtt_unsubscribe
  unfoldable pub mqtt_unsubscribe : List ℕ → M ℤ
  mqtt_unsubscribe topic = do
    exists ← remove_sub_handle topic
    if not exists then pure err_mqtt_unsub_fail else do
      addr ← (λ c. (c.step, c))
      stored ← ask env.malloc
      if not stored
          then pure err_failure
          else unsubscribe_waiting
              (record no_handle { topic_filter = some (record { addr = addr; bytes = topic }) })
              topic

  -- The loop of qcloud_iot_mqtt_resubscribe.
  unfoldable pub resubscribe_loop : List SubTopicHandle → M ℤ
  resubscribe_loop [] = pure ret_success
  resubscribe_loop (h ∷ hs) = do
    let next = resubscribe_loop hs
    elim h.topic_filter [
      | none ↦ next
      | some t ↦ (do
        packet_id ← next_id
        packet ← (λ c. (
          subscribe_packet_serialize c.write_buf_size packet_id ((t.bytes, h.params.qos) ∷ []),
          c,
        ))
        elim packet [
          | err e ↦ next
          | fault u ↦ undefined_rc u
          | ok packet ↦ (do rc ← send_mqtt_packet env packet; if failed rc then pure rc else next)
        ])
    ]

  -- qcloud_iot_mqtt_resubscribe
  unfoldable pub resubscribe : M ℤ
  resubscribe c = resubscribe_loop c.sub_handles c

-- qcloud_iot_mqtt_handle_unsuback
unfoldable pub handle_unsuback : M ℤ
handle_unsuback c = elim (unsuback_packet_deserialize c.read_buf_size c.read_buf) [
  | err e ↦ (packet_rc e, c)
  | fault u ↦ undefined_rc u c
  | ok packet_id ↦
      (do
        handle ← pop_handle packet_id
        emit_all (clear_effects handle)
        notify event_unsubscribe_success packet_id
        pure ret_success)
        c
]
