-- ===== src/Client/Publish/Acked.antt =====
-- The PUBACK that answers a PUBLISH.
use iot_hub_device_c_sdk.Prelude.{
  ℕ, ◌^◌, ◌<◌, ◌≤◌, ◌≡◌, ◌≢◌, refl, ap, List, [], ◌∷◌, ◌++◌, if◌then◌else◌, ne→==, ==_refl, pos,
  arith, All,
}
use iot_hub_device_c_sdk.Packet.Defs.{ok}
use iot_hub_device_c_sdk.Packet.Deserialize.{puback_packet_deserialize}
use iot_hub_device_c_sdk.Packet.Wire.{int_bytes, read_int_lem}
use iot_hub_device_c_sdk.Packet.Acks.{puback_packet_deserialize_lem}
use iot_hub_device_c_sdk.Client.State.{
  Client, Env, PubInfo, client_event, event_publish_success, ret_success,
}
use iot_hub_device_c_sdk.Client.WaitList.{remove_pub_info}
use iot_hub_device_c_sdk.Client.Publish.{PublishParams, mqtt_publish, handle_puback}
use iot_hub_device_c_sdk.Client.Publish.Outgoing.{waiting_packet, new_info, mqtt_publish_queued}

-- No packet with the identifier waits.
abbrev pub IsUnused : ℕ → List PubInfo → Type 0
IsUnused i infos = All (λ info. info.packet_id ≢ i) infos

remove-last :
    (infos : List PubInfo) (info : PubInfo)
    → IsUnused info.packet_id infos
    → remove_pub_info info.packet_id (infos ++ (info ∷ [])) ≡ infos
unfolding remove_pub_info
remove-last [] info h = rw (==_refl info.packet_id) refl
remove-last (j ∷ infos) info h =
    rw (ne→== j.packet_id info.packet_id h.0) (ap (λ l. j ∷ l) (remove-last infos info h.1))

-- A PUBACK in the read buffer takes the first packet with its identifier off the list, and the
-- application hears of it.
handle_puback_lem :
    (c : Client) (i : ℕ) (more : List ℕ)
    → i < 2 ^ 16
    → 4 ≤ c.read_buf_size
    → c.read_buf ≡ 64 ∷ 2 ∷ (int_bytes i ++ more)
    → let (rc, c') = handle_puback c in
      (rc ≡ ret_success)
      × (c'.list_pub_wait_ack ≡ remove_pub_info i c.list_pub_wait_ack)
      × (c'.trace
          ≡ (if c.h_fp then c.trace ++ (client_event event_publish_success i ∷ []) else c.trace))
unfolding handle_puback
handle_puback_lem c i more small room bytes =
    let read : puback_packet_deserialize c.read_buf_size c.read_buf ≡ ok i =
      rw
        (
          bytes,
          puback_packet_deserialize_lem c.read_buf_size 2 (int_bytes i ++ more) (omega arith) room,
          read_int_lem i more small,
        )
        refl in
    ground arith

module _ (env : Env) where
  -- Over a network layer that writes a packet whole or fails, a message with a QoS above 0 that
  -- `mqtt_publish` accepts is no longer waiting once the PUBACK with its identifier, below 2 ^ 16, was
  -- handled from a buffer of 4 bytes or more. The list of the packets that wait is as it was before, if
  -- no other packet with the identifier waits and nothing else was done to the list in between.
  pub publish_acknowledged :
      (topic_name : List ℕ) (params : PublishParams) (c c2 : Client) (packet more : List ℕ) (n : ℕ)
      → 0 < params.qos
      → ((k m : ℕ) → env.write k ≡ pos m → m ≡ 0)
      → waiting_packet env topic_name params c ≡ ok packet
      → (mqtt_publish env topic_name params c).0 ≡ pos n
      → n < 2 ^ 16
      → IsUnused n c.list_pub_wait_ack
      → c2.list_pub_wait_ack ≡ (mqtt_publish env topic_name params c).1.list_pub_wait_ack
      → 4 ≤ c2.read_buf_size
      → c2.read_buf ≡ 64 ∷ 2 ∷ (int_bytes n ++ more)
      → (handle_puback c2).1.list_pub_wait_ack ≡ c.list_pub_wait_ack
  publish_acknowledged topic_name params c c2 packet more n q net p sent small unused same room
        bytes =
      let (id, queued, traced, bound) =
        mqtt_publish_queued env topic_name params c packet n q net p sent in
      let (rc, removed, heard) = handle_puback_lem c2 n more small room bytes in
      rw (removed, same, queued) (remove-last c.list_pub_wait_ack (new_info env packet n c) unused)
