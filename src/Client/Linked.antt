-- ===== src/Client/Linked.antt =====
-- What handling packets leaves alone: the connection and the wait before the next one.
pub mod Cycle
use iot_hub_device_c_sdk.Prelude.{
  ℕ, zero, suc, ◌+◌, ◌≤◌, ◌-◌, ◌*◌, ◌%◌, ◌^◌, leb, bit_and, ◌≡◌, ◌∙◌, refl, List, [], ◌∷◌, ◌++◌,
  Bool, true, false, Option, none, some, if◌then◌else◌, ℤ, arith, Option-cases, inl, inr,
}
use iot_hub_device_c_sdk.Packet.Defs.{Result, ok, err, fault, PacketType, Result-cases}
use iot_hub_device_c_sdk.Packet.Serialize.{subscribe_packet_serialize}
use iot_hub_device_c_sdk.Client.State.{
  Client, Env, M, ◌>>=◌, ◌>>◌, pure, emit, modify, notify, SubTopicHandle, EventType,
}
use iot_hub_device_c_sdk.Client.Common.{next_id, send_mqtt_packet, ask}
use iot_hub_device_c_sdk.Client.WaitList.{push_sub_info_to_list}
use iot_hub_device_c_sdk.Packet.Deserialize.{suback_packet_deserialize}
use iot_hub_device_c_sdk.Client.Publish.{
  handle_publish, handle_publish_id, handle_puback, deliver_message, reply_puback,
}
use iot_hub_device_c_sdk.Client.Read.{
  network_read, byte_at, remaining_len_loop, discard_loop, read_packet_header,
  read_packet_remaining_len, discard_packet_for_short_buf, read_packet_payload, read_mqtt_packet,
}
use iot_hub_device_c_sdk.Client.Cycle.{
  handle_packet, note_packet, handle_pingresp_packet, cycle_for_read, wait_loop, wait_for_read,
}
use iot_hub_device_c_sdk.Client.Subscribe.{
  subscribe_exit, remove_sub_handle, add_sub_handle, pop_handle, suback_result, suback_codes,
  handle_suback, handle_unsuback, resubscribe_loop,
}

-- The part of the state that they leave alone.
pub record Link : Type 0 where
  pub connected : Bool
  pub interval : ℕ
  pub delay : ℕ
  pub auto : Bool
  pub size : ℕ
  pub timeout : ℕ

unfoldable pub link : Client → Link
link c = record {
  connected = c.is_connected;
  interval = c.current_reconnect_wait_interval;
  delay = c.reconnect_delay_timer;
  auto = c.auto_connect_enable;
  size = c.read_buf_size;
  timeout = c.command_timeout_ms;
}

abbrev pub Keeps {ℓ} : {A : Type ℓ} → (Client → A × Client) → Type 0
Keeps m = (c : Client) → (link (m c).1 ≡ link c) × (c.step ≤ (m c).1.step)

pub send-link : (env : Env) (packet : List ℕ) → Keeps (send_mqtt_packet env packet)
unfolding link send_mqtt_packet
send-link env packet c = ground arith

remove-link : (topic : List ℕ) → Keeps (remove_sub_handle topic)
unfolding link remove_sub_handle
remove-link topic c = ground arith

suback_result-link :
    (i : ℕ) (code : ℤ) (h : SubTopicHandle) (t : List ℕ) → Keeps (suback_result i code h t)
unfolding link suback_result remove_sub_handle
suback_result-link i code h t c = ground arith

pub resubscribe-link : (env : Env) (hs : List SubTopicHandle) → Keeps (resubscribe_loop env hs)
unfolding link resubscribe_loop next_id
resubscribe-link env [] c = ground arith
resubscribe-link env (h ∷ hs) c =
    let rest = resubscribe-link env hs in
    let c1 = (next_id c).1 in
    elim (Option-cases h.topic_filter) [
      | inl free ↦ ground (arith, rest c)
      | inr (t, named) ↦
          elim (Result-cases (
            subscribe_packet_serialize c.write_buf_size (next_id c).0
              ((t.bytes, h.params.qos) ∷ []))) [
                | inl (packet, p) ↦
                    let sent = send-link env packet c1 in
                    ground (arith, sent, rest (send_mqtt_packet env packet c1).1)
                | inr other ↦ ground (arith, rest c1)
              ]
    ]

module _ (env : Env) where
  handle_publish-link : Keeps (handle_publish env)
  unfolding link handle_publish handle_publish_id deliver_message reply_puback send_mqtt_packet
  handle_publish-link c = ground arith

  handle_puback-link : Keeps handle_puback
  unfolding link handle_puback
  handle_puback-link c = ground arith

  suback_codes-link : (i : ℕ) (codes : List ℤ) → Keeps (suback_codes i codes)
  unfolding link suback_codes pop_handle
  suback_codes-link i [] c = ground arith
  suback_codes-link i (a ∷ b ∷ cs) c = ground arith
  suback_codes-link i (code ∷ []) c = elim (Option-cases (pop_handle i c).0.topic_filter) [
    | inl free ↦ ground arith
    | inr (t, named) ↦
        ground (arith, suback_result-link i code (pop_handle i c).0 t.bytes (pop_handle i c).1)
  ]

  handle_suback-link : Keeps (handle_suback env)
  unfolding link handle_suback
  handle_suback-link c =
      elim (Result-cases (suback_packet_deserialize env.char_kind c.read_buf_size 1 c.read_buf)) [
        | inl (m, e) ↦ ground (arith, suback_codes-link m.0 m.1 c)
        | inr other ↦ ground arith
      ]

  handle_unsuback-link : Keeps handle_unsuback
  unfolding link handle_unsuback pop_handle
  handle_unsuback-link c = ground arith

  pub handle_packet-link : (t : ℕ) → Keeps (handle_packet env t)
  unfolding handle_packet
  handle_packet-link t c = ground (
    arith,
    handle_publish-link c,
    handle_puback-link c,
    handle_suback-link c,
    handle_unsuback-link c,
  )

  pub note_packet-link : (t : ℕ) → Keeps (note_packet env t)
  unfolding link note_packet handle_pingresp_packet
  note_packet-link t c = ground arith
