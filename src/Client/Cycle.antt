-- ===== src/Client/Cycle.antt =====
-- services/common/mqtt_client/src/mqtt_client_yield.c: one packet is read and handled, and the wait for a
-- packet of one type.
use iot_hub_device_c_sdk.Prelude.{
  ℕ, zero, suc, Bool, not, ◌&&◌, ◌||◌, Option, none, some, if◌then◌else◌, ◌==◌, ℤ, ◌==ℤ◌, is_zero,
}
use iot_hub_device_c_sdk.Packet.Defs.{
  PacketType, type_number, connack, publish, puback, suback, unsuback, pingresp,
}
use iot_hub_device_c_sdk.Timer.{expired, countdown, countdown_ms}
use iot_hub_device_c_sdk.Client.State.{
  Env, M, ◌>>=◌, ◌>>◌, pure, modify, failed, ret_success, err_mqtt_nothing_to_read,
  err_rx_message_inval, err_mqtt_request_timeout,
}
use iot_hub_device_c_sdk.Client.Common.{ask}
use iot_hub_device_c_sdk.Client.Publish.{handle_publish, handle_puback}
use iot_hub_device_c_sdk.Client.Subscribe.{handle_suback, handle_unsuback}
use iot_hub_device_c_sdk.Client.Read.{read_mqtt_packet}

-- PUBREC, PUBREL and PUBCOMP, that the client reads and ignores.
abbrev pub is_qos2_reply : ℕ → Bool
is_qos2_reply t = t == 5 || (t == 6 || t == 7)

module _ (env : Env) where
  -- _handle_pingresp_packet
  unfoldable pub handle_pingresp_packet : M (Unit {0})
  handle_pingresp_packet = do
    now ← ask env.now
    modify λ c. record c {
      is_ping_outstanding = 0;
      ping_timer = countdown now c.options.keep_alive_interval;
    }

  -- The first `switch` of _cycle_for_read; nothing for a type that it does not know.
  unfoldable pub handle_packet : ℕ → M (Option ℤ)
  handle_packet t c =
      if t == type_number connack || (t == type_number pingresp || is_qos2_reply t)
      then (some ret_success, c)
      else if t == type_number puback
      then (some (handle_puback c).0, (handle_puback c).1)
      else if t == type_number suback
      then (some (handle_suback env c).0, (handle_suback env c).1)
      else if t == type_number unsuback
      then (some (handle_unsuback c).0, (handle_unsuback c).1)
      else if t == type_number publish
      then (some (handle_publish env c).0, (handle_publish env c).1)
      else (none, c)

  -- The second `switch`: what the packet says of the link.
  unfoldable pub note_packet : ℕ → M (Unit {0})
  note_packet t =
      if t == type_number puback
        || (t == type_number suback || (t == type_number unsuback || t == type_number pingresp))
      then handle_pingresp_packet
      else if t == type_number publish
      then modify (λ c. record c { is_ping_outstanding = 0 })
      else pure tt

  -- _cycle_for_read, at the packet type that is there before: the code and the packet type; nothing if
  -- the fuel for discarding ran out.
  unfoldable pub cycle_for_read : ℕ → ℕ → ℕ → M (Option (ℤ × ℕ))
  cycle_for_read fuel timer packet_type = do
    r ← read_mqtt_packet env fuel timer packet_type
    elim r [
      | none ↦ pure none
      | some r ↦
          (if r.0 ==ℤ err_mqtt_nothing_to_read
            then pure (some (ret_success, r.1))
            else if failed r.0
            then pure (some r)
            else (do
              rc ← handle_packet r.1
              elim rc [
                | none ↦ pure (some (err_rx_message_inval, r.1))
                | some rc ↦ (do note_packet r.1; pure (some (rc, r.1)))
              ]))
    ]

  -- The loop of qcloud_iot_mqtt_wait_for_read on fuel: nothing if the fuel ran out.
  unfoldable pub wait_loop : ℕ → ℕ → ℕ → ℕ → ℕ → M (Option ℤ)
  wait_loop zero discard timer packet_type read_packet_type = pure none
  wait_loop (suc fuel) discard timer packet_type read_packet_type = do
    now ← ask env.now
    let next = wait_loop fuel discard timer packet_type
    if expired timer now then pure (some err_mqtt_request_timeout) else do
      r ← cycle_for_read discard timer read_packet_type
      elim r [
        | none ↦ pure none
        | some r ↦ (if is_zero r.0 && not (r.1 == packet_type) then next r.1 else pure (some r.0))
      ]

  -- qcloud_iot_mqtt_wait_for_read
  unfoldable pub wait_for_read : ℕ → ℕ → PacketType → M (Option ℤ)
  wait_for_read fuel discard packet_type = do
    now ← ask env.now
    timeout_ms ← (λ c. (c.command_timeout_ms, c))
    wait_loop fuel discard (countdown_ms now timeout_ms) (type_number packet_type) 0
