-- ===== src/Client/Connect.antt =====
-- services/common/mqtt_client/src/mqtt_client_connect.c: connecting, disconnecting and pinging.
pub mod Laws
use iot_hub_device_c_sdk.Prelude.{
  ℕ, zero, suc, ◌+◌, ◌≡◌, refl, List, [], ◌∷◌, ◌++◌, Bool, true, false, not, Option, none, some,
  if◌then◌else◌, ◌==◌, ℤ, pos, negsuc,
}
use iot_hub_device_c_sdk.Packet.Defs.{Result, ok, err, fault, connack}
use iot_hub_device_c_sdk.Packet.Serialize.{
  connect_packet_serialize, disconnect_packet_serialize, pingreq_packet_serialize,
}
use iot_hub_device_c_sdk.Packet.Deserialize.{connack_packet_deserialize}
use iot_hub_device_c_sdk.Timer.{countdown}
use iot_hub_device_c_sdk.Client.State.{
  Client, Env, M, ◌>>=◌, ◌>>◌, pure, emit, modify, net_connect, net_disconnect, failed, packet_rc,
  serialize_rc, ret_success, ret_mqtt_already_connected, ret_mqtt_reconnected, err_mqtt_no_conn,
}
use iot_hub_device_c_sdk.Client.Common.{ask, send_mqtt_packet, set_client_conn_state}
use iot_hub_device_c_sdk.Client.Publish.{undefined_rc}
use iot_hub_device_c_sdk.Client.Subscribe.{resubscribe}
use iot_hub_device_c_sdk.Client.Cycle.{wait_for_read}

module _ (env : Env) where
  -- A packet that was serialized is sent, or the error of its serialization is the result.
  unfoldable pub send_serialized : Result (List ℕ) → M ℤ
  send_serialized (ok packet) c = send_mqtt_packet env packet c
  send_serialized (err e) c = (serialize_rc e, c)
  send_serialized (fault u) c = undefined_rc u c

  -- _mqtt_connect behind the wait for the CONNACK packet.
  unfoldable pub read_connack : M ℤ
  read_connack c = elim (connack_packet_deserialize c.read_buf_size c.read_buf) [
    | err e ↦ (packet_rc e, c)
    | fault u ↦ undefined_rc u c
    | ok m ↦
        (if not (m.1 == 0) then pure (pos m.1) else (do
          set_client_conn_state true
          now ← ask env.now
          modify λ c. record c {
            was_manually_disconnected = false;
            is_ping_outstanding = 0;
            ping_timer = countdown now c.options.keep_alive_interval;
          }
          pure ret_success))
          c
  ]

  -- _mqtt_connect; nothing if the fuel ran out.
  unfoldable pub connect_once : ℕ → ℕ → M (Option ℤ)
  connect_once fuel discard = do
    emit net_connect
    rc ← ask env.connect
    if failed rc then pure (some rc) else do
      packet ← (λ c. (connect_packet_serialize c.write_buf_size c.options, c))
      rc ← send_serialized packet
      if failed rc then pure (some rc) else do
        rc ← wait_for_read env fuel discard connack
        elim rc [
          | none ↦ pure none
          | some rc ↦ (if failed rc then pure (some rc) else (do rc ← read_connack; pure (some rc)))
        ]

  -- qcloud_iot_mqtt_connect
  unfoldable pub mqtt_connect : ℕ → ℕ → M (Option ℤ)
  mqtt_connect fuel discard = do
    connected ← (λ c. (c.is_connected, c))
    if connected then pure (some ret_mqtt_already_connected) else do
      rc ← connect_once fuel discard
      elim rc [
        | none ↦ pure none
        | some rc ↦ (do if failed rc then emit net_disconnect else pure tt; pure (some rc))
      ]

  -- qcloud_iot_mqtt_attempt_reconnect
  unfoldable pub attempt_reconnect : ℕ → ℕ → M (Option ℤ)
  attempt_reconnect fuel discard = do
    connected ← (λ c. (c.is_connected, c))
    if connected then pure (some ret_mqtt_already_connected) else do
      rc ← mqtt_connect fuel discard
      connected ← (λ c. (c.is_connected, c))
      elim rc [
        | none ↦ pure none
        | some rc ↦
            (if not connected then pure (some rc) else (do
              rc ← resubscribe env
              pure (some (if failed rc then rc else ret_mqtt_reconnected))))
      ]

  -- qcloud_iot_mqtt_disconnect
  unfoldable pub mqtt_disconnect : M ℤ
  mqtt_disconnect = do
    connected ← (λ c. (c.is_connected, c))
    if not connected then pure err_mqtt_no_conn else do
      packet ← (λ c. (disconnect_packet_serialize c.write_buf_size, c))
      rc ← send_serialized packet
      if failed rc then pure rc else do
        emit net_disconnect
        set_client_conn_state false
        modify λ c. record c { was_manually_disconnected = true }
        pure ret_success

  -- The loop of qcloud_iot_mqtt_pingreq: the packet is sent, and sent again up to `retries` times.
  unfoldable pub ping_loop : ℕ → List ℕ → M ℤ
  ping_loop zero packet = send_mqtt_packet env packet
  ping_loop (suc retries) packet = do
    rc ← send_mqtt_packet env packet
    let next = ping_loop retries packet
    if failed rc then next else pure rc

  -- qcloud_iot_mqtt_pingreq
  unfoldable pub mqtt_pingreq : ℕ → M ℤ
  mqtt_pingreq try_times c = elim (pingreq_packet_serialize c.write_buf_size) [
    | ok packet ↦ ping_loop try_times packet c
    | err e ↦ (serialize_rc e, c)
    | fault u ↦ undefined_rc u c
  ]
