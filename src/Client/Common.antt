-- ===== src/Client/Common.antt =====
-- services/common/mqtt_client/src/mqtt_client_common.c: the helpers of the other files.
use iot_hub_device_c_sdk.Prelude.{
  ℕ, ◌+◌, ◌≡◌, List, [], ◌∷◌, ◌++◌, ℤ, Bool, if◌then◌else◌, leb, ◌==ℤ◌, length, arith,
}
use iot_hub_device_c_sdk.Client.State.{
  Client, Env, M, ◌>>=◌, ◌>>◌, pure, emit, net_write, err_buf_too_short, err_tcp_write_timeout,
  err_mqtt_request_timeout,
}
use iot_hub_device_c_sdk.Client.PacketId

-- get_next_packet_id, as a step of the client.
unfoldable pub next_id : M ℕ
next_id c =
    let id = PacketId.get_next_packet_id c.next_packet_id in (id, record c { next_packet_id = id })

-- set_client_conn_state
unfoldable pub set_client_conn_state : Bool → M (Unit {0})
set_client_conn_state connected c = (tt, record c { is_connected = connected })

-- A call of the environment.
abbrev pub ask : {A : Type 0} → (ℕ → A) → M A
ask answer c = (answer c.step, record c { step = c.step + 1 })

module _ (env : Env) where
  -- send_mqtt_packet, for the packet that stands in `write_buf`.
  unfoldable pub send_mqtt_packet : List ℕ → M ℤ
  send_mqtt_packet packet c =
      if leb c.write_buf_size (length packet)
      then (err_buf_too_short, c)
      else (do
        emit (net_write packet)
        rc ← ask env.write
        pure (if rc ==ℤ err_tcp_write_timeout then err_mqtt_request_timeout else rc))
          c

  -- A packet is handed to the network whole, once, or, if it does not leave a byte of the write
  -- buffer free, not at all.
  pub send_mqtt_packet_lem :
      (packet : List ℕ) (c : Client)
      → (send_mqtt_packet packet c).1.trace ≡ (
          if leb c.write_buf_size (length packet)
          then c.trace
          else c.trace ++ (net_write packet ∷ []))
  unfolding send_mqtt_packet
  send_mqtt_packet_lem packet c = ground arith
