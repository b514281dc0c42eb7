-- ===== src/Client/Connect/Laws.antt =====
-- The connection: what connecting, reconnecting and disconnecting do to the state.
use iot_hub_device_c_sdk.Prelude.{
  ℕ, ◌+◌, ◌≤◌, ◌≡◌, ◌≢◌, ap, List, [], ◌∷◌, ◌++◌, true, false, some, ℤ, pos, is_zero, arith,
  Option-cases, inl, inr,
}
use iot_hub_device_c_sdk.Packet.Defs.{Result, ok, err, fault, connack}
use iot_hub_device_c_sdk.Packet.Serialize.{connect_packet_serialize, disconnect_packet_serialize}
use iot_hub_device_c_sdk.Client.State.{Client, Env, net_connect}
use iot_hub_device_c_sdk.Client.Common.{set_client_conn_state}
use iot_hub_device_c_sdk.Client.Cycle.{wait_for_read}
use iot_hub_device_c_sdk.Client.Linked.{link, Keeps, send-link}
use iot_hub_device_c_sdk.Client.Linked.Cycle.{wait_for_read-link}
use iot_hub_device_c_sdk.Client.Connect.{
  send_serialized, read_connack, connect_once, mqtt_connect, attempt_reconnect, mqtt_disconnect,
}

module _ (env : Env) where
  pub send_serialized-link : (packet : Result (List ℕ)) → Keeps (send_serialized env packet)
  unfolding link send_serialized
  send_serialized-link (ok packet) c = send-link env packet c
  send_serialized-link (err e) c = ground arith
  send_serialized-link (fault u) c = ground arith

  same_connected :
      (c c' : Client) → (link c' ≡ link c) × (c.step ≤ c'.step) → c'.is_connected ≡ c.is_connected
  unfolding link
  same_connected c c' e = ap (λ l. l.connected) e.0

  read_connack_state :
      (c : Client)
      → c.is_connected ≡ false
      → (read_connack env c).1.is_connected ≡ is_zero (read_connack env c).0
  unfolding read_connack set_client_conn_state
  read_connack_state c h = ground arith

  connect_once_state :
      (fuel discard : ℕ) (c : Client) (rc : ℤ)
      → c.is_connected ≡ false
      → (connect_once env fuel discard c).0 ≡ some rc
      → (connect_once env fuel discard c).1.is_connected ≡ is_zero rc
  unfolding connect_once
  connect_once_state fuel discard c rc h e =
      let c1 : Client = record c { trace = c.trace ++ (net_connect ∷ []); step = c.step + 1 } in
      let packet = connect_packet_serialize c.write_buf_size c.options in
      let sent = send_serialized env packet c1 in
      let waited = wait_for_read env fuel discard connack sent.1 in
      let kept = same_connected c1 sent.1 (send_serialized-link packet c1) in
      let kept' =
        same_connected sent.1 waited.1 (wait_for_read-link env fuel discard connack sent.1) in
      elim (Option-cases waited.0) [
        | inl out ↦ ground arith
        | inr (rc', got) ↦ ground (arith, read_connack_state waited.1)
      ]

  -- A call on a client that is not connected, if it returns, leaves it connected exactly when it
  -- returns 0.
  pub mqtt_connect_state :
      (fuel discard : ℕ) (c : Client) (rc : ℤ)
      → c.is_connected ≡ false
      → (mqtt_connect env fuel discard c).0 ≡ some rc
      → (mqtt_connect env fuel discard c).1.is_connected ≡ is_zero rc
  unfolding mqtt_connect
  mqtt_connect_state fuel discard c rc h e =
      elim (Option-cases (connect_once env fuel discard c).0) [
        | inl out ↦ ground arith
        | inr (rc', got) ↦ ground (arith, connect_once_state fuel discard c rc' h got)
      ]

  -- When the server refuses the connection with return code `n`, that number is the result of
  -- `attempt_reconnect`, and the client is not connected: with 1 for an unacceptable protocol version, the
  -- result is the one that means that the client has reconnected.
  pub attempt_reconnect_refused :
      (fuel discard : ℕ) (c : Client) (n : ℕ)
      → c.is_connected ≡ false
      → 0 ≢ n
      → (mqtt_connect env fuel discard c).0 ≡ some (pos n)
      → let (rc, c') = attempt_reconnect env fuel discard c in
        (rc ≡ some (pos n)) × (c'.is_connected ≡ false)
  unfolding attempt_reconnect
  attempt_reconnect_refused fuel discard c n h nz e =
      let off : (mqtt_connect env fuel discard c).1.is_connected ≡ false =
        ground (arith, mqtt_connect_state fuel discard c (pos n) h e) in
      ground arith

  -- A disconnect succeeds exactly when it was connected and is no longer, and then it was manual;
  -- otherwise the connection is as it was.
  pub mqtt_disconnect_state :
      (c : Client)
      → let (rc, c') = mqtt_disconnect env c in
        (is_zero rc ≡ true
          → (c.is_connected ≡ true)
            × (c'.is_connected ≡ false)
            × (c'.was_manually_disconnected ≡ true))
        × (is_zero rc ≡ false → link c' ≡ link c)
  unfolding mqtt_disconnect set_client_conn_state
  mqtt_disconnect_state c =
      let packet = disconnect_packet_serialize c.write_buf_size in
      ground (arith, send_serialized-link packet c)
