-- ===== src/Client/Yield/Steady.antt =====
-- What the main loop leaves alone: the size of the read buffer and the command timeout.
use iot_hub_device_c_sdk.Prelude.{
  ℕ, zero, suc, ◌+◌, ◌≤◌, ◌≡◌, ap, List, [], ◌∷◌, ◌++◌, arith, Option-cases, inl, inr,
}
use iot_hub_device_c_sdk.Packet.Defs.{Result-cases, connack}
use iot_hub_device_c_sdk.Packet.Serialize.{
  connect_packet_serialize, disconnect_packet_serialize, pingreq_packet_serialize,
}
use iot_hub_device_c_sdk.Client.State.{
  Client, Env, PubInfo, SubInfo, net_connect, net_disconnect, notify, event_publish_timeout,
}
use iot_hub_device_c_sdk.Client.Common.{send_mqtt_packet, set_client_conn_state}
use iot_hub_device_c_sdk.Client.WaitList.{
  pub_timeouts, sub_timeouts, check_pub_timeout, check_sub_timeout, sub_timeout_events, emit_all,
}
use iot_hub_device_c_sdk.Client.Handles.{clear_effects}
use iot_hub_device_c_sdk.Client.Cycle.{wait_for_read}
use iot_hub_device_c_sdk.Client.Subscribe.{resubscribe}
use iot_hub_device_c_sdk.Client.Connect.{
  send_serialized, read_connack, connect_once, mqtt_connect, attempt_reconnect, mqtt_disconnect,
  ping_loop, mqtt_pingreq,
}
use iot_hub_device_c_sdk.Client.Connect.Laws.{send_serialized-link}
use iot_hub_device_c_sdk.Client.Linked.{link, send-link, resubscribe-link}
use iot_hub_device_c_sdk.Client.Linked.Cycle.{wait_for_read-link}
use iot_hub_device_c_sdk.Client.Yield.{
  set_reconnect_wait_interval, handle_disconnect, handle_reconnect, ping_or_disconnect,
  mqtt_keep_alive,
}

-- What the whole loop leaves alone, and that it only makes more calls to the environment.
abbrev pub Steady : Client → Client → Type 0
Steady c c' =
    (c'.read_buf_size ≡ c.read_buf_size)
    × (c'.command_timeout_ms ≡ c.command_timeout_ms)
    × (c.step ≤ c'.step)

pub linked-Steady : (c c' : Client) → (link c' ≡ link c) × (c.step ≤ c'.step) → Steady c c'
unfolding link
linked-Steady c c' h = (ap (λ l. l.size) h.0, ap (λ l. l.timeout) h.0, h.1)

module _ (env : Env) where
  pub read_connack-Steady : (c : Client) → Steady c (read_connack env c).1
  unfolding read_connack set_client_conn_state
  read_connack-Steady c = ground arith

  pub connect_once-Steady :
      (fuel discard : ℕ) (c : Client) → Steady c (connect_once env fuel discard c).1
  unfolding connect_once
  connect_once-Steady fuel discard c =
      let c1 : Client = record c { trace = c.trace ++ (net_connect ∷ []); step = c.step + 1 } in
      let packet = connect_packet_serialize c.write_buf_size c.options in
      let sent = send_serialized env packet c1 in
      let waited = wait_for_read env fuel discard connack sent.1 in
      let kept = linked-Steady c1 sent.1 (send_serialized-link env packet c1) in
      let kept' =
        linked-Steady sent.1 waited.1 (wait_for_read-link env fuel discard connack sent.1) in
      elim (Option-cases waited.0) [
        | inl out ↦ ground arith
        | inr (rc', got) ↦ ground (arith, read_connack-Steady waited.1)
      ]

  pub attempt_reconnect-Steady :
      (fuel discard : ℕ) (c : Client) → Steady c (attempt_reconnect env fuel discard c).1
  unfolding attempt_reconnect mqtt_connect resubscribe
  attempt_reconnect-Steady fuel discard c =
      let once = connect_once env fuel discard c in
      let kept = connect_once-Steady fuel discard c in
      elim (Option-cases once.0) [
        | inl out ↦ ground arith
        | inr (rc, got) ↦
            let c2 : Client = record (once.1) { trace = once.1.trace ++ (net_disconnect ∷ []) } in
            ground (
              arith,
              linked-Steady once.1 _ (resubscribe-link env once.1.sub_handles once.1),
              linked-Steady c2 _ (resubscribe-link env c2.sub_handles c2),
            )
      ]

  pub handle_reconnect-Steady :
      (fuel discard : ℕ) (c : Client) → Steady c (handle_reconnect env fuel discard c).1
  unfolding handle_reconnect
  handle_reconnect-Steady fuel discard c =
      let c1 : Client = record c { step = c.step + 1 } in
      let kept = attempt_reconnect-Steady fuel discard c1 in
      elim (Option-cases (attempt_reconnect env fuel discard c1).0) [
        | inl out ↦ ground arith
        | inr (rc, got) ↦ ground arith
      ]

  pub set_interval-Steady : (c : Client) → Steady c (set_reconnect_wait_interval env c).1
  unfolding set_reconnect_wait_interval
  set_interval-Steady c = ground arith

  pub handle_disconnect-Steady : (c : Client) → Steady c (handle_disconnect env c).1
  unfolding handle_disconnect mqtt_disconnect set_reconnect_wait_interval set_client_conn_state
  handle_disconnect-Steady c =
      let packet = disconnect_packet_serialize c.write_buf_size in
      ground (arith, linked-Steady c _ (send_serialized-link env packet c))

  pub ping-Steady : (k : ℕ) (packet : List ℕ) (c : Client) → Steady c (ping_loop env k packet c).1
  unfolding ping_loop
  ping-Steady zero packet c = linked-Steady c _ (send-link env packet c)
  ping-Steady (suc k) packet c =
      let sent = send_mqtt_packet env packet c in
      ground (arith, linked-Steady c _ (send-link env packet c), ping-Steady k packet sent.1)

  pub pingreq-Steady : (k : ℕ) (c : Client) → Steady c (mqtt_pingreq env k c).1
  unfolding mqtt_pingreq
  pingreq-Steady k c = elim (Result-cases (pingreq_packet_serialize c.write_buf_size)) [
    | inl (packet, e) ↦ ground (arith, ping-Steady k packet c)
    | inr other ↦ ground arith
  ]

  pub keep_alive-Steady : (c : Client) → Steady c (mqtt_keep_alive env c).1
  unfolding mqtt_keep_alive ping_or_disconnect
  keep_alive-Steady c =
      let c1 : Client = record c { step = c.step + 1 } in
      let pinged = mqtt_pingreq env 3 c1 in
      ground
        (arith, handle_disconnect-Steady c1, pingreq-Steady 3 c1, handle_disconnect-Steady pinged.1)

  pub pub_timeouts-Steady :
      (infos : List PubInfo) (c : Client) → Steady c (pub_timeouts env infos c).1
  unfolding pub_timeouts
  pub_timeouts-Steady [] c = ground arith
  pub_timeouts-Steady (i ∷ infos) c =
      let c1 : Client = record c { step = c.step + 1 } in
      let told = notify event_publish_timeout i.packet_id c1 in
      ground (arith, pub_timeouts-Steady infos c1, pub_timeouts-Steady infos told.1)

  pub sub_events-Steady : (i : SubInfo) (c : Client) → Steady c (sub_timeout_events i c).1
  unfolding sub_timeout_events
  sub_events-Steady i c = ground arith

  pub sub_timeouts-Steady :
      (infos : List SubInfo) (c : Client) → Steady c (sub_timeouts env infos c).1
  unfolding sub_timeouts
  sub_timeouts-Steady [] c = ground arith
  sub_timeouts-Steady (i ∷ infos) c =
      let c1 : Client = record c { step = c.step + 1 } in
      let told = sub_timeout_events i c1 in
      let freed = emit_all (clear_effects i.handler) told.1 in
      ground (
        arith,
        sub_events-Steady i c1,
        sub_timeouts-Steady infos c1,
        sub_timeouts-Steady infos freed.1,
      )

  pub check_timeouts-Steady :
      (c : Client) → Steady c (check_sub_timeout env (check_pub_timeout env c).1).1
  unfolding check_sub_timeout check_pub_timeout
  check_timeouts-Steady c =
      let first = (check_pub_timeout env c).1 in
      ground (
        arith,
        pub_timeouts-Steady c.list_pub_wait_ack c,
        sub_timeouts-Steady first.list_sub_wait_ack first,
      )
