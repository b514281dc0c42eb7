-- ===== src/Client/Yield/Backoff.antt =====
-- How long the client waits before it connects again, when it gives up, and what the keep-alive does.
use native.Mathlib.Nat.{mul_assoc}
use iot_hub_device_c_sdk.Prelude.{
  suc, zero, ◌∙◌, Bool-cases, ◌==ℤ◌, ◌^◌, ℕ, ◌+◌, ◌*◌, ◌%◌, ◌≤◌, ◌≡◌, ◌≢◌, ap, [], ◌∷◌, ◌++◌, true,
  false, some, if◌then◌else◌, ltb, ℤ, pos, ==ℤ_ne, arith, Option-cases, inl, inr,
}
use iot_hub_device_c_sdk.Timer.{expired, countdown_ms}
use iot_hub_device_c_sdk.Client.State.{
  Client, Env, failed, notify, event_reconnect, net_connect, ret_mqtt_reconnected,
  err_mqtt_attempting_reconnect, err_mqtt_reconnect_timeout, err_mqtt_no_conn, net_disconnect,
}
use iot_hub_device_c_sdk.Client.Common.{set_client_conn_state}
use iot_hub_device_c_sdk.Packet.Defs.{connack}
use iot_hub_device_c_sdk.Packet.Serialize.{connect_packet_serialize}
use iot_hub_device_c_sdk.Client.Cycle.{wait_for_read}
use iot_hub_device_c_sdk.Client.Subscribe.{resubscribe}
use iot_hub_device_c_sdk.Client.Linked.{link, resubscribe-link}
use iot_hub_device_c_sdk.Client.Linked.Cycle.{wait_for_read-link}
use iot_hub_device_c_sdk.Client.Connect.{
  send_serialized, connect_once, read_connack, mqtt_connect, attempt_reconnect,
}
use iot_hub_device_c_sdk.Client.Connect.Laws.{
  send_serialized-link, attempt_reconnect_refused, mqtt_disconnect_state,
}
use iot_hub_device_c_sdk.Client.Yield.{
  set_reconnect_wait_interval, handle_disconnect, handle_reconnect, max_reconnect_wait_interval,
  ping_or_disconnect, mqtt_keep_alive, mqtt_ping_retry_times,
}

one_le_power : (n : ℕ) → 1 ≤ 2 ^ n
one_le_power zero = omega arith
one_le_power (suc n) = let ih = one_le_power n in omega arith

twofold : (n : ℕ) → 2 ^ n * 2 ≡ 2 ^ suc n
twofold n = omega arith

few_doublings : (n : ℕ) → 1000 * 2 ^ n ≤ 60000 → n ≤ 5
few_doublings zero h = omega arith
few_doublings (suc zero) h = omega arith
few_doublings (suc (suc zero)) h = omega arith
few_doublings (suc (suc (suc zero))) h = omega arith
few_doublings (suc (suc (suc (suc zero)))) h = omega arith
few_doublings (suc (suc (suc (suc (suc zero))))) h = omega arith
few_doublings (suc (suc (suc (suc (suc (suc n)))))) h =
    let one = one_le_power n in absurd (omega arith)

module _ (env : Env) where
  -- With automatic reconnection, the first wait is between 1000 and 1990 ms, in steps of 10 ms, and the
  -- timer is set to it.
  pub set_reconnect_wait_interval_lem :
      (c : Client)
      → c.auto_connect_enable ≡ true
      → let c' = (set_reconnect_wait_interval env c).1 in
        let i = c'.current_reconnect_wait_interval in
        (1000 ≤ i)
        × (i ≤ 1990)
        × (i % 10 ≡ 0)
        × (c'.reconnect_delay_timer ≡ countdown_ms (env.now (c.step + 1)) i)
  unfolding set_reconnect_wait_interval
  set_reconnect_wait_interval_lem c h = ground arith

  -- A client that is connected is not connected after the disconnection by the main loop, and the
  -- disconnection does not count as manual.
  pub handle_disconnect_state :
      (c : Client)
      → c.is_connected ≡ true
      → let c' = (handle_disconnect env c).1 in
        (c'.is_connected ≡ false) × (c'.was_manually_disconnected ≡ false)
  unfolding handle_disconnect set_reconnect_wait_interval set_client_conn_state
  handle_disconnect_state c h = ground (arith, mqtt_disconnect_state env c)

  -- On a client that is not connected and whose delay has passed, a reconnection that the server
  -- refuses with return code 1 is taken for a success: the result is that of a reconnection, the
  -- event of one is raised, and the client is not connected.
  pub handle_reconnect_refused :
      (fuel discard : ℕ) (c : Client)
      → c.is_connected ≡ false
      → expired c.reconnect_delay_timer (env.now c.step) ≡ true
      → (mqtt_connect env fuel discard (record c { step = c.step + 1 })).0 ≡ some (pos 1)
      → let (rc, c') = handle_reconnect env fuel discard c in
        let c2 = (attempt_reconnect env fuel discard (record c { step = c.step + 1 })).1 in
        (rc ≡ some ret_mqtt_reconnected)
        × (c'.is_connected ≡ false)
        × (c'.trace ≡ (notify event_reconnect 0 c2).1.trace)
  unfolding handle_reconnect
  handle_reconnect_refused fuel discard c off over refused =
      let c1 : Client = record c { step = c.step + 1 } in
      ground (arith, attempt_reconnect_refused env fuel discard c1 1 off (omega arith) refused)

  interval_connect_once :
      (fuel discard : ℕ) (c : Client)
      → (connect_once env fuel discard c).1.current_reconnect_wait_interval
        ≡ c.current_reconnect_wait_interval
  unfolding connect_once read_connack set_client_conn_state link
  interval_connect_once fuel discard c =
      let c1 : Client = record c { trace = c.trace ++ (net_connect ∷ []); step = c.step + 1 } in
      let packet = connect_packet_serialize c.write_buf_size c.options in
      let sent = send_serialized env packet c1 in
      let waited = wait_for_read env fuel discard connack sent.1 in
      let kept = ap (λ l. l.interval) (send_serialized-link env packet c1).0 in
      let kept' = ap (λ l. l.interval) (wait_for_read-link env fuel discard connack sent.1).0 in
      elim (Option-cases waited.0) [ inl out ↦ ground arith | inr (rc', got) ↦ ground arith ]

  interval_attempt_reconnect :
      (fuel discard : ℕ) (c : Client)
      → (attempt_reconnect env fuel discard c).1.current_reconnect_wait_interval
        ≡ c.current_reconnect_wait_interval
  unfolding attempt_reconnect mqtt_connect link resubscribe
  interval_attempt_reconnect fuel discard c =
      let once = connect_once env fuel discard c in
      let kept = interval_connect_once fuel discard c in
      elim (Option-cases once.0) [
        | inl out ↦ ground arith
        | inr (rc, got) ↦
            let c2 : Client = record (once.1) { trace = once.1.trace ++ (net_disconnect ∷ []) } in
            ground (
              arith,
              ap (λ l. l.interval) (resubscribe-link env once.1.sub_handles once.1).0,
              ap (λ l. l.interval) (resubscribe-link env c2.sub_handles c2).0,
            )
      ]

  -- Once the delay has passed, and with a wait of at most 60000 ms, an attempt to reconnect that
  -- returns without success doubles the wait. When that takes it above 60000 ms the client gives
  -- up; otherwise the timer is set to the doubled wait.
  pub handle_reconnect_backoff :
      (fuel discard : ℕ) (c : Client) (rc : ℤ)
      → let attempt = attempt_reconnect env fuel discard (record c { step = c.step + 1 }) in
        expired c.reconnect_delay_timer (env.now c.step) ≡ true
        → c.current_reconnect_wait_interval ≤ max_reconnect_wait_interval
        → attempt.0 ≡ some rc
        → rc ≢ ret_mqtt_reconnected
        → let (result, c') = handle_reconnect env fuel discard c in
          let doubled = c.current_reconnect_wait_interval * 2 in
          (c'.current_reconnect_wait_interval ≡ doubled)
          × (if ltb max_reconnect_wait_interval doubled
              then result ≡ some err_mqtt_reconnect_timeout
              else (result ≡ some err_mqtt_attempting_reconnect)
                × (c'.reconnect_delay_timer ≡ countdown_ms (env.now attempt.1.step) doubled))
  unfolding handle_reconnect
  handle_reconnect_backoff fuel discard c rc over small failed other =
      let c1 : Client = record c { step = c.step + 1 } in
      ground
        (arith, interval_attempt_reconnect fuel discard c1, ==ℤ_ne rc ret_mqtt_reconnected other)

  -- The calls of _handle_reconnect one after another, with nothing done to the client in between, as long as
  -- they report that a reconnection is still attempted; the number is that of the calls that made an attempt.
  pub data Attempting (fuel discard : ℕ) : ℕ → Client → Client → Type 0 where
    start : (c : Client) → Attempting fuel discard 0 c c
    early :
        {n : ℕ} {c d : Client}
        → Attempting fuel discard n c d
        → expired d.reconnect_delay_timer (env.now d.step) ≡ false
        → Attempting fuel discard n c (handle_reconnect env fuel discard d).1
    tried :
        {n : ℕ} {c d : Client}
        → Attempting fuel discard n c d
        → expired d.reconnect_delay_timer (env.now d.step) ≡ true
        → (handle_reconnect env fuel discard d).0 ≡ some err_mqtt_attempting_reconnect
        → Attempting fuel discard (suc n) c (handle_reconnect env fuel discard d).1

  early_keeps :
      (fuel discard : ℕ) (d : Client)
      → expired d.reconnect_delay_timer (env.now d.step) ≡ false
      → (handle_reconnect env fuel discard d).1.current_reconnect_wait_interval
        ≡ d.current_reconnect_wait_interval
  unfolding handle_reconnect
  early_keeps fuel discard d e = ground (arith, e)

  tried_doubles :
      (fuel discard : ℕ) (d : Client)
      → expired d.reconnect_delay_timer (env.now d.step) ≡ true
      → d.current_reconnect_wait_interval ≤ 60000
      → (handle_reconnect env fuel discard d).0 ≡ some err_mqtt_attempting_reconnect
      → ((handle_reconnect env fuel discard d).1.current_reconnect_wait_interval
          ≡ d.current_reconnect_wait_interval * 2)
        × (d.current_reconnect_wait_interval * 2 ≤ 60000)
  unfolding handle_reconnect
  tried_doubles fuel discard d over small attempting =
      let d1 : Client = record d { step = d.step + 1 } in
      let attempt = attempt_reconnect env fuel discard d1 in
      elim (Option-cases attempt.0) [
        | inl out ↦ ground (arith, out, over, attempting)
        | inr (rc, e) ↦ elim (Bool-cases (rc ==ℤ ret_mqtt_reconnected)) [
          | inl yes_rc ↦ ground (arith, e, yes_rc, over, attempting)
          | inr no_rc ↦
              ground (arith, e, no_rc, over, attempting, interval_attempt_reconnect fuel discard d1)
        ]
      ]

  Attempting-grows :
      (fuel discard : ℕ) {n : ℕ} {c d : Client}
      → Attempting fuel discard n c d
      → 1000 ≤ c.current_reconnect_wait_interval
      → c.current_reconnect_wait_interval ≤ 60000
      → (1000 * 2 ^ n ≤ d.current_reconnect_wait_interval)
        × (d.current_reconnect_wait_interval ≡ c.current_reconnect_wait_interval * 2 ^ n)
        × (d.current_reconnect_wait_interval ≤ 60000)
  Attempting-grows fuel discard (start c) low small = (omega arith, omega arith, small)
  Attempting-grows fuel discard (early {n} {c} {d} a over) low small =
      let ih = Attempting-grows fuel discard a low small in rw (early_keeps fuel discard d over) ih
  Attempting-grows fuel discard (tried {n} {c} {d} a over attempting) low small =
      let (grown, value, room) = Attempting-grows fuel discard a low small in
      let (twice, fits) = tried_doubles fuel discard d over room attempting in
      (
        rw twice (omega arith),
        twice
            ∙ ap (λ v. v * 2) value
            ∙ mul_assoc c.current_reconnect_wait_interval (2 ^ n) 2
            ∙ ap (λ p. c.current_reconnect_wait_interval * p) (twofold n),
        rw twice fits,
      )

  -- With automatic reconnection, from the wait that is set when the connection is lost: as long as
  -- the calls of _handle_reconnect, with nothing done to the client in between, report that a
  -- reconnection is attempted, the wait is the first one, doubled by each call that made an
  -- attempt and by no other, it never exceeds 60000 ms, and at most 5 calls have made an attempt.
  pub Attempting-bounded :
      (fuel discard n : ℕ) (c d : Client)
      → c.auto_connect_enable ≡ true
      → let c' = (set_reconnect_wait_interval env c).1 in
        Attempting fuel discard n c' d
        → (d.current_reconnect_wait_interval ≡ c'.current_reconnect_wait_interval * 2 ^ n)
          × (d.current_reconnect_wait_interval ≤ 60000)
          × (n ≤ 5)
  Attempting-bounded fuel discard n c d on a =
      let (low, high, _, _) = set_reconnect_wait_interval_lem c on in
      let (grown, value, room) = Attempting-grows fuel discard a low (omega arith) in
      (value, room, few_doublings n (omega arith))

  -- On a client that is connected and has keep-alive on, a keep-alive timer that expires with two
  -- pings unanswered drops the connection.
  pub mqtt_keep_alive_drops :
      (c : Client)
      → c.options.keep_alive_interval ≢ 0
      → c.is_connected ≡ true
      → mqtt_ping_retry_times ≤ c.is_ping_outstanding
      → expired c.ping_timer (env.now c.step) ≡ true
      → let (rc, c') = mqtt_keep_alive env c in (rc ≡ err_mqtt_no_conn) × (c'.is_connected ≡ false)
  unfolding mqtt_keep_alive ping_or_disconnect
  mqtt_keep_alive_drops c on h outstanding over =
      let c1 : Client = record c { step = c.step + 1 } in ground (arith, handle_disconnect_state c1)
