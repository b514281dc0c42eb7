-- ===== src/Client/Yield/Returns.antt =====
-- The main loop returns.
use iot_hub_device_c_sdk.Prelude.{
  ℕ, zero, suc, ◌+◌, ◌≤◌, ◌<◌, ◌≡◌, ◌∙◌, sym, subst, [], ◌∷◌, ◌++◌, leb, ℤ, pos, arith,
  Option-cases, Bool-cases, inl, inr,
}
use iot_hub_device_c_sdk.Packet.Defs.{connack}
use iot_hub_device_c_sdk.Packet.Serialize.{connect_packet_serialize}
use iot_hub_device_c_sdk.Timer.{countdown_ms, expired}
use iot_hub_device_c_sdk.Client.State.{Client, Env, net_connect}
use iot_hub_device_c_sdk.Client.WaitList.{check_pub_timeout, check_sub_timeout}
use iot_hub_device_c_sdk.Client.Cycle.{cycle_for_read, wait_for_read}
use iot_hub_device_c_sdk.Client.Connect.{
  send_serialized, connect_once, mqtt_connect, attempt_reconnect,
}
use iot_hub_device_c_sdk.Client.Connect.Laws.{send_serialized-link}
use iot_hub_device_c_sdk.Client.Linked.Cycle.{cycle-link}
use iot_hub_device_c_sdk.Client.Returns.{
  Progresses, HasValue, enough_to_discard, cycle-returns, wait_loop-returns,
}
use iot_hub_device_c_sdk.Client.Yield.{
  handle_reconnect, yield_connected, yield_reconnect, yield_loop, mqtt_yield,
}
use iot_hub_device_c_sdk.Client.Yield.Steady.{
  Steady, linked-Steady, handle_reconnect-Steady, handle_disconnect-Steady, keep_alive-Steady,
  check_timeouts-Steady,
}

-- Between a call to the environment and the `calls`-th after it, the clock advances by a time at least, and
-- it does not go back later.
abbrev pub Advances : Env → ℕ → ℕ → Type 0
Advances env calls timeout_ms =
    (k j : ℕ) → k + calls ≤ j → countdown_ms (env.now k) timeout_ms ≤ env.now j

module _ (env : Env) (progresses : Progresses env) (fuel wait_ms : ℕ)
    (advances : Advances env fuel wait_ms) where
  wait_for_read-returns :
      (c : Client)
      → 0 < c.read_buf_size
      → c.command_timeout_ms ≡ wait_ms
      → HasValue (wait_for_read env (suc fuel) enough_to_discard connack c).0
  unfolding wait_for_read
  wait_for_read-returns c size same =
      let timer = countdown_ms (env.now c.step) c.command_timeout_ms in
      wait_loop-returns env progresses (suc fuel) timer _ 0 (record c { step = c.step + 1 })
        (c.step + fuel) size
        (λ k h.
          subst (λ t. countdown_ms (env.now c.step) t ≤ env.now k) (sym same) (advances c.step k h))
        (omega arith) (omega arith)

  connect_once-returns :
      (c : Client)
      → 0 < c.read_buf_size
      → c.command_timeout_ms ≡ wait_ms
      → HasValue (connect_once env (suc fuel) enough_to_discard c).0
  unfolding connect_once
  connect_once-returns c size same =
      let c1 : Client = record c { trace = c.trace ++ (net_connect ∷ []); step = c.step + 1 } in
      let packet = connect_packet_serialize c.write_buf_size c.options in
      let sent = send_serialized env packet c1 in
      let kept = linked-Steady c1 sent.1 (send_serialized-link env packet c1) in
      let returns = wait_for_read-returns sent.1 (ground (arith, kept)) (kept.1 ∙ same) in
      let waited = wait_for_read env (suc fuel) enough_to_discard connack sent.1 in
      elim (Option-cases waited.0) [ inl out ↦ ground arith | inr (rc, got) ↦ ground arith ]

  reconnect-returns :
      (c : Client)
      → 0 < c.read_buf_size
      → c.command_timeout_ms ≡ wait_ms
      → HasValue (yield_reconnect env (suc fuel) enough_to_discard c).0
  unfolding yield_reconnect handle_reconnect attempt_reconnect mqtt_connect
  reconnect-returns c size same =
      let c1 : Client = record c { step = c.step + 1 } in
      let returns = connect_once-returns c1 size same in
      elim (Option-cases (connect_once env (suc fuel) enough_to_discard c1).0) [
        | inl out ↦ ground arith
        | inr (rc, got) ↦ ground arith
      ]

  reconnect-Steady : (c : Client) → Steady c (yield_reconnect env (suc fuel) enough_to_discard c).1
  unfolding yield_reconnect
  reconnect-Steady c = ground (arith, handle_reconnect-Steady env (suc fuel) enough_to_discard c)

  connected-returns :
      (timer : ℕ) (c : Client)
      → 0 < c.read_buf_size
      → HasValue (yield_connected env enough_to_discard timer c).0
  unfolding yield_connected
  connected-returns timer c size =
      let returns = cycle-returns env progresses timer 0 c size in
      elim (Option-cases (cycle_for_read env enough_to_discard timer 0 c).0) [
        | inl out ↦ ground arith
        | inr (r, got) ↦ ground arith
      ]

  connected-Steady :
      (timer : ℕ) (c : Client) → Steady c (yield_connected env enough_to_discard timer c).1
  unfolding yield_connected
  connected-Steady timer c =
      let cycle = cycle_for_read env enough_to_discard timer 0 c in
      let kept = linked-Steady c cycle.1 (cycle-link env enough_to_discard timer 0 c) in
      let checked = (check_sub_timeout env (check_pub_timeout env cycle.1).1).1 in
      elim (Option-cases cycle.0) [
        | inl out ↦ ground arith
        | inr (r, got) ↦ ground (
          arith,
          check_timeouts-Steady env cycle.1,
          keep_alive-Steady env checked,
          handle_disconnect-Steady env cycle.1,
        )
      ]

  yield_loop-returns :
      (rounds timer : ℕ) (rc : ℤ) (c : Client) (late : ℕ)
      → 0 < c.read_buf_size
      → c.command_timeout_ms ≡ wait_ms
      → ((k : ℕ) → late ≤ k → timer ≤ env.now k)
      → 0 < rounds
      → late < c.step + rounds
      → HasValue (yield_loop env rounds (suc fuel) enough_to_discard timer rc c).0
  unfolding yield_loop expired
  yield_loop-returns zero timer rc c late size same clock some_rounds enough = omega arith
  yield_loop-returns (suc rounds) timer rc c late size same clock some_rounds enough =
      let c1 : Client = record c { step = c.step + 1 } in
      let on = yield_connected env enough_to_discard timer c1 in
      let off = yield_reconnect env (suc fuel) enough_to_discard c1 in
      let on-returns = connected-returns timer c1 size in
      let off-returns = reconnect-returns c1 size same in
      let on-kept = connected-Steady timer c1 in
      let off-kept = reconnect-Steady c1 in
      let more : (k : ℕ) → c.step < late → c.step + 1 ≤ k → (0 < rounds) × (late < k + rounds) =
        λ k early later. (omega arith, omega arith) in
      elim (Bool-cases (leb timer (env.now c.step))) [
        | inl over ↦ ground arith
        | inr before ↦
            let early : c.step < late = ground (arith, clock c.step) in
            elim (Bool-cases c.is_connected) [
              | inl linked ↦ elim (Option-cases on.0) [
                | inl out ↦ ground arith
                | inr (r, got) ↦
                    let rest =
                      yield_loop-returns rounds timer r.0 on.1 late (ground (arith, on-kept))
                        (on-kept.1 ∙ same) clock (more on.1.step early on-kept.2).0
                        (more on.1.step early on-kept.2).1 in
                    ground arith
              ]
              | inr unlinked ↦ elim (Option-cases off.0) [
                | inl out ↦ ground arith
                | inr (r, got) ↦
                    let rest =
                      yield_loop-returns rounds timer r.0 off.1 late (ground (arith, off-kept))
                        (off-kept.1 ∙ same) clock (more off.1.step early off-kept.2).0
                        (more off.1.step early off-kept.2).1 in
                    ground arith
              ]
            ]
      ]

  -- The main loop returns: if a read that succeeds has a byte, and within `fuel` and `rounds` calls to the
  -- environment the clock advances by the command timeout and by the time given to `yield`, then that many
  -- rounds and one more are enough, for the loop and for each wait for a CONNACK in it.
  pub mqtt_yield_returns :
      (rounds timeout_ms : ℕ) (c : Client)
      → 0 < c.read_buf_size
      → c.command_timeout_ms ≡ wait_ms
      → Advances env rounds timeout_ms
      → HasValue (mqtt_yield env (suc rounds) (suc fuel) enough_to_discard timeout_ms c).0
  unfolding mqtt_yield
  mqtt_yield_returns rounds timeout_ms c size same passes =
      let timer = countdown_ms (env.now c.step) timeout_ms in
      let c1 : Client = record c { step = c.step + 1 } in
      let returns =
        yield_loop-returns (suc rounds) timer (pos 0) c1 (c.step + rounds) size same (passes c.step)
          (omega arith) (omega arith) in
      ground arith
