-- ===== src/Client/Yield.antt =====
-- services/common/mqtt_client/src/mqtt_client_yield.c: keep-alive, disconnection, reconnection and the main
-- loop.
pub mod Backoff
pub mod Steady
pub mod Returns
use iot_hub_device_c_sdk.Prelude.{
  ℕ, zero, suc, ◌+◌, ◌*◌, ◌%◌, ◌^◌, ◌≡◌, refl, List, [], ◌∷◌, ◌++◌, Bool, true, false, not, ◌&&◌,
  Option, none, some, if◌then◌else◌, ltb, leb, ◌==◌, ℤ, pos, negsuc, ◌==ℤ◌, is_zero,
}
use iot_hub_device_c_sdk.Timer.{expired, countdown_ms}
use iot_hub_device_c_sdk.Client.State.{
  Client, Env, M, ◌>>=◌, ◌>>◌, pure, emit, modify, notify, net_disconnect, failed, one_of,
  event_disconnect, event_reconnect, ret_success, ret_mqtt_reconnected,
  ret_mqtt_manually_disconnected, err_mqtt_no_conn, err_mqtt_attempting_reconnect,
  err_mqtt_reconnect_timeout, err_ssl_read_timeout, err_ssl_read, err_tcp_peer_shutdown,
  err_tcp_read_timeout, err_tcp_read_fail,
}
use iot_hub_device_c_sdk.Client.Common.{ask, set_client_conn_state}
use iot_hub_device_c_sdk.Client.WaitList.{check_pub_timeout, check_sub_timeout}
use iot_hub_device_c_sdk.Client.Cycle.{cycle_for_read}
use iot_hub_device_c_sdk.Client.Connect.{attempt_reconnect, mqtt_disconnect, mqtt_pingreq}

abbrev pub max_reconnect_wait_interval : ℕ
max_reconnect_wait_interval = 60 * 1000

abbrev pub mqtt_ping_retry_times : ℕ
mqtt_ping_retry_times = 2

abbrev pub mqtt_ping_send_retry_times : ℕ
mqtt_ping_send_retry_times = 3

module _ (env : Env) where
  -- _set_reconnect_wait_interval
  unfoldable pub set_reconnect_wait_interval : M (Unit {0})
  set_reconnect_wait_interval = do
    modify λ c. record c {
      counter_network_disconnected = (c.counter_network_disconnected + 1) % 2 ^ 32;
    }
    auto ← (λ c. (c.auto_connect_enable, c))
    if not auto then pure tt else do
      rand ← ask env.random
      now ← ask env.now
      let interval = (rand % 100 + 100) * 10
      modify λ c. record c {
        current_reconnect_wait_interval = interval;
        reconnect_delay_timer = countdown_ms now interval;
      }

  -- _handle_disconnect
  unfoldable pub handle_disconnect : M (Unit {0})
  handle_disconnect = do
    connected ← (λ c. (c.is_connected, c))
    if not connected then set_reconnect_wait_interval else do
      rc ← mqtt_disconnect env
      if failed rc then (do emit net_disconnect; set_client_conn_state false) else pure tt
      notify event_disconnect 0
      modify λ c. record c { was_manually_disconnected = false }
      set_reconnect_wait_interval

  -- _handle_reconnect; nothing if the fuel ran out.
  unfoldable pub handle_reconnect : ℕ → ℕ → M (Option ℤ)
  handle_reconnect fuel discard = do
    now ← ask env.now
    delay ← (λ c. (c.reconnect_delay_timer, c))
    if not (expired delay now) then pure (some err_mqtt_attempting_reconnect) else do
      rc ← attempt_reconnect env fuel discard
      elim rc [
        | none ↦ pure none
        | some rc ↦
            (if rc ==ℤ ret_mqtt_reconnected
              then (do notify event_reconnect 0; pure (some rc))
              else (do
                modify λ c. record c {
                  current_reconnect_wait_interval = c.current_reconnect_wait_interval * 2 % 2 ^ 32;
                }
                interval ← (λ c. (c.current_reconnect_wait_interval, c))
                if ltb max_reconnect_wait_interval interval
                    then pure (some err_mqtt_reconnect_timeout)
                    else do
                      now ← ask env.now
                      modify λ c. record c { reconnect_delay_timer = countdown_ms now interval }
                      pure (some err_mqtt_attempting_reconnect)))
      ]

  -- _mqtt_keep_alive behind the expiry of the timer.
  unfoldable pub ping_or_disconnect : M ℤ
  ping_or_disconnect = do
    outstanding ← (λ c. (c.is_ping_outstanding, c))
    if leb mqtt_ping_retry_times outstanding
        then (do handle_disconnect; pure err_mqtt_no_conn)
        else do
          rc ← mqtt_pingreq env mqtt_ping_send_retry_times
          if failed rc then (do handle_disconnect; pure err_mqtt_no_conn) else do
            now ← ask env.now
            modify λ c. record c {
              is_ping_outstanding = (c.is_ping_outstanding + 1) % 2 ^ 8;
              ping_timer = countdown_ms now c.command_timeout_ms;
            }
            pure ret_success

  -- _mqtt_keep_alive
  unfoldable pub mqtt_keep_alive : M ℤ
  mqtt_keep_alive = do
    interval ← (λ c. (c.options.keep_alive_interval, c))
    if interval == 0 then pure ret_success else do
      now ← ask env.now
      ping ← (λ c. (c.ping_timer, c))
      if not (expired ping now) then pure ret_success else ping_or_disconnect

  -- A round of the loop of qcloud_iot_mqtt_yield on a connection, with the code at its start: the code,
  -- and whether the function returns.
  unfoldable pub yield_connected : ℕ → ℕ → M (Option (ℤ × Bool))
  yield_connected discard timer = do
    r ← cycle_for_read env discard timer 0
    elim r [
      | none ↦ pure none
      | some r ↦
          (if is_zero r.0
            then (do
              check_pub_timeout env
              check_sub_timeout env
              rc ← mqtt_keep_alive
              auto ← (λ c. (c.auto_connect_enable, c))
              pure (
                  some (
                    if failed rc
                    then (if auto then err_mqtt_attempting_reconnect else rc, true)
                    else (rc, false))))
            else if one_of r.0 (
                err_ssl_read_timeout ∷ err_ssl_read ∷ err_tcp_peer_shutdown ∷ err_tcp_read_timeout
                ∷ err_tcp_read_fail ∷ [])
            then (do
              handle_disconnect
              auto ← (λ c. (c.auto_connect_enable, c))
              pure (some (if auto then err_mqtt_attempting_reconnect else err_mqtt_no_conn, true)))
            else pure (some (r.0, true)))
    ]

  -- A round of the loop on no connection.
  unfoldable pub yield_reconnect : ℕ → ℕ → M (Option (ℤ × Bool))
  yield_reconnect fuel discard = do
    interval ← (λ c. (c.current_reconnect_wait_interval, c))
    if ltb max_reconnect_wait_interval interval
        then pure (some (err_mqtt_reconnect_timeout, true))
        else do
          rc ← handle_reconnect fuel discard
          pure (elim rc [ none ↦ none | some rc ↦ some (rc, false) ])

  -- The loop of qcloud_iot_mqtt_yield on fuel, `rounds` for itself and `fuel` for the wait for a CONNACK;
  -- `rc` is the code of the last round. Nothing if the fuel ran out.
  unfoldable pub yield_loop : ℕ → ℕ → ℕ → ℕ → ℤ → M (Option ℤ)
  yield_loop zero fuel discard timer rc = pure none
  yield_loop (suc rounds) fuel discard timer rc = do
    now ← ask env.now
    let next = yield_loop rounds fuel discard timer
    if expired timer now then pure (some rc) else do
      connected ← (λ c. (c.is_connected, c))
      r ← (if connected then yield_connected discard timer else yield_reconnect fuel discard)
      elim r [ none ↦ pure none | some r ↦ (if r.1 then pure (some r.0) else next r.0) ]

  -- qcloud_iot_mqtt_yield
  unfoldable pub mqtt_yield : ℕ → ℕ → ℕ → ℕ → M (Option ℤ)
  mqtt_yield rounds fuel discard timeout_ms c =
      if not c.is_connected && c.was_manually_disconnected
      then (some ret_mqtt_manually_disconnected, c)
      else if not c.is_connected && not c.auto_connect_enable
      then (some err_mqtt_no_conn, c)
      else (do
        now ← ask env.now
        yield_loop rounds fuel discard (countdown_ms now timeout_ms) ret_success)
          c
