-- ===== src/Client/Examples/Link.antt =====
-- Connections that are made, refused and lost, and timers.
use iot_hub_device_c_sdk.Prelude.{
  ◌^◌, ◌*◌, ℕ, zero, suc, ◌+◌, ◌*◌, ◌/◌, ◌-◌, ◌%◌, ◌<◌, ◌≤◌, ◌≡◌, refl, List, ◌∷◌, arith, length,
  take, replicate, some, pos, negsuc, true, false, if◌then◌else◌, ltb, leb, is_zero,
}
use iot_hub_device_c_sdk.Packet.Write.{
  write_char, write_int, write_string, header_serialize, remaining_length_serialize,
  remaining_length_loop,
}
use iot_hub_device_c_sdk.Packet.Serialize.{
  connect_packet_serialize, connect_len, connect_remaining_length_serialize,
  connect_variable_header_serialize, connect_flags, write_protocol, connect_payload,
}
use iot_hub_device_c_sdk.Packet.Read
use iot_hub_device_c_sdk.Packet.Read.{
  packet_type_check, remaining_length_deserialize, read_int, read_char, check_header,
}
use iot_hub_device_c_sdk.Packet.Deserialize.{fixed_header, connack_packet_deserialize}
use iot_hub_device_c_sdk.Timer.{expired, countdown_ms, remain, countdown_ms_lem}
use iot_hub_device_c_sdk.Client.State.{
  Env, Client, notify, one_of, event_reconnect, ret_mqtt_reconnected, err_mqtt_attempting_reconnect,
  err_mqtt_reconnect_timeout, err_mqtt_no_conn,
}
use iot_hub_device_c_sdk.Client.Common.{send_mqtt_packet, set_client_conn_state}
use iot_hub_device_c_sdk.Client.Read.{
  network_read, write_at, read_packet_header, read_packet_remaining_len, remaining_len_loop,
  read_packet_payload, read_mqtt_packet, discard_packet_for_short_buf,
}
use iot_hub_device_c_sdk.Client.Read.Discard.{discard_overreads}
use iot_hub_device_c_sdk.Client.Cycle.{
  handle_packet, note_packet, cycle_for_read, wait_loop, wait_for_read,
}
use iot_hub_device_c_sdk.Client.Connect.{
  send_serialized, read_connack, connect_once, mqtt_connect, attempt_reconnect,
}
use iot_hub_device_c_sdk.Client.Connect.Laws.{mqtt_connect_state}
use iot_hub_device_c_sdk.Client.Returns.{
  Progresses, HasValue, enough_to_discard, mqtt_connect_returns,
}
use iot_hub_device_c_sdk.Client.Yield.{
  set_reconnect_wait_interval, handle_disconnect, handle_reconnect, max_reconnect_wait_interval,
  mqtt_keep_alive,
}
use iot_hub_device_c_sdk.Client.Yield.Backoff.{
  set_reconnect_wait_interval_lem, handle_disconnect_state, handle_reconnect_refused,
  handle_reconnect_backoff, Attempting, start, tried, Attempting-bounded, mqtt_keep_alive_drops,
}
use iot_hub_device_c_sdk.Client.Yield.{mqtt_yield}
use iot_hub_device_c_sdk.Client.Yield.Returns.{Advances, mqtt_yield_returns}
use iot_hub_device_c_sdk.Client.Examples.{network, broken, generous, client}

-- The client after the call that reads the clock.
abbrev client1 : Client
client1 = record client { step = 1 }

connected : (mqtt_connect (network 0) 2 0 client1).0 ≡ some (pos 0)
unfolding mqtt_connect connect_once send_serialized read_connack send_mqtt_packet
    set_client_conn_state wait_for_read wait_loop cycle_for_read handle_packet note_packet
    read_mqtt_packet read_packet_header read_packet_remaining_len remaining_len_loop
    read_packet_payload network_read write_at expired countdown_ms remain connect_packet_serialize
    connect_len connect_remaining_length_serialize connect_variable_header_serialize connect_flags
    write_protocol connect_payload write_char write_int write_string header_serialize
    remaining_length_serialize remaining_length_loop connack_packet_deserialize fixed_header
    packet_type_check check_header read_char remaining_length_deserialize Read.remaining_length_loop
    one_of
connected = refl

mqtt_connect_state_example : (mqtt_connect (network 0) 2 0 client1).1.is_connected ≡ is_zero (pos 0)
mqtt_connect_state_example = mqtt_connect_state (network 0) 2 0 client1 (pos 0) refl connected

-- A server that refuses the protocol version.
refused : (mqtt_connect (network 1) 2 0 client1).0 ≡ some (pos 1)
unfolding mqtt_connect connect_once send_serialized read_connack send_mqtt_packet
    set_client_conn_state wait_for_read wait_loop cycle_for_read handle_packet note_packet
    read_mqtt_packet read_packet_header read_packet_remaining_len remaining_len_loop
    read_packet_payload network_read write_at expired countdown_ms remain connect_packet_serialize
    connect_len connect_remaining_length_serialize connect_variable_header_serialize connect_flags
    write_protocol connect_payload write_char write_int write_string header_serialize
    remaining_length_serialize remaining_length_loop connack_packet_deserialize fixed_header
    packet_type_check check_header read_char remaining_length_deserialize Read.remaining_length_loop
    one_of
refused = refl

handle_reconnect_refused_example :
    let (rc, c') = handle_reconnect (network 1) 2 0 client in
    let c2 = (attempt_reconnect (network 1) 2 0 client1).1 in
    (rc ≡ some ret_mqtt_reconnected)
    × (c'.is_connected ≡ false)
    × (c'.trace ≡ (notify event_reconnect 0 c2).1.trace)
handle_reconnect_refused_example =
    handle_reconnect_refused (network 1) 2 0 client refl (unfold expired in refl) refused

attempt_fails : (attempt_reconnect broken 2 0 client1).0 ≡ some (negsuc 606)
unfolding attempt_reconnect mqtt_connect connect_once send_serialized send_mqtt_packet
    connect_packet_serialize connect_len connect_remaining_length_serialize
    connect_variable_header_serialize connect_flags write_protocol connect_payload write_char
    write_int write_string header_serialize remaining_length_serialize remaining_length_loop
attempt_fails = refl

handle_reconnect_backoff_at :
    let (result, c') = handle_reconnect broken 2 0 client in
    (c'.current_reconnect_wait_interval ≡ 2000)
    × (if ltb max_reconnect_wait_interval 2000
        then result ≡ some err_mqtt_reconnect_timeout
        else (result ≡ some err_mqtt_attempting_reconnect)
          × (c'.reconnect_delay_timer
              ≡ countdown_ms (broken.now (attempt_reconnect broken 2 0 client1).1.step) 2000))
handle_reconnect_backoff_at =
    handle_reconnect_backoff broken 2 0 client (negsuc 606) (unfold expired in refl) (omega arith)
      attempt_fails (λ e. ground arith)

-- A network that is down, with a clock that moves by 10 s with each call.
abbrev slow : Env
slow = record broken { now = λ k. k * 10000000 }

-- The client that has lost its connection, and that client after an attempt that failed.
abbrev waiting : Client
waiting = (set_reconnect_wait_interval slow client).1

abbrev retried : Client
retried = (handle_reconnect slow 2 0 waiting).1

waiting_over : expired waiting.reconnect_delay_timer (slow.now waiting.step) ≡ true
unfolding set_reconnect_wait_interval expired countdown_ms
waiting_over = refl

retry_fails : (handle_reconnect slow 2 0 waiting).0 ≡ some err_mqtt_attempting_reconnect
unfolding set_reconnect_wait_interval expired countdown_ms handle_reconnect attempt_reconnect
    mqtt_connect connect_once send_serialized send_mqtt_packet connect_packet_serialize connect_len
    connect_remaining_length_serialize connect_variable_header_serialize connect_flags
    write_protocol connect_payload write_char write_int write_string header_serialize
    remaining_length_serialize remaining_length_loop
retry_fails = refl

waited_and_tried : Attempting slow 2 0 1 waiting retried
waited_and_tried = tried (start waiting) waiting_over retry_fails

Attempting-bounded_example :
    (retried.current_reconnect_wait_interval ≡ waiting.current_reconnect_wait_interval * 2 ^ 1)
    × (retried.current_reconnect_wait_interval ≤ 60000)
    × (1 ≤ 5)
Attempting-bounded_example = Attempting-bounded slow 2 0 1 client retried refl waited_and_tried

first_wait_bounded :
    let c' = (set_reconnect_wait_interval (network 0) client).1 in
    let i = c'.current_reconnect_wait_interval in
    (1000 ≤ i) × (i ≤ 1990) × (i % 10 ≡ 0) × (c'.reconnect_delay_timer ≡ countdown_ms 1 i)
first_wait_bounded = set_reconnect_wait_interval_lem (network 0) client refl

abbrev online : Client
online = record client { is_connected = true; is_ping_outstanding = 2 }

handle_disconnect_state_at :
    let c' = (handle_disconnect (network 0) online).1 in
    (c'.is_connected ≡ false) × (c'.was_manually_disconnected ≡ false)
handle_disconnect_state_at = handle_disconnect_state (network 0) online refl

mqtt_keep_alive_drops_at :
    let (rc, c') = mqtt_keep_alive (network 0) online in
    (rc ≡ err_mqtt_no_conn) × (c'.is_connected ≡ false)
mqtt_keep_alive_drops_at =
    mqtt_keep_alive_drops (network 0) online (λ e. omega (arith, e)) refl (omega arith)
      (unfold expired in refl)

take-progresses : (len : ℕ) (x : ℕ) (xs : List ℕ) → 0 < len → 0 < length (take len (x ∷ xs))
take-progresses zero x xs h = h
take-progresses (suc len) x xs h = omega arith

progresses : Progresses (network 0)
progresses k len timeout h read = take-progresses len _ _ h

mqtt_connect_returns_at :
    (fuel : ℕ) × HasValue (mqtt_connect (network 0) fuel enough_to_discard client1).0
mqtt_connect_returns_at =
    mqtt_connect_returns (network 0) progresses (λ deadline. deadline) (λ deadline k h. h) client1
      (omega arith)

-- 5000000 calls are enough, as the clock moves by one microsecond with each.
Advances-command : Advances (network 0) 5000000 5000
unfolding countdown_ms
Advances-command k j h = omega arith

Advances-yield : Advances (network 0) 200000 200
unfolding countdown_ms
Advances-yield k j h = omega arith

mqtt_yield_returns_example :
    HasValue (mqtt_yield (network 0) 200001 5000001 enough_to_discard 200 client).0
mqtt_yield_returns_example =
    mqtt_yield_returns (network 0) progresses 5000000 5000 Advances-command 200000 200 client
      (omega arith) refl Advances-yield

length-take-replicate : (len : ℕ) → length {A = ℕ} (take len (replicate len 0)) ≡ len
length-take-replicate zero = refl
length-take-replicate (suc len) = omega (arith, length-take-replicate len)

discard_overreads_at : (discard_packet_for_short_buf generous 3 100 15 client).0 ≡ some 16
discard_overreads_at =
    discard_overreads generous 3 100 15 client (omega arith) (omega arith) (λ k len t. refl)
      (λ k len t. length-take-replicate len)

countdown_ms_lem_example :
    (expired (countdown_ms 7 1500) (7 + 1499999) ≡ leb (1500 * 1000) 1499999)
    × (remain (countdown_ms 7 1500) (7 + 1499999) ≡ (1500 * 1000 - 1499999) / 1000)
countdown_ms_lem_example = countdown_ms_lem 7 1500 1499999 (omega arith)
