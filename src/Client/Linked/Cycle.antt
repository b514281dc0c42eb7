-- ===== src/Client/Linked/Cycle.antt =====
-- Reading and handling packets leaves the connection alone.
use iot_hub_device_c_sdk.Prelude.{
  ℕ, zero, suc, ◌+◌, ◌-◌, ◌*◌, ◌%◌, ◌^◌, leb, bit_and, if◌then◌else◌, arith, Option-cases, inl, inr,
}
use iot_hub_device_c_sdk.Packet.Defs.{PacketType, type_number}
use iot_hub_device_c_sdk.Timer.{countdown_ms}
use iot_hub_device_c_sdk.Client.State.{Client, Env}
use iot_hub_device_c_sdk.Client.Read.{
  network_read, byte_at, remaining_len_loop, discard_loop, read_packet_header,
  read_packet_remaining_len, discard_packet_for_short_buf, read_packet_payload, read_mqtt_packet,
  timer_remain,
}
use iot_hub_device_c_sdk.Client.Cycle.{handle_packet, cycle_for_read, wait_loop, wait_for_read}
use iot_hub_device_c_sdk.Client.Linked.{link, Keeps, handle_packet-link, note_packet-link}

module _ (env : Env) where
  pub read-link : (off len timeout : ℕ) → Keeps (network_read env off len timeout)
  unfolding link network_read
  read-link off len timeout c = ground arith

  remaining-link :
      (k count multiplier len timeout : ℕ)
      → Keeps (remaining_len_loop env k count multiplier len timeout)
  unfolding remaining_len_loop
  remaining-link zero count multiplier len timeout c = ground arith
  remaining-link (suc k) count multiplier len timeout c =
      let (r, c1) = network_read env (1 + count) 1 timeout c in
      let len' = (len + bit_and (byte_at (1 + count) c1.read_buf) 127 * multiplier) % 2 ^ 32 in
      ground (
        arith,
        read-link (1 + count) 1 timeout c,
        remaining-link k (count + 1) (multiplier * 128 % 2 ^ 32) len' timeout c1,
      )

  discard-link :
      (fuel to_read total rem_len timeout : ℕ)
      → Keeps (discard_loop env fuel to_read total rem_len timeout)
  unfolding discard_loop
  discard-link zero to_read total rem_len timeout c = ground arith
  discard-link (suc fuel) to_read total rem_len timeout c =
      let (r, c1) = network_read env 0 to_read timeout c in
      let left = (rem_len + 2 ^ 64 - (total + r.1)) % 2 ^ 64 in
      ground (
        arith,
        read-link 0 to_read timeout c,
        discard-link fuel (if leb c1.read_buf_size left then c1.read_buf_size else left)
            (total + r.1) rem_len timeout c1,
      )

  pub header-link : (timeout packet_type : ℕ) → Keeps (read_packet_header env timeout packet_type)
  unfolding link read_packet_header network_read
  header-link timeout packet_type c = ground arith

  payload-link : (timeout rem_len off : ℕ) → Keeps (read_packet_payload env timeout rem_len off)
  unfolding link read_packet_payload network_read
  payload-link timeout rem_len off c = ground arith

  pub read_remaining-link : (timeout : ℕ) → Keeps (read_packet_remaining_len env timeout)
  unfolding read_packet_remaining_len
  read_remaining-link timeout c = remaining-link _ 0 1 0 _ c

  discard_packet-link :
      (fuel timeout rem_len : ℕ) → Keeps (discard_packet_for_short_buf env fuel timeout rem_len)
  unfolding discard_packet_for_short_buf
  discard_packet-link fuel timeout rem_len c = discard-link fuel _ 0 rem_len _ c

  pub ask-link : (timer : ℕ) → Keeps (timer_remain env timer)
  unfolding link
  ask-link timer c = ground arith

  pub read_mqtt_packet-link :
      (fuel timer packet_type : ℕ) → Keeps (read_mqtt_packet env fuel timer packet_type)
  unfolding read_mqtt_packet
  read_mqtt_packet-link fuel timer packet_type c =
      let (t0, c0) = timer_remain env timer c in
      let (header, c1) = read_packet_header env t0 packet_type c0 in
      let (t1, c2) = timer_remain env timer c1 in
      let (rem, c3) = read_packet_remaining_len env t1 c2 in
      let (t2, c4) = timer_remain env timer c3 in
      ground (
        arith,
        ask-link timer c,
        header-link t0 packet_type c0,
        ask-link timer c1,
        read_remaining-link t1 c2,
        ask-link timer c3,
        discard_packet-link fuel t2 rem.1 c4,
        payload-link t2 rem.1 (1 + rem.2) c4,
      )

  pub cycle-link : (fuel timer packet_type : ℕ) → Keeps (cycle_for_read env fuel timer packet_type)
  unfolding cycle_for_read
  cycle-link fuel timer packet_type c =
      let read = read_mqtt_packet env fuel timer packet_type c in
      elim (Option-cases read.0) [
        | inl out ↦ ground (arith, read_mqtt_packet-link fuel timer packet_type c)
        | inr (r, got) ↦
            let handled = handle_packet env r.1 read.1 in
            ground (
              arith,
              read_mqtt_packet-link fuel timer packet_type c,
              handle_packet-link env r.1 read.1,
              note_packet-link env r.1 handled.1,
            )
      ]

  wait-link :
      (fuel discard timer packet_type read_packet_type : ℕ)
      → Keeps (wait_loop env fuel discard timer packet_type read_packet_type)
  unfolding link wait_loop
  wait-link zero discard timer packet_type read_packet_type c = ground arith
  wait-link (suc fuel) discard timer packet_type read_packet_type c =
      let c1 : Client = record c { step = c.step + 1 } in
      let cycle = cycle_for_read env discard timer read_packet_type c1 in
      elim (Option-cases cycle.0) [
        | inl out ↦ ground (arith, cycle-link discard timer read_packet_type c1)
        | inr (r, got) ↦ ground (
          arith,
          cycle-link discard timer read_packet_type c1,
          wait-link fuel discard timer packet_type r.1 cycle.1,
        )
      ]

  -- Waiting for a packet leaves the connection alone.
  pub wait_for_read-link :
      (fuel discard : ℕ) (packet_type : PacketType)
      → Keeps (wait_for_read env fuel discard packet_type)
  unfolding wait_for_read link
  wait_for_read-link fuel discard packet_type c = ground (
    arith,
    wait-link fuel discard (countdown_ms (env.now c.step) c.command_timeout_ms)
        (type_number packet_type) 0 (record c { step = c.step + 1 }),
  )
