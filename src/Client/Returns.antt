-- ===== src/Client/Returns.antt =====
-- The loops that read from the network return: each read that succeeds makes progress, and the clock
-- passes every deadline.
use iot_hub_device_c_sdk.Prelude.{
  ℕ, zero, suc, ◌+◌, ◌-◌, ◌*◌, ◌%◌, ◌^◌, ◌≤◌, ◌<◌, ◌≡◌, leb, ltb, bit_and, ap, refl, [], ◌∷◌, ◌++◌,
  false, Option, none, some, if◌then◌else◌, pos, length, take, arith, Option-cases, Bool-cases, inl,
  inr,
}
use iot_hub_device_c_sdk.Packet.Defs.{PacketType, type_number, max_no_of_remaining_length_bytes}
use iot_hub_device_c_sdk.Timer.{countdown_ms, expired}
use iot_hub_device_c_sdk.Client.State.{Client, Env, failed}
use iot_hub_device_c_sdk.Client.Read.{
  network_read, discard_loop, discard_packet_for_short_buf, read_mqtt_packet, timer_remain,
  payload_timeout, byte_at, read_packet_header, read_packet_remaining_len, remaining_len_loop,
}
use iot_hub_device_c_sdk.Client.Cycle.{handle_packet, cycle_for_read, wait_loop, wait_for_read}
use iot_hub_device_c_sdk.Packet.Defs.{connack}
use iot_hub_device_c_sdk.Packet.Serialize.{connect_packet_serialize}
use iot_hub_device_c_sdk.Client.State.{net_connect}
use iot_hub_device_c_sdk.Client.Connect.{send_serialized, connect_once, mqtt_connect}
use iot_hub_device_c_sdk.Client.Connect.Laws.{send_serialized-link}
use iot_hub_device_c_sdk.Client.Linked.{link}
use iot_hub_device_c_sdk.Client.Linked.Cycle.{header-link, read_remaining-link, cycle-link}

abbrev pub HasValue {ℓ} : {A : Type ℓ} → Option A → Type 0
HasValue none = ⊥
HasValue (some a) = Unit

-- A read of at least one byte that succeeds has at least one byte.
abbrev pub Progresses : Env → Type 0
Progresses env =
    (k len timeout : ℕ)
    → 0 < len
    → (env.read k len timeout).0 ≡ pos 0
    → 0 < length (take len (env.read k len timeout).1)

-- The number of rounds that is enough to discard a packet of any length.
abbrev pub enough_to_discard : ℕ
enough_to_discard = 2 ^ 32

module _ (env : Env) (progresses : Progresses env) where
  read-progresses :
      (len timeout : ℕ) (c : Client)
      → 0 < len
      → failed (network_read env 0 len timeout c).0.0 ≡ false
      → 0 < (network_read env 0 len timeout c).0.1
  unfolding network_read
  read-progresses len timeout c h ok = ground (arith, progresses c.step len timeout h)

  read-size :
      (len timeout : ℕ) (c : Client)
      → (network_read env 0 len timeout c).1.read_buf_size ≡ c.read_buf_size
  unfolding network_read
  read-size len timeout c = refl

  -- The loop of _discard_packet_for_short_buf needs no more rounds than there are bytes.
  discard_loop-returns :
      (fuel to_read total rem_len timeout : ℕ) (c : Client)
      → 0 < c.read_buf_size
      → 0 < to_read
      → rem_len < 2 ^ 64
      → total ≤ rem_len
      → rem_len < total + fuel
      → HasValue (discard_loop env fuel to_read total rem_len timeout c).0
  unfolding discard_loop
  discard_loop-returns zero to_read total rem_len timeout c size asked small inside enough =
      omega arith
  discard_loop-returns (suc fuel) to_read total rem_len timeout c size asked small inside enough =
      let (r, c1) = network_read env 0 to_read timeout c in
      let left = (rem_len + 2 ^ 64 - (total + r.1)) % 2 ^ 64 in
      elim (Bool-cases (failed r.0)) [
        | inl broken ↦ ground arith
        | inr read ↦ elim (Bool-cases (ltb (total + r.1) rem_len)) [
          | inr done ↦ ground arith
          | inl more ↦
              let progress = read-progresses to_read timeout c asked read in
              let same = read-size to_read timeout c in
              let exact : left ≡ rem_len - (total + r.1) = ground arith in
              let rest =
                discard_loop-returns fuel
                  (if leb c1.read_buf_size left then c1.read_buf_size else left) (total + r.1)
                  rem_len timeout c1 (rw same size) (ground arith) small (ground arith)
                  (omega arith) in
              ground arith
        ]
      ]

  remaining-small :
      (k count multiplier len timeout : ℕ) (c : Client)
      → (remaining_len_loop env k count multiplier len timeout c).0.1 < 2 ^ 32
  unfolding remaining_len_loop
  remaining-small zero count multiplier len timeout c = ground arith
  remaining-small (suc k) count multiplier len timeout c =
      let (r, c1) = network_read env (1 + count) 1 timeout c in
      let len' = (len + bit_and (byte_at (1 + count) c1.read_buf) 127 * multiplier) % 2 ^ 32 in
      ground (arith, remaining-small k (count + 1) (multiplier * 128 % 2 ^ 32) len' timeout c1)

  discard_packet-returns :
      (timeout rem_len : ℕ) (c : Client)
      → 0 < c.read_buf_size
      → rem_len < 2 ^ 32
      → HasValue (discard_packet_for_short_buf env enough_to_discard timeout rem_len c).0
  unfolding discard_packet_for_short_buf
  discard_packet-returns timeout rem_len c size small =
      discard_loop-returns enough_to_discard c.read_buf_size 0 rem_len _ c size size (omega arith)
        (omega arith) (omega arith)

  size-kept :
      (c c' : Client) → (link c' ≡ link c) × (c.step ≤ c'.step) → c'.read_buf_size ≡ c.read_buf_size
  unfolding link
  size-kept c c' e = ap (λ l. l.size) e.0

  read_mqtt_packet-returns :
      (timer packet_type : ℕ) (c : Client)
      → 0 < c.read_buf_size
      → HasValue (read_mqtt_packet env enough_to_discard timer packet_type c).0
  unfolding read_mqtt_packet read_packet_remaining_len
  read_mqtt_packet-returns timer packet_type c size =
      let (t0, c0) = timer_remain env timer c in
      let (header, c1) = read_packet_header env t0 packet_type c0 in
      let (t1, c2) = timer_remain env timer c1 in
      let (rem, c3) = read_packet_remaining_len env t1 c2 in
      let (t2, c4) = timer_remain env timer c3 in
      let small : rem.1 < 2 ^ 32 =
        remaining-small max_no_of_remaining_length_bytes 0 1 0 (payload_timeout t1) c2 in
      let kept : c4.read_buf_size ≡ c.read_buf_size = ground (
        arith,
        size-kept c0 c1 (header-link env t0 packet_type c0),
        size-kept c2 c3 (read_remaining-link env t1 c2),
      ) in
      let gone = discard_packet-returns t2 rem.1 c4 (rw kept size) small in ground arith

  pub cycle-returns :
      (timer packet_type : ℕ) (c : Client)
      → 0 < c.read_buf_size
      → HasValue (cycle_for_read env enough_to_discard timer packet_type c).0
  unfolding cycle_for_read
  cycle-returns timer packet_type c size =
      let returns = read_mqtt_packet-returns timer packet_type c size in
      let read = read_mqtt_packet env enough_to_discard timer packet_type c in
      elim (Option-cases read.0) [
        | inl out ↦ ground arith
        | inr (r, got) ↦ elim (Option-cases (handle_packet env r.1 read.1).0) [
          | inl unknown ↦ ground arith
          | inr (rc, handled) ↦ ground arith
        ]
      ]

  pub wait_loop-returns :
      (fuel timer packet_type read_packet_type : ℕ) (c : Client) (late : ℕ)
      → 0 < c.read_buf_size
      → ((k : ℕ) → late ≤ k → timer ≤ env.now k)
      → 0 < fuel
      → late < c.step + fuel
      → HasValue (wait_loop env fuel enough_to_discard timer packet_type read_packet_type c).0
  unfolding wait_loop expired
  wait_loop-returns zero timer packet_type read_packet_type c late size clock some_fuel enough =
      omega arith
  wait_loop-returns (suc fuel) timer packet_type read_packet_type c late size clock some_fuel
        enough =
      let c1 : Client = record c { step = c.step + 1 } in
      let returns = cycle-returns timer read_packet_type c1 size in
      let cycle = cycle_for_read env enough_to_discard timer read_packet_type c1 in
      let kept = cycle-link env enough_to_discard timer read_packet_type c1 in
      elim (Bool-cases (leb timer (env.now c.step))) [
        | inl over ↦ ground arith
        | inr before ↦
            let early : c.step < late = ground (arith, clock c.step) in
            elim (Option-cases cycle.0) [
              | inl out ↦ ground arith
              | inr (r, got) ↦
                  let rest =
                    wait_loop-returns fuel timer packet_type r.1 cycle.1 late
                      (rw (size-kept c1 cycle.1 kept) size) clock (omega arith)
                      (omega (arith, kept.1)) in
                  ground arith
            ]
      ]

  module _ (late : ℕ → ℕ)
      (clock : (deadline k : ℕ) → late deadline ≤ k → deadline ≤ env.now k) where
    wait_for_read-returns :
        (packet_type : PacketType) (c : Client)
        → 0 < c.read_buf_size
        → (fuel : ℕ) × HasValue (wait_for_read env fuel enough_to_discard packet_type c).0
    unfolding wait_for_read
    wait_for_read-returns packet_type c size =
        let timer = countdown_ms (env.now c.step) c.command_timeout_ms in
        (
          suc (late timer),
          wait_loop-returns (suc (late timer)) timer (type_number packet_type) 0
              (record c { step = c.step + 1 }) (late timer) size (clock timer) (omega arith)
              (omega arith),
        )

    connect_once-returns :
        (c : Client)
        → 0 < c.read_buf_size
        → (fuel : ℕ) × HasValue (connect_once env fuel enough_to_discard c).0
    unfolding connect_once
    connect_once-returns c size =
        let c1 : Client = record c { trace = c.trace ++ (net_connect ∷ []); step = c.step + 1 } in
        let packet = connect_packet_serialize c.write_buf_size c.options in
        let sent = send_serialized env packet c1 in
        let room : 0 < sent.1.read_buf_size =
          rw (size-kept c1 sent.1 (send_serialized-link env packet c1)) size in
        let (fuel, returns) = wait_for_read-returns connack sent.1 room in
        let waited = wait_for_read env fuel enough_to_discard connack sent.1 in
        (
          fuel,
          elim (Option-cases waited.0) [ inl out ↦ ground arith | inr (rc, got) ↦ ground arith ],
        )

    -- Connecting returns: every successful read makes progress, and the clock passes every deadline.
    pub mqtt_connect_returns :
        (c : Client)
        → 0 < c.read_buf_size
        → (fuel : ℕ) × HasValue (mqtt_connect env fuel enough_to_discard c).0
    unfolding mqtt_connect
    mqtt_connect_returns c size =
        let (fuel, returns) = connect_once-returns c size in
        (
          fuel,
          elim (Option-cases (connect_once env fuel enough_to_discard c).0) [
            | inl out ↦ ground arith
            | inr (rc, got) ↦ ground arith
          ],
        )
