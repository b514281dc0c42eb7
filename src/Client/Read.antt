-- ===== src/Client/Read.antt =====
-- services/common/mqtt_client/src/mqtt_client_yield.c: reading a packet from the network. The buffer is
-- the list of its bytes; what the network answers is copied into it, at most to the length asked for.
pub mod Discard
use iot_hub_device_c_sdk.Prelude.{
  ℕ, zero, suc, ◌+◌, ◌-◌, ◌*◌, ◌/◌, ◌%◌, ◌^◌, ◌≡◌, refl, List, [], ◌∷◌, ◌++◌, Bool, true, false,
  not, Option, none, some, if◌then◌else◌, ltb, leb, ◌==◌, ℤ, pos, negsuc, ◌==ℤ◌, length, take, drop,
  get_elem?, bit_and,
}
use iot_hub_device_c_sdk.Packet.Defs.{max_no_of_remaining_length_bytes}
use iot_hub_device_c_sdk.Timer.{remain}
use iot_hub_device_c_sdk.Client.State.{
  Client, Env, M, ◌>>=◌, ◌>>◌, pure, emit, modify, failed, one_of, ret_success, err_failure,
  err_mqtt_nothing_to_read, err_mqtt_packet_read, err_ssl_nothing_to_read, err_tcp_nothing_to_read,
  err_tcp_read_timeout, err_buf_too_short,
}
use iot_hub_device_c_sdk.Client.Common.{ask}

abbrev pub max_remain_wait_ms : ℕ
max_remain_wait_ms = 100

-- `timeout_ms <= 0 ? 1 : timeout_ms`
abbrev pub at_least_one : ℕ → ℕ
at_least_one timeout_ms = if timeout_ms == 0 then 1 else timeout_ms

abbrev pub payload_timeout : ℕ → ℕ
payload_timeout timeout_ms = (at_least_one timeout_ms + max_remain_wait_ms) % 2 ^ 32

-- The buffer with bytes written at an offset.
unfoldable pub write_at : ℕ → List ℕ → List ℕ → List ℕ
write_at off bytes buf = take off buf ++ (bytes ++ drop (off + length bytes) buf)

-- The byte at an offset; 0 beyond the buffer.
abbrev pub byte_at : ℕ → List ℕ → ℕ
byte_at off buf = elim (get_elem? buf off) [ none ↦ 0 | some b ↦ b ]

module _ (env : Env) where
  -- `network_stack.read` into `read_buf` at an offset: the code, and how many bytes were read.
  unfoldable pub network_read : ℕ → ℕ → ℕ → M (ℤ × ℕ)
  network_read off len timeout_ms = do
    answer ← ask (λ step. env.read step len timeout_ms)
    modify λ c. record c { read_buf = write_at off (take len answer.1) c.read_buf }
    pure (answer.0, length (take len answer.1))

  -- HAL_Timer_Remain
  abbrev pub timer_remain : ℕ → M ℕ
  timer_remain timer = do now ← ask env.now; pure (remain timer now)

  -- _read_packet_header: the code and the packet type.
  unfoldable pub read_packet_header : ℕ → ℕ → M (ℤ × ℕ)
  read_packet_header timeout_ms packet_type = do
    r ← network_read 0 1 (at_least_one timeout_ms)
    byte ← (λ c. (byte_at 0 c.read_buf, c))
    pure (
        if one_of r.0 (err_ssl_nothing_to_read ∷ err_tcp_nothing_to_read ∷ [])
        then (err_mqtt_nothing_to_read, packet_type)
        else (r.0, byte / 16 % 16))

  -- The loop of _read_packet_remaining_len, `k` rounds before MAX_NO_OF_REMAINING_LENGTH_BYTES: the
  -- code, the length and the number of bytes.
  unfoldable pub remaining_len_loop : ℕ → ℕ → ℕ → ℕ → ℕ → M (ℤ × ℕ × ℕ)
  remaining_len_loop zero count multiplier len timeout_ms = pure (err_mqtt_packet_read, 0, count)
  remaining_len_loop (suc k) count multiplier len timeout_ms = do
    r ← network_read (1 + count) 1 timeout_ms
    byte ← (λ c. (byte_at (1 + count) c.read_buf, c))
    let len' = (len + bit_and byte 127 * multiplier) % 2 ^ 32
    let next = remaining_len_loop k (count + 1) (multiplier * 128 % 2 ^ 32) len' timeout_ms
    if failed r.0
        then pure (err_failure, 0, count)
        else if not (bit_and byte 128 == 0)
        then next
        else pure (ret_success, len', count + 1)

  -- _read_packet_remaining_len, behind the first byte of the buffer.
  unfoldable pub read_packet_remaining_len : ℕ → M (ℤ × ℕ × ℕ)
  read_packet_remaining_len timeout_ms =
      remaining_len_loop max_no_of_remaining_length_bytes 0 1 0 (payload_timeout timeout_ms)

  -- The loop of _discard_packet_for_short_buf on fuel: `to_read` is `bytes_to_be_read` and `total` is
  -- `total_bytes_read`.
  unfoldable pub discard_loop : ℕ → ℕ → ℕ → ℕ → ℕ → M (Option ℕ)
  discard_loop zero to_read total rem_len timeout_ms = pure none
  discard_loop (suc fuel) to_read total rem_len timeout_ms = do
    r ← network_read 0 to_read timeout_ms
    size ← (λ c. (c.read_buf_size, c))
    let total' = total + r.1
    let left = (rem_len + 2 ^ 64 - total') % 2 ^ 64
    let next = discard_loop fuel (if leb size left then size else left) total' rem_len timeout_ms
    if failed r.0
        then pure (some total)
        else if ltb total' rem_len
        then next
        else pure (some total')

  -- _discard_packet_for_short_buf: the number of bytes that it has taken from the network.
  unfoldable pub discard_packet_for_short_buf : ℕ → ℕ → ℕ → M (Option ℕ)
  discard_packet_for_short_buf fuel timeout_ms rem_len c =
      discard_loop fuel c.read_buf_size 0 rem_len (payload_timeout timeout_ms) c

  -- _read_packet_payload, where the SDK is built with AUTH_WITH_NO_TLS off.
  unfoldable pub read_packet_payload : ℕ → ℕ → ℕ → M ℤ
  read_packet_payload timeout_ms rem_len off = do
    r ← network_read off rem_len (payload_timeout timeout_ms)
    pure (if failed r.0 then r.0 else if r.1 == rem_len then ret_success else err_tcp_read_timeout)

  -- _read_mqtt_packet: the code and the packet type; nothing if the fuel for discarding ran out.
  unfoldable pub read_mqtt_packet : ℕ → ℕ → ℕ → M (Option (ℤ × ℕ))
  read_mqtt_packet fuel timer packet_type = do
    timeout ← timer_remain timer
    header ← read_packet_header timeout packet_type
    if failed header.0 then pure (some header) else do
      timeout ← timer_remain timer
      rem ← read_packet_remaining_len timeout
      if failed rem.0 then pure (some (rem.0, header.1)) else do
        size ← (λ c. (c.read_buf_size, c))
        if leb size ((1 + rem.2 + rem.1) % 2 ^ 32)
            then (do
              timeout ← timer_remain timer
              gone ← discard_packet_for_short_buf fuel timeout rem.1
              pure (elim gone [ none ↦ none | some n ↦ some (err_buf_too_short, header.1) ]))
            else if rem.1 == 0
            then pure (some (ret_success, header.1))
            else (do
              timeout ← timer_remain timer
              rc ← read_packet_payload timeout rem.1 (1 + rem.2)
              pure (some (rc, header.1)))
