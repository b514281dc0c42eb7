-- ===== src/Client/PacketId.antt =====
-- get_next_packet_id of services/common/mqtt_client/src/mqtt_client_common.c.
use iot_hub_device_c_sdk.Prelude.{
  ℕ, zero, suc, ◌+◌, ◌-◌, ◌%◌, ◌^◌, ◌≤◌, ◌<◌, ◌≡◌, ◌≢◌, arith, if◌then◌else◌, ◌==◌,
}

abbrev pub max_packet_id : ℕ
max_packet_id = 65535

-- The new value of `next_packet_id`, which is also returned.
unfoldable pub get_next_packet_id : ℕ → ℕ
get_next_packet_id next_packet_id =
    (if max_packet_id == next_packet_id then 1 else next_packet_id + 1) % 2 ^ 16

-- The identifier after a number of calls.
pub after_calls : ℕ → ℕ → ℕ
after_calls zero id = id
after_calls (suc k) id = get_next_packet_id (after_calls k id)

-- From any value of the field an identifier is in range, and never 0.
pub get_next_packet_id_range :
    (id : ℕ) → id < 2 ^ 16 → (1 ≤ get_next_packet_id id) × (get_next_packet_id id ≤ max_packet_id)
unfolding get_next_packet_id
get_next_packet_id_range id h = ground arith

-- From an identifier between 1 and 65535 on, identifiers go round from 1 to 65535.
pub after_calls_lem :
    (k id : ℕ) → 1 ≤ id → id ≤ max_packet_id → after_calls k id ≡ (id - 1 + k) % 65535 + 1
unfolding after_calls get_next_packet_id
after_calls_lem zero id h h' = omega arith
after_calls_lem (suc k) id h h' = ground (arith, after_calls_lem k id h h')

-- An identifier is not given out again in the 65534 calls that follow it.
pub after_calls_fresh :
    (k id : ℕ) → 1 ≤ id → id ≤ max_packet_id → 0 < k → k < max_packet_id → after_calls k id ≢ id
after_calls_fresh k id h h' p q e = absurd (omega (arith, after_calls_lem k id h h'))
