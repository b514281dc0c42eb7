-- ===== src/Client/Read/Discard.antt =====
-- _discard_packet_for_short_buf: what it takes from the network.
use iot_hub_device_c_sdk.Prelude.{ℕ, zero, suc, ◌<◌, ◌≤◌, ◌≡◌, some, pos, length, take, arith}
use iot_hub_device_c_sdk.Client.State.{Client, Env}
use iot_hub_device_c_sdk.Client.Read.{
  network_read, discard_loop, discard_packet_for_short_buf, payload_timeout,
}

module _ (env : Env) where
  -- Where every read succeeds and gives as many bytes as are asked for, and there is fuel, a
  -- packet whose rest is at most as long as the read buffer is discarded with one read of the size
  -- of the buffer: the bytes beyond the packet are lost too.
  pub discard_overreads :
      (fuel timeout rem_len : ℕ) (c : Client)
      → 0 < fuel
      → rem_len ≤ c.read_buf_size
      → ((k len t : ℕ) → (env.read k len t).0 ≡ pos 0)
      → ((k len t : ℕ) → length (take len (env.read k len t).1) ≡ len)
      → (discard_packet_for_short_buf env fuel timeout rem_len c).0 ≡ some c.read_buf_size
  unfolding discard_packet_for_short_buf discard_loop network_read
  discard_overreads zero timeout rem_len c h small succeeds full = absurd (omega arith)
  discard_overreads (suc fuel) timeout rem_len c h small succeeds full = ground (
    arith,
    succeeds c.step c.read_buf_size (payload_timeout timeout),
    full c.step c.read_buf_size (payload_timeout timeout),
  )
