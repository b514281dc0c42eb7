-- ===== src/Services/Http/Body.antt =====
-- services/common/http_client/src/http_client.c: the reception of a body with a content length.
use iot_hub_device_c_sdk.Prelude.{ℕ, ◌+◌, ◌-◌, ◌≤◌, ◌≡◌, pos, length, arith}
use iot_hub_device_c_sdk.Services.Http.Receive.{
  Response, NetEnv, http_client_recv, body_read_len, content_length_recv,
}

-- A read brings at most as many bytes as are asked for.
pub record Reads (env : NetEnv) : Type 0 where
  pub within : (step len : ℕ) → length (env.read step len).1 ≤ len

module _ (env : NetEnv) (reads : Reads env) where
  pub recv_within : (step len : ℕ) → length (http_client_recv env step len).1 ≤ len
  unfolding http_client_recv
  recv_within step len = ground (arith, reads.within step len)

  -- With `need` bytes of the body still to come, a call puts no byte behind the end of the buffer, takes no
  -- byte that is not of the body, and counts what it takes: what it put there and what is still to come
  -- are together what was to come, and the bytes that were received grow by as many.
  pub content_length_recv_lem :
      (step buf_len offset need : ℕ) (r : Response)
      → r.need_recv_len ≡ pos need
      → offset ≤ buf_len
      → (left : ℕ) × ((content_length_recv env step buf_len offset r).2.need_recv_len ≡ pos left)
        × (length (content_length_recv env step buf_len offset r).1 + left ≡ need)
        × (offset + length (content_length_recv env step buf_len offset r).1 ≤ buf_len)
        × ((content_length_recv env step buf_len offset r).2.recv_len
            ≡ r.recv_len + length (content_length_recv env step buf_len offset r).1)
  unfolding content_length_recv body_read_len
  content_length_recv_lem step buf_len offset need r e room =
      let bounded : length (http_client_recv env step (body_read_len need (buf_len - offset))).1
          ≤ body_read_len need (buf_len - offset) =
        recv_within step (body_read_len need (buf_len - offset)) in
      (
        need - length (content_length_recv env step buf_len offset r).1,
        ground (arith, e, bounded),
        ground (arith, e, bounded),
        ground (arith, e, bounded),
        ground (arith, e, bounded),
      )
