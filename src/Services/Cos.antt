-- ===== src/Services/Cos.antt =====
-- services/common/cos/src/cos_download.c: downloads from COS. The HTTP client is its answers, by the
-- number of the call; the requests that are sent are kept, with the ranges that they ask for.
pub mod Requests
use iot_hub_device_c_sdk.Prelude.{
  ℕ, zero, suc, ◌+◌, ◌-◌, List, [], ◌∷◌, ◌++◌, ℤ, pos, negsuc, Bool, true, false, not, ◌&&◌,
  is_zero, ltb, leb, ◌==◌, ◌%◌, ◌^◌, sub_ℕ, if◌then◌else◌,
}

abbrev pub http_cos_download_request_header_len : ℕ
http_cos_download_request_header_len = 256

-- IotCosDownloadParams, of what the range depends on.
pub record CosParams : Type 0 where
  pub offset : ℕ
  pub file_size : ℕ
  pub is_fragmentation : Bool

-- The range of bytes of a request: the first and the last, which may be -1.
pub record Range : Type 0 where
  pub begin_byte : ℕ
  pub end_byte : ℤ

-- HTTPCosDownloadHandle, with the requests that were sent.
pub record Cos : Type 0 where
  pub params : CosParams
  pub download_size : ℕ
  pub requests : List Range
  pub step : ℕ

pub record HttpEnv : Type 0 where
  pub request : ℕ → ℤ
  pub recv : ℕ → ℕ → ℤ
  pub is_recv_finished : ℕ → Bool

-- `download_handle->download_size += rc` for what came
abbrev pub received : ℤ → ℕ → ℕ
received (pos n) size = size + n
received (negsuc n) size = size

-- IOT_COS_DownloadInit, once its memory and connection are there
unfoldable pub cos_download_init : CosParams → Cos
cos_download_init params = record {
  params = params;
  download_size = params.offset;
  requests = [];
  step = 0;
}

-- IOT_COS_DownloadIsFinished
unfoldable pub cos_download_is_finished : Cos → Bool
cos_download_is_finished h = h.download_size == h.params.file_size

-- min_http
abbrev pub min_http : ℕ → ℕ → ℕ
min_http x y = if ltb x y then x else y

-- What is left of the file, in uint32_t.
abbrev pub remaining_size : Cos → ℕ
remaining_size h = (h.params.file_size + 2 ^ 32 - h.download_size) % 2 ^ 32

-- The range of _cos_download_request.
unfoldable pub request_range : ℕ → Cos → Range
request_range max_len h =
    if h.params.is_fragmentation
    then record {
      begin_byte = h.download_size;
      end_byte = sub_ℕ (h.download_size + min_http max_len (remaining_size h)) 1;
    }
    else record { begin_byte = h.download_size; end_byte = sub_ℕ h.params.file_size 1 }

module _ (env : HttpEnv) where
  -- _cos_download_request; the header of the range fits its buffer.
  unfoldable pub cos_download_request : ℕ → Cos → ℤ × Cos
  unfolding request_range
  cos_download_request max_len h = (
    env.request h.step,
    record h { requests = h.requests ++ (request_range max_len h ∷ []); step = h.step + 1 },
  )

  -- _cos_download_recv_data
  unfoldable pub cos_download_recv_data : ℕ → Cos → ℤ × Cos
  cos_download_recv_data buf_len h =
      let rc = env.recv h.step buf_len in
      (rc, record h { download_size = received rc h.download_size; step = h.step + 1 })

  -- The request and the reception of IOT_COS_DownloadFetch.
  unfoldable pub request_and_recv : ℕ → Cos → ℤ × Cos
  unfolding cos_download_request cos_download_recv_data
  request_and_recv buf_len h =
      let (rc, h1) = cos_download_request buf_len h in
      if is_zero rc then cos_download_recv_data buf_len h1 else (rc, h1)

  -- IOT_COS_DownloadFetch, for a handle that is there
  unfoldable pub cos_download_fetch : ℕ → Cos → ℤ × Cos
  unfolding request_and_recv cos_download_is_finished cos_download_recv_data
  cos_download_fetch buf_len h =
      if cos_download_is_finished h
      then (pos 0, h)
      else if h.download_size == 0
      then request_and_recv buf_len h
      else if h.params.is_fragmentation && env.is_recv_finished h.step
      then request_and_recv buf_len (record h { step = h.step + 1 })
      else cos_download_recv_data buf_len (record h { step = h.step + 1 })

  -- Fetches one after another, as the downloaders call them.
  unfoldable pub cos_download_fetches : ℕ → ℕ → Cos → Cos
  unfolding cos_download_fetch
  cos_download_fetches zero buf_len h = h
  cos_download_fetches (suc n) buf_len h =
      cos_download_fetches n buf_len (cos_download_fetch buf_len h).1
