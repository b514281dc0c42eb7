-- ===== src/Services/Cos/Requests.antt =====
-- services/common/cos/src/cos_download.c: which requests a download sends.
use iot_hub_device_c_sdk.Prelude.{ℕ, zero, suc, ◌<◌, ◌≡◌, refl, [], false, arith, ap, ◌∙◌}
use iot_hub_device_c_sdk.Services.Cos.{
  CosParams, Cos, HttpEnv, cos_download_init, cos_download_fetch, cos_download_fetches,
}

module _ (env : HttpEnv) (buf_len : ℕ) where
  -- A fetch of a download that is past its beginning and not in fragments sends no request.
  fetch_no_request :
      (h : Cos)
      → 0 < h.download_size
      → h.params.is_fragmentation ≡ false
      → ((cos_download_fetch env buf_len h).1.requests ≡ h.requests)
        × (0 < (cos_download_fetch env buf_len h).1.download_size)
        × ((cos_download_fetch env buf_len h).1.params ≡ h.params)
  unfolding cos_download_fetch
  fetch_no_request h begun whole = ground arith

  fetches_no_request :
      (n : ℕ) (h : Cos)
      → 0 < h.download_size
      → h.params.is_fragmentation ≡ false
      → (cos_download_fetches env n buf_len h).requests ≡ h.requests
  unfolding cos_download_fetches
  fetches_no_request zero h begun whole = refl
  fetches_no_request (suc n) h begun whole =
      let (same, more, params) = fetch_no_request h begun whole in
      fetches_no_request n (cos_download_fetch env buf_len h).1 more
        (ap (λ (p : CosParams). p.is_fragmentation) params ∙ whole)
      ∙ same

  -- A download that starts at an offset other than 0, and is not in fragments, never sends a request,
  -- however often it is fetched from: what OTA resumes at its break point is never asked for.
  pub resumed_sends_nothing :
      (n : ℕ) (params : CosParams)
      → 0 < params.offset
      → params.is_fragmentation ≡ false
      → (cos_download_fetches env n buf_len (cos_download_init params)).requests ≡ []
  unfolding cos_download_init
  resumed_sends_nothing n params begun whole =
      fetches_no_request n
        (record { params = params; download_size = params.offset; requests = []; step = 0 }) begun
        whole
