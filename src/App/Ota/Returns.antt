-- ===== src/App/Ota/Returns.antt =====
-- app/ota/ota_downloader.c: a download ends, if every fetch brings something or fails.
use iot_hub_device_c_sdk.Prelude.{
  ℕ, zero, suc, ◌+◌, ◌-◌, ◌≤◌, ◌<◌, ◌≡◌, ◌≢◌, ap, Option, none, some, List, ◌==◌, is_zero, length,
  arith, Bool-cases, inl, inr,
}
use iot_hub_device_c_sdk.Utils.Downloader.{
  DownloaderStatus, status_break_point_failed, status_data_download_failed, Callback,
  DownloaderFunction, download_loop, checked, download, break_point_choose, finish_download,
  utils_downloader_process,
}
use iot_hub_device_c_sdk.App.Ota.{
  ota_callback, ota_data_download_is_over, ota_data_download_init, ota_break_point_init,
}
use iot_hub_device_c_sdk.App.Ota.State.{Ota, OtaEnv, fetched}
use iot_hub_device_c_sdk.App.Ota.Files.{FirmwareInfo}
use iot_hub_device_c_sdk.App.Ota.Start.{
  Resumable, started, started-Digested, opened-Digested, choosing, opened_download,
}
use iot_hub_device_c_sdk.App.Ota.Round.{
  Setting, Fetched-cases, Digested, round_fits, recv_lem, recv_failed, save_lem, mark_lem, marked,
  marked-Digested,
}

-- A fetch that does not fail brings at least one byte, as long as some are left.
pub record Brings (env : OtaEnv) : Type 0 where
  pub some_bytes :
      (step rest : ℕ) (bytes : List ℕ)
      → 0 < rest
      → env.cos_download_fetch step rest ≡ fetched bytes
      → 0 < length bytes

-- The run is not out of fuel.
abbrev Ended {ℓ} : {A : Type ℓ} → Option A → Type 0
Ended none = ⊥
Ended (some a) = Unit {0}

checked-Ended :
    {U : Type 0} (call : Callback U) (status : DownloaderStatus)
    (next : U → Option (DownloaderStatus × U)) (u : U)
    → Ended (next (call u).1)
    → Ended (checked call status next u)
unfolding checked
checked-Ended call status next u onward = elim (Bool-cases (is_zero (call u).0)) [
  | inl good ↦ rw good onward
  | inr bad ↦ rw bad tt
]

finish_download-ne-none :
    {U : Type 0} (func : DownloaderFunction U) (d : Option (DownloaderStatus × U))
    → Ended d
    → finish_download func d ≢ none
unfolding finish_download
finish_download-ne-none func none e = absurd e
finish_download-ne-none func (some (status, u)) e = λ h. cc

module _ {Context : Type 0} (g : Setting Context) (brings : Brings g.env) where
  open g use {md5, env, now, fetches}

  loop-Ended :
      (fuel : ℕ) (u : Ota Context)
      → Digested g u
      → now.file_size - u.break_point.downloaded_size < fuel
      → Ended (download_loop (ota_callback md5 env) fuel u)
  unfolding download_loop checked ota_data_download_is_over
  loop-Ended zero u d enough = absurd (omega arith)
  loop-Ended (suc fuel) u d enough =
      elim (Bool-cases (u.break_point.downloaded_size == u.download_now.file_size)) [
        | inl over ↦ rw over tt
        | inr more ↦
            elim (Fetched-cases (
              env.cos_download_fetch u.step
                (u.download_now.file_size - u.break_point.downloaded_size))) [
                  | inl (bytes, e) ↦
                      let fits : u.break_point.downloaded_size + length bytes ≤ now.file_size =
                        round_fits g u bytes d e in
                      let left : 0 < u.download_now.file_size - u.break_point.downloaded_size =
                        ground (
                          arith,
                          d.within,
                          more,
                          ap (λ (i : FirmwareInfo). i.file_size) d.wanted,
                        ) in
                      rw (more, recv_lem g u bytes e, save_lem g u bytes, mark_lem g u bytes fits)
                        (loop-Ended fuel (marked g bytes u) (marked-Digested g u bytes d fits) (
                          omega (
                            arith,
                            brings.some_bytes u.step
                                (u.download_now.file_size - u.break_point.downloaded_size) bytes
                                left e,
                          )))
                  | inr (n, e) ↦ rw (more, recv_failed g u n e) tt
                ]
      ]

  -- The download of a file ends with more rounds than the file has bytes, whether it succeeds or
  -- fails, if every fetch of what is left that does not fail brings at least one byte, and at most
  -- what fits the buffer and what is left of the file; opening, creating and seeking in files
  -- never fail, MD5 reads its input in pieces as the whole, the size is a uint32_t, and the
  -- firmware file has the bytes that the break point says were downloaded.
  pub ota_download_returns :
      (fuel : ℕ) (u : Ota Context)
      → u.download_now ≡ now
      → Resumable g u
      → now.file_size < fuel
      → utils_downloader_process (ota_callback md5 env) fuel u ≢ none
  unfolding utils_downloader_process download
  ota_download_returns fuel u wanted resumable enough =
      let d : Digested g (started g u) = started-Digested g u wanted resumable in
      let opened : Digested g (ota_data_download_init md5 env (started g u)).1 =
        opened-Digested g (started g u) d in
      finish_download-ne-none (ota_callback md5 env) (download (ota_callback md5 env) fuel u) (
        checked-Ended (ota_break_point_init md5 env) status_break_point_failed (choosing g fuel) u (
          checked-Ended (break_point_choose (ota_callback md5 env)) status_break_point_failed
            (opened_download g fuel) (ota_break_point_init md5 env u).1
            (checked-Ended (ota_data_download_init md5 env) status_data_download_failed
              (download_loop (ota_callback md5 env) fuel) (started g u)
              (loop-Ended fuel (ota_data_download_init md5 env (started g u)).1 opened
                (omega arith)))))
