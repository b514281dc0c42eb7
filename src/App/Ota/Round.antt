-- ===== src/App/Ota/Round.antt =====
-- app/ota/ota_downloader.c: one round of an OTA download, in which bytes come, are saved in the firmware
-- file and are digested.
use iot_hub_device_c_sdk.Prelude.{
  ℕ, suc, ◌+◌, ◌-◌, ◌%◌, ◌^◌, ◌≤◌, ◌<◌, ◌≡◌, refl, ap, ◌⊎◌, inl, inr, true, some, List, [], ◌∷◌,
  ◌++◌, pos, negsuc, ltb, if◌then◌else◌, length, take, drop, take-append, append-nil, arith,
}
use iot_hub_device_c_sdk.App.Ota.{
  progress, ota_data_download_recv, ota_data_download_save, ota_break_point_save,
}
use iot_hub_device_c_sdk.App.Ota.State.{
  Ota, OtaEnv, Md5, report_downloading, Fetched, fetched, fetch_failed,
}
use iot_hub_device_c_sdk.App.Ota.Files.{FirmwareInfo, DownloadInfo, Disk, write_at, overlay}
use iot_hub_device_c_sdk.App.Ota.Digest.{
  Works, Streams, contents, firmware_write-file, break_point_write-file, take-write_at,
  length-write_at,
}

-- A fetch brings at most what fits the buffer and what is left of the file.
pub record Fetches (env : OtaEnv) : Type 0 where
  pub within :
      (step rest : ℕ) (bytes : List ℕ)
      → env.cos_download_fetch step rest ≡ fetched bytes
      → (length bytes ≤ rest) × (length bytes ≤ 1024)

pub Fetched-cases :
    (f : Fetched) → ((bytes : List ℕ) × (f ≡ fetched bytes)) ⊎ ((n : ℕ) × (f ≡ fetch_failed n))
Fetched-cases (fetched bytes) = inl (bytes, refl)
Fetched-cases (fetch_failed n) = inr (n, refl)

-- A sound setting of a download of the firmware `now`.
pub record Setting (Context : Type 0) : Type 0 where
  pub md5 : Md5 Context
  pub env : OtaEnv
  pub now : FirmwareInfo
  pub streams : Streams md5
  pub works : Works env.files
  pub fetches : Fetches env
  pub sized : now.file_size < 2 ^ 32

module _ {Context : Type 0} (g : Setting Context) where
  open g use {md5, env, now, streams, works, fetches, sized}

  -- The digest is that of the part of the file that is downloaded.
  pub record Digested (u : Ota Context) : Type 0 where
    pub wanted : u.download_now ≡ now
    pub within : u.break_point.downloaded_size ≤ now.file_size
    pub inside : u.break_point.downloaded_size ≤ length (contents u.disk)
    pub digest :
        u.download_md5_ctx
        ≡ md5.update md5.reset (take u.break_point.downloaded_size (contents u.disk))

  pub round_fits :
      (u : Ota Context) (bytes : List ℕ)
      → Digested u
      → env.cos_download_fetch u.step (u.download_now.file_size - u.break_point.downloaded_size)
        ≡ fetched bytes
      → u.break_point.downloaded_size + length bytes ≤ now.file_size
  round_fits u bytes d e = omega (
    arith,
    d.within,
    ap (λ (i : FirmwareInfo). i.file_size) d.wanted,
    fetches.within u.step (u.download_now.file_size - u.break_point.downloaded_size) bytes e,
  )

  -- The handle when `bytes` came.
  abbrev pub came : List ℕ → Ota Context → Ota Context
  came bytes u = record u {
    download_size = length bytes;
    download_buff = overlay bytes u.download_buff;
    step = u.step + 1;
  }

  pub recv_lem :
      (u : Ota Context) (bytes : List ℕ)
      → env.cos_download_fetch u.step (u.download_now.file_size - u.break_point.downloaded_size)
        ≡ fetched bytes
      → ota_data_download_recv md5 env u ≡ (pos (length bytes), came bytes u)
  unfolding ota_data_download_recv
  recv_lem u bytes e = ground (
    arith,
    e,
    fetches.within u.step (u.download_now.file_size - u.break_point.downloaded_size) bytes e,
  )

  pub recv_failed :
      (u : Ota Context) (n : ℕ)
      → env.cos_download_fetch u.step (u.download_now.file_size - u.break_point.downloaded_size)
        ≡ fetch_failed n
      → ota_data_download_recv md5 env u
        ≡ (negsuc n, record u { download_size = 2 ^ 32 - suc n; step = u.step + 1 })
  unfolding ota_data_download_recv
  recv_failed u n e = rw (ota_data_download_recv, e) refl

  -- The file when `bytes` were saved.
  abbrev pub saved_disk : List ℕ → Ota Context → Disk
  saved_disk bytes u = record u.disk {
    firmware_file =
        if ltb 0 (length bytes)
        then some (write_at u.break_point.downloaded_size bytes (contents u.disk))
        else u.disk.firmware_file;
  }

  abbrev pub saved : List ℕ → Ota Context → Ota Context
  saved bytes u = record (came bytes u) {
    disk = saved_disk bytes u;
    step = if ltb 0 (length bytes) then (u.step + 1) + 1 else u.step + 1;
  }

  buffered :
      (bytes : List ℕ) (u : Ota Context)
      → take (length bytes) (overlay bytes u.download_buff) ≡ bytes
  buffered bytes u = take-append bytes (drop (length bytes) u.download_buff)

  pub save_lem :
      (u : Ota Context) (bytes : List ℕ)
      → ota_data_download_save md5 env (came bytes u) ≡ (pos 0, saved bytes u)
  unfolding ota_data_download_save
  save_lem u bytes = ground (
    arith,
    buffered bytes u,
    firmware_write-file env.files works (u.step + 1) bytes u.break_point.downloaded_size
        u.disk.break_point_file u.disk.firmware_file,
  )

  saved_file :
      (u : Ota Context) (bytes : List ℕ)
      → Digested u
      → (u.break_point.downloaded_size + length bytes ≤ length (contents (saved_disk bytes u)))
        × (take (u.break_point.downloaded_size + length bytes) (contents (saved_disk bytes u))
            ≡ take u.break_point.downloaded_size (contents u.disk) ++ bytes)
  saved_file u [] d =
      let same : u.break_point.downloaded_size + 0 ≡ u.break_point.downloaded_size = omega arith in
      (rw same d.inside, rw (same, append-nil) refl)
  saved_file u (b ∷ bytes) d =
      let some_bytes : ltb 0 (suc (length bytes)) ≡ true = ground arith in
      rw some_bytes (
        length-write_at u.break_point.downloaded_size (b ∷ bytes) (contents u.disk) d.inside,
        take-write_at u.break_point.downloaded_size (b ∷ bytes) (contents u.disk) d.inside,
      )

  -- The handle when the break point behind `bytes` is saved.
  abbrev pub marked : List ℕ → Ota Context → Ota Context
  marked bytes u =
      let size = u.break_point.downloaded_size + length bytes in
      let point : DownloadInfo = record u.break_point { downloaded_size = size } in
      record (saved bytes u) {
        break_point = point;
        download_md5_ctx = md5.update u.download_md5_ctx bytes;
        disk = record (saved_disk bytes u) { break_point_file = some (some point) };
        reports =
            report_downloading (progress md5 env size u.download_now.file_size)
              u.break_point.file_id.version
            ∷ u.reports;
        step = (saved bytes u).step + 1 + 1;
      }

  pub mark_lem :
      (u : Ota Context) (bytes : List ℕ)
      → u.break_point.downloaded_size + length bytes ≤ now.file_size
      → ota_break_point_save md5 env (saved bytes u) ≡ (pos 0, marked bytes u)
  unfolding ota_break_point_save
  mark_lem u bytes fits =
      let small : (u.break_point.downloaded_size + length bytes) % 2 ^ 32
          ≡ u.break_point.downloaded_size + length bytes =
        omega (arith, sized) in
      rw (small, buffered bytes u, break_point_write-file env.files works) refl

  pub marked-Digested :
      (u : Ota Context) (bytes : List ℕ)
      → Digested u
      → u.break_point.downloaded_size + length bytes ≤ now.file_size
      → Digested (marked bytes u)
  marked-Digested u bytes d fits = record {
    wanted = d.wanted;
    within = fits;
    inside = (saved_file u bytes d).0;
    digest = rw (d.digest, streams.pieces, (saved_file u bytes d).1) refl;
  }
