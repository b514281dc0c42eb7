-- ===== src/App/Ota.antt =====
-- app/ota/ota_downloader.c: the functions that the OTA application gives the downloader, and its
-- interface. MD5 and the reports are parameters; the download of services/common/cos is the answer to
-- each fetch, which is told how many bytes of the file have not come yet.
pub mod Files
pub mod Digest
pub mod Round
pub mod Start
pub mod Verified
pub mod Returns
pub mod Tests
pub mod State
use iot_hub_device_c_sdk.Prelude.{
  ℕ, zero, suc, ◌+◌, ◌-◌, ◌*◌, ◌/◌, ◌%◌, ◌^◌, Bool, true, false, not, ◌||◌, Option, none, some,
  List, [], ◌∷◌, ◌++◌, ℤ, pos, negsuc, is_zero, ltb, leb, ◌==◌, eq_bytes, length, take, drop,
  if◌then◌else◌,
}
use iot_hub_device_c_sdk.Utils.Downloader.{
  DownloaderStatus, status_success, status_break_point_failed, status_network_failed,
  status_data_download_failed, Callback, DownloaderFunction, is_negative, utils_downloader_process,
}
use iot_hub_device_c_sdk.App.Ota.Files.{
  FirmwareInfo, DownloadInfo, no_info, Disk, FileEnv, break_point_read, break_point_write,
  firmware_read, firmware_write, overlay,
}
use iot_hub_device_c_sdk.App.Ota.State.{
  ota_http_buf_size, max_size_of_download_url, max_size_of_fw_version, OtaStatus, is_downloading,
  Report, Md5, Fetched, OtaEnv, Ota, to_int, read_len, no_initted, initted, downloading, finished,
  report_downloading, report_upgrade_success, report_download_timeout, report_md5_not_match,
  report_upgrade_fail, fetched, fetch_failed,
}

module _ {Context : Type 0} (md5 : Md5 Context) (env : OtaEnv) where
  -- _ota_break_point_init
  unfoldable pub ota_break_point_init : Callback (Ota Context)
  ota_break_point_init u =
      let (rc, info, disk) = break_point_read env.files u.step u.break_point u.disk in
      (
        if is_negative rc then pos 1 else pos 0,
        record u {
          cos_download = false;
          download_md5_ctx = md5.reset;
          break_point = info;
          disk = disk;
          step = u.step + 1;
        },
      )

  -- _ota_break_point_deinit
  unfoldable pub ota_break_point_deinit : Ota Context → Ota Context
  ota_break_point_deinit u = record u { break_point = no_info }

  -- _ota_break_point_set
  unfoldable pub ota_break_point_set : Callback (Ota Context)
  ota_break_point_set u =
      (pos 0, record u { break_point = record { file_id = u.download_now; downloaded_size = 0 } })

  -- IOT_OTA_ReportProgress
  abbrev pub report : Report → Callback (Ota Context)
  report r u = (env.report_progress u.step, record u { reports = r ∷ u.reports; step = u.step + 1 })

  -- downloaded_size * 100 / file_size, in uint32_t
  unfoldable pub progress : ℕ → ℕ → Option ℕ
  progress downloaded_size file_size =
      if file_size == 0 then none else some (downloaded_size * 100 % 2 ^ 32 / file_size)

  -- ota_break_point_write of the handle's break point
  abbrev pub write_break_point : Callback (Ota Context)
  write_break_point u =
      let (rc, disk) = break_point_write env.files u.step u.break_point u.disk in
      (rc, record u { disk = disk; step = u.step + 1 })

  -- _ota_break_point_save
  unfoldable pub ota_break_point_save : Callback (Ota Context)
  unfolding progress
  ota_break_point_save u =
      let downloaded_size = (u.break_point.downloaded_size + u.download_size) % 2 ^ 32 in
      let u1 : Ota Context = record u {
        break_point = record u.break_point { downloaded_size = downloaded_size };
        download_md5_ctx = md5.update u.download_md5_ctx (take u.download_size u.download_buff);
      } in
      let (rc, u2) =
        report
          (report_downloading (progress downloaded_size u.download_now.file_size)
            u.break_point.file_id.version)
          u1 in
      write_break_point u2

  -- _ota_break_point_check: 0 for a break point of the firmware that is wanted
  unfoldable pub ota_break_point_check : Callback (Ota Context)
  ota_break_point_check u = (
    if not (
            eq_bytes (take max_size_of_fw_version u.break_point.file_id.version)
              (take max_size_of_fw_version u.download_now.version))
          || (not (u.break_point.file_id.file_size == u.download_now.file_size)
              || (ltb u.download_now.file_size u.break_point.downloaded_size
                  || not (
                      eq_bytes (take 32 u.break_point.file_id.md5sum)
                        (take 32 u.download_now.md5sum))))
        then pos 1
        else pos 0,
    u,
  )

  -- The loop of _ota_break_point_restore: `size` bytes are left, `total_read` were read.
  unfoldable pub restore_loop : ℕ → (size : ℕ) → (total_read : ℕ) → Ota Context → Ota Context
  restore_loop zero size total_read u = u
  restore_loop (suc fuel) size total_read u =
      if size == 0
      then u
      else let rlen : ℕ = read_len size in
        let (rc, bytes, disk) = firmware_read env.files u.step rlen total_read u.disk in
        let buff : List ℕ = overlay bytes u.download_buff in
        let u1 : Ota Context = record u { disk = disk; download_buff = buff; step = u.step + 1 } in
        let more : Ota Context =
          restore_loop fuel (size - rlen) (total_read + rlen)
            (record u1 { download_md5_ctx = md5.update u.download_md5_ctx (take rlen buff) }) in
        if is_negative rc
        then record u1 { break_point = record u.break_point { downloaded_size = 0 } }
        else more

  -- _ota_break_point_restore
  unfoldable pub ota_break_point_restore : Callback (Ota Context)
  unfolding restore_loop
  ota_break_point_restore u =
      (pos 0, restore_loop u.break_point.downloaded_size u.break_point.downloaded_size 0 u)

  -- _ota_data_download_init
  unfoldable pub ota_data_download_init : Callback (Ota Context)
  ota_data_download_init u =
      let handle = env.cos_download_init u.step in
      (if handle then pos 0 else negsuc 0, record u { cos_download = handle; step = u.step + 1 })

  -- _ota_data_download_deinit
  unfoldable pub ota_data_download_deinit : Ota Context → Ota Context
  ota_data_download_deinit u = u

  -- _ota_data_download_is_over
  unfoldable pub ota_data_download_is_over : Callback (Ota Context)
  ota_data_download_is_over u =
      (if u.break_point.downloaded_size == u.download_now.file_size then pos 1 else pos 0, u)

  -- _ota_data_download_recv
  unfoldable pub ota_data_download_recv : Callback (Ota Context)
  ota_data_download_recv u =
      elim (env.cos_download_fetch u.step
        (u.download_now.file_size - u.break_point.downloaded_size)) [
          | fetched bytes ↦
              let size = length bytes % 2 ^ 32 in
              (
                to_int size,
                record u {
                  download_size = size;
                  download_buff = overlay bytes u.download_buff;
                  step = u.step + 1;
                },
              )
          | fetch_failed n ↦
              (negsuc n, record u { download_size = 2 ^ 32 - suc n; step = u.step + 1 })
        ]

  -- _ota_data_download_save
  unfoldable pub ota_data_download_save : Callback (Ota Context)
  ota_data_download_save u =
      let (rc, disk) =
        firmware_write env.files u.step (take u.download_size u.download_buff)
          u.break_point.downloaded_size u.disk in
      if ltb 0 u.download_size
      then (rc, record u { disk = disk; step = u.step + 1 })
      else (pos 0, u)

  -- The success case of _ota_data_download_finish: a firmware with another sum loses its break point.
  unfoldable pub finish_success : Callback (Ota Context)
  finish_success u =
      let u1 : Ota Context = record u { download_md5_ctx = md5.finish u.download_md5_ctx } in
      let (rc, u2) = write_break_point (record u1 { break_point = no_info }) in
      if md5.compare u1.download_md5_ctx u.download_now.md5sum
      then report (report_upgrade_success u.download_now.version) u1
      else report (report_md5_not_match u.download_now.version) u2

  -- The cases of _ota_data_download_finish.
  unfoldable pub finish_status : DownloaderStatus → Callback (Ota Context)
  unfolding finish_success
  finish_status status_success u = finish_success u
  finish_status status_network_failed u = report (report_download_timeout u.download_now.version) u
  finish_status status_break_point_failed u = report (report_upgrade_fail u.download_now.version) u
  finish_status status_data_download_failed u =
      report (report_upgrade_fail u.download_now.version) u

  -- _ota_data_download_finish
  unfoldable pub ota_data_download_finish : DownloaderStatus → Callback (Ota Context)
  unfolding finish_status
  ota_data_download_finish status u =
      let (rc, u1) = finish_status status u in (rc, record u1 { status = finished })

  -- The functions of ota_downloader_init.
  abbrev pub ota_callback : DownloaderFunction (Ota Context)
  ota_callback = record {
    break_point_init = ota_break_point_init;
    break_point_deinit = ota_break_point_deinit;
    break_point_set = ota_break_point_set;
    break_point_save = ota_break_point_save;
    break_point_check = ota_break_point_check;
    break_point_restore = ota_break_point_restore;
    data_download_init = ota_data_download_init;
    data_download_deinit = ota_data_download_deinit;
    data_download_is_over = ota_data_download_is_over;
    data_download_recv = ota_data_download_recv;
    data_download_save = ota_data_download_save;
    data_download_finish = ota_data_download_finish;
  }

  -- ota_downloader_process; none when the fuel of the download is out.
  unfoldable pub ota_downloader_process : ℕ → Ota Context → Option (OtaStatus × Ota Context)
  ota_downloader_process fuel u =
      if is_downloading u.status
      then elim (utils_downloader_process ota_callback fuel u) [
        | none ↦ none
        | some (rc, u') ↦ some (u'.status, u')
      ]
      else some (u.status, u)

module _ {Context : Type 0} where
  -- ota_downloader_init: whether utils_downloader_init gave a downloader.
  unfoldable pub ota_downloader_init : (downloader : Bool) → Callback (Ota Context)
  ota_downloader_init downloader u =
      if not downloader
      then (negsuc 0, record u { downloader = false })
      else (pos 0, record u { downloader = true; status = initted })

  -- ota_downloader_info_set; none where the terminating zero is written past the array.
  unfoldable pub ota_downloader_info_set :
      FirmwareInfo → (url : List ℕ) → (url_len : ℕ) → Ota Context → Option (Ota Context)
  ota_downloader_info_set info url url_len u =
      if is_downloading u.status
      then some u
      else if leb max_size_of_download_url url_len
      then none
      else some
          (record u { download_now = info; download_url = take url_len url; status = downloading })

  -- ota_downloader_deinit: the handle is zeroed; `zeroed` is the zeroed MD5 context.
  unfoldable pub ota_downloader_deinit : (zeroed : Context) → Ota Context → Ota Context
  ota_downloader_deinit zeroed u = record u {
    cos_download = false;
    download_now = no_info.file_id;
    break_point = no_info;
    download_url = [];
    download_buff = [];
    download_size = 0;
    download_md5_ctx = zeroed;
    status = no_initted;
    downloader = false;
  }
