-- ===== src/App/Ota/State.antt =====
-- app/ota/ota_downloader.c: the state of the OTA downloader, and what it takes from other components.
use iot_hub_device_c_sdk.Prelude.{
  ℕ, ◌-◌, ◌^◌, Bool, true, false, Option, List, ℤ, pos, negsuc, ltb, if◌then◌else◌,
}
use iot_hub_device_c_sdk.App.Ota.Files.{FirmwareInfo, DownloadInfo, Disk, FileEnv}

abbrev pub ota_http_buf_size : ℕ
ota_http_buf_size = 1024

abbrev pub max_size_of_download_url : ℕ
max_size_of_download_url = 512

abbrev pub max_size_of_fw_version : ℕ
max_size_of_fw_version = 32

pub data OtaStatus : Type 0 where
  no_initted : OtaStatus
  initted : OtaStatus
  downloading : OtaStatus
  finished : OtaStatus

abbrev pub is_downloading : OtaStatus → Bool
is_downloading downloading = true
is_downloading no_initted = false
is_downloading initted = false
is_downloading finished = false

-- The reports that are sent; the progress is nothing where the source divides by a file size of 0.
pub data Report : Type 0 where
  report_downloading : Option ℕ → List ℕ → Report
  report_upgrade_success : List ℕ → Report
  report_download_timeout : List ℕ → Report
  report_md5_not_match : List ℕ → Report
  report_upgrade_fail : List ℕ → Report

-- utils_md5_reset, utils_md5_update, utils_md5_finish, and whether utils_md5_compare finds the sums equal
pub record Md5 (Context : Type 0) : Type 0 where
  pub reset : Context
  pub update : Context → List ℕ → Context
  pub finish : Context → Context
  pub compare : Context → List ℕ → Bool

pub data Fetched : Type 0 where
  fetched : List ℕ → Fetched
  fetch_failed : ℕ → Fetched

-- What the calls of other components answer, by the number of the call.
pub record OtaEnv : Type 0 where
  pub files : FileEnv
  pub cos_download_init : ℕ → Bool
  pub cos_download_fetch : ℕ → ℕ → Fetched
  pub report_progress : ℕ → ℤ

-- OTADownloaderHandle, with the files and the reports, the last first.
pub record Ota (Context : Type 0) : Type 0 where
  pub cos_download : Bool
  pub download_now : FirmwareInfo
  pub break_point : DownloadInfo
  pub download_url : List ℕ
  pub download_buff : List ℕ
  pub download_size : ℕ
  pub download_md5_ctx : Context
  pub status : OtaStatus
  pub downloader : Bool
  pub disk : Disk
  pub reports : List Report
  pub step : ℕ

-- A uint32_t that is returned as an int.
abbrev pub to_int : ℕ → ℤ
to_int n = if ltb n (2 ^ 31) then pos n else negsuc (2 ^ 32 - n - 1)

-- The length of a read of _ota_break_point_restore, `rlen`.
unfoldable pub read_len : ℕ → ℕ
read_len size = if ltb ota_http_buf_size size then ota_http_buf_size else size
