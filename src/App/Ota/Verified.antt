-- ===== src/App/Ota/Verified.antt =====
-- app/ota/ota_downloader.c: a firmware that is reported as a success has the digest that was wanted.
use iot_hub_device_c_sdk.Prelude.{
  ◌≤◌, ◌≡◌, Bool, true, false, Option, none, some, List, [], ◌∷◌, ℤ, length, take,
}
use iot_hub_device_c_sdk.Utils.Downloader.{
  DownloaderStatus, status_success, status_break_point_failed, status_network_failed,
  status_data_download_failed,
}
use iot_hub_device_c_sdk.App.Ota.{progress}
use iot_hub_device_c_sdk.App.Ota.State.{
  Ota, finished, report_upgrade_success, report_md5_not_match, report_download_timeout,
  report_upgrade_fail, Report, report_downloading,
}
use iot_hub_device_c_sdk.App.Ota.Files.{no_info}
use iot_hub_device_c_sdk.App.Ota.Digest.{contents}
use iot_hub_device_c_sdk.App.Ota.Round.{Setting, Digested}

module _ {Context : Type 0} (g : Setting Context) where
  open g use {md5, env, now, streams, works, fetches, sized}

  -- What is known where the process leaves for its exit.
  abbrev Success : DownloaderStatus → Ota Context → Type 0
  Success status_success u = Digested g u × (u.break_point.downloaded_size ≡ now.file_size)
  Success status_break_point_failed u = Unit {0}
  Success status_network_failed u = Unit {0}
  Success status_data_download_failed u = Unit {0}

  abbrev Outcome : Option (DownloaderStatus × Ota Context) → Type 0
  Outcome none = Unit {0}
  Outcome (some (status, u)) = (u.download_now ≡ now) × Success status u

  -- Whether the first `file_size` bytes of the firmware file have the digest that was wanted.
  abbrev pub digest_matches : Ota Context → Bool
  digest_matches u =
      md5.compare (md5.finish (md5.update md5.reset (take now.file_size (contents u.disk))))
        now.md5sum

  -- What the last report says of the firmware file.
  abbrev pub Says : List Report → Ota Context → Type 0
  Says (report_upgrade_success version ∷ reports) u =
      (version ≡ now.version)
      × (now.file_size ≤ length (contents u.disk))
      × (digest_matches u ≡ true)
  Says (report_md5_not_match version ∷ reports) u =
      (digest_matches u ≡ false) × (u.disk.break_point_file ≡ some (some no_info))
  Says (report_downloading progress version ∷ reports) u = ⊥
  Says (report_download_timeout version ∷ reports) u = Unit {0}
  Says (report_upgrade_fail version ∷ reports) u = Unit {0}
  Says [] u = ⊥

  abbrev pub Reported : Option (ℤ × Ota Context) → Type 0
  Reported none = Unit {0}
  Reported (some (rc, u)) = (u.status ≡ finished) × Says u.reports u
