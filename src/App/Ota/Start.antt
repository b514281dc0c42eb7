-- ===== src/App/Ota/Start.antt =====
-- app/ota/ota_downloader.c: the digest when a download starts, anew or at its break point.
use iot_hub_device_c_sdk.Prelude.{
  ℕ, ◌+◌, ◌≤◌, ◌≡◌, refl, sym, ap, subst, ◌∙◌, inl, inr, true, Option, none, some, List, is_zero,
  length, arith, Bool-cases,
}
use iot_hub_device_c_sdk.Utils.Downloader.{
  DownloaderStatus, status_break_point_failed, status_data_download_failed, download_loop, checked,
  break_point_choose,
}
use iot_hub_device_c_sdk.App.Ota.{
  ota_callback, ota_break_point_set, ota_break_point_restore, ota_break_point_check,
  ota_break_point_init, ota_data_download_init, restore_loop,
}
use iot_hub_device_c_sdk.App.Ota.State.{Ota}
use iot_hub_device_c_sdk.App.Ota.Files.{FirmwareInfo, DownloadInfo, break_point_read}
use iot_hub_device_c_sdk.App.Ota.Digest.{contents, Restored, restore_loop-digest}
use iot_hub_device_c_sdk.App.Ota.Round.{Setting, Digested}

module _ {Context : Type 0} (g : Setting Context) where
  open g use {md5, env, now, streams, works, fetches, sized}

  -- The digest starts anew, or from the part of the file that the break point stands for.
  set-Digested :
      (u : Ota Context)
      → u.download_now ≡ now
      → u.download_md5_ctx ≡ md5.reset
      → Digested g (ota_break_point_set md5 env u).1
  unfolding ota_break_point_set
  set-Digested u wanted fresh = record {
    wanted = wanted;
    within = omega arith;
    inside = omega arith;
    digest = fresh ∙ sym (streams.nothing md5.reset);
  }

  restore-Digested :
      (u : Ota Context)
      → u.download_now ≡ now
      → u.download_md5_ctx ≡ md5.reset
      → u.break_point.downloaded_size ≤ now.file_size
      → u.break_point.downloaded_size ≤ length (contents u.disk)
      → Digested g (ota_break_point_restore md5 env u).1
  unfolding ota_break_point_restore
  restore-Digested u wanted fresh small inside =
      let size = u.break_point.downloaded_size in
      let r : Restored md5 env streams works (0 + size) u (restore_loop md5 env size size 0 u) =
        restore_loop-digest md5 env streams works size size 0 u (omega arith) (omega arith)
          (fresh ∙ sym (streams.nothing md5.reset)) in
      let point : (restore_loop md5 env size size 0 u).break_point.downloaded_size ≡ size =
        ap (λ (p : DownloadInfo). p.downloaded_size) r.break_point in
      let start : 0 + size ≡ size = omega arith in
      record {
        wanted = r.download_now ∙ wanted;
        within = omega (arith, point);
        inside = rw (r.disk, point) inside;
        digest = rw (r.disk, point) (rw start at r.digest);
      }

  -- The check is passed only by a break point that lies within the file.
  checked_within :
      (u : Ota Context)
      → is_zero (ota_break_point_check md5 env u).0 ≡ true
      → u.break_point.downloaded_size ≤ u.download_now.file_size
  unfolding ota_break_point_check
  checked_within u h = ground arith

  -- The break point that is read: the stored one, or what the handle has.
  abbrev pub stored_point : Option (Option DownloadInfo) → DownloadInfo → DownloadInfo
  stored_point none info = info
  stored_point (some none) info = info
  stored_point (some (some stored)) info = stored

  -- The firmware file holds what the break point says was downloaded.
  abbrev pub Resumable : Ota Context → Type 0
  Resumable u =
      (stored_point u.disk.break_point_file u.break_point).downloaded_size
      ≤ length (contents u.disk)

  point_read :
      (step : ℕ) (info : DownloadInfo) (b : Option (Option DownloadInfo)) (f : Option (List ℕ))
      → ((break_point_read env.files step info
            (record { break_point_file = b; firmware_file = f })).1
          ≡ stored_point b info)
        × ((break_point_read env.files step info
              (record { break_point_file = b; firmware_file = f })).2.firmware_file
            ≡ f)
  unfolding break_point_read
  point_read step info none f = ground (arith, works.creates step)
  point_read step info (some none) f = ground (arith, works.opens step)
  point_read step info (some (some x)) f = ground (arith, works.opens step)

  pub chosen :
      (u : Ota Context)
      → u.download_now ≡ now
      → u.download_md5_ctx ≡ md5.reset
      → u.break_point.downloaded_size ≤ length (contents u.disk)
      → Digested g (break_point_choose (ota_callback md5 env) u).1
  unfolding break_point_choose ota_break_point_check
  chosen u wanted fresh inside = elim (Bool-cases (is_zero (ota_break_point_check md5 env u).0)) [
    | inl match ↦
        let small : u.break_point.downloaded_size ≤ now.file_size =
          subst (λ (i : FirmwareInfo). u.break_point.downloaded_size ≤ i.file_size) wanted
            (checked_within u match) in
        rw match (restore-Digested u wanted fresh small inside)
    | inr other ↦ rw other (set-Digested u wanted fresh)
  ]

  pub begun :
      (u : Ota Context)
      → u.download_now ≡ now
      → Resumable u
      → ((ota_break_point_init md5 env u).1.download_now ≡ now)
        × ((ota_break_point_init md5 env u).1.download_md5_ctx ≡ md5.reset)
        × ((ota_break_point_init md5 env u).1.break_point.downloaded_size
            ≤ length (contents (ota_break_point_init md5 env u).1.disk))
  unfolding ota_break_point_init
  begun u wanted resumable =
      let (point, file) =
        point_read u.step u.break_point u.disk.break_point_file u.disk.firmware_file in
      (wanted, refl, rw (point, file) resumable)

  pub opened-Digested :
      (u : Ota Context) → Digested g u → Digested g (ota_data_download_init md5 env u).1
  unfolding ota_data_download_init
  opened-Digested u d = record {
    wanted = d.wanted;
    within = d.within;
    inside = d.inside;
    digest = d.digest;
  }

  -- The handle and what is known of it once the break point is chosen.
  abbrev pub started : Ota Context → Ota Context
  started u = (break_point_choose (ota_callback md5 env) (ota_break_point_init md5 env u).1).1

  pub started-Digested :
      (u : Ota Context) → u.download_now ≡ now → Resumable u → Digested g (started u)
  started-Digested u wanted resumable =
      let (w, f, r) = begun u wanted resumable in chosen (ota_break_point_init md5 env u).1 w f r

  -- The stages of a download behind the first.
  abbrev pub opened_download : ℕ → Ota Context → Option (DownloaderStatus × Ota Context)
  opened_download fuel =
      checked (ota_data_download_init md5 env) status_data_download_failed
        (download_loop (ota_callback md5 env) fuel)

  abbrev pub choosing : ℕ → Ota Context → Option (DownloaderStatus × Ota Context)
  choosing fuel =
      checked (break_point_choose (ota_callback md5 env)) status_break_point_failed
        (opened_download fuel)
