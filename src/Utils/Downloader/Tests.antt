-- ===== src/Utils/Downloader/Tests.antt =====
-- Downloads of common/utils/src/utils_downloader.c with concrete functions: what the theorem about the
-- order of the calls says there.
use iot_hub_device_c_sdk.Prelude.{ℕ, ◌+◌, ◌≡◌, refl, some, [], pos, leb, if◌then◌else◌}
use iot_hub_device_c_sdk.Utils.Downloader.{DownloaderFunction, utils_downloader_process}
use iot_hub_device_c_sdk.Utils.Downloader.Protocol.{
  logged, Closes, utils_downloader_process_protocol,
}

-- The user's data counts the pieces that came; two are wanted.
abbrev two_pieces : DownloaderFunction ℕ
two_pieces = record {
  break_point_init = λ n. (pos 0, n);
  break_point_deinit = λ n. n;
  break_point_set = λ n. (pos 0, 0);
  break_point_save = λ n. (pos 0, n);
  break_point_check = λ n. (pos 1, n);
  break_point_restore = λ n. (pos 0, n);
  data_download_init = λ n. (pos 0, n);
  data_download_deinit = λ n. n;
  data_download_is_over = λ n. (if leb 2 n then pos 1 else pos 0, n);
  data_download_recv = λ n. (pos 1, n + 1);
  data_download_save = λ n. (pos 0, n);
  data_download_finish = λ status n. (pos 0, n);
}

utils_downloader_process_protocol_example :
    Closes two_pieces
      (utils_downloader_process two_pieces 5 9)
      (utils_downloader_process (logged two_pieces) 5 (9, []))
utils_downloader_process_protocol_example = utils_downloader_process_protocol two_pieces 5 9

two_pieces_downloaded : utils_downloader_process two_pieces 5 9 ≡ some (pos 0, 2)
unfolding utils_downloader_process
two_pieces_downloaded = refl
