-- ===== src/Utils/Downloader.antt =====
-- common/utils/src/utils_downloader.c: a download as a sequence of calls of the functions that the
-- downloader is given, each of which may change the user's data.
pub mod Protocol
pub mod Tests
use iot_hub_device_c_sdk.Prelude.{
  ℕ, zero, suc, Bool, true, false, not, Option, none, some, ℤ, pos, negsuc, is_zero, if◌then◌else◌,
}

pub data DownloaderStatus : Type 0 where
  status_success : DownloaderStatus
  status_break_point_failed : DownloaderStatus
  status_network_failed : DownloaderStatus
  status_data_download_failed : DownloaderStatus

-- A function that returns an int.
abbrev pub Callback : Type 0 → Type 0
Callback U = U → ℤ × U

pub record DownloaderFunction (U : Type 0) : Type 0 where
  pub break_point_init : Callback U
  pub break_point_deinit : U → U
  pub break_point_set : Callback U
  pub break_point_save : Callback U
  pub break_point_check : Callback U
  pub break_point_restore : Callback U
  pub data_download_init : Callback U
  pub data_download_deinit : U → U
  pub data_download_is_over : Callback U
  pub data_download_recv : Callback U
  pub data_download_save : Callback U
  pub data_download_finish : DownloaderStatus → Callback U

pub record Downloader (U : Type 0) : Type 0 where
  pub func : DownloaderFunction U
  pub usr_data : U

abbrev pub is_negative : ℤ → Bool
is_negative (pos n) = false
is_negative (negsuc n) = true

module _ {U : Type 0} where
  -- utils_downloader_init: whether a function for memory is given, and whether there was any.
  unfoldable pub utils_downloader_init :
      (has_malloc : Bool) → (memory : Bool) → DownloaderFunction U → U → Option (Downloader U)
  utils_downloader_init has_malloc memory func usr_data =
      if not has_malloc
      then none
      else if not memory
      then none
      else some (record { func = func; usr_data = usr_data })

  -- A call that sends the process to its exit with the given status, or on.
  unfoldable pub checked :
      Callback U
      → DownloaderStatus
      → (U → Option (DownloaderStatus × U))
      → U
      → Option (DownloaderStatus × U)
  checked call status next u =
      let (rc, u') = call u in if is_zero rc then next u' else some (status, u')

module _ {U : Type 0} (func : DownloaderFunction U) where
  -- The loop of utils_downloader_process; none when the fuel is out.
  unfoldable pub download_loop : ℕ → U → Option (DownloaderStatus × U)
  unfolding checked
  download_loop zero u = none
  download_loop (suc fuel) u =
      let (over, u1) = func.data_download_is_over u in
      if not (is_zero over)
      then some (status_success, u1)
      else let (rc, u2) = func.data_download_recv u1 in
        if is_negative rc
        then some (status_network_failed, u2)
        else checked func.data_download_save status_data_download_failed
            (checked func.break_point_save status_break_point_failed (download_loop fuel)) u2

  -- If the check is passed the break point is restored, otherwise it is set.
  unfoldable pub break_point_choose : Callback U
  break_point_choose u =
      let (rc, u') = func.break_point_check u in
      if not (is_zero rc) then func.break_point_set u' else func.break_point_restore u'

  -- What stands before the label exit.
  unfoldable pub download : ℕ → U → Option (DownloaderStatus × U)
  unfolding checked break_point_choose download_loop
  download fuel = checked func.break_point_init status_break_point_failed (
      checked break_point_choose status_break_point_failed
        (checked func.data_download_init status_data_download_failed (download_loop fuel)))

  -- What stands behind the label exit.
  unfoldable pub finish_download : Option (DownloaderStatus × U) → Option (ℤ × U)
  finish_download none = none
  finish_download (some (status, u1)) =
      let (rc, u2) = func.data_download_finish status u1 in
      some (rc, func.data_download_deinit (func.break_point_deinit u2))

  -- utils_downloader_process, for a handle that is there
  unfoldable pub utils_downloader_process : ℕ → U → Option (ℤ × U)
  unfolding download finish_download
  utils_downloader_process fuel u = finish_download (download fuel u)
