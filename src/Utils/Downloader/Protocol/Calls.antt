-- ===== src/Utils/Downloader/Protocol/Calls.antt =====
-- common/utils/src/utils_downloader.c: the calls of a download and the automaton of their order.
use iot_hub_device_c_sdk.Prelude.{
  ◌≡◌, refl, Bool, true, false, List, [], ◌∷◌, ◌++◌, ℤ, is_zero, if◌then◌else◌, ap, ◌∙◌,
}
use iot_hub_device_c_sdk.Utils.Downloader.{
  DownloaderStatus, status_success, status_break_point_failed, status_network_failed,
  status_data_download_failed, is_negative,
}

pub data Call : Type 0 where
  break_point_init : ℤ → Call
  break_point_deinit : Call
  break_point_set : ℤ → Call
  break_point_save : ℤ → Call
  break_point_check : ℤ → Call
  break_point_restore : ℤ → Call
  data_download_init : ℤ → Call
  data_download_deinit : Call
  data_download_is_over : ℤ → Call
  data_download_recv : ℤ → Call
  data_download_save : ℤ → Call
  data_download_finish : DownloaderStatus → ℤ → Call

-- What may be called next. `leaving` is the label exit, with the status that is to be reported.
pub data Phase : Type 0 where
  starting : Phase
  checking : Phase
  setting : Phase
  restoring : Phase
  opening : Phase
  testing : Phase
  receiving : Phase
  saving : Phase
  marking : Phase
  leaving : DownloaderStatus → Phase
  clearing : ℤ → Phase
  closing : ℤ → Phase
  closed : ℤ → Phase
  wrong : Phase

abbrev pub go_on : ℤ → Phase → DownloaderStatus → Phase
go_on rc next status = if is_zero rc then next else leaving status

abbrev pub same_status : DownloaderStatus → DownloaderStatus → Bool
same_status status_success status_success = true
same_status status_break_point_failed status_break_point_failed = true
same_status status_network_failed status_network_failed = true
same_status status_data_download_failed status_data_download_failed = true
same_status a b = false

-- One call. A call out of order is wrong, and stays so.
abbrev pub advance : Phase → Call → Phase
advance starting (break_point_init rc) = go_on rc checking status_break_point_failed
advance checking (break_point_check rc) = if is_zero rc then restoring else setting
advance setting (break_point_set rc) = go_on rc opening status_break_point_failed
advance restoring (break_point_restore rc) = go_on rc opening status_break_point_failed
advance opening (data_download_init rc) = go_on rc testing status_data_download_failed
advance testing (data_download_is_over rc) =
    if is_zero rc then receiving else leaving status_success
advance receiving (data_download_recv rc) =
    if is_negative rc then leaving status_network_failed else saving
advance saving (data_download_save rc) = go_on rc marking status_data_download_failed
advance marking (break_point_save rc) = go_on rc testing status_break_point_failed
advance (leaving status) (data_download_finish told rc) =
    if same_status status told then clearing rc else wrong
advance (clearing rc) break_point_deinit = closing rc
advance (closing rc) data_download_deinit = closed rc
advance phase call = wrong

abbrev pub phase_after : Phase → List Call → Phase
phase_after phase [] = phase
phase_after phase (c ∷ cs) = phase_after (advance phase c) cs

phase_after-append :
    (phase : Phase) (cs ds : List Call)
    → phase_after phase (cs ++ ds) ≡ phase_after (phase_after phase cs) ds
phase_after-append phase [] ds = refl
phase_after-append phase (c ∷ cs) ds = phase_after-append (advance phase c) cs ds

pub noted_at :
    (name : ℤ → Call) (cs : List Call) (phase : Phase) (rc : ℤ)
    → phase_after starting cs ≡ phase
    → phase_after starting (cs ++ (name rc ∷ [])) ≡ advance phase (name rc)
noted_at name cs phase rc at =
    phase_after-append starting cs (name rc ∷ []) ∙ ap (λ (p : Phase). advance p (name rc)) at

same_status_refl : (status : DownloaderStatus) → same_status status status ≡ true
same_status_refl status_success = refl
same_status_refl status_break_point_failed = refl
same_status_refl status_network_failed = refl
same_status_refl status_data_download_failed = refl

pub closed_after :
    (status : DownloaderStatus) (rc : ℤ) (cs : List Call)
    → phase_after starting cs ≡ leaving status
    → phase_after starting (
        ((cs ++ (data_download_finish status rc ∷ [])) ++ (break_point_deinit ∷ []))
        ++ (data_download_deinit ∷ []))
      ≡ closed rc
closed_after status rc cs at =
    rw (phase_after-append, phase_after-append, phase_after-append, at, same_status_refl) refl
