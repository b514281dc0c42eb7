-- ===== src/Utils/Downloader/Protocol.antt =====
-- common/utils/src/utils_downloader.c: the order in which the functions of a download are called, as an
-- automaton over the calls with their results.
pub mod Calls
use iot_hub_device_c_sdk.Prelude.{
  ℕ, zero, suc, ◌≡◌, refl, Bool, true, false, Option, none, some, List, [], ◌∷◌, ◌++◌, ℤ, is_zero,
  if◌then◌else◌, Bool-cases, inl, inr, ap, ◌∙◌,
}
use iot_hub_device_c_sdk.Utils.Downloader.{
  DownloaderStatus, status_success, status_break_point_failed, status_network_failed,
  status_data_download_failed, Callback, DownloaderFunction, is_negative, checked, download_loop,
  break_point_choose, download, finish_download, utils_downloader_process,
}
use iot_hub_device_c_sdk.Utils.Downloader.Protocol.Calls.{
  Call, Phase, go_on, same_status, advance, phase_after, noted_at, closed_after, break_point_init,
  break_point_deinit, break_point_set, break_point_save, break_point_check, break_point_restore,
  data_download_init, data_download_deinit, data_download_is_over, data_download_recv,
  data_download_save, data_download_finish, starting, checking, setting, restoring, opening,
  testing, receiving, saving, marking, leaving, closed,
}

module _ {U : Type 0} where
  abbrev noted : Callback U → (ℤ → Call) → Callback (U × List Call)
  noted call name (u, cs) = let (rc, u') = call u in (rc, (u', cs ++ (name rc ∷ [])))

  -- The functions, with a log of their calls kept beside the user's data.
  abbrev pub logged : DownloaderFunction U → DownloaderFunction (U × List Call)
  logged func = record {
    break_point_init = noted func.break_point_init break_point_init;
    break_point_deinit = λ u. (func.break_point_deinit u.0, u.1 ++ (break_point_deinit ∷ []));
    break_point_set = noted func.break_point_set break_point_set;
    break_point_save = noted func.break_point_save break_point_save;
    break_point_check = noted func.break_point_check break_point_check;
    break_point_restore = noted func.break_point_restore break_point_restore;
    data_download_init = noted func.data_download_init data_download_init;
    data_download_deinit = λ u. (func.data_download_deinit u.0, u.1 ++ (data_download_deinit ∷ []));
    data_download_is_over = noted func.data_download_is_over data_download_is_over;
    data_download_recv = noted func.data_download_recv data_download_recv;
    data_download_save = noted func.data_download_save data_download_save;
    data_download_finish =
        λ status. noted (func.data_download_finish status) (data_download_finish status);
  }

  -- A run and its logged run are at the exit with the same status and data, and the calls lead there.
  abbrev Leaves :
      Option (DownloaderStatus × U) → Option (DownloaderStatus × (U × List Call)) → Type 0
  Leaves none none = Unit {0}
  Leaves (some (status, u)) (some (status', (u', cs))) =
      (status' ≡ status) × (u' ≡ u) × (phase_after starting cs ≡ leaving status)
  Leaves none (some x) = ⊥
  Leaves (some x) none = ⊥

  checked-Leaves :
      (call : Callback U) (name : ℤ → Call) (status : DownloaderStatus) (here there : Phase)
      (next : U → Option (DownloaderStatus × U))
      (next' : U × List Call → Option (DownloaderStatus × (U × List Call))) (u : U) (cs : List Call)
      → phase_after starting cs ≡ here
      → ((rc : ℤ) → advance here (name rc) ≡ go_on rc there status)
      → ((u : U) (cs : List Call)
          → phase_after starting cs ≡ there
          → Leaves (next u) (next' (u, cs)))
      → Leaves (checked call status next u) (checked (noted call name) status next' (u, cs))
  unfolding checked
  checked-Leaves call name status here there next next' u cs at step onward =
      let rc : ℤ = (call u).0 in
      let after : phase_after starting (cs ++ (name rc ∷ [])) ≡ go_on rc there status =
        noted_at name cs here rc at ∙ step rc in
      elim (Bool-cases (is_zero rc)) [
        | inl ok ↦ rw ok (onward (call u).1 (cs ++ (name rc ∷ [])) (rw ok at after))
        | inr bad ↦ rw bad (refl, refl, rw bad at after)
      ]

module _ {U : Type 0} (func : DownloaderFunction U) where
  loop-Leaves :
      (fuel : ℕ) (u : U) (cs : List Call)
      → phase_after starting cs ≡ testing
      → Leaves (download_loop func fuel u) (download_loop (logged func) fuel (u, cs))
  unfolding download_loop
  loop-Leaves zero u cs at = tt
  loop-Leaves (suc fuel) u cs at =
      let (over, u1) = func.data_download_is_over u in
      let tested : List Call = cs ++ (data_download_is_over over ∷ []) in
      let after : phase_after starting tested ≡ advance testing (data_download_is_over over) =
        noted_at data_download_is_over cs testing over at in
      let (rc, u2) = func.data_download_recv u1 in
      let received : List Call = tested ++ (data_download_recv rc ∷ []) in
      let came : is_zero over ≡ true
          → phase_after starting received ≡ advance receiving (data_download_recv rc) =
        λ more. noted_at data_download_recv tested receiving rc (rw more at after) in
      elim (Bool-cases (is_zero over)) [
        | inr ended ↦ rw ended (refl, refl, rw ended at after)
        | inl more ↦ rw more (elim (Bool-cases (is_negative rc)) [
          | inl bad ↦ rw bad (refl, refl, rw bad at (came more))
          | inr good ↦ rw good (
              checked-Leaves func.data_download_save data_download_save status_data_download_failed
                saving marking
                (checked func.break_point_save status_break_point_failed (download_loop func fuel))
                (checked (logged func).break_point_save status_break_point_failed
                  (download_loop (logged func) fuel))
                u2 received (rw good at (came more)) (λ r. refl)
                (λ v ds saved.
                  checked-Leaves func.break_point_save break_point_save status_break_point_failed
                    marking testing (download_loop func fuel) (download_loop (logged func) fuel) v
                    ds saved (λ r. refl) (λ w es marked. loop-Leaves fuel w es marked)))
        ])
      ]

  choose-Leaves :
      (next : U → Option (DownloaderStatus × U))
      (next' : U × List Call → Option (DownloaderStatus × (U × List Call))) (u : U) (cs : List Call)
      → phase_after starting cs ≡ checking
      → ((u : U) (cs : List Call)
          → phase_after starting cs ≡ opening
          → Leaves (next u) (next' (u, cs)))
      → Leaves
          (checked (break_point_choose func) status_break_point_failed next u)
          (checked (break_point_choose (logged func)) status_break_point_failed next' (u, cs))
  unfolding break_point_choose checked
  choose-Leaves next next' u cs at onward =
      let (rc, u1) = func.break_point_check u in
      let seen : List Call = cs ++ (break_point_check rc ∷ []) in
      let after : phase_after starting seen ≡ advance checking (break_point_check rc) =
        noted_at break_point_check cs checking rc at in
      elim (Bool-cases (is_zero rc)) [
        | inl match ↦ rw match (
            checked-Leaves func.break_point_restore break_point_restore status_break_point_failed
              restoring opening next next' u1 seen (rw match at after) (λ r. refl) onward)
        | inr other ↦ rw other (
            checked-Leaves func.break_point_set break_point_set status_break_point_failed setting
              opening next next' u1 seen (rw other at after) (λ r. refl) onward)
      ]

  abbrev opened : {V : Type 0} → DownloaderFunction V → ℕ → V → Option (DownloaderStatus × V)
  opened f fuel = checked f.data_download_init status_data_download_failed (download_loop f fuel)

  download-Leaves :
      (fuel : ℕ) (u : U) → Leaves (download func fuel u) (download (logged func) fuel (u, []))
  unfolding download
  download-Leaves fuel u =
      checked-Leaves func.break_point_init break_point_init status_break_point_failed starting
        checking (checked (break_point_choose func) status_break_point_failed (opened func fuel))
        (checked (break_point_choose (logged func)) status_break_point_failed
          (opened (logged func) fuel))
        u [] refl (λ r. refl)
        (λ v ds begun.
          choose-Leaves (opened func fuel) (opened (logged func) fuel) v ds begun (λ w es chosen.
            checked-Leaves func.data_download_init data_download_init status_data_download_failed
              opening testing (download_loop func fuel) (download_loop (logged func) fuel) w es
              chosen (λ r. refl) (λ x fs at. loop-Leaves fuel x fs at)))

  -- A run and its logged run give the same result and data, and the calls end the protocol with it.
  abbrev pub Closes : Option (ℤ × U) → Option (ℤ × (U × List Call)) → Type 0
  Closes none none = Unit {0}
  Closes (some (rc, u)) (some (rc', (u', cs))) =
      (rc' ≡ rc) × (u' ≡ u) × (phase_after starting cs ≡ closed rc)
  Closes none (some x) = ⊥
  Closes (some x) none = ⊥

  finish-Closes :
      (d : Option (DownloaderStatus × U)) (d' : Option (DownloaderStatus × (U × List Call)))
      → Leaves d d'
      → Closes (finish_download func d) (finish_download (logged func) d')
  unfolding finish_download
  finish-Closes none none l = tt
  finish-Closes none (some x) l = absurd l
  finish-Closes (some x) none l = absurd l
  finish-Closes (some (status, u)) (some (status', (u', cs))) l =
      let rc : ℤ = (func.data_download_finish status u).0 in
      rw (l.0, l.1) (refl, refl, closed_after status rc cs l.2)

  -- The functions of a download are called in the order of the protocol, whatever they return: the
  -- break point is set only if it does not match and restored only if it does, data is saved only after
  -- it came and its break point only after it was saved, the first failure sends the process to its
  -- exit, the finishing function is told the status of that failure, or success, once, both deinit
  -- functions are called once, last, and what the finishing function returns is the result. The log
  -- changes nothing.
  pub utils_downloader_process_protocol :
      (fuel : ℕ) (u : U)
      → Closes
          (utils_downloader_process func fuel u)
          (utils_downloader_process (logged func) fuel (u, []))
  unfolding utils_downloader_process
  utils_downloader_process_protocol fuel u =
      finish-Closes (download func fuel u) (download (logged func) fuel (u, []))
        (download-Leaves fuel u)
