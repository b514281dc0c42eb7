-- ===== src/Timer.antt =====
-- platform/os/Linux/HAL_Timer_linux.c: countdown timers. A time is a number of microseconds of the
-- monotonic clock; its reading is an argument.
use iot_hub_device_c_sdk.Prelude.{ℕ, ◌+◌, ◌-◌, ◌*◌, ◌/◌, ◌%◌, ◌^◌, ◌<◌, ◌≡◌, Bool, leb, arith}

-- HAL_Timer_Expired
unfoldable pub expired : ℕ → ℕ → Bool
expired end_time now = leb end_time now

-- HAL_Timer_CountdownMs
unfoldable pub countdown_ms : ℕ → ℕ → ℕ
countdown_ms now timeout_ms = now + (timeout_ms / 1000 * 1000000 + timeout_ms % 1000 * 1000)

-- HAL_Timer_Countdown
unfoldable pub countdown : ℕ → ℕ → ℕ
countdown now timeout = now + timeout * 1000000

-- HAL_Timer_Remain
unfoldable pub remain : ℕ → ℕ → ℕ
remain end_time now =
    ((end_time - now) / 1000000 * 1000 + (end_time - now) % 1000000 / 1000) % 2 ^ 32

-- A countdown of `timeout_ms`, below 2 ^ 32, expires at that many milliseconds after its start and
-- not before, and what remains is the rest of it in whole milliseconds.
pub countdown_ms_lem :
    (start timeout_ms later : ℕ)
    → timeout_ms < 2 ^ 32
    → (expired (countdown_ms start timeout_ms) (start + later) ≡ leb (timeout_ms * 1000) later)
      × (remain (countdown_ms start timeout_ms) (start + later)
          ≡ (timeout_ms * 1000 - later) / 1000)
unfolding expired countdown_ms remain
countdown_ms_lem start timeout_ms later h = (ground arith, omega arith)
