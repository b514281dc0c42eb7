-- ===== src/Services/Http/Whole.antt =====
-- services/common/http_client/src/http_client.c: what IOT_HTTP_Recv answers.
use iot_hub_device_c_sdk.Prelude.{
  ℕ, ◌≤◌, ◌≡◌, List, ℤ, pos, negsuc, true, Option, none, some, is_zero, length,
}
use iot_hub_device_c_sdk.Utils.Strings.{find_text}
use iot_hub_device_c_sdk.Services.Http.Receive.{Received, answered, in_chunks, header_end}

-- A result is the number of bytes that are in the buffer, which has room for them, or a failure.
abbrev pub Counts : ℕ → Received → Type 0
Counts buf_len (answered (pos n) buf r) = (n ≡ length buf) × (n ≤ buf_len)
Counts buf_len (answered (negsuc n) buf r) = Unit
Counts buf_len (in_chunks buf r) = length buf ≤ buf_len

abbrev NotPositive : ℤ → Type 0
NotPositive (pos n) = n ≡ 0
NotPositive (negsuc n) = Unit

abbrev Ended : ℤ → List ℕ → Type 0
Ended rc buf = is_zero rc ≡ true → (k : ℕ) × (find_text header_end buf ≡ some k)

abbrev HeaderFits : ℕ → Option (ℤ × List ℕ × ℕ) → Type 0
HeaderFits buf_len none = Unit
HeaderFits buf_len (some (rc, buf, step)) = (length buf ≤ buf_len) × NotPositive rc × Ended rc buf

-- What IOT_HTTP_Recv may answer: nothing if the fuel is out.
abbrev pub Answers : ℕ → Option Received → Type 0
Answers buf_len none = Unit
Answers buf_len (some received) = Counts buf_len received
