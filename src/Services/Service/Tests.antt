-- ===== src/Services/Service/Tests.antt =====
-- Services of services/explorer/service_mqtt at concrete lists: what the theorems about them say there.
use iot_hub_device_c_sdk.Prelude.{List, [], ◌∷◌, true, false, ℕ}
use iot_hub_device_c_sdk.Services.Service.{RegisterParams, method_text}

abbrev files : RegisterParams
files = record {
  type = 0;
  method_list = (b'a' ∷ []) ∷ (b'b' ∷ []) ∷ [];
  usr_data = 7;
  user_data_free = true;
}

abbrev others : List RegisterParams
others =
    record { type = 0; method_list = (b'c' ∷ []) ∷ []; usr_data = 8; user_data_free = false } ∷ []

-- {"method":"b"}
abbrev message : List (List ℕ × List ℕ)
message = (method_text, b'b' ∷ []) ∷ []
