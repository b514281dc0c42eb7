-- ===== src/App/Ota/Tests.antt =====
-- OTA downloads of app/ota/ota_downloader.c on a concrete disk: what the theorems about them say there.
use iot_hub_device_c_sdk.Prelude.{
  ℕ, ◌≢◌, refl, true, none, some, List, [], ◌∷◌, ◌++◌, pos, append-nil, append_assoc, eq_bytes,
  ◌==◌, if◌then◌else◌, arith,
}
use iot_hub_device_c_sdk.Utils.Downloader.{utils_downloader_process}
use iot_hub_device_c_sdk.App.Ota.{ota_callback}
use iot_hub_device_c_sdk.App.Ota.State.{Ota, OtaEnv, Md5, fetched, fetch_failed, downloading}
use iot_hub_device_c_sdk.App.Ota.Files.{FirmwareInfo, no_info}
use iot_hub_device_c_sdk.App.Ota.Digest.{Streams}
use iot_hub_device_c_sdk.App.Ota.Round.{Setting, Fetches}
use iot_hub_device_c_sdk.App.Ota.Returns.{Brings, ota_download_returns}

-- A digest that is its input.
abbrev whole_input : Md5 (List ℕ)
whole_input = record {
  reset = [];
  update = λ c bytes. c ++ bytes;
  finish = λ c. c;
  compare = eq_bytes;
}

whole_input-Streams : Streams whole_input
whole_input-Streams = record {
  nothing = λ c. append-nil c;
  pieces = λ c xs ys. append_assoc c xs ys;
}

-- Files work, and each fetch brings one byte.
abbrev byte_by_byte : OtaEnv
byte_by_byte = record {
  files = record { opens = λ n. true; creates = λ n. true; seeks = λ n. true };
  cos_download_init = λ n. true;
  cos_download_fetch = λ n rest. if rest == 0 then fetch_failed 0 else fetched (7 ∷ []);
  report_progress = λ n. pos 0;
}

byte_by_byte-Fetches : Fetches byte_by_byte
byte_by_byte-Fetches = record { within = λ step rest bytes e. ground arith }

byte_by_byte-Brings : Brings byte_by_byte
byte_by_byte-Brings = record { some_bytes = λ step rest bytes left e. ground arith }

abbrev three_sevens : FirmwareInfo
three_sevens = record { version = 1 ∷ []; file_size = 3; md5sum = 7 ∷ 7 ∷ 7 ∷ [] }

abbrev plain_setting : Setting (List ℕ)
plain_setting = record {
  md5 = whole_input;
  env = byte_by_byte;
  now = three_sevens;
  streams = whole_input-Streams;
  works = record { opens = λ n. refl; creates = λ n. refl; seeks = λ n. refl };
  fetches = byte_by_byte-Fetches;
  sized = omega arith;
}

-- One byte of the firmware was downloaded before.
abbrev resumed : Ota (List ℕ)
resumed = record {
  cos_download = true;
  download_now = three_sevens;
  break_point = no_info;
  download_url = [];
  download_buff = [];
  download_size = 0;
  download_md5_ctx = [];
  status = downloading;
  downloader = true;
  disk = record {
    break_point_file = some (some (record { file_id = three_sevens; downloaded_size = 1 }));
    firmware_file = some (7 ∷ []);
  };
  reports = [];
  step = 0;
}

ota_download_returns_example :
    utils_downloader_process (ota_callback whole_input byte_by_byte) 4 resumed ≢ none
ota_download_returns_example =
    ota_download_returns plain_setting byte_by_byte-Brings 4 resumed refl (omega arith)
      (omega arith)
