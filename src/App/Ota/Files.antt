-- ===== src/App/Ota/Files.antt =====
-- app/ota/ota_firmware_save.c: the two files of an OTA download, and what the C library does with them
-- on a plain file system. A file that is not there is none. Writes to an open file succeed.
use iot_hub_device_c_sdk.Prelude.{
  ℕ, ◌+◌, ◌-◌, Bool, Option, none, some, List, [], ◌++◌, ℤ, pos, negsuc, length, take, drop,
  replicate, if◌then◌else◌,
}

pub record FirmwareInfo : Type 0 where
  pub version : List ℕ
  pub file_size : ℕ
  pub md5sum : List ℕ

pub record DownloadInfo : Type 0 where
  pub file_id : FirmwareInfo
  pub downloaded_size : ℕ

-- The zeroed structure.
abbrev pub no_info : DownloadInfo
no_info = record {
  file_id = record { version = []; file_size = 0; md5sum = [] };
  downloaded_size = 0;
}

-- The break point file holds a structure or nothing, the firmware file bytes.
pub record Disk : Type 0 where
  pub break_point_file : Option (Option DownloadInfo)
  pub firmware_file : Option (List ℕ)

-- Whether fopen of a file that is there, fopen with creation, and fseek succeed, by the call.
pub record FileEnv : Type 0 where
  pub opens : ℕ → Bool
  pub creates : ℕ → Bool
  pub seeks : ℕ → Bool

-- `bytes` over the beginning of a buffer.
abbrev pub overlay : List ℕ → List ℕ → List ℕ
overlay bytes buff = bytes ++ drop (length bytes) buff

-- `bytes` at an offset of a file, which is filled with zeros up to there.
unfoldable pub write_at : ℕ → List ℕ → List ℕ → List ℕ
write_at offset bytes file =
    take offset (file ++ replicate (offset - length file) 0)
    ++ (bytes ++ drop (offset + length bytes) file)

-- fopen of a file that may not be there, with creation if that fails: its contents, if it could.
abbrev pub open_or_create : {A : Type 0} → Bool → Bool → (empty : A) → Option A → Option A
open_or_create opens creates empty none = if creates then some empty else none
open_or_create opens creates empty (some file) =
    if opens then some file else if creates then some empty else none

module _ (env : FileEnv) (step : ℕ) where
  -- ota_break_point_read: the number of bytes that were read, or -1, and the structure. An empty file
  -- leaves the structure as it is.
  unfoldable pub break_point_read : DownloadInfo → Disk → ℤ × DownloadInfo × Disk
  break_point_read info disk =
      elim (open_or_create (env.opens step) (env.creates step) none disk.break_point_file) [
        | none ↦ (negsuc 0, info, disk)
        | some none ↦ (pos 0, info, record disk { break_point_file = some none })
        | some (some stored) ↦
            (pos 1, stored, record disk { break_point_file = some (some stored) })
      ]

  -- ota_break_point_write
  unfoldable pub break_point_write : DownloadInfo → Disk → ℤ × Disk
  break_point_write info disk =
      if env.creates step
      then (pos 0, record disk { break_point_file = some (some info) })
      else (negsuc 0, disk)

  -- ota_firmware_read: the bytes at the offset, at most `buf_len`, fewer at the end of the file.
  unfoldable pub firmware_read : (buf_len offset : ℕ) → Disk → ℤ × List ℕ × Disk
  firmware_read buf_len offset disk =
      elim (open_or_create (env.opens step) (env.creates step) [] disk.firmware_file) [
        | none ↦ (negsuc 0, [], disk)
        | some file ↦
            let bytes : List ℕ = take buf_len (drop offset file) in
            if env.seeks step
            then (pos (length bytes), bytes, record disk { firmware_file = some file })
            else (negsuc 0, [], record disk { firmware_file = some file })
      ]

  -- ota_firmware_write: 0 whenever the file was opened, though fseek may have failed.
  unfoldable pub firmware_write : List ℕ → (offset : ℕ) → Disk → ℤ × Disk
  unfolding write_at
  firmware_write bytes offset disk =
      elim (open_or_create (env.opens step) (env.creates step) [] disk.firmware_file) [
        | none ↦ (negsuc 0, disk)
        | some file ↦ (
          pos 0,
          record disk {
            firmware_file = some (if env.seeks step then write_at offset bytes file else file);
          },
        )
      ]
