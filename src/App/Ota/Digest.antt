-- ===== src/App/Ota/Digest.antt =====
-- app/ota/ota_downloader.c: the digest of an OTA download follows the firmware file, where the file
-- system works.
use iot_hub_device_c_sdk.Prelude.{
  ℕ, zero, suc, ◌+◌, ◌-◌, ◌≤◌, ◌<◌, ◌≡◌, refl, subst, true, false, Option, none, some, List, [],
  ◌++◌, pos, ◌==◌, length, take, drop, length-append, length-take, length-drop, take-append,
  take_add, append-nil, append_assoc, arith, Bool-cases, inl, inr,
}
use iot_hub_device_c_sdk.App.Ota.{restore_loop}
use iot_hub_device_c_sdk.App.Ota.State.{Ota, OtaEnv, Md5, read_len}
use iot_hub_device_c_sdk.App.Ota.Files.{
  DownloadInfo, Disk, FileEnv, write_at, break_point_write, firmware_read, firmware_write, overlay,
}

-- The file system works: files are opened and created, and positions found.
pub record Works (env : FileEnv) : Type 0 where
  pub opens : (step : ℕ) → env.opens step ≡ true
  pub creates : (step : ℕ) → env.creates step ≡ true
  pub seeks : (step : ℕ) → env.seeks step ≡ true

-- MD5 reads its input in pieces as it reads the whole.
pub record Streams {Context : Type 0} (md5 : Md5 Context) : Type 0 where
  pub nothing : (c : Context) → md5.update c [] ≡ c
  pub pieces :
      (c : Context) (xs ys : List ℕ) → md5.update (md5.update c xs) ys ≡ md5.update c (xs ++ ys)

abbrev pub file_bytes : Option (List ℕ) → List ℕ
file_bytes none = []
file_bytes (some bytes) = bytes

abbrev pub contents : Disk → List ℕ
contents disk = file_bytes disk.firmware_file

module _ (env : FileEnv) (works : Works env) where
  firmware_read-file :
      (step n offset : ℕ) (b : Option (Option DownloadInfo)) (f : Option (List ℕ))
      → offset + n ≤ length (file_bytes f)
      → 0 < n
      → firmware_read env step n offset (record { break_point_file = b; firmware_file = f }) ≡ (
        pos n,
        take n (drop offset (file_bytes f)),
        record { break_point_file = b; firmware_file = f },
      )
  unfolding firmware_read
  firmware_read-file step n offset b none inside positive = absurd (omega arith)
  firmware_read-file step n offset b (some f) inside positive = ground (
    arith,
    works.opens step,
    works.seeks step,
    length-take n (drop offset f),
    length-drop offset f,
  )

  -- A write where the file ends at or behind the offset puts the bytes there.
  pub firmware_write-file :
      (step : ℕ) (bytes : List ℕ) (offset : ℕ) (b : Option (Option DownloadInfo))
      (f : Option (List ℕ))
      → firmware_write env step bytes offset (record { break_point_file = b; firmware_file = f })
        ≡ (
          pos 0,
          record {
            break_point_file = b;
            firmware_file = some (write_at offset bytes (file_bytes f));
          },
        )
  unfolding firmware_write
  firmware_write-file step bytes offset b none =
      ground (arith, works.creates step, works.seeks step)
  firmware_write-file step bytes offset b (some f) =
      ground (arith, works.opens step, works.seeks step)

  pub break_point_write-file :
      (step : ℕ) (info : DownloadInfo) (disk : Disk)
      → break_point_write env step info disk
        ≡ (pos 0, record disk { break_point_file = some (some info) })
  unfolding break_point_write
  break_point_write-file step info disk = rw (works.creates step) refl

-- Behind a write the file is the old one up to the offset, and the bytes.
pub take-write_at :
    (offset : ℕ) (bytes file : List ℕ)
    → offset ≤ length file
    → take (offset + length bytes) (write_at offset bytes file) ≡ take offset file ++ bytes
unfolding write_at
take-write_at offset bytes file inside =
    let old : List ℕ = take offset file in
    let rest : List ℕ = drop (offset + length bytes) file in
    let full : offset - length file ≡ 0 = omega arith in
    let size : length (old ++ bytes) ≡ offset + length bytes =
      omega (arith, length-append old bytes, length-take offset file inside) in
    rw (full, append-nil, ← append_assoc old bytes rest)
      (subst (λ n. take n ((old ++ bytes) ++ rest) ≡ old ++ bytes) size
        (take-append (old ++ bytes) rest))

pub length-write_at :
    (offset : ℕ) (bytes file : List ℕ)
    → offset ≤ length file
    → offset + length bytes ≤ length (write_at offset bytes file)
unfolding write_at
length-write_at offset bytes file inside =
    let full : offset - length file ≡ 0 = omega arith in
    rw (full, append-nil)
      (omega (
        arith,
        length-append (take offset file) (bytes ++ drop (offset + length bytes) file),
        length-append bytes (drop (offset + length bytes) file),
        length-take offset file inside,
      ))

module _ {Context : Type 0} (md5 : Md5 Context) (env : OtaEnv) (streams : Streams md5)
    (works : Works env.files) where
  -- What _ota_break_point_restore leaves alone.
  pub record Restored (total : ℕ) (u u' : Ota Context) : Type 0 where
    pub digest : u'.download_md5_ctx ≡ md5.update md5.reset (take total (contents u.disk))
    pub disk : u'.disk ≡ u.disk
    pub break_point : u'.break_point ≡ u.break_point
    pub download_now : u'.download_now ≡ u.download_now

  read_len_bounds :
      (size : ℕ) → 0 < size → (0 < read_len size) × (read_len size ≤ size) × (read_len size ≤ 1024)
  unfolding read_len
  read_len_bounds size positive = ground arith

  -- The handle when one piece of the file is digested again.
  abbrev restored_piece : (size total : ℕ) → Ota Context → Ota Context
  restored_piece size total u =
      let buff : List ℕ =
        overlay (take (read_len size) (drop total (contents u.disk))) u.download_buff in
      record u {
        download_buff = buff;
        step = u.step + 1;
        download_md5_ctx = md5.update u.download_md5_ctx (take (read_len size) buff);
      }

  restored_digest :
      (size total : ℕ) (u : Ota Context)
      → 0 < size
      → total + size ≤ length (contents u.disk)
      → u.download_md5_ctx ≡ md5.update md5.reset (take total (contents u.disk))
      → (restored_piece size total u).download_md5_ctx
        ≡ md5.update md5.reset (take (total + read_len size) (contents u.disk))
  restored_digest size total u positive inside so_far =
      let n : ℕ = read_len size in
      let bytes : List ℕ = take n (drop total (contents u.disk)) in
      let whole : length bytes ≡ n =
        length-take n (drop total (contents u.disk))
          (omega (arith, read_len_bounds size positive, length-drop total (contents u.disk))) in
      let front : take n (overlay bytes u.download_buff) ≡ bytes =
        subst (λ k. take k (overlay bytes u.download_buff) ≡ bytes) whole
          (take-append bytes (drop (length bytes) u.download_buff)) in
      rw (front, so_far, streams.pieces, take_add total n (contents u.disk)) refl

  restore_step :
      (fuel size total : ℕ) (u : Ota Context)
      → (size == 0) ≡ false
      → total + size ≤ length (contents u.disk)
      → restore_loop md5 env (suc fuel) size total u
        ≡ restore_loop md5 env fuel
            (size - read_len size)
            (total + read_len size)
            (restored_piece size total u)
  unfolding restore_loop
  restore_step fuel size total u more inside =
      let positive : 0 < size = ground arith in
      let read : firmware_read env.files u.step (read_len size) total u.disk
          ≡ (pos (read_len size), take (read_len size) (drop total (contents u.disk)), u.disk) =
        firmware_read-file env.files works u.step (read_len size) total u.disk.break_point_file
          u.disk.firmware_file (omega (arith, read_len_bounds size positive))
          (read_len_bounds size positive).0 in
      rw (more, read) refl

  pub restore_loop-digest :
      (fuel size total : ℕ) (u : Ota Context)
      → size ≤ fuel
      → total + size ≤ length (contents u.disk)
      → u.download_md5_ctx ≡ md5.update md5.reset (take total (contents u.disk))
      → Restored (total + size) u (restore_loop md5 env fuel size total u)
  unfolding restore_loop
  restore_loop-digest zero size total u enough inside so_far =
      let none_left : total + size ≡ total = omega arith in
      rw none_left
        (record { digest = so_far; disk = refl; break_point = refl; download_now = refl })
  restore_loop-digest (suc fuel) size total u enough inside so_far = elim (Bool-cases (size == 0)) [
    | inl ended ↦
        let none_left : total + size ≡ total = ground arith in
        rw (ended, none_left)
          (record { digest = so_far; disk = refl; break_point = refl; download_now = refl })
    | inr more ↦
        let positive : 0 < size = ground arith in
        let u1 : Ota Context = restored_piece size total u in
        let rest : Restored ((total + read_len size) + (size - read_len size)) u1
            (restore_loop md5 env fuel (size - read_len size) (total + read_len size) u1) =
          restore_loop-digest fuel (size - read_len size) (total + read_len size) u1
            (omega (arith, positive, read_len_bounds size positive))
            (omega (arith, positive, read_len_bounds size positive))
            (restored_digest size total u positive inside so_far) in
        let whole : (total + read_len size) + (size - read_len size) ≡ total + size =
          omega (arith, read_len_bounds size positive) in
        rw (restore_step fuel size total u more inside) (record {
          digest = rw whole at rest.digest;
          disk = rest.disk;
          break_point = rest.break_point;
          download_now = rest.download_now;
        })
  ]
