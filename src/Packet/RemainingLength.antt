-- ===== src/Packet/RemainingLength.antt =====
-- The variable length encoding of the remaining length: what _mqtt_remaining_length_serialize writes,
-- and that _mqtt_remaining_length_deserialize reads it back.
use native.Mathlib.Nat.{div-add-mod, pow-suc}
use iot_hub_device_c_sdk.Prelude.{
  ℕ, zero, suc, ◌+◌, ◌*◌, ◌/◌, ◌%◌, ◌^◌, ◌≤◌, ◌<◌, ◌≡◌, sym, ap, ◌∙◌, List, [], ◌∷◌, ◌++◌, arith,
  if◌then◌else◌, ltb, length, append_assoc, append-nil, low_seven, top_bit, set_top, Bool-cases,
  inl, inr, true, false, ltb→le, All, IsByte,
}
use iot_hub_device_c_sdk.Packet.Defs.{ok}
use iot_hub_device_c_sdk.Packet.Write
use iot_hub_device_c_sdk.Packet.Write.{remaining_length_serialize, write_char}
use iot_hub_device_c_sdk.Packet.Read
use iot_hub_device_c_sdk.Packet.Read.{remaining_length_deserialize}

-- The groups of seven bits of `v`, lowest first, the top bit set on all but the last.
pub groups : ℕ → ℕ → List ℕ
groups zero v = []
groups (suc fuel) v =
    let rest = groups fuel (v / 128) in
    if ltb 0 (v / 128) then (v % 128 + 128) ∷ rest else v % 128 ∷ []

loop-groups :
    (fuel v : ℕ) (out : List ℕ) → Write.remaining_length_loop fuel v out ≡ out ++ groups fuel v
unfolding Write.remaining_length_loop groups write_char
loop-groups zero v out = sym (append-nil out)
loop-groups (suc fuel) v out = ground (
  arith,
  set_top (v % 128) (omega arith),
  loop-groups fuel (v / 128) (out ++ ((v % 128 + 128) ∷ [])),
  append_assoc out ((v % 128 + 128) ∷ []) (groups fuel (v / 128)),
)

pub serialize-groups : (v : ℕ) (out : List ℕ) → remaining_length_serialize v out ≡ out ++ groups 5 v
unfolding remaining_length_serialize
serialize-groups v out = loop-groups 5 v out

pub length-groups : (k v : ℕ) → (length (groups k v) ≤ k)
unfolding groups
length-groups zero v = omega arith
length-groups (suc k) v = ground (arith, length-groups k (v / 128))

-- A number below 128 ^ k has at most k groups.
pub length-groups_small : (k f v : ℕ) → v < 128 ^ suc k → length (groups f v) ≤ suc k
unfolding groups
length-groups_small k zero v h = omega arith
length-groups_small zero (suc f) v h = ground arith
length-groups_small (suc k) (suc f) v h = ground (
  arith,
  pow-suc 128 (suc k),
  length-groups_small k f (v / 128) (omega (arith, pow-suc 128 (suc k))),
)

pub length-serialize : (v : ℕ) → v < 2 ^ 28 → length (remaining_length_serialize v []) ≤ 4
length-serialize v h = rw (serialize-groups v []) (length-groups_small 3 5 v h)

pub serialize_nonempty : (v : ℕ) → 1 ≤ length (remaining_length_serialize v [])
serialize_nonempty v = rw (serialize-groups v []) (unfold groups in ground arith)

pub groups-IsByte : (k v : ℕ) → All IsByte (groups k v)
unfolding groups
groups-IsByte zero v = tt
groups-IsByte (suc k) v = ground (arith, groups-IsByte k (v / 128))

groups_more :
    (f v : ℕ) → ltb 0 (v / 128) ≡ true → groups (suc f) v ≡ (v % 128 + 128) ∷ groups f (v / 128)
unfolding groups
groups_more f v h = rw h

groups_last : (f v : ℕ) → ltb 0 (v / 128) ≡ false → groups (suc f) v ≡ v % 128 ∷ []
unfolding groups
groups_last f v h = rw h

split_group : (v m : ℕ) → v * m ≡ v % 128 * m + v / 128 * (m * 128)
split_group v m = omega (arith, ap (λ (t : ℕ). t * m) (div-add-mod v 128))

last_byte :
    (buf_len k m count acc w : ℕ) (rest : List ℕ)
    → w < 128
    → acc + w * m < 2 ^ 28
    → count + 2 + (acc + w * m) ≤ buf_len
    → Read.remaining_length_loop buf_len (suc k) m count acc (w ∷ rest) ≡ ok (acc + w * m, rest)
unfolding Read.remaining_length_loop
last_byte buf_len k m count acc w rest hw hs hb =
    rw (low_seven w (omega arith), top_bit w (omega arith), low, sum) (ground arith)
  where
    low : w % 128 ≡ w
    low = omega arith

    sum : (acc + w * m) % 2 ^ 32 ≡ acc + w * m
    sum = omega arith

inner_byte :
    (buf_len k m count acc g : ℕ) (rest : List ℕ)
    → g < 128
    → m < 2 ^ 25
    → acc + g * m < 2 ^ 28
    → count + 2 + (acc + g * m) ≤ buf_len
    → Read.remaining_length_loop buf_len (suc k) m count acc ((g + 128) ∷ rest)
      ≡ Read.remaining_length_loop buf_len k (m * 128) (count + 1) (acc + g * m) rest
unfolding Read.remaining_length_loop
inner_byte buf_len k m count acc g rest hg hm hs hb =
    rw (low_seven (g + 128) (omega arith), top_bit (g + 128) (omega arith), low, sum, next)
      (ground arith)
  where
    low : (g + 128) % 128 ≡ g
    low = omega arith

    sum : (acc + g * m) % 2 ^ 32 ≡ acc + g * m
    sum = omega arith

    next : (m * 128) % 2 ^ 32 ≡ m * 128
    next = omega arith

pow_pos : (k : ℕ) → 0 < 128 ^ k
pow_pos zero = omega arith
pow_pos (suc k) = rw pow-suc (omega (arith, pow_pos k))

-- The weight of a group that is not the last.
weight_bound : (m k : ℕ) → m * 128 ^ suc k ≤ 2 ^ 21 → (m < 2 ^ 25) × (m * 128 * 128 ^ k ≤ 2 ^ 21)
weight_bound m k h =
    let h' : m * (128 ^ k * 128) ≤ 2 ^ 21 = rw pow-suc at h in grind (arith, pow_pos k)

-- The decoder from a state of its loop: `acc` is read, and the next group counts `m`.
loop_reads :
    (buf_len k f v m count acc : ℕ) (rest : List ℕ)
    → k ≤ f
    → v < 128 ^ suc k
    → m * 128 ^ k ≤ 2 ^ 21
    → acc + v * m < 2 ^ 28
    → count + 1 + length (groups (suc f) v) + (acc + v * m) ≤ buf_len
    → Read.remaining_length_loop buf_len (suc k) m count acc (groups (suc f) v ++ rest)
      ≡ ok (acc + v * m, rest)
loop_reads buf_len zero f v m count acc rest hf hv hm hs hb =
    unfold groups in ground (arith, last_byte buf_len 0 m count acc v rest)
loop_reads buf_len (suc k) zero v m count acc rest hf hv hm hs hb = absurd (omega arith)
loop_reads buf_len (suc k) (suc f) v m count acc rest hf hv hm hs hb =
    elim (Bool-cases (ltb 0 (v / 128))) [
      | inl more ↦
          let shape = groups_more (suc f) v more in
          let size = ap length shape in
          rw (shape, ← total)
            (inner_byte buf_len (suc k) m count acc (v % 128) (groups (suc f) (v / 128) ++ rest)
                (omega arith) bounds.0 (omega (arith, total)) (omega (arith, total, size))
              ∙ loop_reads buf_len k f (v / 128) (m * 128) (count + 1) (acc + v % 128 * m) rest
                  (omega arith) fewer bounds.1 (omega (arith, total)) (omega (arith, total, size)))
      | inr last ↦
          let size = ap length (groups_last (suc f) v last) in
          let low : v % 128 ≡ v = omega (arith, ltb→le 0 (v / 128) last) in
          rw (groups_last (suc f) v last, low)
            (last_byte buf_len (suc k) m count acc v rest (omega arith) hs (omega (arith, size)))
    ]
  where
    bounds : (m < 2 ^ 25) × (m * 128 * 128 ^ k ≤ 2 ^ 21)
    bounds = weight_bound m k hm

    fewer : v / 128 < 128 ^ suc k
    fewer = omega (arith, pow-suc 128 (suc k))

    total : acc + v % 128 * m + v / 128 * (m * 128) ≡ acc + v * m
    total = omega (arith, split_group v m)

-- A remaining length below 2 ^ 28 is read back from its encoding, whatever follows it, if the buffer
-- is said to hold the header byte, the encoding and the remaining bytes.
pub deserialize-serialize :
    (buf_len v : ℕ) (rest : List ℕ)
    → v < 2 ^ 28
    → 1 + length (remaining_length_serialize v []) + v ≤ buf_len
    → remaining_length_deserialize buf_len (remaining_length_serialize v [] ++ rest) ≡ ok (v, rest)
unfolding remaining_length_deserialize
deserialize-serialize buf_len v rest hv hb =
    let shape = serialize-groups v [] in
    let size = ap length shape in
    rw shape (
      loop_reads buf_len 3 4 v 1 0 0 rest (omega arith) (omega arith) (omega arith) (omega arith)
        (omega (arith, size))
      ∙ ground arith)

-- A remaining length of one byte.
pub deserialize_one :
    (buf_len v : ℕ) (rest : List ℕ)
    → v < 128
    → 2 + v ≤ buf_len
    → remaining_length_deserialize buf_len (v ∷ rest) ≡ ok (v, rest)
unfolding remaining_length_deserialize
deserialize_one buf_len v rest hv hb =
    last_byte buf_len 3 1 0 0 v rest hv (omega arith) (omega arith)
    ∙ ap (λ n. ok (n, rest)) (omega arith)
