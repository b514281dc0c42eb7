-- ===== src/Packet/Suback.antt =====
-- mqtt_suback_packet_deserialize: how many return codes it accepts, and writes to `granted_qos`.
use iot_hub_device_c_sdk.Prelude.{
  ℕ, zero, suc, ◌+◌, ◌-◌, ◌^◌, ◌≤◌, ◌<◌, ◌≡◌, refl, List, [], ◌∷◌, ◌++◌, arith, if◌then◌else◌, ltb,
  ne→==, length, length-append, ℤ, pos, pred_ℤ, sub_ℕ, sub_ℕ_exact, append_assoc, append-nil,
}
use iot_hub_device_c_sdk.Packet.Defs.{ok, err, sub_count_exceed, suback, bind-eq-ok}
use iot_hub_device_c_sdk.Packet.Read.{read_char, check_header, packet_type_check, read_int}
use iot_hub_device_c_sdk.Packet.Deserialize.{
  CharKind, char_to_int, suback_loop, suback_packet_deserialize, fixed_header,
}
use iot_hub_device_c_sdk.Packet.Wire.{int_bytes, read_int_lem}
use iot_hub_device_c_sdk.Packet.Acks.{short_header}

-- What `granted_qos` holds after the codes were read.
abbrev pub granted : CharKind → List ℕ → List ℤ
granted kind [] = []
granted kind (c ∷ codes) = char_to_int kind c ∷ granted kind codes

suback_loop_step :
    (kind : CharKind) (room n : ℕ) (acc : List ℤ) (c : ℕ) (ptr : List ℕ)
    → suback_loop kind (suc room) (pos (suc n)) acc (c ∷ ptr)
      ≡ suback_loop kind room (pos n) (acc ++ (char_to_int kind c ∷ [])) ptr
unfolding suback_loop
suback_loop_step kind room n acc c ptr = rw (pred, ne→== (suc n) 0 (omega arith))
  where
    pred : suc n - 1 ≡ n
    pred = omega arith

ltb-suc : (a b : ℕ) → ltb (suc a) (suc b) ≡ ltb a b
ltb-suc a b = ground arith

suback_loop_reads :
    (kind : CharKind) (room : ℕ) (acc : List ℤ) (codes rest : List ℕ)
    → suback_loop kind room (pos (length codes)) acc (codes ++ rest)
      ≡ (if ltb room (length codes) then err sub_count_exceed else ok (acc ++ granted kind codes))
unfolding suback_loop
suback_loop_reads kind zero acc [] rest = ground (arith, append-nil acc)
suback_loop_reads kind zero acc (c ∷ codes) rest = ground arith
suback_loop_reads kind (suc room) acc [] [] = ground (arith, append-nil acc)
suback_loop_reads kind (suc room) acc [] (r ∷ rest) = ground (arith, append-nil acc)
suback_loop_reads kind (suc room) acc (c ∷ codes) rest = rw (
  suback_loop_step kind room (length codes) acc c (codes ++ rest),
  suback_loop_reads kind room (acc ++ (char_to_int kind c ∷ [])) codes rest,
  append_assoc acc (char_to_int kind c ∷ []) (granted kind codes),
  ltb-suc room (length codes),
)

-- A SUBACK as the server sends it, with an identifier below 2 ^ 16 and fewer than 126 codes that
-- fit the buffer: it is read if it has at most maxcount + 1 codes, and more are refused.
pub suback_reads :
    (kind : CharKind) (buf_len maxcount packet_id : ℕ) (codes rest : List ℕ)
    → packet_id < 2 ^ 16
    → length codes < 126
    → 4 + length codes ≤ buf_len
    → suback_packet_deserialize kind buf_len maxcount
        (144 ∷ (2 + length codes) ∷ (int_bytes packet_id ++ (codes ++ rest)))
      ≡ (if ltb (maxcount + 1) (length codes)
          then err sub_count_exceed
          else ok (packet_id, granted kind codes))
unfolding suback_packet_deserialize
suback_reads kind buf_len maxcount packet_id codes rest hi hc hb =
    rw
      (
        short_header suback buf_len 144 (2 + length codes) (int_bytes packet_id ++ (codes ++ rest))
            (unfold packet_type_check read_char check_header in refl) (omega arith) (omega arith),
        read_int_lem packet_id (codes ++ rest) hi,
        sub_ℕ_exact (2 + length codes) 2 (length codes) refl,
        suback_loop_reads kind (maxcount + 1) [] codes rest,
      )
      (ground arith)

suback_loop_bounded :
    (kind : CharKind) (room : ℕ) (len : ℤ) (acc : List ℤ) (ptr : List ℕ) (out : List ℤ)
    → suback_loop kind room len acc ptr ≡ ok out
    → length out ≤ length acc + room
unfolding suback_loop
suback_loop_bounded kind zero len acc ptr out h = ground arith
suback_loop_bounded kind (suc room) len acc [] out h = ground arith
suback_loop_bounded kind (suc room) len acc (c ∷ ptr) out h = ground (
  arith,
  suback_loop_bounded kind room (pred_ℤ len) (acc ++ (char_to_int kind c ∷ [])) ptr out,
  length-append acc (char_to_int kind c ∷ []),
)

-- Whatever the packet says, at most maxcount + 1 codes are written.
pub suback_bounded :
    (kind : CharKind) (buf_len maxcount : ℕ) (buf : List ℕ) {packet_id : ℕ} {codes : List ℤ}
    → suback_packet_deserialize kind buf_len maxcount buf ≡ ok (packet_id, codes)
    → length codes ≤ maxcount + 1
unfolding suback_packet_deserialize
suback_bounded kind buf_len maxcount buf {packet_id} {codes} h =
    let (header, e, h) = bind-eq-ok (fixed_header suback buf_len buf) _ h in
    let (id, e, h) = bind-eq-ok (read_int header.2) _ h in
    let (out, e, h) = bind-eq-ok (suback_loop kind (maxcount + 1) (sub_ℕ header.1 2) [] id.1) _ h in
    let same : out ≡ codes = cc in
    rw (← same) (omega (arith, suback_loop_bounded kind (maxcount + 1) _ [] id.1 out e))
