-- ===== src/Packet/Acks.antt =====
-- Acknowledgements: the PUBACK round trip, the acknowledgements of the server, and what the readers do
-- with a packet that is not theirs.
use iot_hub_device_c_sdk.Prelude.{
  ℕ, ◌+◌, ◌/◌, ◌%◌, ◌^◌, ◌≤◌, ◌<◌, ◌≡◌, ◌≢◌, refl, List, ◌∷◌, ◌++◌, arith, if◌then◌else◌, ltb, ◌==◌,
  le→ltb, high_nibble, subst, Bool-cases, inl, inr, ==_iff, IsByte,
}
use iot_hub_device_c_sdk.Packet.Defs.{
  ok, err, fault, null_pointer, short_buffer, invalid_packet_type, PacketType, publish, puback,
  connack, PublishFlags, ◌>>=◌, type_number,
}
use iot_hub_device_c_sdk.Packet.Write.{
  write_char, write_int, header_serialize, remaining_length_serialize, remaining_length_loop,
}
use iot_hub_device_c_sdk.Packet.Serialize.{puback_packet_serialize, no_flags}
use iot_hub_device_c_sdk.Packet.Read.{
  read_char, read_int, expects_flags, check_header, packet_type_check,
}
use iot_hub_device_c_sdk.Packet.Deserialize.{
  puback_packet_deserialize, connack_packet_deserialize, fixed_header,
}
use iot_hub_device_c_sdk.Packet.RemainingLength.{deserialize_one}
use iot_hub_device_c_sdk.Packet.Wire.{int_bytes, read_int_lem}

-- mqtt_puback_packet_serialize on every input.
pub puback_packet_serialize_lem :
    (n packet_id : ℕ)
    → puback_packet_serialize n packet_id
      ≡ (if ltb n 4 then err short_buffer else ok (64 ∷ 2 ∷ int_bytes packet_id))
unfolding puback_packet_serialize write_int header_serialize write_char remaining_length_serialize
    remaining_length_loop
puback_packet_serialize_lem n packet_id = ground arith

-- A one-byte header of a type other than PUBLISH, and a remaining length of one byte.
pub short_header :
    (packet_type : PacketType) (buf_len b v : ℕ) (ptr : List ℕ)
    → packet_type_check packet_type (b ∷ v ∷ ptr) ≡ ok (no_flags, v ∷ ptr)
    → v < 128
    → 2 + v ≤ buf_len
    → fixed_header packet_type buf_len (b ∷ v ∷ ptr) ≡ ok (no_flags, v, ptr)
short_header packet_type buf_len b v ptr hc hv hb =
    rw (le→ltb buf_len 2 (omega arith), hc, deserialize_one buf_len v ptr hv hb)

-- mqtt_puback_packet_deserialize does not look at the remaining length: for a length of one byte
-- that fits the buffer, the identifier is the two bytes behind the fixed header, whether they
-- belong to the packet or not.
pub puback_packet_deserialize_lem :
    (buf_len v : ℕ) (ptr : List ℕ)
    → v < 128
    → 2 + v ≤ buf_len
    → puback_packet_deserialize buf_len (64 ∷ v ∷ ptr)
      ≡ (do (packet_id, rest) ← read_int ptr; ok packet_id)
unfolding puback_packet_deserialize
puback_packet_deserialize_lem buf_len v ptr hv hb = rw (
    short_header puback buf_len 64 v ptr (unfold packet_type_check read_char check_header in refl)
      hv hb)

-- A PUBACK that was written is read back, whatever follows it, if its identifier is below 2 ^ 16
-- and the buffer is said to hold 4 bytes.
pub puback_roundtrip :
    (n buf_len packet_id : ℕ) (out rest : List ℕ)
    → packet_id < 2 ^ 16
    → 4 ≤ buf_len
    → puback_packet_serialize n packet_id ≡ ok out
    → puback_packet_deserialize buf_len (out ++ rest) ≡ ok packet_id
puback_roundtrip n buf_len packet_id out rest hi hb h = rw (
  written,
  puback_packet_deserialize_lem buf_len 2 (int_bytes packet_id ++ rest) (omega arith) hb,
  read_int_lem packet_id rest hi,
)
  where
    written : out ≡ 64 ∷ 2 ∷ int_bytes packet_id
    written = ground (arith, puback_packet_serialize_lem n packet_id)

-- A CONNACK gives the session flag, the lowest bit of its third byte, and the return code.
pub connack_reads :
    (buf_len flags connack_rc : ℕ) (rest : List ℕ)
    → 4 ≤ buf_len
    → connack_packet_deserialize buf_len (32 ∷ 2 ∷ flags ∷ connack_rc ∷ rest)
      ≡ ok (flags % 2, connack_rc)
unfolding connack_packet_deserialize
connack_reads buf_len flags connack_rc rest hb =
    rw
      (short_header connack buf_len 32 2 (flags ∷ connack_rc ∷ rest)
        (unfold packet_type_check read_char check_header in refl) (omega arith) hb)
      (unfold read_char in refl)

flags_null :
    (packet_type : PacketType) (f : PublishFlags)
    → 3 ≢ type_number packet_type
    → expects_flags packet_type f ≡ fault null_pointer
flags_null publish f h = absurd (h refl)
flags_null _ f h = refl

-- A packet whose first byte is of another type than the reader's is refused, but a PUBLISH packet
-- makes the reader write the flags through a null pointer.
pub packet_type_check_foreign :
    (packet_type : PacketType) (b : ℕ) (ptr : List ℕ)
    → IsByte b
    → b / 16 ≢ type_number packet_type
    → packet_type_check packet_type (b ∷ ptr)
      ≡ (if b / 16 == 3 then fault null_pointer else err invalid_packet_type)
unfolding packet_type_check read_char check_header
packet_type_check_foreign packet_type b ptr hb ht = elim (Bool-cases (b / 16 == 3)) [
  | inl is ↦ rw (
    kind,
    is,
    flags_null packet_type _ (subst (λ k. k ≢ type_number packet_type) ((==_iff _ _).0 is) ht),
  )
  | inr other ↦ ground (arith, high_nibble b hb, kind)
]
  where
    kind : b / 16 % 16 ≡ b / 16
    kind = omega arith
