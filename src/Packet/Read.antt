-- ===== src/Packet/Read.antt =====
-- The readers of common/mqtt_packet/src/mqtt_packet_deserialize.c. The pointer `*pptr` is the list of
-- the bytes from it to the end of the memory that holds the packet; a read past that end is a fault.
use iot_hub_device_c_sdk.Prelude.{
  ℕ, zero, suc, ◌+◌, ◌*◌, ◌%◌, ◌^◌, List, [], ◌∷◌, bit_and, not, if◌then◌else◌, ltb, ◌==◌, length,
  take, drop,
}
use iot_hub_device_c_sdk.Packet.Defs.{
  Result, ok, err, fault, out_of_bounds, null_pointer, ◌>>=◌, invalid_packet_type, short_buffer,
  max_no_of_remaining_length_bytes, PacketType, type_number, publish, PublishFlags, byte_header,
}

-- _read_char
unfoldable pub read_char : List ℕ → Result (ℕ × List ℕ)
read_char [] = fault out_of_bounds
read_char (c ∷ ptr) = ok (c, ptr)

-- _read_int
unfoldable pub read_int : List ℕ → Result (ℕ × List ℕ)
read_int [] = fault out_of_bounds
read_int (hi ∷ []) = fault out_of_bounds
read_int (hi ∷ lo ∷ ptr) = ok ((256 * hi + lo) % 2 ^ 16, ptr)

-- _read_string. The bytes are returned beside the pointer behind them; a length of 0 sets no string.
unfoldable pub read_string : List ℕ → Result (List ℕ × List ℕ)
read_string ptr = do
  (str_len, ptr) ← read_int ptr
  if ltb (length ptr) str_len then fault out_of_bounds else ok (take str_len ptr, drop str_len ptr)

-- Whether the caller passes a pointer `pflags` that is not null.
abbrev pub expects_flags : PacketType → PublishFlags → Result PublishFlags
expects_flags publish f = ok f
expects_flags _ f = fault null_pointer

-- The `switch` of _mqtt_packet_type_check, at the type and the byte that was read. Only
-- mqtt_publish_packet_deserialize passes a `pflags`.
unfoldable pub check_header : PacketType → ℕ → Result PublishFlags
check_header packet_type byte =
    let header = byte_header byte in
    let flags : PublishFlags = record {
      dup = header.dup;
      qos = header.qos;
      retain = header.retain;
    } in
    let none_set : PublishFlags = record { dup = 0; qos = 0; retain = 0 } in
    if header.kind == 3
    then expects_flags packet_type flags
    else (if header.kind == 8
        then (if not (bit_and byte 0xf0 == 0x10) then err invalid_packet_type else ok none_set)
        else (if header.kind == 10
            then (if not (bit_and byte 0xf0 == 0x10) then err invalid_packet_type else ok none_set)
            else ok none_set))

-- _mqtt_packet_type_check
unfoldable pub packet_type_check : PacketType → List ℕ → Result (PublishFlags × List ℕ)
packet_type_check packet_type ptr = do
  (byte, ptr) ← read_char ptr
  flags ← check_header packet_type byte
  if not (type_number packet_type == (byte_header byte).kind)
      then err invalid_packet_type
      else ok (flags, ptr)

-- The loop of _mqtt_remaining_length_deserialize, with the rounds that `++count` may still make.
-- The sums are uint32_t; they stay below 2 ^ 28.
unfoldable pub remaining_length_loop :
    (buf_len : ℕ) → ℕ → (multiplier count len : ℕ) → List ℕ → Result (ℕ × List ℕ)
remaining_length_loop buf_len zero multiplier count len buf = err invalid_packet_type
remaining_length_loop buf_len (suc rounds) multiplier count len [] = fault out_of_bounds
remaining_length_loop buf_len (suc rounds) multiplier count len (c ∷ buf) =
    let len' = (len + bit_and c 127 * multiplier) % 2 ^ 32 in
    let more =
      remaining_length_loop buf_len rounds (multiplier * 128 % 2 ^ 32) (count + 1) len' buf in
    if ltb buf_len (count + 1 + 1 + len')
    then err short_buffer
    else (if bit_and c 128 == 0 then ok (len', buf) else more)

-- _mqtt_remaining_length_deserialize
unfoldable pub remaining_length_deserialize : ℕ → List ℕ → Result (ℕ × List ℕ)
remaining_length_deserialize buf_len ptr =
    remaining_length_loop buf_len max_no_of_remaining_length_bytes 1 0 0 ptr
