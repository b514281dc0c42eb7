-- ===== src/Packet/Write.antt =====
-- The writers of common/mqtt_packet/src/mqtt_packet_serialize.c. `*pptr` only moves forward, so what
-- has been written so far is a list of bytes, `out`, and a writer returns the longer list.
use iot_hub_device_c_sdk.Prelude.{
  ℕ, zero, suc, ◌/◌, ◌%◌, List, [], ◌∷◌, ◌++◌, bit_or, if◌then◌else◌, ltb, length,
}
use iot_hub_device_c_sdk.Packet.Defs.{
  PublishFlags, Header, header_byte, PacketType, publish, subscribe, unsubscribe, type_number,
}

-- _write_char
unfoldable pub write_char : ℕ → List ℕ → List ℕ
write_char c out = out ++ (c % 256 ∷ [])

-- _write_int: the high byte, then the low byte.
unfoldable pub write_int : ℕ → List ℕ → List ℕ
write_int value out = (out ++ (value / 256 % 256 ∷ [])) ++ (value % 256 % 256 ∷ [])

-- _write_string
unfoldable pub write_string : List ℕ → List ℕ → List ℕ
write_string string out = write_int (length string) out ++ string

-- The bits of the header before `header.bits.type |= packet_type`. The pointer `pflags` is null
-- except for PUBLISH.
abbrev header_flags : PacketType → PublishFlags → Header
header_flags publish f = record {
  retain = f.retain % 2;
  qos = f.qos % 4;
  dup = f.dup % 2;
  kind = 0;
}
header_flags subscribe f = record { retain = 0; qos = 1; dup = 0; kind = 0 }
header_flags unsubscribe f = record { retain = 0; qos = 1; dup = 0; kind = 0 }
header_flags _ f = record { retain = 0; qos = 0; dup = 0; kind = 0 }

-- _mqtt_header_serialize
unfoldable pub header_serialize : PacketType → PublishFlags → List ℕ → List ℕ
header_serialize packet_type pflags out =
    let header = header_flags packet_type pflags in
    write_char (header_byte (record header { kind = bit_or header.kind (type_number packet_type) }))
      out

-- The loop of _mqtt_remaining_length_serialize, a round for each unit of fuel.
unfoldable pub remaining_length_loop : ℕ → ℕ → List ℕ → List ℕ
remaining_length_loop zero length out = out
remaining_length_loop (suc fuel) length out =
    let d = length % 128 in
    let rest = remaining_length_loop fuel (length / 128) (write_char (bit_or d 128) out) in
    if ltb 0 (length / 128) then rest else write_char d out

-- _mqtt_remaining_length_serialize. An int has at most five groups of seven bits.
unfoldable pub remaining_length_serialize : ℕ → List ℕ → List ℕ
remaining_length_serialize length out = remaining_length_loop 5 length out
