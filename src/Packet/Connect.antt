-- ===== src/Packet/Connect.antt =====
-- mqtt_connect_packet_serialize: the frame that it writes, and how far it writes.
use iot_hub_device_c_sdk.Prelude.{
  ℕ, ◌+◌, ◌≤◌, ◌≡◌, ap, List, [], arith, if◌then◌else◌, ◌==◌, length, length-append, le→ltb, true,
  false, not, ◌&&◌, Option, none, some, ◌⊎◌, ◌∷◌, ◌++◌,
}
use iot_hub_device_c_sdk.Packet.Defs.{
  ok, ConnectOption, connect_flags_byte, connect, short_buffer_check, bind-eq-ok,
}
use iot_hub_device_c_sdk.Packet.Write.{
  write_char, write_int, write_string, header_serialize, remaining_length_serialize,
}
use iot_hub_device_c_sdk.Packet.Serialize.{
  connect_packet_serialize, connect_len, connect_remaining_length_serialize, no_flags,
  connect_variable_header_serialize, optional_len, write_optional, connect_payload, protocol_mqisdp,
  protocol_mqtt, write_protocol, connect_flags, is_set,
}
use iot_hub_device_c_sdk.Packet.RemainingLength.{serialize_nonempty}
use iot_hub_device_c_sdk.Packet.Wire.{
  int_bytes, string_bytes, write_int-append, write_string-append, remaining_length_serialize-append,
}

length-write_char : (c : ℕ) (out : List ℕ) → length (write_char c out) ≡ length out + 1
unfolding write_char
length-write_char c out = length-append out _

length-write_int : (n : ℕ) (out : List ℕ) → length (write_int n out) ≡ length out + 2
length-write_int n out = rw write_int-append (length-append out _)

length-write_string : (s out : List ℕ) → length (write_string s out) ≡ length out + (length s + 2)
length-write_string s out = rw (write_string-append, length-append) (omega arith)

length-write_optional :
    (s : Option (List ℕ)) (out : List ℕ)
    → length (write_optional s out) ≡ length out + optional_len s
length-write_optional none out = omega arith
length-write_optional (some s) out = length-write_string s out

ruleset lengths = (length-write_char, length-write_int, length-write_string, length-write_optional)

length-protocol :
    (mqtt_version : ℕ) (out : List ℕ)
    → (mqtt_version ≡ 3) ⊎ (mqtt_version ≡ 4)
    → length (write_protocol mqtt_version out) + 3
      ≡ length out + (if mqtt_version == 3 then 12 else 10)
unfolding write_protocol
length-protocol mqtt_version out v = ground (
  arith,
  length-write_char 3 (write_string protocol_mqisdp out),
  length-write_string protocol_mqisdp out,
  length-write_char 4 (write_string protocol_mqtt out),
  length-write_string protocol_mqtt out,
)

-- The variable header lacks the keep alive time, two bytes, which is written with the payload.
length-variable_header :
    (o : ConnectOption) (out named : List ℕ)
    → (o.mqtt_version ≡ 3) ⊎ (o.mqtt_version ≡ 4)
    → connect_variable_header_serialize o out ≡ ok named
    → length named + 2 ≡ length out + (if o.mqtt_version == 3 then 12 else 10)
unfolding connect_variable_header_serialize
length-variable_header o out named v h = ground (
  arith,
  length-write_char (connect_flags_byte (connect_flags o)) (write_protocol o.mqtt_version out),
  length-protocol o.mqtt_version out v,
)

length-payload :
    (o : ConnectOption) (out : List ℕ)
    → length (connect_payload o out) + (if o.mqtt_version == 3 then 12 else 10)
      ≡ length out + 2 + connect_len o
unfolding connect_payload connect_len
length-payload o out = simp lengths (
    ground (
      arith,
      length-write_int o.keep_alive_interval out,
      length-write_string o.client_id (write_int o.keep_alive_interval out),
      length-write_string o.will.topic_name
          (write_string o.client_id (write_int o.keep_alive_interval out)),
      length-write_string o.will.message (
          write_string o.will.topic_name
            (write_string o.client_id (write_int o.keep_alive_interval out))),
    ))

remaining_lem :
    (o : ConnectOption) (buf_len : ℕ) (out written : List ℕ)
    → connect_remaining_length_serialize o buf_len out ≡ ok written
    → ((o.mqtt_version ≡ 3) ⊎ (o.mqtt_version ≡ 4))
      × (connect_len o ≤ buf_len)
      × (written ≡ remaining_length_serialize (connect_len o) out)
unfolding connect_remaining_length_serialize
remaining_lem o buf_len out written h = ground arith

length-remaining :
    (v : ℕ)
    → length (remaining_length_serialize v (header_serialize connect no_flags []))
      ≡ 1 + length (remaining_length_serialize v [])
unfolding header_serialize write_char
length-remaining v = rw remaining_length_serialize-append (omega arith)

connect_length :
    (buf_len : ℕ) (o : ConnectOption) {out : List ℕ}
    → connect_packet_serialize buf_len o ≡ ok out
    → length out ≡ 1 + length (remaining_length_serialize (connect_len o) []) + connect_len o
unfolding connect_packet_serialize
connect_length buf_len o {out} h =
    let (checked, _, h) = bind-eq-ok (short_buffer_check buf_len 2) _ h in
    let (named, e, h) =
      bind-eq-ok
        (connect_remaining_length_serialize o buf_len (header_serialize connect no_flags [])) _ h in
    let (flagged, e', h) = bind-eq-ok (connect_variable_header_serialize o named) _ h in
    let (version, fits, shape) = remaining_lem o buf_len _ named e in
    let whole : out ≡ connect_payload o flagged = cc in
    omega (
      arith,
      ap length whole,
      ap length shape,
      length-payload o flagged,
      length-variable_header o named flagged version e',
      length-remaining (connect_len o),
    )

-- The protocol name and level of the MQTT standard, of version 3.1 and of 3.1.1.
abbrev protocol_bytes : ℕ → List ℕ
protocol_bytes mqtt_version =
    if mqtt_version == 3
    then string_bytes protocol_mqisdp ++ (3 ∷ [])
    else string_bytes protocol_mqtt ++ (4 ∷ [])

abbrev optional_bytes : Option (List ℕ) → List ℕ
optional_bytes none = []
optional_bytes (some s) = string_bytes s

-- What stands behind the fixed header of a CONNECT packet in the MQTT standard.
abbrev pub connect_body : ConnectOption → List ℕ
connect_body o =
    protocol_bytes o.mqtt_version
    ++ (connect_flags_byte (connect_flags o)
        ∷ (int_bytes o.keep_alive_interval
            ++ (string_bytes o.client_id
                ++ ((if o.will_flag == 0
                      then []
                      else string_bytes o.will.topic_name ++ string_bytes o.will.message)
                    ++ (optional_bytes o.username ++ optional_bytes o.password)))))

connect_len_pos : (o : ConnectOption) → 12 ≤ connect_len o
unfolding connect_len
connect_len_pos o = ground arith

-- What mqtt_connect_packet_serialize writes if it does not fail.
connect_written : ConnectOption → List ℕ
connect_written o = connect_payload o (
    write_char (connect_flags_byte (connect_flags o)) (
      write_protocol o.mqtt_version
        (remaining_length_serialize (connect_len o) (header_serialize connect no_flags []))))

connect_succeeds :
    (n : ℕ) (o : ConnectOption)
    → (o.mqtt_version ≡ 3) ⊎ (o.mqtt_version ≡ 4)
    → (is_set o.password ≡ false) ⊎ (is_set o.username ≡ true)
    → connect_len o ≤ n
    → connect_packet_serialize n o ≡ ok (connect_written o)
unfolding connect_packet_serialize connect_remaining_length_serialize
    connect_variable_header_serialize connect_written
connect_succeeds n o version named room = rw (
  le→ltb n 2 (omega (arith, connect_len_pos o)),
  supported,
  allowed,
  le→ltb n (connect_len o) room,
)
  where
    supported : (not (o.mqtt_version == 3) && not (o.mqtt_version == 4)) ≡ false
    supported = ground arith

    allowed : (is_set o.password && not (is_set o.username)) ≡ false
    allowed = ground arith

-- A CONNECT packet of version 3 or 4, with no password or with a user name, is written in full in
-- a buffer that holds just what follows the fixed header, which is not accounted for: at least 2
-- bytes are written past its end.
pub connect_overrun :
    (o : ConnectOption)
    → (o.mqtt_version ≡ 3) ⊎ (o.mqtt_version ≡ 4)
    → (is_set o.password ≡ false) ⊎ (is_set o.username ≡ true)
    → (out : List ℕ) × (connect_packet_serialize (connect_len o) o ≡ ok out)
      × (connect_len o + 2 ≤ length out)
connect_overrun o version named =
    let done = connect_succeeds (connect_len o) o version named (omega arith) in
    (
      connect_written o,
      done,
      omega (arith, connect_length (connect_len o) o done, serialize_nonempty (connect_len o)),
    )
