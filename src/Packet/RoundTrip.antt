-- ===== src/Packet/RoundTrip.antt =====
-- Packets that the serializers write are read back by the deserializers of the same type.
use iot_hub_device_c_sdk.Prelude.{
  ℕ, ◌+◌, ◌-◌, ◌*◌, ◌%◌, ◌^◌, ◌≤◌, ◌<◌, ◌≡◌, refl, ap, List, [], ◌∷◌, ◌++◌, arith, if◌then◌else◌,
  ltb, length, length-append, append_assoc, none, some, pos, sub_ℕ_exact, ne→==, Bool, Bool-cases,
  inl, inr, true, false,
}
use iot_hub_device_c_sdk.Packet.Defs.{ok, err, short_buffer, publish, PublishFlags}
use iot_hub_device_c_sdk.Packet.Write.{
  write_char, write_int, write_string, header_serialize, remaining_length_serialize,
}
use iot_hub_device_c_sdk.Packet.Serialize.{
  publish_packet_serialize, publish_remaining_length_serialize, publish_len,
}
use iot_hub_device_c_sdk.Packet.Read.{read_char, check_header, packet_type_check}
use iot_hub_device_c_sdk.Packet.Deserialize.{publish_packet_deserialize, read_packet_id}
use iot_hub_device_c_sdk.Packet.RemainingLength.{length-serialize}
use iot_hub_device_c_sdk.Packet.Wire.{
  int_bytes, string_bytes, write_int-append, write_string-append, remaining_length_serialize-append,
  read_int_lem, read_string_lem, fixed_header_lem,
}

abbrev publish_header : PublishFlags → ℕ
publish_header f = f.retain % 2 + f.qos % 4 * 2 + f.dup % 2 * 8 + 48

abbrev packet_id_bytes : ℕ → ℕ → List ℕ
packet_id_bytes qos packet_id = if ltb 0 qos then int_bytes packet_id else []

-- The packet with the remaining length that the serializer computes.
abbrev pub publish_bytes : PublishFlags → ℕ → List ℕ → List ℕ → List ℕ
publish_bytes f packet_id topic payload =
    publish_header f
    ∷ (remaining_length_serialize (publish_len f.qos topic (length payload)) []
        ++ (string_bytes topic ++ (packet_id_bytes f.qos packet_id ++ payload)))

publish_header-write : (f : PublishFlags) → header_serialize publish f [] ≡ publish_header f ∷ []
unfolding header_serialize write_char
publish_header-write f = ap (λ x. x ∷ []) (omega arith)

publish_header-check :
    (f : PublishFlags) (ptr : List ℕ)
    → f.retain < 2
    → f.qos < 4
    → f.dup < 2
    → packet_type_check publish (publish_header f ∷ ptr) ≡ ok (f, ptr)
unfolding packet_type_check read_char check_header
publish_header-check f ptr hr hq hd = ground arith

-- The writes of mqtt_publish_packet_serialize behind the header, `b` being the test of the QoS.
publish_writes :
    (b : Bool) (h v packet_id : ℕ) (topic payload : List ℕ)
    → (let out = write_string topic (remaining_length_serialize v (h ∷ [])) in
          if b then write_int packet_id out else out)
        ++ payload
      ≡ h
        ∷ (remaining_length_serialize v []
            ++ (string_bytes topic ++ ((if b then int_bytes packet_id else []) ++ payload)))
publish_writes true h v packet_id topic payload =
    rw (write_int-append, write_string-append, remaining_length_serialize-append)
      (simp append_assoc)
publish_writes false h v packet_id topic payload =
    rw (write_string-append, remaining_length_serialize-append) (simp append_assoc)

publish_framed :
    (n : ℕ) (f : PublishFlags) (packet_id : ℕ) (topic payload : List ℕ)
    → publish_packet_serialize n f packet_id topic payload ≡ (
        if ltb n (publish_len f.qos topic (length payload) + 5)
        then err short_buffer
        else ok (publish_bytes f packet_id topic payload))
unfolding publish_packet_serialize publish_remaining_length_serialize
publish_framed n f packet_id topic payload = ground (
  arith,
  publish_header-write f,
  publish_writes (ltb 0 f.qos) (publish_header f) (publish_len f.qos topic (length payload))
      packet_id topic payload,
)

length-packet_id_bytes :
    (b : Bool) (n : ℕ) → length (if b then int_bytes n else []) ≡ (if b then 2 else 0)
length-packet_id_bytes true n = refl
length-packet_id_bytes false n = refl

pub length-publish_bytes :
    (f : PublishFlags) (packet_id : ℕ) (topic payload : List ℕ)
    → length (publish_bytes f packet_id topic payload)
      ≡ 1
        + length (remaining_length_serialize (publish_len f.qos topic (length payload)) [])
        + publish_len f.qos topic (length payload)
length-publish_bytes f packet_id topic payload =
    simp (length-append, length-packet_id_bytes) (unfold publish_len in omega arith)

-- What stands behind the fixed header of a PUBLISH packet.
abbrev pub publish_body : PublishFlags → ℕ → List ℕ → List ℕ → List ℕ
publish_body f packet_id topic payload =
    string_bytes topic ++ (packet_id_bytes f.qos packet_id ++ payload)

publish_len_lem :
    (f : PublishFlags) (packet_id : ℕ) (topic payload : List ℕ)
    → publish_len f.qos topic (length payload) ≡ length (publish_body f packet_id topic payload)
publish_len_lem f packet_id topic payload =
    simp (length-append, length-packet_id_bytes) (unfold publish_len in omega arith)

-- mqtt_publish_packet_serialize on every input: MQTT_ERR_SHORT_BUFFER if the buffer has less than 5 bytes
-- more than what stands behind the fixed header, and otherwise the packet of section 3.3 of the MQTT
-- standard, whose remaining length is that of the topic, the identifier (for a QoS above 0) and the payload
-- as they are written behind the fixed header.
pub publish_packet_serialize_lem :
    (n : ℕ) (f : PublishFlags) (packet_id : ℕ) (topic payload : List ℕ)
    → publish_packet_serialize n f packet_id topic payload ≡ (
        if ltb n (length (publish_body f packet_id topic payload) + 5)
        then err short_buffer
        else ok (
            publish_header f
            ∷ (remaining_length_serialize (length (publish_body f packet_id topic payload)) []
                ++ publish_body f packet_id topic payload)))
publish_packet_serialize_lem n f packet_id topic payload =
    rw (← publish_len_lem f packet_id topic payload) (publish_framed n f packet_id topic payload)

publish_written :
    (n : ℕ) (f : PublishFlags) (packet_id : ℕ) (topic payload : List ℕ) {out : List ℕ}
    → publish_packet_serialize n f packet_id topic payload ≡ ok out
    → (out ≡ publish_bytes f packet_id topic payload)
      × (publish_len f.qos topic (length payload) + 5 ≤ n)
publish_written n f packet_id topic payload h =
    ground (arith, publish_framed n f packet_id topic payload)

-- What mqtt_publish_packet_serialize writes stays in its buffer, if the packet is below 2 ^ 28 bytes.
pub publish_packet_serialize_bounded :
    (n : ℕ) (f : PublishFlags) (packet_id : ℕ) (topic payload out : List ℕ)
    → publish_len f.qos topic (length payload) < 2 ^ 28
    → publish_packet_serialize n f packet_id topic payload ≡ ok out
    → length out ≤ n
publish_packet_serialize_bounded n f packet_id topic payload out hv h =
    let (shape, room) = publish_written n f packet_id topic payload h in
    omega (
      arith,
      ap length shape,
      length-publish_bytes f packet_id topic payload,
      length-serialize _ hv,
    )

read_packet_id_lem :
    (qos packet_id : ℕ) (rest : List ℕ)
    → packet_id < 2 ^ 16
    → read_packet_id qos (packet_id_bytes qos packet_id ++ rest)
      ≡ ok ((if ltb 0 qos then some packet_id else none), rest)
unfolding read_packet_id
read_packet_id_lem qos packet_id rest h = elim (Bool-cases (ltb 0 qos)) [
  | inl set ↦ rw (set, read_int_lem packet_id rest h)
  | inr unset ↦ rw unset
]

publish_reads :
    (buf_len : ℕ) (f : PublishFlags) (packet_id : ℕ) (topic payload rest : List ℕ)
    → f.retain < 2
    → f.qos < 4
    → f.dup < 2
    → packet_id < 2 ^ 16
    → 0 < length topic
    → length topic < 2 ^ 16
    → publish_len f.qos topic (length payload) < 2 ^ 28
    → length (publish_bytes f packet_id topic payload) ≤ buf_len
    → publish_packet_deserialize buf_len (publish_bytes f packet_id topic payload ++ rest)
      ≡ ok (record {
        flags = f;
        packet_id = if ltb 0 f.qos then some packet_id else none;
        topic_name = topic;
        payload = payload ++ rest;
        payload_len = pos (length payload);
      })
unfolding publish_packet_deserialize
publish_reads buf_len f packet_id topic payload rest hr hq hd hi ht0 ht hv hb = rw (
  append_assoc (remaining_length_serialize len []) _ rest,
  fixed_header_lem publish buf_len (publish_header f) len f
      ((string_bytes topic ++ (packet_id_bytes f.qos packet_id ++ payload)) ++ rest)
      (λ ptr. publish_header-check f ptr hr hq hd) hv room two,
  append_assoc (string_bytes topic) (packet_id_bytes f.qos packet_id ++ payload) rest,
  append_assoc (packet_id_bytes f.qos packet_id) payload rest,
  read_string_lem topic _ ht,
  ne→== (length topic) 0 (omega arith),
  read_packet_id_lem f.qos packet_id (payload ++ rest) hi,
  sub_ℕ_exact len _ (length payload) consumed,
)
  where
    len : ℕ
    len = publish_len f.qos topic (length payload)

    room : 1 + length (remaining_length_serialize len []) + len ≤ buf_len
    room = omega (arith, length-publish_bytes f packet_id topic payload)

    tail : List ℕ
    tail = packet_id_bytes f.qos packet_id ++ payload

    consumed :
        len
        ≡ length ((string_bytes topic ++ tail) ++ rest) - length (payload ++ rest) + length payload
    consumed = simp (length-append, length-packet_id_bytes) (unfold publish_len in omega arith)

    two : 2 ≤ buf_len
    two = unfold publish_len in omega (arith, length-publish_bytes f packet_id topic payload)

-- A publish packet that was written is read back: the same flags, identifier, topic and payload,
-- with whatever follows the packet in memory left behind the payload. The flags and the identifier
-- fit their fields, the topic has 1 to 65535 bytes, the packet is below 2 ^ 28 bytes and fits the
-- buffer.
pub publish_roundtrip :
    (n buf_len : ℕ) (f : PublishFlags) (packet_id : ℕ) (topic payload out rest : List ℕ)
    → f.retain < 2
    → f.qos < 4
    → f.dup < 2
    → packet_id < 2 ^ 16
    → 0 < length topic
    → length topic < 2 ^ 16
    → publish_len f.qos topic (length payload) < 2 ^ 28
    → publish_packet_serialize n f packet_id topic payload ≡ ok out
    → length out ≤ buf_len
    → publish_packet_deserialize buf_len (out ++ rest)
      ≡ ok (record {
        flags = f;
        packet_id = if ltb 0 f.qos then some packet_id else none;
        topic_name = topic;
        payload = payload ++ rest;
        payload_len = pos (length payload);
      })
publish_roundtrip n buf_len f packet_id topic payload out rest hr hq hd hi ht0 ht hv he hb =
    let (shape, room) = publish_written n f packet_id topic payload he in
    rw shape (
      publish_reads buf_len f packet_id topic payload rest hr hq hd hi ht0 ht hv
        (omega (arith, ap length shape)))
