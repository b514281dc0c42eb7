-- ===== src/Packet/Subscribe.antt =====
-- SUBSCRIBE and UNSUBSCRIBE packets: what is written for any number of topic filters, and how far.
use iot_hub_device_c_sdk.Prelude.{
  ℕ, ◌+◌, ◌%◌, ◌^◌, ◌≤◌, ◌<◌, ◌≡◌, refl, sym, ap, ◌∙◌, List, [], ◌∷◌, ◌++◌, arith, if◌then◌else◌,
  ltb, length, length-append, append-nil, append_assoc,
}
use iot_hub_device_c_sdk.Packet.Defs.{Result, ok, err, short_buffer}
use iot_hub_device_c_sdk.Packet.Write.{
  write_char, write_int, header_serialize, remaining_length_serialize,
}
use iot_hub_device_c_sdk.Packet.Serialize.{
  subscribe_packet_serialize, unsubscribe_packet_serialize, filters_len, filters_of, write_filters,
  write_subscriptions, sub_unsub_remaining_length_serialize,
}
use iot_hub_device_c_sdk.Packet.RemainingLength.{length-serialize}
use iot_hub_device_c_sdk.Packet.Wire.{
  int_bytes, string_bytes, write_int-append, write_string-append, remaining_length_serialize-append,
}

-- The payload of a SUBSCRIBE packet, section 3.8.3 of the MQTT standard, and that of an UNSUBSCRIBE packet.
abbrev pub subscriptions_bytes : List (List ℕ × ℕ) → List ℕ
subscriptions_bytes [] = []
subscriptions_bytes ((t, qos) ∷ ts) = string_bytes t ++ (qos % 256 ∷ subscriptions_bytes ts)

abbrev pub filters_bytes : List (List ℕ) → List ℕ
filters_bytes [] = []
filters_bytes (t ∷ ts) = string_bytes t ++ filters_bytes ts

write_subscriptions-append :
    (ts : List (List ℕ × ℕ)) (out : List ℕ)
    → write_subscriptions ts out ≡ out ++ subscriptions_bytes ts
unfolding write_subscriptions write_char
write_subscriptions-append [] out = sym (append-nil out)
write_subscriptions-append ((t, qos) ∷ ts) out =
    rw (write_subscriptions-append ts, write_string-append) (simp append_assoc)

write_filters-append :
    (ts : List (List ℕ)) (out : List ℕ) → write_filters ts out ≡ out ++ filters_bytes ts
unfolding write_filters
write_filters-append [] out = sym (append-nil out)
write_filters-append (t ∷ ts) out =
    rw (write_filters-append ts, write_string-append) (simp append_assoc)

length-subscriptions_bytes :
    (ts : List (List ℕ × ℕ)) → length (subscriptions_bytes ts) ≡ filters_len 1 (filters_of ts)
unfolding filters_len
length-subscriptions_bytes [] = refl
length-subscriptions_bytes ((t, qos) ∷ ts) =
    omega
      (arith, length-append t (qos % 256 ∷ subscriptions_bytes ts), length-subscriptions_bytes ts)

length-filters_bytes : (ts : List (List ℕ)) → length (filters_bytes ts) ≡ filters_len 0 ts
unfolding filters_len
length-filters_bytes [] = refl
length-filters_bytes (t ∷ ts) =
    omega (arith, length-append t (filters_bytes ts), length-filters_bytes ts)

-- A packet without a short buffer, from its header byte, its body and the writes.
abbrev pub framed : ℕ → ℕ → List ℕ → Result (List ℕ)
framed n b body =
    if ltb n (length body + 5)
    then err short_buffer
    else ok (b ∷ (remaining_length_serialize (length body) [] ++ body))

subscribe_writes :
    (b v packet_id : ℕ) (ts : List (List ℕ × ℕ))
    → write_subscriptions ts (write_int packet_id (remaining_length_serialize v (b ∷ [])))
      ≡ b ∷ (remaining_length_serialize v [] ++ (int_bytes packet_id ++ subscriptions_bytes ts))
subscribe_writes b v packet_id ts =
    rw (write_subscriptions-append, write_int-append, remaining_length_serialize-append)
      (simp append_assoc)

unsubscribe_writes :
    (b v packet_id : ℕ) (ts : List (List ℕ))
    → write_filters ts (write_int packet_id (remaining_length_serialize v (b ∷ [])))
      ≡ b ∷ (remaining_length_serialize v [] ++ (int_bytes packet_id ++ filters_bytes ts))
unsubscribe_writes b v packet_id ts =
    rw (write_filters-append, write_int-append, remaining_length_serialize-append)
      (simp append_assoc)

-- mqtt_subscribe_packet_serialize on every input: MQTT_ERR_SHORT_BUFFER, or the packet of section 3.8
-- of the MQTT standard, whose remaining length is that of the bytes behind the fixed header.
pub subscribe_packet_serialize_lem :
    (n packet_id : ℕ) (ts : List (List ℕ × ℕ))
    → subscribe_packet_serialize n packet_id ts
      ≡ framed n 130 (int_bytes packet_id ++ subscriptions_bytes ts)
unfolding subscribe_packet_serialize sub_unsub_remaining_length_serialize header_serialize
    write_char
subscribe_packet_serialize_lem n packet_id ts =
    rw size (ground (arith, subscribe_writes 130 (length body) packet_id ts))
  where
    body : List ℕ
    body = int_bytes packet_id ++ subscriptions_bytes ts

    size : 2 + filters_len 1 (filters_of ts) ≡ length body
    size = omega (arith, length-subscriptions_bytes ts)

-- mqtt_unsubscribe_packet_serialize on every input, as section 3.10 of the MQTT standard has it.
pub unsubscribe_packet_serialize_lem :
    (n packet_id : ℕ) (ts : List (List ℕ))
    → unsubscribe_packet_serialize n packet_id ts
      ≡ framed n 162 (int_bytes packet_id ++ filters_bytes ts)
unfolding unsubscribe_packet_serialize sub_unsub_remaining_length_serialize header_serialize
    write_char
unsubscribe_packet_serialize_lem n packet_id ts =
    rw size (ground (arith, unsubscribe_writes 162 (length body) packet_id ts))
  where
    body : List ℕ
    body = int_bytes packet_id ++ filters_bytes ts

    size : 2 + filters_len 0 ts ≡ length body
    size = omega (arith, length-filters_bytes ts)

framed_bounded :
    (n b : ℕ) (body : List ℕ) {out : List ℕ}
    → length body < 2 ^ 28
    → framed n b body ≡ ok out
    → (length out ≡ 1 + length (remaining_length_serialize (length body) []) + length body)
      × (length out ≤ n)
framed_bounded n b body {out} small h =
    let shape : (out ≡ b ∷ (remaining_length_serialize (length body) [] ++ body))
        × (length body + 5 ≤ n) =
      ground arith in
    omega (
      arith,
      ap length shape.0,
      shape.1,
      length-append (remaining_length_serialize (length body) []) body,
      length-serialize (length body) small,
    )

-- What mqtt_subscribe_packet_serialize writes stays in its buffer, if the packet is below 2 ^ 28 bytes.
pub subscribe_bounded :
    (n packet_id : ℕ) (ts : List (List ℕ × ℕ)) {out : List ℕ}
    → 2 + filters_len 1 (filters_of ts) < 2 ^ 28
    → subscribe_packet_serialize n packet_id ts ≡ ok out
    → length out ≤ n
subscribe_bounded n packet_id ts small h =
    (framed_bounded n 130 (int_bytes packet_id ++ subscriptions_bytes ts)
      (omega (arith, length-subscriptions_bytes ts))
      (sym (subscribe_packet_serialize_lem n packet_id ts) ∙ h)).1

-- What mqtt_unsubscribe_packet_serialize writes stays in its buffer, if the packet is below 2 ^ 28 bytes.
pub unsubscribe_bounded :
    (n packet_id : ℕ) (ts : List (List ℕ)) {out : List ℕ}
    → 2 + filters_len 0 ts < 2 ^ 28
    → unsubscribe_packet_serialize n packet_id ts ≡ ok out
    → length out ≤ n
unsubscribe_bounded n packet_id ts small h =
    (framed_bounded n 162 (int_bytes packet_id ++ filters_bytes ts)
      (omega (arith, length-filters_bytes ts))
      (sym (unsubscribe_packet_serialize_lem n packet_id ts) ∙ h)).1
