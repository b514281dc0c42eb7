-- ===== src/Client/Publish/Deliver.antt =====
-- Incoming PUBLISH packets: who gets the message, and that a repeated packet is acknowledged again but
-- not delivered again.
use iot_hub_device_c_sdk.Prelude.{
  ℕ, zero, suc, ◌+◌, ◌⊎◌, refl, ap, Option-cases, ◌<◌, ◌≡◌, ◌∙◌, List, [], ◌∷◌, ◌++◌, true, false,
  some, if◌then◌else◌, length, arith, set, Bool-cases, inl, inr,
}
use iot_hub_device_c_sdk.Packet.Defs.{ok, Result-cases}
use iot_hub_device_c_sdk.Packet.Wire.{int_bytes}
use iot_hub_device_c_sdk.Packet.Acks.{puback_packet_serialize_lem}
use iot_hub_device_c_sdk.Packet.Deserialize.{Publish, publish_packet_deserialize}
use iot_hub_device_c_sdk.Client.RepeatBuf.{
  RepeatBuf, get_packet_id_repeat_buf, add_packet_id_to_repeat_buf, IsValid,
}
use iot_hub_device_c_sdk.Client.RepeatBuf.{add_packet_id-IsValid, recent}
use iot_hub_device_c_sdk.Client.RepeatBuf.Age.{Kept, added-Kept, Kept-add, Kept-get, Kept-longer}
use iot_hub_device_c_sdk.Client.State.{Client, Env, net_write}
use iot_hub_device_c_sdk.Client.Common.{send_mqtt_packet, send_mqtt_packet_lem}
use iot_hub_device_c_sdk.Client.Publish.{
  undefined_rc, deliver_message, handle_publish, handle_publish_id, reply_puback,
}

get-set :
    (ids : List ℕ) (k i : ℕ) → k < length ids → get_packet_id_repeat_buf (set ids k i) i ≡ true
unfolding get_packet_id_repeat_buf
get-set [] k i h = absurd (omega arith)
get-set (x ∷ ids) zero i h = ground arith
get-set (x ∷ ids) (suc k) i h = ground (arith, get-set ids k i (omega arith))

-- An identifier that was added is known.
pub get-add_packet_id :
    (b : RepeatBuf) (i : ℕ)
    → IsValid b
    → get_packet_id_repeat_buf (add_packet_id_to_repeat_buf b i).ids i ≡ true
unfolding add_packet_id_to_repeat_buf
get-add_packet_id b i v = ground (arith, get-set b.ids b.cnt i (omega arith))

write_buf_size-deliver :
    (m : Publish) (c : Client) → (deliver_message m c).1.write_buf_size ≡ c.write_buf_size
unfolding deliver_message
write_buf_size-deliver m c = ground arith

module _ (env : Env) where
  reply_trace :
      (i : ℕ) (c : Client)
      → 4 < c.write_buf_size
      → (reply_puback env i c).1.trace ≡ c.trace ++ (net_write (64 ∷ 2 ∷ int_bytes i) ∷ [])
  unfolding reply_puback
  reply_trace i c h = ground (
    arith,
    puback_packet_serialize_lem c.write_buf_size i,
    send_mqtt_packet_lem env (64 ∷ 2 ∷ int_bytes i) c,
  )

  handle_publish-ok :
      (c : Client) (m : Publish) (i : ℕ)
      → publish_packet_deserialize c.read_buf_size c.read_buf ≡ ok m
      → m.packet_id ≡ some i
      → handle_publish env c ≡ handle_publish_id env i m c
  unfolding handle_publish
  handle_publish-ok c m i e p = ground arith

  handle_publish_id-trace :
      (c : Client) (m : Publish) (i : ℕ)
      → 4 < c.write_buf_size
      → (handle_publish_id env i m c).1.trace
        ≡ (if get_packet_id_repeat_buf c.repeat_buf.ids i
            then c.trace
            else (deliver_message m c).1.trace)
          ++ (net_write (64 ∷ 2 ∷ int_bytes i) ∷ [])
  unfolding handle_publish_id
  handle_publish_id-trace c m i h =
      elim (Bool-cases (get_packet_id_repeat_buf c.repeat_buf.ids i)) [
        | inl known ↦ rw known (reply_trace i _ h)
        | inr new ↦ rw new (reply_trace i _ (rw (write_buf_size-deliver m c) h))
      ]

  -- A PUBLISH packet with a packet identifier is always acknowledged, if the write buffer has more
  -- than 4 bytes. Its message is delivered first, unless the identifier is among those last
  -- received.
  pub handle_publish_delivers :
      (c : Client) (m : Publish) (i : ℕ)
      → publish_packet_deserialize c.read_buf_size c.read_buf ≡ ok m
      → m.packet_id ≡ some i
      → 4 < c.write_buf_size
      → (handle_publish env c).1.trace
        ≡ (if get_packet_id_repeat_buf c.repeat_buf.ids i
            then c.trace
            else (deliver_message m c).1.trace)
          ++ (net_write (64 ∷ 2 ∷ int_bytes i) ∷ [])
  handle_publish_delivers c m i e p h =
      rw (handle_publish-ok c m i e p) (handle_publish_id-trace c m i h)

  -- Received packets handled one after another by qcloud_iot_mqtt_handle_publish, each from the read buffer.
  unfoldable pub handle_publishes : List (List ℕ) → Client → Client
  handle_publishes [] c = c
  handle_publishes (buf ∷ bufs) c =
      handle_publishes bufs (handle_publish env (record c { read_buf = buf })).1

  handle_publish_id-frame :
      (c : Client) (m : Publish) (i : ℕ)
      → let c' = (handle_publish_id env i m c).1 in
        (c'.read_buf ≡ c.read_buf)
        × (c'.read_buf_size ≡ c.read_buf_size)
        × (c'.write_buf_size ≡ c.write_buf_size)
        × (c'.repeat_buf ≡ add_packet_id_to_repeat_buf c.repeat_buf i)
  unfolding handle_publish_id deliver_message reply_puback send_mqtt_packet
  handle_publish_id-frame c m i = ground arith

  -- What handling a received PUBLISH packet leaves of the sizes and the ring: no identifier, or one, is added.
  handle_publish-frame :
      (c : Client)
      → let c' = (handle_publish env c).1 in
        (c'.read_buf_size ≡ c.read_buf_size)
        × (c'.write_buf_size ≡ c.write_buf_size)
        × ((c'.repeat_buf ≡ c.repeat_buf)
            ⊎ ((j : ℕ) × (c'.repeat_buf ≡ add_packet_id_to_repeat_buf c.repeat_buf j)))
  unfolding handle_publish undefined_rc deliver_message
  handle_publish-frame c =
      elim (Result-cases (publish_packet_deserialize c.read_buf_size c.read_buf)) [
        | inl (m, e) ↦ elim (Option-cases m.packet_id) [
          | inl no_id ↦ (ground arith, ground arith, inl (ground arith))
          | inr (i, p) ↦
              let (buf, size, room, ring) = handle_publish_id-frame c m i in
              rw (handle_publish-ok c m i e p) (size, room, inr (i, ring))
        ]
        | inr (inl (err, e)) ↦ (ground arith, ground arith, inl (ground arith))
        | inr (inr (fault, e)) ↦ (ground arith, ground arith, inl (ground arith))
      ]

  handle_publishes_lem :
      {age : ℕ} (bufs : List (List ℕ)) (c : Client) {i : ℕ}
      → age + length bufs < 10
      → IsValid c.repeat_buf
      → Kept age (recent c.repeat_buf) i
      → let c' = handle_publishes bufs c in
        (c'.read_buf_size ≡ c.read_buf_size)
        × (c'.write_buf_size ≡ c.write_buf_size)
        × (get_packet_id_repeat_buf c'.repeat_buf.ids i ≡ true)
  unfolding handle_publishes
  handle_publishes_lem [] c h v k = (refl, refl, Kept-get c.repeat_buf k)
  handle_publishes_lem {age} (buf ∷ bufs) c {i} h v k =
      let c1 : Client = record c { read_buf = buf } in
      let c2 = (handle_publish env c1).1 in
      let (size, room, ring) = handle_publish-frame c1 in
      let next : IsValid c2.repeat_buf × Kept (suc age) (recent c2.repeat_buf) i = elim ring [
        | inl same ↦ rw same (v, Kept-longer (omega arith) k)
        | inr (j, added) ↦
            rw added (add_packet_id-IsValid j v, Kept-add c.repeat_buf j v (omega arith) k)
      ] in
      let (size', room', known) = handle_publishes_lem bufs c2 (omega arith) next.0 next.1 in
      (size' ∙ size, room' ∙ room, known)

  -- A PUBLISH packet with an identifier that is not known when it is handled, and that is received
  -- again after at most nine other packets, whatever they are, were handled as PUBLISH packets and
  -- nothing else was done to the client, is acknowledged the second time and not delivered, if the
  -- write buffer has more than 4 bytes and the ring of identifiers is valid.
  pub handle_publish_again :
      (c : Client) (m : Publish) (i : ℕ) (others : List (List ℕ))
      → publish_packet_deserialize c.read_buf_size c.read_buf ≡ ok m
      → m.packet_id ≡ some i
      → 4 < c.write_buf_size
      → IsValid c.repeat_buf
      → get_packet_id_repeat_buf c.repeat_buf.ids i ≡ false
      → length others < 10
      → let c' = handle_publishes others (handle_publish env c).1 in
        (handle_publish env (record c' { read_buf = c.read_buf })).1.trace
        ≡ c'.trace ++ (net_write (64 ∷ 2 ∷ int_bytes i) ∷ [])
  handle_publish_again c m i others e p h v new few =
      let c1 = (handle_publish env c).1 in
      let c' = handle_publishes others c1 in
      let framed = handle_publish_id-frame c m i in
      let first : c1 ≡ (handle_publish_id env i m c).1 =
        ap (λ r. r.1) (handle_publish-ok c m i e p) in
      let size = ap (λ x. x.read_buf_size) first ∙ framed.1 in
      let room = ap (λ x. x.write_buf_size) first ∙ framed.2 in
      let ring = ap (λ x. x.repeat_buf) first ∙ framed.3 in
      let valid : IsValid c1.repeat_buf = rw ring (add_packet_id-IsValid i v) in
      let kept : Kept 0 (recent c1.repeat_buf) i = rw ring (added-Kept c.repeat_buf i v new) in
      let (size', room', known) =
        handle_publishes_lem {age = 0} others c1 (omega arith) valid kept in
      let again : publish_packet_deserialize c'.read_buf_size c.read_buf ≡ ok m =
        rw (size', size) e in
      handle_publish_delivers (record c' { read_buf = c.read_buf }) m i again p (rw (room', room) h)
      ∙ rw known
