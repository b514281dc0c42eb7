-- ===== src/Client/Publish/Outgoing.antt =====
-- Outgoing PUBLISH packets and the list of those that wait for a PUBACK.
use iot_hub_device_c_sdk.Prelude.{
  ℕ, ◌+◌, ◌<◌, ◌≤◌, ◌≡◌, ◌∙◌, refl, sym, ap, List, [], ◌∷◌, ◌++◌, false, none, some, if◌then◌else◌,
  pos, negsuc, length, arith, All, inl, inr, ◌⊎◌, ne→==, ==_refl, Bool-cases, length-append,
}
use iot_hub_device_c_sdk.Packet.Defs.{Result, ok, err, fault, Result-cases}
use iot_hub_device_c_sdk.Packet.Serialize.{publish_packet_serialize}
use iot_hub_device_c_sdk.Timer.{countdown_ms}
use iot_hub_device_c_sdk.Client.State.{Client, Env, PubInfo, net_write, failed, serialize_rc}
use iot_hub_device_c_sdk.Client.Common.{send_mqtt_packet, next_id}
use iot_hub_device_c_sdk.Client.WaitList.{push_pub_info_to_list, remove_pub_node, max_repub_num}
use iot_hub_device_c_sdk.Client.PacketId.{get_next_packet_id}
use iot_hub_device_c_sdk.Client.Publish.{PublishParams, publish_waiting, mqtt_publish, undefined_rc}

-- Nodes were allocated by earlier calls.
abbrev pub Older : ℕ → List PubInfo → Type 0
Older step infos = All (λ i. i.node < step) infos

remove-fresh :
    (infos : List PubInfo) (i : PubInfo)
    → Older i.node infos
    → remove_pub_node i.node (infos ++ (i ∷ [])) ≡ infos
unfolding remove_pub_node
remove-fresh [] i h = rw (==_refl i.node)
remove-fresh (j ∷ infos) i h =
    rw (ne→== j.node i.node (omega arith)) (ap (λ l. j ∷ l) (remove-fresh infos i h.1))

All-mono :
    (step step' : ℕ) (infos : List PubInfo) → step ≤ step' → Older step infos → Older step' infos
All-mono step step' [] le h = tt
All-mono step step' (i ∷ infos) le h = (omega (arith, h.0), All-mono step step' infos le h.1)

module _ (env : Env) where
  -- The entry that a call adds.
  abbrev pub new_info : List ℕ → ℕ → Client → PubInfo
  new_info packet packet_id c = record {
    node = c.step + 1 + 1;
    buf = packet;
    packet_id = packet_id;
    pub_start_time = countdown_ms (env.now (c.step + 1)) c.command_timeout_ms;
  }

  push_cases :
      (packet : List ℕ) (packet_id : ℕ) (c : Client)
      → let (node, c') = push_pub_info_to_list env packet packet_id c in
        ((node ≡ none) × (c'.list_pub_wait_ack ≡ c.list_pub_wait_ack))
        ⊎ ((node ≡ some (c.step + 1 + 1))
            × (c'.list_pub_wait_ack ≡ c.list_pub_wait_ack ++ (new_info packet packet_id c ∷ []))
            × (length c.list_pub_wait_ack < max_repub_num))
  unfolding push_pub_info_to_list
  push_cases packet packet_id c = ground arith

  send_frame :
      (packet : List ℕ) (c : Client)
      → (send_mqtt_packet env packet c).1.list_pub_wait_ack ≡ c.list_pub_wait_ack
  unfolding send_mqtt_packet
  send_frame packet c = ground arith

  waiting_full :
      (packet : List ℕ) (packet_id : ℕ) (c : Client)
      → (push_pub_info_to_list env packet packet_id c).0 ≡ none
      → publish_waiting env packet_id packet c
        ≡ (negsuc 1000, (push_pub_info_to_list env packet packet_id c).1)
  unfolding publish_waiting
  waiting_full packet packet_id c e = ground arith

  waiting_sent :
      (packet : List ℕ) (packet_id node : ℕ) (c : Client)
      → (push_pub_info_to_list env packet packet_id c).0 ≡ some node
      → let (rc, c') =
          send_mqtt_packet env packet (push_pub_info_to_list env packet packet_id c).1 in
        publish_waiting env packet_id packet c ≡ (
          if failed rc
          then (rc, record c' { list_pub_wait_ack = remove_pub_node node c'.list_pub_wait_ack })
          else (pos packet_id, c'))
  unfolding publish_waiting
  waiting_sent packet packet_id node c e = ground arith

  waiting-failed :
      (packet : List ℕ) (packet_id : ℕ) (c : Client) (e : ℕ)
      → Older c.step c.list_pub_wait_ack
      → (publish_waiting env packet_id packet c).0 ≡ negsuc e
      → (publish_waiting env packet_id packet c).1.list_pub_wait_ack ≡ c.list_pub_wait_ack
  waiting-failed packet packet_id c e old h = elim (push_cases packet packet_id c) [
    | inl (n, l) ↦ rw (waiting_full packet packet_id c n) l
    | inr (n, l, room) ↦
        let c' = (push_pub_info_to_list env packet packet_id c).1 in
        let sent = waiting_sent packet packet_id _ c n in
        let frame = send_frame packet c' in
        let fresh =
          remove-fresh c.list_pub_wait_ack (new_info packet packet_id c)
            (All-mono c.step (c.step + 1 + 1) c.list_pub_wait_ack (omega arith) old) in
        elim (Bool-cases (failed (send_mqtt_packet env packet c').0)) [
          | inl f ↦ rw (sent, f, frame, l) fresh
          | inr s ↦ ground arith
        ]
  ]

  push-trace :
      (packet : List ℕ) (packet_id : ℕ) (c : Client)
      → (push_pub_info_to_list env packet packet_id c).1.trace ≡ c.trace
  unfolding push_pub_info_to_list
  push-trace packet packet_id c = ground arith

  send-done :
      (packet : List ℕ) (c : Client)
      → failed (send_mqtt_packet env packet c).0 ≡ false
      → (send_mqtt_packet env packet c).1.trace ≡ c.trace ++ (net_write packet ∷ [])
  unfolding send_mqtt_packet
  send-done packet c h = ground arith

  send-positive :
      (packet : List ℕ) (c : Client) (n : ℕ)
      → ((k m : ℕ) → env.write k ≡ pos m → m ≡ 0)
      → (send_mqtt_packet env packet c).0 ≡ pos n
      → failed (send_mqtt_packet env packet c).0 ≡ false
  unfolding send_mqtt_packet
  send-positive packet c n net h = ground (arith, net c.step n)

  waiting-queued :
      (packet : List ℕ) (packet_id : ℕ) (c : Client) (n : ℕ)
      → ((k m : ℕ) → env.write k ≡ pos m → m ≡ 0)
      → (publish_waiting env packet_id packet c).0 ≡ pos n
      → let c' = (publish_waiting env packet_id packet c).1 in
        (n ≡ packet_id)
        × (c'.list_pub_wait_ack ≡ c.list_pub_wait_ack ++ (new_info packet packet_id c ∷ []))
        × (c'.trace ≡ c.trace ++ (net_write packet ∷ []))
        × (length c'.list_pub_wait_ack ≤ max_repub_num)
  waiting-queued packet packet_id c n net h = elim (push_cases packet packet_id c) [
    | inl (full, l) ↦ ground (arith, waiting_full packet packet_id c full)
    | inr (stored, l, room) ↦
        let c' = (push_pub_info_to_list env packet packet_id c).1 in
        let sent = waiting_sent packet packet_id _ c stored in
        let frame = send_frame packet c' in
        elim (Bool-cases (failed (send_mqtt_packet env packet c').0)) [
          | inl f ↦ ground (arith, send-positive packet c' n net)
          | inr s ↦
              let done = send-done packet c' s in
              let calm = push-trace packet packet_id c in
              rw (sent, s)
                (
                  ground arith,
                  rw frame l,
                  rw (done, calm) refl,
                  rw (frame, l, length-append) (omega arith),
                )
        ]
  ]

  -- The packet of a message with a QoS above 0.
  abbrev pub waiting_packet : List ℕ → PublishParams → Client → Result (List ℕ)
  waiting_packet topic_name params c =
      publish_packet_serialize c.write_buf_size
        (record { dup = params.dup; qos = params.qos; retain = params.retain })
        (get_next_packet_id c.next_packet_id) topic_name params.payload

  abbrev numbered : Client → Client
  numbered c = record c { next_packet_id = get_next_packet_id c.next_packet_id }

  mqtt_publish-waits :
      (topic_name : List ℕ) (params : PublishParams) (c : Client)
      → 0 < params.qos
      → let id = get_next_packet_id c.next_packet_id in
        mqtt_publish env topic_name params c ≡ elim (waiting_packet topic_name params c) [
          | ok packet ↦ publish_waiting env id packet (numbered c)
          | err e ↦ (serialize_rc e, numbered c)
          | fault u ↦ undefined_rc u (numbered c)
        ]
  unfolding mqtt_publish next_id
  mqtt_publish-waits topic_name params c q = ground arith

  -- A message with a QoS above 0 that cannot be sent leaves no entry in the list of those that
  -- wait, where the nodes of the list were allocated by earlier calls.
  pub mqtt_publish_failed :
      (topic_name : List ℕ) (params : PublishParams) (c : Client) (e : ℕ)
      → 0 < params.qos
      → Older c.step c.list_pub_wait_ack
      → (mqtt_publish env topic_name params c).0 ≡ negsuc e
      → (mqtt_publish env topic_name params c).1.list_pub_wait_ack ≡ c.list_pub_wait_ack
  mqtt_publish_failed topic_name params c e q old h =
      elim (Result-cases (waiting_packet topic_name params c)) [
        | inl (packet, p) ↦ ground (
          arith,
          mqtt_publish-waits topic_name params c q,
          waiting-failed packet (get_next_packet_id c.next_packet_id) (numbered c) e old,
        )
        | inr other ↦ elim other [
          | inl (e', p) ↦ ground (arith, mqtt_publish-waits topic_name params c q)
          | inr (u, p) ↦ ground (arith, mqtt_publish-waits topic_name params c q)
        ]
      ]

  -- Over a network layer that writes a packet whole or fails, a message with a QoS above 0 that
  -- `mqtt_publish` accepts has the next packet identifier, has been sent, and waits for its
  -- acknowledgement at the end of a list of at most 20 entries.
  pub mqtt_publish_queued :
      (topic_name : List ℕ) (params : PublishParams) (c : Client) (packet : List ℕ) (n : ℕ)
      → 0 < params.qos
      → ((k m : ℕ) → env.write k ≡ pos m → m ≡ 0)
      → waiting_packet topic_name params c ≡ ok packet
      → (mqtt_publish env topic_name params c).0 ≡ pos n
      → let c' = (mqtt_publish env topic_name params c).1 in
        (n ≡ get_next_packet_id c.next_packet_id)
        × (c'.list_pub_wait_ack ≡ c.list_pub_wait_ack ++ (new_info packet n c ∷ []))
        × (c'.trace ≡ c.trace ++ (net_write packet ∷ []))
        × (length c'.list_pub_wait_ack ≤ max_repub_num)
  mqtt_publish_queued topic_name params c packet n q net p h =
      let id = get_next_packet_id c.next_packet_id in
      let waits : mqtt_publish env topic_name params c
          ≡ publish_waiting env id packet (numbered c) =
        ground (arith, mqtt_publish-waits topic_name params c q) in
      let (same, list, sent, bound) =
        waiting-queued packet id (numbered c) n net (sym (ap (λ r. r.0) waits) ∙ h) in
      rw waits (same, rw same list, sent, bound)
