-- ===== src/Client/Subscribe/Remove.antt =====
-- What UNSUBSCRIBE does to the subscriptions.
use iot_hub_device_c_sdk.Prelude.{
  ℕ, ◌+◌, ◌≡◌, refl, List, [], ◌∷◌, ◌++◌, false, Option, none, some, if◌then◌else◌, eq_bytes, ℤ,
  arith, Option-cases, inl, inr,
}
use iot_hub_device_c_sdk.Packet.Defs.{Result-cases, unsubscribe}
use iot_hub_device_c_sdk.Packet.Serialize.{unsubscribe_packet_serialize}
use iot_hub_device_c_sdk.Client.State.{Client, Env, SubTopicHandle, err_mqtt_unsub_fail}
use iot_hub_device_c_sdk.Client.Common.{next_id}
use iot_hub_device_c_sdk.Client.Handles.{has_wildcard, remove_handles}
use iot_hub_device_c_sdk.Client.Handles.Laws.{find, find-remove_handles}
use iot_hub_device_c_sdk.Client.WaitList.{no_handle, push_sub_info_to_list}
use iot_hub_device_c_sdk.Client.Subscribe.{mqtt_unsubscribe, unsubscribe_waiting, remove_sub_handle}
use iot_hub_device_c_sdk.Client.Subscribe.Undo.{push-handles, send-handles}

remove_handles-none :
    (topic : List ℕ) (hs : List SubTopicHandle)
    → has_wildcard topic ≡ false
    → find topic hs ≡ none
    → (remove_handles topic hs).0 ≡ false
unfolding remove_handles find
remove_handles-none topic [] w e = refl
remove_handles-none topic (h ∷ hs) w e = ground (arith, remove_handles-none topic hs w)

-- The result where there was no subscription.
abbrev pub FailsWithout : Option SubTopicHandle → ℤ → Type 0
FailsWithout none rc = rc ≡ err_mqtt_unsub_fail
FailsWithout (some h) rc = Unit

module _ (env : Env) where
  unsubscribe_waiting-handles :
      (h : SubTopicHandle) (topic : List ℕ) (c : Client)
      → (unsubscribe_waiting env h topic c).1.sub_handles ≡ c.sub_handles
  unfolding unsubscribe_waiting next_id
  unsubscribe_waiting-handles h topic c =
      let c1 = (next_id c).1 in
      let id = (next_id c).0 in
      elim (Result-cases (unsubscribe_packet_serialize c.write_buf_size id (topic ∷ []))) [
        | inr failure ↦ ground arith
        | inl (packet, p) ↦
            let pushed = push_sub_info_to_list env packet id unsubscribe h c1 in
            let kept = push-handles env packet id unsubscribe h c1 in
            elim (Option-cases pushed.0) [
              | inl full ↦ ground arith
              | inr (node, stored) ↦ ground (arith, send-handles env packet pushed.1)
            ]
      ]

  -- Unsubscribing a topic without a wildcard removes its subscriptions and no other, whatever becomes of the
  -- UNSUBSCRIBE packet; where there was none, it fails with QCLOUD_ERR_MQTT_UNSUB_FAIL.
  pub mqtt_unsubscribe_removes :
      (topic other : List ℕ) (c : Client)
      → has_wildcard topic ≡ false
      → let (rc, c') = mqtt_unsubscribe env topic c in
        (find other c'.sub_handles
          ≡ (if eq_bytes topic other then none else find other c.sub_handles))
        × FailsWithout (find topic c.sub_handles) rc
  unfolding mqtt_unsubscribe remove_sub_handle
  mqtt_unsubscribe_removes topic other c w =
      let (exists, effects, hs) = remove_handles topic c.sub_handles in
      let c1 : Client = record c {
        trace = c.trace ++ effects;
        sub_handles = hs;
        step = c.step + 1;
      } in
      let handle : SubTopicHandle = record no_handle {
        topic_filter = some (record { addr = c.step; bytes = topic });
      } in
      let removed = find-remove_handles topic other c.sub_handles w in
      let sent = unsubscribe_waiting-handles handle topic c1 in
      elim (Option-cases (find topic c.sub_handles)) [
        | inl absent ↦ ground (arith, remove_handles-none topic c.sub_handles w absent)
        | inr (h, present) ↦ ground arith
      ]
