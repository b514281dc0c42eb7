-- ===== src/Client/Subscribe/Ack.antt =====
-- The answers of the server to SUBSCRIBE.
use iot_hub_device_c_sdk.Prelude.{
  ℕ, ◌^◌, ◌<◌, ◌≤◌, ◌≡◌, List, [], ◌∷◌, ◌++◌, true, false, Option, none, some, if◌then◌else◌,
  eq_bytes, eq_bytes_refl, ℤ, arith,
}
use iot_hub_device_c_sdk.Packet.Defs.{ok}
use iot_hub_device_c_sdk.Packet.Wire.{int_bytes}
use iot_hub_device_c_sdk.Packet.Suback.{suback_reads}
use iot_hub_device_c_sdk.Packet.Deserialize.{
  suback_packet_deserialize, char_to_int, CharKind, signed_char, unsigned_char,
}
use iot_hub_device_c_sdk.Client.State.{
  Client, Env, Text, SubTopicHandle, SubInfo, ret_success, err_mqtt_sub,
}
use iot_hub_device_c_sdk.Client.Handles.{has_wildcard}
use iot_hub_device_c_sdk.Client.Handles.Laws.{find, find-remove_handles, find-set_status}
use iot_hub_device_c_sdk.Client.WaitList.{pop_sub_info}
use iot_hub_device_c_sdk.Client.Subscribe.{
  is_nack, suback_codes, suback_result, handle_suback, pop_handle, remove_sub_handle,
}

-- The subscription of a topic with its new status.
abbrev pub acknowledged : Option SubTopicHandle → Option SubTopicHandle
acknowledged none = none
acknowledged (some h) = some (record h { status = true })

suback_result_lem :
    (i : ℕ) (code : ℤ) (h : SubTopicHandle) (t other : List ℕ) (c : Client)
    → has_wildcard t ≡ false
    → let (rc, c') = suback_result i code h t c in
      (rc ≡ (if is_nack code then err_mqtt_sub else ret_success))
      × (find other c'.sub_handles ≡ (
          if eq_bytes t other
          then (if is_nack code then none else acknowledged (find other c.sub_handles))
          else find other c.sub_handles))
      × (c'.list_sub_wait_ack ≡ c.list_sub_wait_ack)
unfolding suback_result remove_sub_handle
suback_result_lem i code h t other c w =
    ground (
      arith,
      find-remove_handles t other c.sub_handles w,
      find-set_status t other true c.sub_handles,
    )

suback_codes-one :
    (i : ℕ) (code : ℤ) (c : Client) {h : SubTopicHandle} {rest : List SubInfo} {t : Text}
    → pop_sub_info i c.list_sub_wait_ack ≡ (h, rest)
    → h.topic_filter ≡ some t
    → suback_codes i (code ∷ []) c
      ≡ suback_result i code h t.bytes (record c { list_sub_wait_ack = rest })
unfolding suback_codes pop_handle
suback_codes-one i code c e named = ground arith

-- What becomes of a subscription that the server refuses.
abbrev pub Refused : CharKind → ℤ → Option SubTopicHandle → Option SubTopicHandle → Type 0
Refused unsigned_char rc before after = (rc ≡ err_mqtt_sub) × (after ≡ none)
Refused signed_char rc before after = (rc ≡ ret_success) × (after ≡ acknowledged before)

module _ (env : Env) where
  pub handle_suback_lem :
      (c : Client) (i : ℕ) (code : ℤ) (other : List ℕ) {h : SubTopicHandle} {rest : List SubInfo}
      {t : Text}
      → suback_packet_deserialize env.char_kind c.read_buf_size 1 c.read_buf ≡ ok (i, code ∷ [])
      → pop_sub_info i c.list_sub_wait_ack ≡ (h, rest)
      → h.topic_filter ≡ some t
      → has_wildcard t.bytes ≡ false
      → let (rc, c') = handle_suback env c in
        (rc ≡ (if is_nack code then err_mqtt_sub else ret_success))
        × (find other c'.sub_handles ≡ (
            if eq_bytes t.bytes other
            then (if is_nack code then none else acknowledged (find other c.sub_handles))
            else find other c.sub_handles))
        × (c'.list_sub_wait_ack ≡ rest)
  unfolding handle_suback
  handle_suback_lem c i code other {h} {rest} {t} e popped named w =
      let c1 : Client = record c { list_sub_wait_ack = rest } in
      ground (
        arith,
        e,
        suback_codes-one i code c popped named,
        suback_result_lem i code h t.bytes other c1 w,
      )

  -- The SUBACK with the code 0x80, for a subscription that waits and whose topic has no wildcard,
  -- with an identifier below 2 ^ 16 and in a buffer of 5 bytes or more, removes the subscription
  -- only where `char` is unsigned: where it is signed, the subscription counts as acknowledged.
  pub handle_suback_refusal :
      (c : Client) (i : ℕ) (more : List ℕ) {h : SubTopicHandle} {rest : List SubInfo} {t : Text}
      → i < 2 ^ 16
      → 5 ≤ c.read_buf_size
      → c.read_buf ≡ 144 ∷ 3 ∷ (int_bytes i ++ (128 ∷ more))
      → pop_sub_info i c.list_sub_wait_ack ≡ (h, rest)
      → h.topic_filter ≡ some t
      → has_wildcard t.bytes ≡ false
      → let (rc, c') = handle_suback env c in
        Refused env.char_kind rc (find t.bytes c.sub_handles) (find t.bytes c'.sub_handles)
  handle_suback_refusal c i more {h} {rest} {t} small room bytes popped named w =
      let read : suback_packet_deserialize env.char_kind c.read_buf_size 1 c.read_buf
          ≡ ok (i, char_to_int env.char_kind 128 ∷ []) =
        rw bytes (
          suback_reads env.char_kind c.read_buf_size 1 i (128 ∷ []) more small (omega arith)
            room) in
      let handled =
        handle_suback_lem c i (char_to_int env.char_kind 128) t.bytes read popped named w in
      ground (arith, handled, eq_bytes_refl t.bytes)
