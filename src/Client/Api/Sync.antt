-- ===== src/Client/Api/Sync.antt =====
-- services/common/mqtt_client/src/mqtt_client.c: subscribing and waiting for the acknowledgement.
use iot_hub_device_c_sdk.Prelude.{
  false, ℕ, zero, suc, ◌+◌, ◌/◌, ◌≡◌, ◌≢◌, List, ℤ, true, Option, none, some, arith, Bool-cases,
  Option-cases, inl, inr,
}
use iot_hub_device_c_sdk.Client.State.{Client, Env, SubTopicHandle, SubscribeParams, ret_success}
use iot_hub_device_c_sdk.Client.Handles.{has_wildcard, is_sub_ready}
use iot_hub_device_c_sdk.Client.Handles.Laws.{find, is_sub_ready-find}
use iot_hub_device_c_sdk.Client.Yield.{mqtt_yield}
use iot_hub_device_c_sdk.Client.Api.{
  is_below_zero, mqtt_yield_timeout, subscribe_now, subscribe_wait, iot_mqtt_subscribe_sync,
}

module _ (env : Env) (rounds fuel discard : ℕ) (topic : List ℕ) (params : SubscribeParams) where
  sync_ready :
      (c c' : Client)
      → iot_mqtt_subscribe_sync env rounds fuel discard topic params c ≡ (some ret_success, c')
      → is_sub_ready topic c'.sub_handles ≡ true
  unfolding iot_mqtt_subscribe_sync
  sync_ready c c' h = elim (Bool-cases (is_sub_ready topic c.sub_handles)) [
    | inl ready ↦ ground (arith, ready, h)
    | inr waiting ↦ elim (Bool-cases (is_below_zero (subscribe_now env topic params c).0)) [
      | inl bad ↦ ground (arith, waiting, bad, h)
      | inr good ↦
          let c1 : Client = (subscribe_now env topic params c).1 in
          let count : ℕ = c.command_timeout_ms / mqtt_yield_timeout + 1 in
          let rc : ℤ = (subscribe_now env topic params c).0 in
          let waited : Option ℤ × Client =
            subscribe_wait env count rounds fuel discard topic rc c1 in
          elim (Option-cases waited.0) [
            | inl e ↦ ground (arith, waiting, good, e, h)
            | inr (r, e) ↦ elim (Bool-cases (is_sub_ready topic waited.1.sub_handles)) [
              | inl ready ↦ ground (arith, waiting, good, e, ready, h)
              | inr not_ready ↦ ground (arith, waiting, good, e, not_ready, h)
            ]
          ]
    ]
  ]

  -- If IOT_MQTT_SubscribeSync of a topic without a wildcard returns 0, the array has a subscription of just
  -- this topic when it returns, and that is acknowledged.
  pub subscribe_sync_ready :
      (c c' : Client)
      → has_wildcard topic ≡ false
      → iot_mqtt_subscribe_sync env rounds fuel discard topic params c ≡ (some ret_success, c')
      → (h : SubTopicHandle) × (find topic c'.sub_handles ≡ some h) × (h.status ≡ true)
  subscribe_sync_ready c c' w h = is_sub_ready-find topic c'.sub_handles w (sync_ready c c' h)

  -- The wait ends if every yield of the loop does.
  subscribe_wait_ends :
      (count : ℕ) (rc : ℤ) (c : Client)
      → ((d : Client) → (mqtt_yield env rounds fuel discard mqtt_yield_timeout d).0 ≢ none)
      → (subscribe_wait env count rounds fuel discard topic rc c).0 ≢ none
  unfolding subscribe_wait
  subscribe_wait_ends zero rc c yields = λ e. cc
  subscribe_wait_ends (suc count) rc c yields =
      elim (Option-cases (mqtt_yield env rounds fuel discard mqtt_yield_timeout c).0) [
        | inl e ↦ absurd (yields c e)
        | inr (r, e) ↦ ground (
          arith,
          e,
          subscribe_wait_ends count r (mqtt_yield env rounds fuel discard mqtt_yield_timeout c).1
              yields,
        )
      ]

  -- IOT_MQTT_SubscribeSync returns, if every yield of its loop does.
  pub subscribe_sync_ends :
      (c : Client)
      → ((d : Client) → (mqtt_yield env rounds fuel discard mqtt_yield_timeout d).0 ≢ none)
      → (iot_mqtt_subscribe_sync env rounds fuel discard topic params c).0 ≢ none
  unfolding iot_mqtt_subscribe_sync
  subscribe_sync_ends c yields = elim (Bool-cases (is_sub_ready topic c.sub_handles)) [
    | inl ready ↦ rw ready (λ e. cc)
    | inr waiting ↦ ground (
      arith,
      waiting,
      subscribe_wait_ends (c.command_timeout_ms / mqtt_yield_timeout + 1)
          (subscribe_now env topic params c).0 (subscribe_now env topic params c).1 yields,
    )
  ]
