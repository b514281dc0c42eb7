-- ===== src/Services/Ota/Init.antt =====
-- services/common/ota/src/ota_mqtt.c: the subscription of the OTA service and what it publishes. Topics and
-- payloads are formatted by the C library.
use iot_hub_device_c_sdk.Prelude.{ℕ, List, ℤ, true, false, Option, none, some, ◌==◌, if◌then◌else◌}
use iot_hub_device_c_sdk.Client.State.{
  Client, Env, M, ◌>>=◌, ◌>>◌, pure, emit, free_user_data, SubscribeParams, err_malloc, failed,
}
use iot_hub_device_c_sdk.Client.Api.{
  err_inval, with_client, iot_mqtt_subscribe_sync, iot_mqtt_unsubscribe, iot_mqtt_publish,
}

-- The parameters of the subscription, with the address of the context.
abbrev pub ota_sub_params : ℕ → SubscribeParams
ota_sub_params context = record {
  qos = 1;
  on_message_handler = true;
  on_sub_event_handler = false;
  user_data = context;
  user_data_free = true;
}

module _ (env : Env) where
  -- _ota_mqtt_update_topic_check_and_sub: the address of the context is 0 if there is no memory.
  unfoldable pub ota_mqtt_update_topic_check_and_sub :
      (rounds fuel discard context : ℕ) → List ℕ → M (Option ℤ)
  ota_mqtt_update_topic_check_and_sub rounds fuel discard context topic =
      if context == 0 then pure (some err_malloc) else do
        rc ← iot_mqtt_subscribe_sync env rounds fuel discard topic (ota_sub_params context)
        elim rc [
          | none ↦ pure none
          | some r ↦ (do
            (if failed r then emit (free_user_data context) else pure tt)
            pure (some r))
        ]

  -- IOT_OTA_Init
  unfoldable pub iot_ota_init :
      (rounds fuel discard context : ℕ) → List ℕ → Option Client → Option ℤ × Option Client
  unfolding ota_mqtt_update_topic_check_and_sub
  iot_ota_init rounds fuel discard context topic =
      with_client (some err_inval)
        (ota_mqtt_update_topic_check_and_sub rounds fuel discard context topic)

  -- IOT_OTA_Deinit: the result of IOT_MQTT_Unsubscribe is not looked at.
  unfoldable pub iot_ota_deinit : List ℕ → Option Client → Option Client
  iot_ota_deinit topic client = (iot_mqtt_unsubscribe env (some topic) client).1

  -- _ota_mqtt_publish
  unfoldable pub ota_mqtt_publish : ℕ → (topic payload : List ℕ) → Option Client → ℤ × Option Client
  ota_mqtt_publish qos topic payload =
      iot_mqtt_publish env (some topic)
        (some (record { qos = qos; retain = 0; dup = 0; payload = payload }))
