-- ===== src/Client/Api.antt =====
-- services/common/mqtt_client/src/mqtt_client.c: the functions that applications call. A pointer that may
-- be NULL is an Option, and a string in it its bytes; the client's pointer is handed on with its state.
pub mod Construct
pub mod Guards
pub mod Sync
use iot_hub_device_c_sdk.Prelude.{
  ℕ, zero, suc, ◌+◌, ◌/◌, List, [], ◌∷◌, ◌++◌, ℤ, pos, negsuc, Bool, true, false, not, ◌&&◌, Option,
  none, some, ltb, ◌==◌, length, if◌then◌else◌,
}
use iot_hub_device_c_sdk.Client.State.{
  Client, Env, M, ◌>>=◌, ◌>>◌, pure, emit, net_disconnect, free_user_data, SubscribeParams,
  ret_success, err_failure, err_mqtt_no_conn, err_max_topic_length, err_mqtt_qos_not_support,
  failed,
}
use iot_hub_device_c_sdk.Client.Common.{set_client_conn_state}
use iot_hub_device_c_sdk.Client.Handles.{
  is_sub_ready, get_subscribe_usr_data, sub_handle_array_clear,
}
use iot_hub_device_c_sdk.Client.WaitList.{sub_wait_list_clear, emit_all}
use iot_hub_device_c_sdk.Client.Publish.{PublishParams, mqtt_publish}
use iot_hub_device_c_sdk.Client.Subscribe.{mqtt_subscribe, mqtt_unsubscribe}
use iot_hub_device_c_sdk.Client.Connect.{mqtt_connect, mqtt_disconnect}
use iot_hub_device_c_sdk.Client.Yield.{mqtt_yield}

abbrev pub err_inval : ℤ
err_inval = negsuc 1001

-- 48 + 10 + 64 + 6
abbrev pub max_size_of_cloud_topic : ℕ
max_size_of_cloud_topic = 128

abbrev pub mqtt_yield_timeout : ℕ
mqtt_yield_timeout = 500

-- POINTER_SANITY_CHECK of the client.
abbrev pub with_client : {A : Type 0} → A → M A → Option Client → A × Option Client
with_client refused m none = (refused, none)
with_client refused m (some c) = let (a, c') = m c in (a, some c')

-- STRING_PTR_SANITY_CHECK
abbrev pub with_text : {A : Type 0} → A → Option (List ℕ) → (List ℕ → M A) → M A
with_text refused none m = pure refused
with_text refused (some []) m = pure refused
with_text refused (some (b ∷ bs)) m = m (b ∷ bs)

-- POINTER_SANITY_CHECK of the parameters.
abbrev pub with_params : {A P : Type 0} → A → Option P → (P → M A) → M A
with_params refused none m = pure refused
with_params refused (some p) m = m p

abbrev pub is_below_zero : ℤ → Bool
is_below_zero (pos n) = false
is_below_zero (negsuc n) = true

-- The tests of the length and the QoS.
unfoldable pub topic_checked : List ℕ → ℕ → M ℤ → M ℤ
topic_checked topic qos m =
    if ltb max_size_of_cloud_topic (length topic)
    then pure err_max_topic_length
    else if qos == 2
    then pure err_mqtt_qos_not_support
    else m

-- IOT_MQTT_IsSubReady
unfoldable pub iot_mqtt_is_sub_ready : Option (List ℕ) → Option Client → Bool × Option Client
iot_mqtt_is_sub_ready topic =
    with_client false (with_text false topic λ t c. (is_sub_ready t c.sub_handles, c))

-- IOT_MQTT_GetSubUsrData
unfoldable pub iot_mqtt_get_sub_usr_data : Option (List ℕ) → Option Client → ℕ × Option Client
iot_mqtt_get_sub_usr_data topic =
    with_client 0 (with_text 0 topic λ t c. (get_subscribe_usr_data t c.sub_handles, c))

-- IOT_MQTT_IsConnected: the error code for a NULL client is true as a bool.
unfoldable pub iot_mqtt_is_connected : Option Client → Bool × Option Client
iot_mqtt_is_connected = with_client (failed err_inval) (λ c. (c.is_connected, c))

-- _qcloud_iot_mqtt_client_deinit of a client that is whole; what it frees itself is memory and locks.
unfoldable pub client_deinit : M (Unit {0})
client_deinit c =
    let (effects, handles) = sub_handle_array_clear c.sub_handles in
    let c1 : Client = record c { sub_handles = handles; trace = c.trace ++ effects } in
    (
      tt,
      record c1 {
        list_pub_wait_ack = [];
        list_sub_wait_ack = [];
        trace = c1.trace ++ sub_wait_list_clear c1.list_sub_wait_ack;
      },
    )

module _ (env : Env) where
  -- IOT_MQTT_Connect
  unfoldable pub iot_mqtt_connect : ℕ → ℕ → Option Client → Option ℤ × Option Client
  iot_mqtt_connect fuel discard =
      with_client (some err_inval) λ c.
        (if not c.is_connected then mqtt_connect env fuel discard else pure (some ret_success)) c

  -- The disconnection of IOT_MQTT_Destroy: the network is closed by force if the packet did not leave.
  unfoldable pub destroy_connection : M ℤ
  destroy_connection = do
    rc ← mqtt_disconnect env
    (if failed rc then (do emit net_disconnect; set_client_conn_state false) else pure tt)
    pure rc

  -- IOT_MQTT_Destroy: the code, and the client as it is when it is freed; the pointer is NULL then.
  unfoldable pub iot_mqtt_destroy : Option Client → ℤ × Option Client
  unfolding destroy_connection client_deinit
  iot_mqtt_destroy = with_client err_inval (do rc ← destroy_connection; client_deinit; pure rc)

  -- IOT_MQTT_Yield
  unfoldable pub iot_mqtt_yield : ℕ → ℕ → ℕ → ℕ → Option Client → Option ℤ × Option Client
  iot_mqtt_yield rounds fuel discard timeout_ms =
      with_client (some err_inval) (mqtt_yield env rounds fuel discard timeout_ms)

  -- IOT_MQTT_Publish
  unfoldable pub iot_mqtt_publish :
      Option (List ℕ) → Option PublishParams → Option Client → ℤ × Option Client
  unfolding topic_checked
  iot_mqtt_publish topic params = with_client err_inval (
      with_params err_inval params λ p. with_text err_inval topic λ t c.
        (if not c.is_connected
            then pure err_mqtt_no_conn
            else topic_checked t p.qos (mqtt_publish env t p))
          c)

  -- IOT_MQTT_Subscribe behind the tests of its pointers
  unfoldable pub subscribe_now : List ℕ → SubscribeParams → M ℤ
  unfolding topic_checked
  subscribe_now topic params c =
      (if not c.is_connected && not c.default_subscribe
          then pure err_mqtt_no_conn
          else topic_checked topic params.qos (mqtt_subscribe env topic params))
        c

  -- IOT_MQTT_Subscribe
  unfoldable pub iot_mqtt_subscribe :
      Option (List ℕ) → Option SubscribeParams → Option Client → ℤ × Option Client
  unfolding subscribe_now
  iot_mqtt_subscribe topic params =
      with_client err_inval
        (with_params err_inval params λ p. with_text err_inval topic λ t. subscribe_now t p)

  -- IOT_MQTT_Unsubscribe
  unfoldable pub iot_mqtt_unsubscribe : Option (List ℕ) → Option Client → ℤ × Option Client
  unfolding topic_checked
  iot_mqtt_unsubscribe topic = with_client err_inval (
      with_text err_inval topic λ t c.
        (if not c.is_connected
            then pure err_mqtt_no_conn
            else topic_checked t 0 (mqtt_unsubscribe env t))
          c)

  -- The loop of IOT_MQTT_SubscribeSync, `count` rounds at most; nothing if the fuel of a round is out.
  unfoldable pub subscribe_wait : (count rounds fuel discard : ℕ) → List ℕ → ℤ → M (Option ℤ)
  subscribe_wait zero rounds fuel discard topic rc c = (some rc, c)
  subscribe_wait (suc count) rounds fuel discard topic rc c =
      let next = subscribe_wait count rounds fuel discard topic in
      if is_below_zero rc
      then (some rc, c)
      else if is_sub_ready topic c.sub_handles
      then (some rc, c)
      else (do
        rc' ← mqtt_yield env rounds fuel discard mqtt_yield_timeout
        elim rc' [ none ↦ pure none | some r ↦ next r ])
          c

  -- IOT_MQTT_SubscribeSync, for a client, a topic and parameters that are there
  unfoldable pub iot_mqtt_subscribe_sync :
      (rounds fuel discard : ℕ) → List ℕ → SubscribeParams → M (Option ℤ)
  unfolding subscribe_wait subscribe_now
  iot_mqtt_subscribe_sync rounds fuel discard topic params c =
      if is_sub_ready topic c.sub_handles
      then (do
        (if params.user_data_free then emit (free_user_data params.user_data) else pure tt)
        pure (some ret_success))
          c
      else let count = c.command_timeout_ms / mqtt_yield_timeout + 1 in
        let (rc, c1) = subscribe_now topic params c in
        if is_below_zero rc
        then (some rc, c1)
        else (do
          done ← subscribe_wait count rounds fuel discard topic rc
          elim done [
            | none ↦ pure none
            | some r ↦ (λ c2.
                (some (if is_sub_ready topic c2.sub_handles then ret_success else err_failure), c2))
          ])
            c1
