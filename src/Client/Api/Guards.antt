-- ===== src/Client/Api/Guards.antt =====
-- services/common/mqtt_client/src/mqtt_client.c: what construction and destruction leave.
use iot_hub_device_c_sdk.Prelude.{
  ℕ, ◌≤◌, ◌<◌, ◌≡◌, ◌↔◌, refl, List, [], ◌∷◌, ℤ, true, false, ◌&&◌, Option, some, arith, All,
}
use iot_hub_device_c_sdk.Client.State.{Client, Env, SubTopicHandle}
use iot_hub_device_c_sdk.Client.Handles.{is_free, clear_sub_handle, sub_handle_array_clear}
use iot_hub_device_c_sdk.Client.Connect.{mqtt_disconnect}
use iot_hub_device_c_sdk.Client.Connect.Laws.{mqtt_disconnect_state}
use iot_hub_device_c_sdk.Client.Common.{set_client_conn_state}
use iot_hub_device_c_sdk.Client.Api.{destroy_connection, client_deinit, iot_mqtt_destroy}
use iot_hub_device_c_sdk.Client.Api.Construct.{
  InitParams, Resources, null_dereferenced, client_fields, command_timeout_ms, keep_alive_interval,
  random_start_packet_id, connect_option, suback_wait_list_clear, iot_mqtt_construct,
}

module _ (params : InitParams) (r : Resources) (random : ℕ) (username : List ℕ)
    (password : Option (List ℕ)) (connect : Client → ℤ × Client) where
  -- IOT_MQTT_Construct dereferences NULL exactly when there was memory for the client but one of its two
  -- mutexes or two lists could not be made. Missing credentials and a connection that fails are refused.
  pub construct_null_iff :
      (iot_mqtt_construct params r random username password connect ≡ null_dereferenced) ↔ (
        (r.client ≡ true)
        × ((r.lock_generic && (r.lock_write_buf && (r.list_pub_wait_ack && r.list_sub_wait_ack)))
            ≡ false))
  unfolding iot_mqtt_construct suback_wait_list_clear
  construct_null_iff = ground arith

-- The numbers of a new client are in range, whatever it is given: the command timeout between 500 ms and
-- 20 s, the keep-alive interval at most 690 s, and the packet identifier in 16 bits, where it may be 0.
pub client_fields_bounds :
    (params : InitParams) (random : ℕ) (username : List ℕ) (password : Option (List ℕ))
    → (500 ≤ (client_fields params random username password).command_timeout_ms)
      × ((client_fields params random username password).command_timeout_ms ≤ 20000)
      × ((client_fields params random username password).options.keep_alive_interval ≤ 690)
      × ((client_fields params random username password).next_packet_id < 65536)
unfolding client_fields command_timeout_ms keep_alive_interval random_start_packet_id connect_option
client_fields_bounds params random username password = ground arith

array_clear-All :
    (hs : List SubTopicHandle) → All (λ h. is_free h ≡ true) (sub_handle_array_clear hs).1
unfolding sub_handle_array_clear clear_sub_handle is_free
array_clear-All [] = tt
array_clear-All (h ∷ hs) = (refl, array_clear-All hs)

destroy_connection_lem :
    (env : Env) (c : Client) → (destroy_connection env c).1.is_connected ≡ false
unfolding destroy_connection set_client_conn_state
destroy_connection_lem env c = ground (arith, mqtt_disconnect_state env c)

-- IOT_MQTT_Destroy of a client: it is not connected any more, whether or not the DISCONNECT packet left,
-- every subscription is cleared, nothing waits for an acknowledgement, and the result is that of the
-- disconnection.
pub iot_mqtt_destroy_clears :
    (env : Env) (c : Client)
    → (c' : Client) × (iot_mqtt_destroy env (some c) ≡ ((mqtt_disconnect env c).0, some c'))
      × (c'.is_connected ≡ false)
      × All (λ h. is_free h ≡ true) c'.sub_handles
      × (c'.list_pub_wait_ack ≡ [])
      × (c'.list_sub_wait_ack ≡ [])
unfolding iot_mqtt_destroy destroy_connection client_deinit
iot_mqtt_destroy_clears env c =
    let c1 : Client = (destroy_connection env c).1 in
    (
      (client_deinit c1).1,
      refl,
      destroy_connection_lem env c,
      array_clear-All c1.sub_handles,
      refl,
      refl,
    )
