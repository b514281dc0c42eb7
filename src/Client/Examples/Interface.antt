-- ===== src/Client/Examples/Interface.antt =====
-- The interface of the client at concrete states: what the theorems about it say there.
use iot_hub_device_c_sdk.Prelude.{
  ℤ, ◌<◌, ◌≤◌, ◌≡◌, ◌↔◌, refl, [], ◌∷◌, pos, true, false, none, some, ◌&&◌, All, eq_bytes,
}
use iot_hub_device_c_sdk.Client.State.{SubTopicHandle, Client, ret_success}
use iot_hub_device_c_sdk.Client.Handles.{add_handle, find_slot, is_free, is_sub_ready, has_wildcard}
use iot_hub_device_c_sdk.Client.Connect.{mqtt_disconnect}
use iot_hub_device_c_sdk.Client.Api.{
  iot_mqtt_destroy, iot_mqtt_subscribe_sync, subscribe_now, subscribe_wait,
}
use iot_hub_device_c_sdk.Client.Handles.Laws.{find}
use iot_hub_device_c_sdk.Client.WaitList.{no_handle}
use iot_hub_device_c_sdk.Client.Subscribe.{mqtt_subscribe, add_sub_handle}
use iot_hub_device_c_sdk.Client.Api.Construct.{
  InitParams, Resources, client_fields, iot_mqtt_construct, null_dereferenced,
}
use iot_hub_device_c_sdk.Client.Api.Guards.{
  construct_null_iff, client_fields_bounds, iot_mqtt_destroy_clears,
}
use iot_hub_device_c_sdk.Client.Api.Sync.{subscribe_sync_ready}
use iot_hub_device_c_sdk.Client.Examples.{client, params, topic, network}

abbrev init_params : InitParams
init_params = record {
  client_id = b'c' ∷ [];
  command_timeout = 100;
  keep_alive_interval_ms = 1000000;
  clean_session = 1;
  h_fp = true;
  auto_connect_enable = true;
  default_subscribe = false;
  connect_when_construct = true;
}

-- There is no second mutex.
abbrev no_write_lock : Resources
no_write_lock = record {
  client = true;
  lock_generic = true;
  lock_write_buf = false;
  list_pub_wait_ack = true;
  list_sub_wait_ack = true;
  credentials = true;
}

construct_null_iff_at :
    (iot_mqtt_construct init_params no_write_lock 7 [] none (λ c. (pos 0, c)) ≡ null_dereferenced)
    ↔ ((true ≡ true) × ((true && (false && (true && true))) ≡ false))
construct_null_iff_at = construct_null_iff init_params no_write_lock 7 [] none (λ c. (pos 0, c))

abbrev made : Client
made = client_fields init_params 65535 [] none

client_fields_bounds_example :
    (500 ≤ made.command_timeout_ms)
    × (made.command_timeout_ms ≤ 20000)
    × (made.options.keep_alive_interval ≤ 690)
    × (made.next_packet_id < 65536)
client_fields_bounds_example = client_fields_bounds init_params 65535 [] none

iot_mqtt_destroy_clears_at :
    (c' : Client) × (iot_mqtt_destroy (network 0) (some client)
      ≡ ((mqtt_disconnect (network 0) client).0, some c'))
    × (c'.is_connected ≡ false)
    × All (λ h. is_free h ≡ true) c'.sub_handles
    × (c'.list_pub_wait_ack ≡ [])
    × (c'.list_sub_wait_ack ≡ [])
iot_mqtt_destroy_clears_at = iot_mqtt_destroy_clears (network 0) client

-- The client does not send SUBSCRIBE packets, and so takes a subscription for acknowledged at once.
abbrev subscribing : Client
subscribing = record client { default_subscribe = true; sub_handles = no_handle ∷ no_handle ∷ [] }

abbrev subscribed : ℤ × Client
subscribed = mqtt_subscribe (network 0) topic params subscribing

now_ready :
    iot_mqtt_subscribe_sync (network 0) 3 3 3 topic params subscribing
    ≡ (some ret_success, subscribed.1)
unfolding iot_mqtt_subscribe_sync is_sub_ready eq_bytes has_wildcard subscribe_now subscribe_wait
    mqtt_subscribe add_sub_handle add_handle find_slot
now_ready = refl

subscribe_sync_ready_example :
    (h : SubTopicHandle) × (find topic subscribed.1.sub_handles ≡ some h) × (h.status ≡ true)
subscribe_sync_ready_example =
    subscribe_sync_ready (network 0) 3 3 3 topic params subscribing subscribed.1
      (unfold has_wildcard in refl) now_ready
