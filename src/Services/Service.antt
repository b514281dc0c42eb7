-- ===== src/Services/Service.antt =====
-- services/explorer/service_mqtt/src/sevice_mqtt.c: the services that are registered for the methods of
-- messages. The list of them is a sequence, as that of the packets that wait.
pub mod Dispatch
mod Tests
use iot_hub_device_c_sdk.Prelude.{
  ℕ, List, [], ◌∷◌, ◌++◌, ℤ, Bool, true, false, ◌&&◌, not, Option, none, some, ltb, ◌==◌, eq_bytes,
  length, if◌then◌else◌,
}
use iot_hub_device_c_sdk.Client.State.{Client, Env, M, ret_success, err_failure, err_malloc}
use iot_hub_device_c_sdk.Client.Publish.{PublishParams}
use iot_hub_device_c_sdk.Client.Api.{iot_mqtt_publish, iot_mqtt_unsubscribe}
use iot_hub_device_c_sdk.Services.Ota.{payload_value}

-- ServiceType, whose only value is SERVICE_TYPE_FILE_MANAGE, kept as its number.
abbrev pub ServiceType : Type 0
ServiceType = ℕ

-- ServiceRegisterParams, of what the list looks at.
pub record RegisterParams : Type 0 where
  pub type : ServiceType
  pub method_list : List (List ℕ)
  pub usr_data : ℕ
  pub user_data_free : Bool

-- The length that utils_list_create is given.
abbrev pub max_services : ℕ
max_services = 10

abbrev pub method_text : List ℕ
method_text = b'm' ∷ b'e' ∷ b't' ∷ b'h' ∷ b'o' ∷ b'd' ∷ []

-- The loop of _server_list_process_message_callback.
unfoldable pub has_method : List ℕ → List (List ℕ) → Bool
has_method method [] = false
has_method method (name ∷ names) =
    let rest = has_method method names in if eq_bytes name method then true else rest

-- The traversal with _server_list_process_message_callback: the user data of the service whose handler is
-- called.
unfoldable pub process_message : List ℕ → List RegisterParams → Option ℕ
unfolding has_method
process_message method [] = none
process_message method (s ∷ services) =
    let rest = process_message method services in
    if has_method method s.method_list then some s.usr_data else rest

-- _service_mqtt_message_handle
unfoldable pub service_mqtt_message_handle : List ℕ → List RegisterParams → Option ℕ
unfolding process_message
service_mqtt_message_handle payload services = elim (payload_value payload method_text) [
  | none ↦ none
  | some method ↦ process_message method services
]

-- service_mqtt_service_register, `memory` being whether there is some; no list is there for a client that
-- has no subscription of the topic.
unfoldable pub service_register :
    (memory : Bool)
    → RegisterParams
    → Option (List RegisterParams)
    → ℤ × Option (List RegisterParams)
service_register memory params none = (err_failure, none)
service_register memory params (some services) =
    if memory && ltb (length services) max_services
    then (ret_success, some (services ++ (params ∷ [])))
    else (err_malloc, some services)

-- The traversal with _server_list_unregister_callback: the services that stay, and the user data that is
-- freed.
unfoldable pub unregister : ServiceType → List RegisterParams → List RegisterParams × List ℕ
unregister type [] = ([], [])
unregister type (s ∷ services) =
    let rest = unregister type services in
    if s.type == type
    then (services, if s.user_data_free then s.usr_data ∷ [] else [])
    else (s ∷ rest.0, rest.1)

-- service_mqtt_service_unregister
unfoldable pub service_unregister :
    ServiceType → Option (List RegisterParams) → Option (List RegisterParams) × List ℕ
unfolding unregister
service_unregister type none = (none, [])
service_unregister type (some services) =
    let (stay, freed) = unregister type services in (some stay, freed)

module _ (env : Env) where
  -- service_mqtt_deinit: the topic is unsubscribed if no service is left.
  unfoldable pub service_deinit :
      (topic : List ℕ) → Option (List RegisterParams) → Option Client → Option Client
  service_deinit topic none client = client
  service_deinit topic (some services) client =
      if length services == 0 then (iot_mqtt_unsubscribe env (some topic) client).1 else client

  -- service_mqtt_publish
  unfoldable pub service_publish : ℕ → (topic payload : List ℕ) → Option Client → ℤ × Option Client
  service_publish qos topic payload =
      iot_mqtt_publish env (some topic)
        (some (record { qos = qos; retain = 0; dup = 0; payload = payload }))
