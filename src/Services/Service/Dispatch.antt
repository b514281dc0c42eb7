-- ===== src/Services/Service/Dispatch.antt =====
-- services/explorer/service_mqtt/src/sevice_mqtt.c: which service a message goes to.
use iot_hub_device_c_sdk.Prelude.{Bool, ℕ, List, [], ◌∷◌, ◌++◌, true, false, ◌==◌, if◌then◌else◌}
use iot_hub_device_c_sdk.Services.Service.{ServiceType, RegisterParams, unregister}

-- Whether a service of the type is there.
unfoldable pub has_type : ServiceType → List RegisterParams → Bool
has_type type [] = false
has_type type (s ∷ services) =
    let rest = has_type type services in if s.type == type then true else rest

-- What unregistering leaves of the services and one more behind them, and frees: the first of its type goes.
unfoldable pub first_removed : RegisterParams → List RegisterParams → List RegisterParams × List ℕ
first_removed params services =
    if has_type params.type services
    then ((unregister params.type services).0 ++ (params ∷ []), (unregister params.type services).1)
    else (services, if params.user_data_free then params.usr_data ∷ [] else [])
