-- ===== src/Client/Api/Construct.antt =====
-- services/common/mqtt_client/src/mqtt_client.c: the construction of a client, and what it does where
-- memory or a mutex is missing.
use iot_hub_device_c_sdk.Prelude.{
  ℕ, ◌+◌, ◌/◌, ◌%◌, ◌^◌, List, [], ℤ, Bool, false, not, ◌&&◌, Option, none, some, ltb, replicate,
  if◌then◌else◌,
}
use iot_hub_device_c_sdk.Packet.Defs.{ConnectOption}
use iot_hub_device_c_sdk.Client.State.{Client, Effect, SubInfo, failed}
use iot_hub_device_c_sdk.Client.WaitList.{sub_wait_list_clear, no_handle, max_message_handlers}
use iot_hub_device_c_sdk.Client.RepeatBuf.{mqtt_max_repeat_buf_len}

abbrev pub min_command_timeout : ℕ
min_command_timeout = 500

abbrev pub max_command_timeout : ℕ
max_command_timeout = 20000

abbrev pub mqtt_tx_buf_len : ℕ
mqtt_tx_buf_len = 2048

abbrev pub mqtt_rx_buf_len : ℕ
mqtt_rx_buf_len = 4096

-- MQTTInitParams, of what the client reads. The texts are those of the device.
pub record InitParams : Type 0 where
  pub client_id : List ℕ
  pub command_timeout : ℕ
  pub keep_alive_interval_ms : ℕ
  pub clean_session : ℕ
  pub h_fp : Bool
  pub auto_connect_enable : Bool
  pub default_subscribe : Bool
  pub connect_when_construct : Bool

-- command timeout should be in range [MIN_COMMAND_TIMEOUT, MAX_COMMAND_TIMEOUT]
unfoldable pub command_timeout_ms : ℕ → ℕ
command_timeout_ms timeout =
    if ltb timeout min_command_timeout
    then min_command_timeout
    else if ltb max_command_timeout timeout
    then max_command_timeout
    else timeout

-- Upper limit of keep alive interval is (11.5 * 60) seconds
unfoldable pub keep_alive_interval : ℕ → ℕ
keep_alive_interval ms = if ltb 690 (ms / 1000) then 690 else ms / 1000

-- _get_random_start_packet_id, from what rand returns
unfoldable pub random_start_packet_id : ℕ → ℕ
random_start_packet_id random = (random % 65536 + 1) % 2 ^ 16

-- _mqtt_client_connect_option_init: the user name and the password are formatted by the C library.
unfoldable pub connect_option :
    InitParams → (username : List ℕ) → (password : Option (List ℕ)) → ConnectOption
unfolding keep_alive_interval
connect_option params username password = record {
  mqtt_version = 4;
  client_id = params.client_id;
  keep_alive_interval = keep_alive_interval params.keep_alive_interval_ms;
  clean_session = params.clean_session;
  will_flag = 0;
  will = record { topic_name = []; message = []; retained = 0; qos = 0 };
  username = some username;
  password = password;
}

-- The fields that _qcloud_iot_mqtt_client_init sets in the zeroed structure.
unfoldable pub client_fields :
    InitParams → (random : ℕ) → (username : List ℕ) → (password : Option (List ℕ)) → Client
unfolding connect_option command_timeout_ms random_start_packet_id
client_fields params random username password = record {
  next_packet_id = random_start_packet_id random;
  command_timeout_ms = command_timeout_ms params.command_timeout;
  write_buf_size = mqtt_tx_buf_len;
  read_buf = replicate mqtt_rx_buf_len 0;
  read_buf_size = mqtt_rx_buf_len;
  h_fp = params.h_fp;
  auto_connect_enable = params.auto_connect_enable;
  default_subscribe = params.default_subscribe;
  list_pub_wait_ack = [];
  list_sub_wait_ack = [];
  options = connect_option params username password;
  sub_handles = replicate max_message_handlers no_handle;
  ping_timer = 0;
  reconnect_delay_timer = 0;
  was_manually_disconnected = false;
  is_ping_outstanding = 0;
  current_reconnect_wait_interval = 0;
  is_connected = false;
  counter_network_disconnected = 0;
  repeat_buf = record { ids = replicate mqtt_max_repeat_buf_len 0; cnt = 0 };
  step = 0;
  trace = [];
}

-- Whether each of the things that a client needs could be made.
pub record Resources : Type 0 where
  pub client : Bool
  pub lock_generic : Bool
  pub lock_write_buf : Bool
  pub list_pub_wait_ack : Bool
  pub list_sub_wait_ack : Bool
  pub credentials : Bool

-- _qcloud_iot_mqtt_client_init: whether it succeeds, and what list_sub_wait_ack is then, `none` for NULL. A
-- list that cannot be made makes both NULL; a missing mutex leaves both NULL, as calloc made them.
unfoldable pub client_init : Resources → Bool × Option (List SubInfo)
client_init r =
    if not r.lock_generic
    then (false, none)
    else if not r.lock_write_buf
    then (false, none)
    else if not (r.list_pub_wait_ack && r.list_sub_wait_ack)
    then (false, none)
    else (r.credentials, some [])

pub data Constructed : Type 0 where
  constructed : Client → Constructed
  refused : Constructed
  null_dereferenced : Constructed

-- qcloud_iot_mqtt_suback_wait_list_clear: utils_list_process takes the lock that the list points to before
-- anything else, so that for NULL it reads through NULL, and there is no result.
unfoldable pub suback_wait_list_clear : Option (List SubInfo) → Option (List Effect)
suback_wait_list_clear none = none
suback_wait_list_clear (some infos) = some (sub_wait_list_clear infos)

-- _qcloud_iot_mqtt_client_deinit behind a failure, of a client whose array of subscriptions is empty.
unfoldable pub failed_deinit : Option (List SubInfo) → Constructed
unfolding suback_wait_list_clear
failed_deinit list_sub_wait_ack = elim (suback_wait_list_clear list_sub_wait_ack) [
  | none ↦ null_dereferenced
  | some effects ↦ refused
]

-- IOT_MQTT_Construct, for parameters that are there: `connect` is qcloud_iot_mqtt_connect.
unfoldable pub iot_mqtt_construct :
    InitParams
    → Resources
    → (random : ℕ) → (username : List ℕ) → (password : Option (List ℕ))
    → (connect : Client → ℤ × Client) → Constructed
unfolding client_init client_fields failed_deinit
iot_mqtt_construct params r random username password connect =
    if not r.client
    then refused
    else let (ok, list_sub_wait_ack) = client_init r in
      if not ok
      then failed_deinit list_sub_wait_ack
      else let client : Client = client_fields params random username password in
        if not params.connect_when_construct
        then constructed client
        else let (rc, client') = connect client in
          if failed rc then failed_deinit (some client'.list_sub_wait_ack) else constructed client'
