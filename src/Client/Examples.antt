-- ===== src/Client/Examples.antt =====
-- Runs of the client of services/common/mqtt_client, and its theorems at concrete states.
mod Link
mod Topics
mod Messages
mod Waiting
mod Interface
use iot_hub_device_c_sdk.Prelude.{
  ℕ, zero, suc, ◌+◌, ◌<◌, ◌≡◌, refl, List, [], ◌∷◌, ◌++◌, arith, length, take, replicate, Option,
  none, some, ℤ, pos, negsuc, true, false, if◌then◌else◌, ◌==◌,
}
use iot_hub_device_c_sdk.Packet.Defs.{ConnectOption}
use iot_hub_device_c_sdk.Packet.Deserialize.{signed_char, unsigned_char}
use iot_hub_device_c_sdk.Client.State.{Client, Env, Text, SubTopicHandle, SubscribeParams, SubInfo}
use iot_hub_device_c_sdk.Client.RepeatBuf.{RepeatBuf}
use iot_hub_device_c_sdk.Client.WaitList.{no_handle}

-- A network that accepts what is written and answers a connection with a CONNACK of the given code; a clock
-- that moves by one with each call.
abbrev pub network : ℕ → Env
network code = record {
  char_kind = signed_char;
  read = λ k len timeout. (pos 0, (if k == 6 then 32 else if k == 8 then 2 else 0) ∷ code ∷ []);
  malloc = λ k. true;
  write = λ k. pos 0;
  connect = λ k. pos 0;
  now = λ k. k;
  random = λ k. k;
}

-- The same on a network that is down.
abbrev pub broken : Env
broken = record (network 0) { write = λ k. negsuc 606 }

-- A network that gives as many bytes as are asked for.
abbrev pub generous : Env
generous = record (network 0) { read = λ k len timeout. (pos 0, replicate len 0) }

abbrev pub topic : List ℕ
topic = b'a' ∷ b'/' ∷ b'b' ∷ []

abbrev pub params : SubscribeParams
params = record {
  qos = 1;
  on_message_handler = true;
  on_sub_event_handler = true;
  user_data = 7;
  user_data_free = false;
}

-- A subscription of the topic that waits for its SUBACK.
abbrev pub handle : SubTopicHandle
handle = record {
  topic_filter = some (record { addr = 1; bytes = topic });
  status = false;
  params = params;
}

abbrev pub options : ConnectOption
options = record {
  mqtt_version = 4;
  client_id = b'c' ∷ [];
  keep_alive_interval = 60;
  clean_session = 1;
  will_flag = 0;
  will = record { topic_name = []; message = []; retained = 0; qos = 0 };
  username = none;
  password = none;
}

abbrev pub client : Client
client = record {
  next_packet_id = 4;
  command_timeout_ms = 5000;
  write_buf_size = 64;
  read_buf = replicate 16 0;
  read_buf_size = 16;
  h_fp = true;
  auto_connect_enable = true;
  default_subscribe = false;
  list_pub_wait_ack = [];
  list_sub_wait_ack = [];
  options = options;
  sub_handles = handle ∷ no_handle ∷ [];
  ping_timer = 0;
  reconnect_delay_timer = 0;
  was_manually_disconnected = false;
  is_ping_outstanding = 0;
  current_reconnect_wait_interval = 1000;
  is_connected = false;
  counter_network_disconnected = 0;
  repeat_buf = record { ids = replicate 10 0; cnt = 0 };
  step = 0;
  trace = [];
}
