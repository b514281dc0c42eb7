-- ===== src/Client/State.antt =====
-- services/common/mqtt_client/inc/mqtt_client.h: the state of the client, and what it does to the
-- outside. A callback is an entry of the trace: what an application does inside it is not modelled.
use iot_hub_device_c_sdk.Prelude.{
  ℕ, List, [], ◌∷◌, ◌++◌, ℤ, pos, negsuc, Bool, false, Option, if◌then◌else◌, is_zero, not, ◌==ℤ◌,
  ◌||◌,
}
use iot_hub_device_c_sdk.Packet.Defs.{ConnectOption, Fault, PacketError, PacketType}
use iot_hub_device_c_sdk.Packet.Defs.{
  invalid_packet_type, short_buffer, version_unsupported, sub_count_exceed,
}
use iot_hub_device_c_sdk.Packet.Deserialize.{Publish, CharKind}
use iot_hub_device_c_sdk.Client.RepeatBuf.{RepeatBuf}

-- MQTTEventType, those that the client raises.
pub data EventType : Type 0 where
  event_disconnect event_reconnect event_subscribe_success event_subscribe_timeout : EventType
  event_subscribe_nack event_unsubscribe_success event_unsubscribe_timeout : EventType
  event_publish_success event_publish_timeout event_client_destroy event_unsubscribe : EventType

-- A string in the heap: its address and its bytes.
pub record Text : Type 0 where
  pub addr : ℕ
  pub bytes : List ℕ

-- SubscribeParams. A callback is known by whether it is set, the user data by a number, 0 for NULL.
pub record SubscribeParams : Type 0 where
  pub qos : ℕ
  pub on_message_handler : Bool
  pub on_sub_event_handler : Bool
  pub user_data : ℕ
  pub user_data_free : Bool

-- SubTopicHandle. `status` is whether it is SUB_ACK_RECEIVED.
pub record SubTopicHandle : Type 0 where
  pub topic_filter : Option Text
  pub status : Bool
  pub params : SubscribeParams

-- What the client does that others see.
pub data Effect : Type 0 where
  net_connect net_disconnect : Effect
  net_write : List ℕ → Effect
  client_event : EventType → ℕ → Effect
  publish_received : Publish → Effect
  sub_event : EventType → ℕ → Effect
  message : ℕ → Publish → Effect
  free_text free_user_data : ℕ → Effect
  undefined_behaviour : Fault → Effect

-- QcloudIotPubInfo, with the address of its list node.
pub record PubInfo : Type 0 where
  pub node : ℕ
  pub buf : List ℕ
  pub packet_id : ℕ
  pub pub_start_time : ℕ

-- QcloudIotSubInfo, with the address of its list node.
pub record SubInfo : Type 0 where
  pub node : ℕ
  pub buf : List ℕ
  pub kind : PacketType
  pub packet_id : ℕ
  pub sub_start_time : ℕ
  pub handler : SubTopicHandle

-- QcloudIotClient. `h_fp` is whether the event callback is set, `step` counts the calls to the
-- environment, and `trace` is what the client did, the earliest first.
pub record Client : Type 0 where
  pub next_packet_id : ℕ
  pub command_timeout_ms : ℕ
  pub write_buf_size : ℕ
  pub read_buf : List ℕ
  pub read_buf_size : ℕ
  pub h_fp : Bool
  pub auto_connect_enable : Bool
  pub default_subscribe : Bool
  pub list_pub_wait_ack : List PubInfo
  pub list_sub_wait_ack : List SubInfo
  pub options : ConnectOption
  pub sub_handles : List SubTopicHandle
  pub ping_timer : ℕ
  pub reconnect_delay_timer : ℕ
  pub was_manually_disconnected : Bool
  pub is_ping_outstanding : ℕ
  pub current_reconnect_wait_interval : ℕ
  pub is_connected : Bool
  pub counter_network_disconnected : ℕ
  pub repeat_buf : RepeatBuf
  pub step : ℕ
  pub trace : List Effect

-- The environment: whether `char` is signed, and the answer of each call that the client makes to it, by
-- the number of the call. A read is given a length and a timeout, and answers with a code and bytes.
pub record Env : Type 0 where
  pub char_kind : CharKind
  pub read : ℕ → ℕ → ℕ → ℤ × List ℕ
  pub malloc : ℕ → Bool
  pub write : ℕ → ℤ
  pub connect : ℕ → ℤ
  pub now : ℕ → ℕ
  pub random : ℕ → ℕ

-- IotReturnCode
abbrev pub ret_success : ℤ
ret_success = pos 0

abbrev pub ret_mqtt_reconnected : ℤ
ret_mqtt_reconnected = pos 1

abbrev pub ret_mqtt_manually_disconnected : ℤ
ret_mqtt_manually_disconnected = pos 2

abbrev pub ret_mqtt_already_connected : ℤ
ret_mqtt_already_connected = pos 4

abbrev pub err_failure : ℤ
err_failure = negsuc 1000

abbrev pub err_malloc : ℤ
err_malloc = negsuc 1003

abbrev pub err_mqtt_no_conn : ℤ
err_mqtt_no_conn = negsuc 102

abbrev pub err_mqtt_attempting_reconnect : ℤ
err_mqtt_attempting_reconnect = negsuc 104

abbrev pub err_mqtt_reconnect_timeout : ℤ
err_mqtt_reconnect_timeout = negsuc 105

abbrev pub err_mqtt_sub : ℤ
err_mqtt_sub = negsuc 107

abbrev pub err_mqtt_request_timeout : ℤ
err_mqtt_request_timeout = negsuc 110

abbrev pub err_mqtt_nothing_to_read : ℤ
err_mqtt_nothing_to_read = negsuc 108

abbrev pub err_mqtt_packet_read : ℤ
err_mqtt_packet_read = negsuc 109

abbrev pub err_rx_message_inval : ℤ
err_rx_message_inval = negsuc 117

abbrev pub err_max_topic_length : ℤ
err_max_topic_length = negsuc 137

abbrev pub err_mqtt_qos_not_support : ℤ
err_mqtt_qos_not_support = negsuc 119

abbrev pub err_tcp_read_timeout : ℤ
err_tcp_read_timeout = negsuc 603

abbrev pub err_tcp_read_fail : ℤ
err_tcp_read_fail = negsuc 605

abbrev pub err_tcp_peer_shutdown : ℤ
err_tcp_peer_shutdown = negsuc 607

abbrev pub err_tcp_nothing_to_read : ℤ
err_tcp_nothing_to_read = negsuc 608

abbrev pub err_ssl_read_timeout : ℤ
err_ssl_read_timeout = negsuc 706

abbrev pub err_ssl_read : ℤ
err_ssl_read = negsuc 707

abbrev pub err_ssl_nothing_to_read : ℤ
err_ssl_nothing_to_read = negsuc 708

abbrev pub err_buf_too_short : ℤ
err_buf_too_short = negsuc 118

abbrev pub err_mqtt_unsub_fail : ℤ
err_mqtt_unsub_fail = negsuc 120

abbrev pub err_tcp_write_timeout : ℤ
err_tcp_write_timeout = negsuc 604

-- MQTTPacketErrCode as an int.
abbrev pub packet_rc : PacketError → ℤ
packet_rc invalid_packet_type = negsuc 0
packet_rc short_buffer = negsuc 1
packet_rc version_unsupported = negsuc 2
packet_rc sub_count_exceed = negsuc 3

-- `packet_len == MQTT_ERR_SHORT_BUFFER ? QCLOUD_ERR_BUF_TOO_SHORT : QCLOUD_ERR_FAILURE`
abbrev pub serialize_rc : PacketError → ℤ
serialize_rc short_buffer = err_buf_too_short
serialize_rc _ = err_failure

-- `rc == a || rc == b || ...`
unfoldable pub one_of : ℤ → List ℤ → Bool
one_of rc [] = false
one_of rc (e ∷ es) = rc ==ℤ e || one_of rc es

-- `if (rc)`
abbrev pub failed : ℤ → Bool
failed rc = not (is_zero rc)

-- The state monad over the client.
abbrev pub M : Type 0 → Type 0
M A = Client → A × Client

infixl 5 ◌>>=◌ ◌>>◌
abbrev pub ◌>>=◌ : {A B : Type 0} → M A → (A → M B) → M B
◌>>=◌ m f c = let (a, c') = m c in f a c'

abbrev pub ◌>>◌ : {B : Type 0} → M (Unit {0}) → M B → M B
◌>>◌ m k c = let (u, c') = m c in k c'

abbrev pub pure : {A : Type 0} → A → M A
pure a c = (a, c)

-- A new entry of the trace.
abbrev pub emit : Effect → M (Unit {0})
emit e c = (tt, record c { trace = c.trace ++ (e ∷ []) })

abbrev pub modify : (Client → Client) → M (Unit {0})
modify f c = (tt, f c)

-- `if (client->event_handle.h_fp) client->event_handle.h_fp(...)`
abbrev pub notify : EventType → ℕ → M (Unit {0})
notify e packet_id c = if c.h_fp then emit (client_event e packet_id) c else (tt, c)
