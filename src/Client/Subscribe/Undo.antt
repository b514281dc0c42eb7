-- ===== src/Client/Subscribe/Undo.antt =====
-- A SUBSCRIBE that fails is undone.
use iot_hub_device_c_sdk.Prelude.{ℕ, ◌≡◌, List, arith}
use iot_hub_device_c_sdk.Packet.Defs.{PacketType}
use iot_hub_device_c_sdk.Client.State.{Client, Env, SubTopicHandle}
use iot_hub_device_c_sdk.Client.Common.{send_mqtt_packet}
use iot_hub_device_c_sdk.Client.WaitList.{push_sub_info_to_list}

module _ (env : Env) where
  pub send-handles :
      (packet : List ℕ) (c : Client) → (send_mqtt_packet env packet c).1.sub_handles ≡ c.sub_handles
  unfolding send_mqtt_packet
  send-handles packet c = ground arith

  pub push-handles :
      (packet : List ℕ) (i : ℕ) (kind : PacketType) (h : SubTopicHandle) (c : Client)
      → (push_sub_info_to_list env packet i kind h c).1.sub_handles ≡ c.sub_handles
  unfolding push_sub_info_to_list
  push-handles packet i kind h c = ground arith
